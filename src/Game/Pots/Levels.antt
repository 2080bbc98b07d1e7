-- ===== src/Game/Pots/Levels.antt =====
-- The commitment levels of pot_calc.rs: sorted, without repetition, and one for each stake.
use vibe_poker.Base.{
  ℕ, ◌≤◌, ◌<◌, ◌≡◌, refl, ◌∙◌, ◌⊎◌, inl, inr, List, [], ◌∷◌, arith, All, leb, ltb, ◌==◌, Bool-cases,
  ==_iff,
}
use vibe_poker.Game.State.{PlayerState}
use vibe_poker.Game.Pots.{insert_level, sort, dedup_from, dedup, commitments, levels}

-- Strictly ascending from above `lo`.
abbrev pub Ascending : ℕ → List ℕ → Type 0
Ascending lo [] = Unit {0}
Ascending lo (x ∷ xs) = (lo < x) × Ascending x xs

-- Ascending with repetitions.
abbrev Sorted : ℕ → List ℕ → Type 0
Sorted lo [] = Unit {0}
Sorted lo (x ∷ xs) = (lo ≤ x) × Sorted x xs

abbrev Elem : ℕ → List ℕ → Type 0
Elem c [] = ⊥
Elem c (x ∷ xs) = (c ≡ x) ⊎ Elem c xs

-- Going up the levels from `prev`, no level is strictly between two stakes: `c` is met exactly.
abbrev pub Covered : ℕ → List ℕ → ℕ → Type 0
Covered prev [] c = c ≤ prev
Covered prev (l ∷ ls) c = (c ≤ prev) ⊎ ((l ≤ c) × Covered l ls c)

insert_level-Sorted :
    (lo x : ℕ) (xs : List ℕ) → lo ≤ x → Sorted lo xs → Sorted lo (insert_level x xs)
unfolding insert_level
insert_level-Sorted lo x [] h s = (h, tt)
insert_level-Sorted lo x (y ∷ ys) h s = elim (Bool-cases (leb x y)) [
  | inl e ↦ rw e (h, (ground arith, s.1))
  | inr e ↦ rw e (s.0, insert_level-Sorted y x ys (ground arith) s.1)
]

sort-Sorted : (lo : ℕ) (xs : List ℕ) → All (λ x. lo ≤ x) xs → Sorted lo (sort xs)
unfolding sort
sort-Sorted lo [] a = tt
sort-Sorted lo (x ∷ xs) a = insert_level-Sorted lo x (sort xs) a.0 (sort-Sorted lo xs a.1)

insert_level-head : (x : ℕ) (xs : List ℕ) → Elem x (insert_level x xs)
unfolding insert_level
insert_level-head x [] = inl refl
insert_level-head x (y ∷ ys) = elim (Bool-cases (leb x y)) [
  | inl e ↦ rw e (inl refl)
  | inr e ↦ rw e (inr (insert_level-head x ys))
]

insert_level-tail : (c x : ℕ) (xs : List ℕ) → Elem c xs → Elem c (insert_level x xs)
unfolding insert_level
insert_level-tail c x [] h = elim h [ ]
insert_level-tail c x (y ∷ ys) h = elim (Bool-cases (leb x y)) [
  | inl e ↦ rw e (inr h)
  | inr e ↦ rw e (elim h [ inl p ↦ inl p | inr q ↦ inr (insert_level-tail c x ys q) ])
]

sort-Elem : (c : ℕ) (xs : List ℕ) → Elem c xs → Elem c (sort xs)
unfolding sort
sort-Elem c [] h = h
sort-Elem c (x ∷ xs) (inl e) = rw e (insert_level-head x (sort xs))
sort-Elem c (x ∷ xs) (inr h) = insert_level-tail c x (sort xs) (sort-Elem c xs h)

dedup_from-Ascending : (lo : ℕ) (xs : List ℕ) → Sorted lo xs → Ascending lo (dedup_from lo xs)
unfolding dedup_from
dedup_from-Ascending lo [] s = tt
dedup_from-Ascending lo (x ∷ xs) s = elim (Bool-cases (x == lo)) [
  | inl e ↦ rw e (dedup_from-Ascending lo xs (rw ((==_iff x lo).0 e) at s.1))
  | inr e ↦ rw e (ground arith, dedup_from-Ascending x xs s.1)
]

dedup_from-Elem : (c lo : ℕ) (xs : List ℕ) → Elem c xs → (c ≡ lo) ⊎ Elem c (dedup_from lo xs)
unfolding dedup_from
dedup_from-Elem c lo [] h = elim h [ ]
dedup_from-Elem c lo (x ∷ xs) h = elim (Bool-cases (x == lo)) [
  | inl e ↦
      rw e (elim h [ inl p ↦ inl (p ∙ (==_iff x lo).0 e) | inr q ↦ dedup_from-Elem c lo xs q ])
  | inr e ↦ rw e (elim h [ inl p ↦ inr (inl p) | inr q ↦ inr (dedup_from-Elem c x xs q) ])
]

dedup-Ascending : (xs : List ℕ) → Sorted 1 xs → Ascending 0 (dedup xs)
unfolding dedup
dedup-Ascending [] s = tt
dedup-Ascending (x ∷ xs) s = (s.0, dedup_from-Ascending x xs s.1)

dedup-Elem : (c : ℕ) (xs : List ℕ) → Elem c xs → Elem c (dedup xs)
unfolding dedup
dedup-Elem c [] h = h
dedup-Elem c (x ∷ xs) (inl e) = inl e
dedup-Elem c (x ∷ xs) (inr h) = dedup_from-Elem c x xs h

commitments_pos : (ps : List PlayerState) → All (λ x. 1 ≤ x) (commitments ps)
unfolding commitments
commitments_pos [] = tt
commitments_pos (p ∷ ps) = ground (arith, commitments_pos ps)

commitments-Elem : (c : ℕ) (ps : List PlayerState) → Elem c (commitments ps) → Elem c (levels ps)
unfolding levels
commitments-Elem c ps h = dedup-Elem c (sort (commitments ps)) (sort-Elem c (commitments ps) h)

pub levels-Ascending : (ps : List PlayerState) → Ascending 0 (levels ps)
unfolding levels
levels-Ascending ps =
    dedup-Ascending (sort (commitments ps)) (sort-Sorted 1 (commitments ps) (commitments_pos ps))

Elem-above : (lo c : ℕ) (ls : List ℕ) → Ascending lo ls → Elem c ls → lo < c
Elem-above lo c [] a h = elim h [ ]
Elem-above lo c (l ∷ ls) a (inl e) = ground arith
Elem-above lo c (l ∷ ls) a (inr h) = omega (arith, Elem-above l c ls a.1 h)

Elem-Covered :
    (prev c : ℕ) (ls : List ℕ) → Ascending prev ls → (c ≤ prev) ⊎ Elem c ls → Covered prev ls c
Elem-Covered prev c [] a (inl h) = h
Elem-Covered prev c [] a (inr h) = elim h [ ]
Elem-Covered prev c (l ∷ ls) a (inl h) = inl h
Elem-Covered prev c (l ∷ ls) a (inr (inl e)) =
    inr (omega arith, Elem-Covered l c ls a.1 (inl (omega arith)))
Elem-Covered prev c (l ∷ ls) a (inr (inr h)) =
    inr (omega (arith, Elem-above l c ls a.1 h), Elem-Covered l c ls a.1 (inr h))

commitments-head :
    (p : PlayerState) (ps : List PlayerState)
    → (p.total_committed ≤ 0) ⊎ Elem p.total_committed (commitments (p ∷ ps))
unfolding commitments
commitments-head p ps = elim (Bool-cases (ltb 0 p.total_committed)) [
  | inl e ↦ inr (rw e (inl refl))
  | inr e ↦ inl (ground arith)
]

commitments-tail :
    (c : ℕ) (p : PlayerState) (ps : List PlayerState)
    → Elem c (commitments ps)
    → Elem c (commitments (p ∷ ps))
unfolding commitments
commitments-tail c p ps h = elim (Bool-cases (ltb 0 p.total_committed)) [
  | inl e ↦ rw e (inr h)
  | inr e ↦ rw e h
]

All-Covered :
    (ls : List ℕ) (ps : List PlayerState)
    → Ascending 0 ls
    → ((c : ℕ) → Elem c (commitments ps) → Elem c ls)
    → All (λ (p : PlayerState). Covered 0 ls p.total_committed) ps
All-Covered ls [] a f = tt
All-Covered ls (p ∷ ps) a f = (
  Elem-Covered 0 p.total_committed ls a
      (elim (commitments-head p ps) [ inl h ↦ inl h | inr h ↦ inr (f p.total_committed h) ]),
  All-Covered ls ps a (λ c h. f c (commitments-tail c p ps h)),
)

-- Every stake is met by the levels.
pub levels-Covered :
    (ps : List PlayerState) → All (λ (p : PlayerState). Covered 0 (levels ps) p.total_committed) ps
levels-Covered ps =
    All-Covered (levels ps) ps (levels-Ascending ps) (λ c h. commitments-Elem c ps h)
