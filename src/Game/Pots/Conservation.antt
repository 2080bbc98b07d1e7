-- ===== src/Game/Pots/Conservation.antt =====
-- `build_showdown_pots` neither loses nor makes chips.
use vibe_poker.Base.{
  le→leb, ℕ, zero, suc, ◌+◌, ◌≤◌, ◌<◌, ◌≡◌, refl, ◌∙◌, ◌⊎◌, inl, inr, List, [], ◌∷◌, ◌++◌, arith,
  All, true, false, some, Bool, Bool-cases, Bool-cases, sum_of, sum_of-append, u32_mod, add32_fits,
  get_elem?, All-get, ==_iff, ◌==◌,
}
use vibe_poker.Game.State.{PlayerState, is_folded}
use vibe_poker.Game.Pots.{
  ShowdownPot, may_win, seats_from, eligible, pot_slice, merge_into_last, add_slice, pots_from,
  build_showdown_pots, levels,
}
use vibe_poker.Game.Pots.Levels.{Ascending, Covered, levels-Ascending, levels-Covered}
use vibe_poker.Game.Pots.Slices.{above, Clear, pot_slice_lem, above-lt}

abbrev pub amounts : List ShowdownPot → ℕ
amounts = sum_of (λ (pot : ShowdownPot). pot.0)

abbrev pub IsNonempty {ℓ} : {A : Type ℓ} → List A → Type 0
IsNonempty [] = ⊥
IsNonempty (x ∷ xs) = Unit {0}

amounts-merge_into_last :
    (slice : ℕ) (result : List ShowdownPot)
    → IsNonempty result
    → amounts result + slice < u32_mod
    → amounts (merge_into_last slice result) ≡ amounts result + slice
unfolding merge_into_last
amounts-merge_into_last slice [] h b = elim h [ ]
amounts-merge_into_last slice ((a, s) ∷ []) h b = omega (arith, add32_fits a slice (omega arith))
amounts-merge_into_last slice ((a, s) ∷ q ∷ pots) h b =
    omega (arith, amounts-merge_into_last slice (q ∷ pots) tt (omega arith))

merge_into_last-IsNonempty :
    (slice : ℕ) (result : List ShowdownPot)
    → IsNonempty result
    → IsNonempty (merge_into_last slice result)
unfolding merge_into_last
merge_into_last-IsNonempty slice [] h = h
merge_into_last-IsNonempty slice ((a, s) ∷ []) h = tt
merge_into_last-IsNonempty slice (p ∷ q ∷ pots) h = tt

append-IsNonempty : (xs ys : List ShowdownPot) → IsNonempty ys → IsNonempty (xs ++ ys)
append-IsNonempty [] ys h = h
append-IsNonempty (x ∷ xs) ys h = tt

append-IsNonempty_left : (xs ys : List ShowdownPot) → IsNonempty xs → IsNonempty (xs ++ ys)
append-IsNonempty_left [] ys h = elim h [ ]
append-IsNonempty_left (x ∷ xs) ys h = tt

-- One round adds its slice to the pots, and leaves a pot, if there is one for it to go to.
add_slice_lem :
    (slice : ℕ) (seats : List ℕ) (result : List ShowdownPot)
    → IsNonempty result ⊎ (IsNonempty seats × (0 < slice))
    → amounts result + slice < u32_mod
    → (amounts (add_slice slice seats result) ≡ amounts result + slice)
      × IsNonempty (add_slice slice seats result)
unfolding add_slice
add_slice_lem slice [] result (inr h) b = elim h.0 [ ]
add_slice_lem slice [] result (inl h) b = elim (Bool-cases (slice == 0)) [
  | inl e ↦ rw e (omega (arith, (==_iff slice 0).0 e), h)
  | inr e ↦
      rw e (amounts-merge_into_last slice result h b, merge_into_last-IsNonempty slice result h)
]
add_slice_lem slice (s ∷ seats) result h b = elim (Bool-cases (slice == 0)) [
  | inl e ↦
      rw e
        (omega (arith, (==_iff slice 0).0 e), elim h [ inl n ↦ n | inr m ↦ absurd (ground arith) ])
  | inr e ↦ rw e (
    omega (arith, sum_of-append (λ (pot : ShowdownPot). pot.0) result ((slice, s ∷ seats) ∷ [])),
    append-IsNonempty result ((slice, s ∷ seats) ∷ []) tt,
  )
]

Covered-below : (level : ℕ) (ls : List ℕ) (c : ℕ) → c ≤ level → Covered level ls c
Covered-below level [] c h = h
Covered-below level (l ∷ ls) c h = inl h

Covered-Clear :
    (prev level : ℕ) (ls : List ℕ) (ps : List PlayerState)
    → All (λ (p : PlayerState). Covered prev (level ∷ ls) p.total_committed) ps
    → Clear prev level ps
Covered-Clear prev level ls [] a = tt
Covered-Clear prev level ls (p ∷ ps) a =
    (elim a.0 [ inl h ↦ inl h | inr h ↦ inr h.0 ], Covered-Clear prev level ls ps a.1)

Covered-next :
    (prev level : ℕ) (ls : List ℕ) (ps : List PlayerState)
    → prev < level
    → All (λ (p : PlayerState). Covered prev (level ∷ ls) p.total_committed) ps
    → All (λ (p : PlayerState). Covered level ls p.total_committed) ps
Covered-next prev level ls [] h a = tt
Covered-next prev level ls (p ∷ ps) h a = (here, Covered-next prev level ls ps h a.1)
  where
    here : Covered level ls p.total_committed
    here = elim a.0 [ inl k ↦ Covered-below level ls p.total_committed (omega arith) | inr k ↦ k.1 ]

above-top :
    (prev : ℕ) (ps : List PlayerState)
    → All (λ (p : PlayerState). Covered prev [] p.total_committed) ps
    → above prev ps ≡ 0
above-top prev [] a = refl
above-top prev (p ∷ ps) a = omega (arith, above-top prev ps a.1)

amounts-pots_from :
    (ps : List PlayerState) (prev : ℕ) (ls : List ℕ) (result : List ShowdownPot)
    → Ascending prev ls
    → All (λ (p : PlayerState). Covered prev ls p.total_committed) ps
    → above 0 ps < u32_mod
    → amounts result + above prev ps < u32_mod
    → IsNonempty result
    → amounts (pots_from ps prev ls result) ≡ amounts result + above prev ps
unfolding pots_from
amounts-pots_from ps prev [] result a c b bound h = omega (arith, above-top prev ps c)
amounts-pots_from ps prev (level ∷ ls) result a c b bound h =
    let slice = pot_slice_lem prev level ps a.0 (Covered-Clear prev level ls ps c) b in
    let step =
      add_slice_lem (pot_slice prev level ps) (eligible level ps) result (inl h)
        (omega (arith, slice)) in
    omega (
      arith,
      slice,
      step.0,
      amounts-pots_from ps level ls (add_slice (pot_slice prev level ps) (eligible level ps) result)
          a.1 (Covered-next prev level ls ps a.0 c) b (omega (arith, slice, step.0)) step.1,
    )

may_win_lem :
    (level : ℕ) (p : PlayerState)
    → level ≤ p.total_committed
    → is_folded p.status ≡ false
    → may_win level p ≡ true
may_win_lem level p r l = rw (le→leb level p.total_committed r, l)

seats_from-IsNonempty :
    (i : ℕ) (test : PlayerState → Bool) (ps : List PlayerState) (k : ℕ) (p : PlayerState)
    → get_elem? ps k ≡ some p
    → test p ≡ true
    → IsNonempty (seats_from i test ps)
unfolding seats_from
seats_from-IsNonempty i test [] k p g h = absurd (ground arith)
seats_from-IsNonempty i test (q ∷ ps) zero p g h = let e : test q ≡ true = ground arith in rw e tt
seats_from-IsNonempty i test (q ∷ ps) (suc k) p g h = elim (Bool-cases (test q)) [
  | inl e ↦ rw e tt
  | inr e ↦ rw e (seats_from-IsNonempty (i + 1) test ps k p g h)
]

-- What all players together staked in the hand.
abbrev pub committed : List PlayerState → ℕ
committed = sum_of (λ (p : PlayerState). p.total_committed)

above-committed : (ps : List PlayerState) → above 0 ps ≡ committed ps
above-committed [] = refl
above-committed (p ∷ ps) = omega (arith, above-committed ps)

-- From the first level on: the slices from the bottom make up all the stakes.
amounts-pots_from_bottom :
    (ps : List PlayerState) (k : ℕ) (p : PlayerState)
    → get_elem? ps k ≡ some p
    → is_folded p.status ≡ false
    → 0 < p.total_committed
    → above 0 ps < u32_mod
    → (ls : List ℕ) → Ascending 0 ls
    → All (λ (q : PlayerState). Covered 0 ls q.total_committed) ps
    → amounts (pots_from ps 0 ls []) ≡ above 0 ps
unfolding pots_from
amounts-pots_from_bottom ps k p g live stake b [] a c =
    absurd (omega (arith, All-get (λ (q : PlayerState). Covered 0 [] q.total_committed) ps k p c g))
amounts-pots_from_bottom ps k p g live stake b (level ∷ ls) a c =
    let slice = pot_slice_lem 0 level ps a.0 (Covered-Clear 0 level ls ps c) b in
    let first =
      add_slice_lem (pot_slice 0 level ps) (eligible level ps) []
        (inr (
          seats_from-IsNonempty 0 (may_win level) ps k p g (may_win_lem level p reached live),
          omega (arith, slice, above-lt 0 level k ps p a.0 g reached),
        ))
        (omega (arith, slice)) in
    omega (
      arith,
      slice,
      first.0,
      amounts-pots_from ps level ls (add_slice (pot_slice 0 level ps) (eligible level ps) []) a.1
          (Covered-next 0 level ls ps a.0 c) b (omega (arith, slice, first.0)) first.1,
    )
  where
    reached : level ≤ p.total_committed
    reached =
        elim (All-get (λ (q : PlayerState). Covered 0 (level ∷ ls) q.total_committed) ps k p c g) [
          | inl h ↦ absurd (omega arith)
          | inr h ↦ h.0
        ]

-- The chips of a showdown's pots are the chips that the players staked, whenever these fit a `u32`
-- and some player who has not folded staked any.
pub amounts-build_showdown_pots :
    (ps : List PlayerState) (k : ℕ) (p : PlayerState)
    → get_elem? ps k ≡ some p
    → is_folded p.status ≡ false
    → 0 < p.total_committed
    → committed ps < u32_mod
    → amounts (build_showdown_pots ps) ≡ committed ps
unfolding build_showdown_pots
amounts-build_showdown_pots ps k p g live stake bound =
    amounts-pots_from_bottom ps k p g live stake (rw above-committed bound) (levels ps)
      (levels-Ascending ps) (levels-Covered ps)
    ∙ above-committed ps
