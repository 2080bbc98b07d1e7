-- ===== src/Game/Showdown/Eligible.antt =====
-- Who may win the pots of pot_calc.rs: each pot has a seat, and each of its seats is held by a player
-- who has chips in the pot and has not folded.
use vibe_poker.Base.{
  ℕ, suc, ◌+◌, ◌-◌, ◌≤◌, ◌<◌, ◌≡◌, refl, inl, inr, Bool, true, false, List, [], ◌∷◌, ◌++◌, some,
  get_elem?, arith, All, ◌==◌, Bool-cases,
}
use vibe_poker.Game.State.{PlayerState, is_folded}
use vibe_poker.Game.Pots.{
  ShowdownPot, may_win, seats_from, eligible, pot_slice, merge_into_last, add_slice, pots_from,
  build_showdown_pots, levels,
}
use vibe_poker.Game.Pots.Levels.{Ascending, levels-Ascending}
use vibe_poker.Game.Pots.Conservation.{IsNonempty}

-- The seat of a player who put chips in and has not folded.
pub record CanWin (ps : List PlayerState) (seat : ℕ) : Type 0 where
  pub player : PlayerState
  pub entry : get_elem? ps seat ≡ some player
  pub live : is_folded player.status ≡ false
  pub staked : 0 < player.total_committed

abbrev pub IsGoodPot : List PlayerState → ShowdownPot → Type 0
IsGoodPot ps (amount, seats) = IsNonempty seats × All (CanWin ps) seats

record At (test : PlayerState → Bool) (ps : List PlayerState) (i seat : ℕ) : Type 0 where
  player : PlayerState
  from : i ≤ seat
  entry : get_elem? ps (seat - i) ≡ some player
  passed : test player ≡ true

At-later :
    (test : PlayerState → Bool) (q : PlayerState) (ps : List PlayerState) (i : ℕ) (seats : List ℕ)
    → All (At test ps (i + 1)) seats
    → All (At test (q ∷ ps) i) seats
At-later test q ps i [] a = tt
At-later test q ps i (seat ∷ seats) a =
    let h = a.0 in
    let e : seat - i ≡ suc (seat - (i + 1)) = omega (arith, h.from) in
    (
      record {
        player = h.player;
        from = omega (arith, h.from);
        entry = rw e h.entry;
        passed = h.passed;
      },
      At-later test q ps i seats a.1,
    )

seats_from-At :
    (i : ℕ) (test : PlayerState → Bool) (ps : List PlayerState)
    → All (At test ps i) (seats_from i test ps)
unfolding seats_from
seats_from-At i test [] = tt
seats_from-At i test (p ∷ ps) =
    let rest = At-later test p ps i _ (seats_from-At (i + 1) test ps) in
    let here : i - i ≡ 0 = omega arith in
    elim (Bool-cases (test p)) [
      | inl e ↦
          rw e (record { player = p; from = omega arith; entry = rw here refl; passed = e }, rest)
      | inr e ↦ rw e rest
    ]

At-CanWin :
    (level : ℕ) (ps : List PlayerState) (seats : List ℕ)
    → 0 < level
    → All (At (may_win level) ps 0) seats
    → All (CanWin ps) seats
At-CanWin level ps [] h a = tt
At-CanWin level ps (seat ∷ seats) h a =
    let c = a.0 in
    let e : seat - 0 ≡ seat = omega arith in
    (
      record {
        player = c.player;
        entry = rw e at c.entry;
        live = ground (arith, c.passed);
        staked = ground (arith, c.passed);
      },
      At-CanWin level ps seats h a.1,
    )

merge_into_last-IsGoodPot :
    (ps : List PlayerState) (slice : ℕ) (result : List ShowdownPot)
    → All (IsGoodPot ps) result
    → All (IsGoodPot ps) (merge_into_last slice result)
unfolding merge_into_last
merge_into_last-IsGoodPot ps slice [] a = tt
merge_into_last-IsGoodPot ps slice ((b, s) ∷ []) a = a
merge_into_last-IsGoodPot ps slice (p ∷ q ∷ pots) a =
    (a.0, merge_into_last-IsGoodPot ps slice (q ∷ pots) a.1)

append-IsGoodPot :
    (ps : List PlayerState) (xs ys : List ShowdownPot)
    → All (IsGoodPot ps) xs
    → All (IsGoodPot ps) ys
    → All (IsGoodPot ps) (xs ++ ys)
append-IsGoodPot ps [] ys a b = b
append-IsGoodPot ps (x ∷ xs) ys a b = (a.0, append-IsGoodPot ps xs ys a.1 b)

add_slice-IsGoodPot :
    (ps : List PlayerState) (slice : ℕ) (seats : List ℕ) (result : List ShowdownPot)
    → All (CanWin ps) seats
    → All (IsGoodPot ps) result
    → All (IsGoodPot ps) (add_slice slice seats result)
unfolding add_slice
add_slice-IsGoodPot ps slice [] result c a = elim (Bool-cases (slice == 0)) [
  | inl e ↦ rw e a
  | inr e ↦ rw e (merge_into_last-IsGoodPot ps slice result a)
]
add_slice-IsGoodPot ps slice (s ∷ seats) result c a = elim (Bool-cases (slice == 0)) [
  | inl e ↦ rw e a
  | inr e ↦ rw e (append-IsGoodPot ps result ((slice, s ∷ seats) ∷ []) a ((tt, c), tt))
]

pots_from-IsGoodPot :
    (ps : List PlayerState) (prev : ℕ) (ls : List ℕ) (result : List ShowdownPot)
    → Ascending prev ls
    → All (IsGoodPot ps) result
    → All (IsGoodPot ps) (pots_from ps prev ls result)
unfolding pots_from
pots_from-IsGoodPot ps prev [] result a g = g
pots_from-IsGoodPot ps prev (level ∷ ls) result a g = pots_from-IsGoodPot ps level ls _ a.1 (
    add_slice-IsGoodPot ps (pot_slice prev level ps) (eligible level ps) result
      (unfold eligible in At-CanWin level ps _ (omega arith) (seats_from-At 0 (may_win level) ps))
      g)

-- Every pot has someone to win it, and all who may win it have chips in and have not folded.
pub build_showdown_pots-IsGoodPot :
    (ps : List PlayerState) → All (IsGoodPot ps) (build_showdown_pots ps)
unfolding build_showdown_pots
build_showdown_pots-IsGoodPot ps = pots_from-IsGoodPot ps 0 (levels ps) [] (levels-Ascending ps) tt
