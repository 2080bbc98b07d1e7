-- ===== src/Game/Tree/Seats.antt =====
-- Looking for a seat round the table, in engine.rs and tree.rs.
use vibe_poker.Base.{
  ℕ, zero, suc, ◌+◌, ◌-◌, ◌%◌, ◌≤◌, ◌<◌, ◌≡◌, refl, sym, ◌∙◌, ap, Bool, true, false, List, [], ◌∷◌,
  none, some, arith, get_elem?, set, length, count_if, position_from, Bool-cases, inl, inr, ltb,
}
use native.Mathlib.Nat.{mod-eq_of_lt, add-mod_right}
use vibe_poker.Game.State.{PlayerState, GameState}
use vibe_poker.Game.Hand.{seat_passes, first_after}
use vibe_poker.Game.Tree.{must_act, next_to_act}

module _ {ℓ} {A : Type ℓ} where
  -- Someone passes the test, and is found.
  pub position_from-found :
      (i : ℕ) (p : A → Bool) (xs : List A)
      → 0 < count_if p xs
      → (k : ℕ) × (x : A) × (position_from i p xs ≡ some (i + k))
        × (get_elem? xs k ≡ some x)
        × (p x ≡ true)
  position_from-found i p [] h = absurd (omega arith)
  position_from-found i p (x ∷ xs) h = elim (Bool-cases (p x)) [
    | inl e ↦ (0, x, rw e (ap some (omega arith)), refl, e)
    | inr e ↦
        (let (k, y, f, g, t) = position_from-found (i + 1) p xs (ground arith) in
          (suc k, y, rw e (f ∙ ap some (omega arith)), g, t))
  ]

  -- One write lowers the count by one at most.
  pub count_if-set :
      (p : A → Bool) (xs : List A) (i : ℕ) (y : A) → count_if p xs ≤ count_if p (set xs i y) + 1
  count_if-set p [] i y = omega arith
  count_if-set p (x ∷ xs) zero y = ground arith
  count_if-set p (x ∷ xs) (suc i) y = omega (arith, count_if-set p xs i y)

seat_passes-found :
    (test : PlayerState → Bool) (ps : List PlayerState) (seat : ℕ)
    → seat_passes test ps seat ≡ true
    → (p : PlayerState) × (get_elem? ps seat ≡ some p) × (test p ≡ true)
seat_passes-found test [] seat h = absurd (ground arith)
seat_passes-found test (p ∷ ps) zero h = (p, refl, h)
seat_passes-found test (p ∷ ps) (suc seat) h = seat_passes-found test ps seat h

pub first_after-found :
    (test : PlayerState → Bool) (ps : List PlayerState) (from rounds i seat : ℕ)
    → first_after test ps from rounds i ≡ some seat
    → (p : PlayerState) × (get_elem? ps seat ≡ some p) × (test p ≡ true)
unfolding first_after
first_after-found test ps from zero i seat h = absurd (ground arith)
first_after-found test ps from (suc rounds) i seat h =
    let at = (from + i) % length ps in
    elim (Bool-cases (seat_passes test ps at)) [
      | inl e ↦ seat_passes-found test ps seat (ground arith)
      | inr e ↦ first_after-found test ps from rounds (i + 1) seat (ground arith)
    ]

pub next_to_act-found :
    (s : GameState) (hr : List Bool) (from rounds step seat : ℕ)
    → next_to_act s hr from rounds step ≡ some seat
    → must_act s hr seat ≡ true
unfolding next_to_act
next_to_act-found s hr from zero step seat h = absurd (ground arith)
next_to_act-found s hr from (suc rounds) step seat h =
    elim (Bool-cases (must_act s hr ((from + step) % length s.players))) [
      | inl e ↦ ground arith
      | inr e ↦ next_to_act-found s hr from rounds (step + 1) seat (ground arith)
    ]

next_to_act-none :
    (s : GameState) (hr : List Bool) (from rounds step k seat : ℕ)
    → next_to_act s hr from rounds step ≡ none
    → k < rounds
    → (from + (step + k)) % length s.players ≡ seat
    → must_act s hr seat ≡ false
unfolding next_to_act
next_to_act-none s hr from zero step k seat h lt at = absurd (omega arith)
next_to_act-none s hr from (suc rounds) step k seat h lt at =
    elim (Bool-cases (must_act s hr ((from + step) % length s.players))) [
      | inl e ↦ absurd (ground arith)
      | inr e ↦
          elim k
              as (λ k.
                k < suc rounds
                → (from + (step + k)) % length s.players ≡ seat
                → must_act s hr seat ≡ false) [
                  | zero ↦ λ lt at.
                      ap (must_act s hr) (sym at ∙ ap (λ x. x % length s.players) (omega arith)) ∙ e
                  | suc k ↦ λ lt at.
                      next_to_act-none s hr from rounds (step + 1) k seat (ground arith)
                        (omega arith) (ap (λ x. x % length s.players) (omega arith) ∙ at)
                ]
            lt at
    ]

-- A round that finds nobody has asked everyone.
pub next_to_act-all :
    (s : GameState) (hr : List Bool) (from seat : ℕ)
    → from < length s.players
    → seat < length s.players
    → next_to_act s hr from (length s.players) 1 ≡ none
    → must_act s hr seat ≡ false
next_to_act-all s hr from seat f lt h =
    let n = length s.players in
    elim (Bool-cases (ltb from seat)) [
      | inl e ↦
          (let ahead : from + (1 + (seat - from - 1)) ≡ seat = ground arith in
            next_to_act-none s hr from n 1 (seat - from - 1) seat h (omega arith)
              (ap (λ x. x % n) ahead ∙ mod-eq_of_lt lt))
      | inr e ↦
          (let around : from + (1 + (seat + n - from - 1)) ≡ seat + n = ground arith in
            next_to_act-none s hr from n 1 (seat + n - from - 1) seat h (ground arith)
              (ap (λ x. x % n) around ∙ add-mod_right seat n ∙ mod-eq_of_lt lt))
    ]
