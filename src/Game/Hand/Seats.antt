-- ===== src/Game/Hand/Seats.antt =====
-- engine.rs: the next seat round the table that may act.
use native.Mathlib.Nat.{mod-eq_of_lt, add-mod_right}
use vibe_poker.Base.{
  ℕ, zero, suc, refl, ◌≢◌, ◌≤◌, [], ◌∷◌, count_if, ◌+◌, ◌-◌, ◌%◌, ◌<◌, ◌≡◌, sym, ◌∙◌, ap, Bool,
  true, false, List, none, some, arith, get_elem?, get_elem?-lt, length, Bool-cases, Option-cases,
  inl, inr, ltb,
}
use vibe_poker.Game.State.{PlayerState, is_active}
use vibe_poker.Game.Hand.{seat_passes, first_after, next_active_after}

-- `seat` is `steps` places round the table from `from`, passes, and no seat on the way does.
pub record IsNext (test : PlayerState → Bool) (ps : List PlayerState) (from seat : ℕ) : Type 0 where
  pub steps : ℕ
  pub around : steps < length ps
  pub at : (from + (1 + steps)) % length ps ≡ seat
  pub passes : seat_passes test ps seat ≡ true
  pub skipped : (k : ℕ) → k < steps → seat_passes test ps ((from + (1 + k)) % length ps) ≡ false

module _ (test : PlayerState → Bool) (ps : List PlayerState) (from : ℕ) where
  shift : (i k : ℕ) → (from + ((i + 1) + k)) % length ps ≡ (from + (i + suc k)) % length ps
  shift i k = ap (λ x. x % length ps) (omega arith)

  start : (i : ℕ) → (from + (i + 0)) % length ps ≡ (from + i) % length ps
  start i = ap (λ x. x % length ps) (omega arith)

  first_after-some :
      (rounds i seat : ℕ)
      → first_after test ps from rounds i ≡ some seat
      → (j : ℕ) × (j < rounds)
        × ((from + (i + j)) % length ps ≡ seat)
        × (seat_passes test ps seat ≡ true)
        × ((k : ℕ) → k < j → seat_passes test ps ((from + (i + k)) % length ps) ≡ false)
  unfolding first_after
  first_after-some zero i seat h = absurd (ground arith)
  first_after-some (suc rounds) i seat h =
      elim (Bool-cases (seat_passes test ps ((from + i) % length ps))) [
        | inl e ↦
            (let here : (from + i) % length ps ≡ seat = ground arith in
              (
                0,
                omega arith,
                start i ∙ here,
                ap (seat_passes test ps) (sym here) ∙ e,
                λ k lt. absurd (omega arith),
              ))
        | inr e ↦
            (let (j, lt, at, t, skipped) = first_after-some rounds (i + 1) seat (ground arith) in
              (
                suc j,
                omega arith,
                sym (shift i j) ∙ at,
                t,
                λ k.
                    elim k
                      as (λ k.
                        k < suc j → seat_passes test ps ((from + (i + k)) % length ps) ≡ false) [
                          | zero ↦ λ _. ap (seat_passes test ps) (start i) ∙ e
                          | suc k ↦ λ before.
                              ap (seat_passes test ps) (sym (shift i k)) ∙ skipped k (omega arith)
                        ],
              ))
      ]

  first_after-none :
      (rounds i k : ℕ)
      → first_after test ps from rounds i ≡ none
      → k < rounds
      → seat_passes test ps ((from + (i + k)) % length ps) ≡ false
  unfolding first_after
  first_after-none zero i k h lt = absurd (omega arith)
  first_after-none (suc rounds) i k h lt =
      elim (Bool-cases (seat_passes test ps ((from + i) % length ps))) [
        | inl e ↦ absurd (ground arith)
        | inr e ↦
            elim k
                as (λ k.
                  k < suc rounds → seat_passes test ps ((from + (i + k)) % length ps) ≡ false) [
                    | zero ↦ λ _. ap (seat_passes test ps) (start i) ∙ e
                    | suc k ↦ λ before.
                        ap (seat_passes test ps) (sym (shift i k))
                        ∙ first_after-none rounds (i + 1) k (ground arith) (omega arith)
                  ]
              lt
      ]

  -- Every seat is some number of places round the table.
  reached :
      (seat : ℕ)
      → from < length ps
      → seat < length ps
      → (k : ℕ) × (k < length ps) × ((from + (1 + k)) % length ps ≡ seat)
  reached seat f lt =
      let n = length ps in
      elim (Bool-cases (ltb from seat)) [
        | inl e ↦
            (let ahead : from + (1 + (seat - from - 1)) ≡ seat = ground arith in
              (seat - from - 1, omega arith, ap (λ x. x % n) ahead ∙ mod-eq_of_lt lt))
        | inr e ↦
            (let around : from + (1 + (seat + n - from - 1)) ≡ seat + n = ground arith in
              (
                seat + n - from - 1,
                ground arith,
                ap (λ x. x % n) around ∙ add-mod_right seat n ∙ mod-eq_of_lt lt,
              ))
      ]

-- If some player passes, then the nearest seat that does, going round the table, is found.
pub first_after-IsNext :
    (test : PlayerState → Bool) (ps : List PlayerState) (from k : ℕ) (p : PlayerState)
    → from < length ps
    → get_elem? ps k ≡ some p
    → test p ≡ true
    → (seat : ℕ) × (first_after test ps from (length ps) 1 ≡ some seat) × IsNext test ps from seat
first_after-IsNext test ps from k p f g on =
    elim (Option-cases (first_after test ps from (length ps) 1)) [
      | inl h ↦
          (let (j, lt, at) = reached test ps from k f (get_elem?-lt ps k g) in
            let missed : seat_passes test ps k ≡ false =
              ap (seat_passes test ps) (sym at)
              ∙ first_after-none test ps from (length ps) 1 j h lt in
            absurd (ground arith))
      | inr (seat, h) ↦
          (let (j, lt, at, t, skipped) = first_after-some test ps from (length ps) 1 seat h in
            (seat, h, record { steps = j; around = lt; at = at; passes = t; skipped = skipped }))
    ]

full_round : (a s n : ℕ) → a < n → s < n → (a + (1 + s)) % n ≡ a → s + 1 ≡ n
full_round a s n h k e = elim (Bool-cases (ltb (a + (1 + s)) n)) [
  | inl q ↦
      (let short : (a + (1 + s)) % n ≡ a + (1 + s) = mod-eq_of_lt (ground arith) in
        absurd (omega (arith, short, e)))
  | inr q ↦
      (let over : a + (1 + s) ≡ (a + 1 + s - n) + n = ground arith in
        let rest : (a + (1 + s)) % n ≡ a + 1 + s - n =
          ap (λ x. x % n) over ∙ add-mod_right (a + 1 + s - n) n ∙ mod-eq_of_lt (ground arith) in
        ground (arith, rest, e))
]

-- The next seat is another one, if another one passes.
pub IsNext-other :
    (test : PlayerState → Bool) (ps : List PlayerState) (from seat k : ℕ) (p : PlayerState)
    → from < length ps
    → IsNext test ps from seat
    → get_elem? ps k ≡ some p
    → test p ≡ true
    → k ≢ from
    → seat ≢ from
IsNext-other test ps from seat k p f next g on other same =
    let (j, lt, at) = reached test ps from k f (get_elem?-lt ps k g) in
    let whole = full_round from next.steps (length ps) f next.around (next.at ∙ same) in
    elim (Bool-cases (ltb j next.steps)) [
      | inl q ↦
          (let missed : seat_passes test ps k ≡ false =
              ap (seat_passes test ps) (sym at) ∙ next.skipped j (ground arith) in
            absurd (ground arith))
      | inr q ↦
          (let last : j ≡ next.steps = ground (arith, whole, lt) in
            other (sym at ∙ ap (λ x. (from + (1 + x)) % length ps) last ∙ next.at ∙ same))
    ]

pub present :
    (test : PlayerState → Bool) (ps : List PlayerState)
    → 1 ≤ count_if test ps
    → (k : ℕ) × (p : PlayerState) × (get_elem? ps k ≡ some p) × (test p ≡ true)
present test [] h = absurd (omega arith)
present test (p ∷ ps) h = elim (Bool-cases (test p)) [
  | inl e ↦ (0, p, refl, e)
  | inr e ↦ (let (k, q, g, on) = present test ps (ground arith) in (suc k, q, g, on))
]

-- Of two players or more that pass, one sits elsewhere.
pub another :
    (test : PlayerState → Bool) (ps : List PlayerState) (seat : ℕ)
    → 2 ≤ count_if test ps
    → (k : ℕ) × (p : PlayerState) × (get_elem? ps k ≡ some p) × (test p ≡ true) × (k ≢ seat)
another test [] seat h = absurd (omega arith)
another test (p ∷ ps) zero h =
    let (k, q, g, on) = present test ps (ground arith) in
    (suc k, q, g, on, λ e. absurd (omega (arith, e)))
another test (p ∷ ps) (suc seat) h = elim (Bool-cases (test p)) [
  | inl e ↦ (0, p, refl, e, λ q. absurd (omega (arith, q)))
  | inr e ↦
      (let (k, q, g, on, apart) = another test ps seat (ground arith) in
        (suc k, q, g, on, λ q. apart (omega (arith, q))))
]

-- If some player may act, then `next_active_after` finds the nearest such seat after the one it is
-- given, going round the table, that seat itself last: no seat on the way may act.
pub next_active_after-IsNext :
    (ps : List PlayerState) (from k : ℕ) (p : PlayerState)
    → from < length ps
    → get_elem? ps k ≡ some p
    → is_active p.status ≡ true
    → (seat : ℕ) × (next_active_after from ps ≡ some seat)
      × IsNext (λ (q : PlayerState). is_active q.status) ps from seat
unfolding next_active_after
next_active_after-IsNext ps from k p f g on =
    first_after-IsNext (λ (q : PlayerState). is_active q.status) ps from k p f g on
