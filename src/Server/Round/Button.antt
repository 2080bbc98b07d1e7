-- ===== src/Server/Round/Button.antt =====
-- crates/poker-server/src/table.rs, `next_occupied_seat`: where the button goes after a hand.
use vibe_poker.Base.{
  ℕ, zero, suc, ◌+◌, ◌%◌, ◌<◌, ◌≤◌, Bool, true, false, List, Option, none, some, get_elem?, length,
  Bool-cases, inl, inr, ◌≡◌, ◌∙◌, sym, ap, arith,
}
use vibe_poker.Game.Event.{HandResult}
use vibe_poker.Server.Store.{is_some}
use vibe_poker.Server.Table.{Seat, Table}
use vibe_poker.Server.Round.{occupied_from, next_occupied_seat, settle_table, unwrap_or}

-- Somebody sits at the place `i`.
abbrev pub is_taken : List (Option Seat) → ℕ → Bool
is_taken seats i = elim (get_elem? seats i) [ none ↦ false | some s ↦ is_some s ]

module _ (seats : List (Option Seat)) (from : ℕ) where
  abbrev place : ℕ → ℕ
  place offset = (from + offset) % length seats

  shift : (i k : ℕ) → place ((i + 1) + k) ≡ place (i + suc k)
  shift i k = ap place (omega arith)

  -- The loop finds a seat that is taken, in its first rounds up to the `j`th.
  abbrev IsFound : (rounds offset j : ℕ) → Type 0
  IsFound rounds offset j =
      (d : ℕ) × (d ≤ j)
      × (occupied_from seats from rounds offset ≡ some (place (offset + d)))
      × (is_taken seats (place (offset + d)) ≡ true)

  at_once-IsFound :
      (rounds offset j : ℕ) → is_taken seats (place offset) ≡ true → IsFound (suc rounds) offset j
  unfolding occupied_from
  at_once-IsFound rounds offset j e =
      let start : place offset ≡ place (offset + 0) = ap place (omega arith) in
      (0, omega arith, rw (e) (ap (λ i. some i) start), ap (is_taken seats) (sym start) ∙ e)

  occupied_from-nearest :
      (rounds offset j : ℕ)
      → j < rounds
      → is_taken seats (place (offset + j)) ≡ true
      → IsFound rounds offset j
  unfolding occupied_from
  occupied_from-nearest zero offset j lt h = absurd (omega arith)
  occupied_from-nearest (suc rounds) offset zero lt h =
      at_once-IsFound rounds offset zero (ap (is_taken seats) (ap place (omega arith)) ∙ h)
  occupied_from-nearest (suc rounds) offset (suc j) lt h =
      elim (Bool-cases (is_taken seats (place offset))) [
        | inl e ↦ at_once-IsFound rounds offset (suc j) e
        | inr e ↦
            (let (d, le, at, here) =
                occupied_from-nearest rounds (offset + 1) j (omega arith)
                  (ap (is_taken seats) (shift offset j) ∙ h) in
              (
                suc d,
                omega arith,
                rw (e) (at ∙ ap (λ i. some i) (shift offset d)),
                ap (is_taken seats) (sym (shift offset d)) ∙ here,
              ))
      ]

-- After a hand the button goes to the nearest seat that is still taken: if somebody sits `1 + j`
-- places on from it, going round, then it moves on by a place or more, and by no more than `1 + j`,
-- to a seat where somebody sits. It is assumed that `j` is below the number of seats.
pub settle_table_button :
    (r : HandResult) (t : Table) (j : ℕ)
    → j < length (settle_table r t).seats
    → is_taken (settle_table r t).seats ((t.button + (1 + j)) % length (settle_table r t).seats)
      ≡ true
    → (d : ℕ) × (d ≤ j)
      × ((settle_table r t).button ≡ (t.button + (1 + d)) % length (settle_table r t).seats)
      × (is_taken (settle_table r t).seats (settle_table r t).button ≡ true)
unfolding settle_table next_occupied_seat
settle_table_button r t j lt h =
    let seats = (settle_table r t).seats in
    let (d, le, at, here) = occupied_from-nearest seats t.button (length seats) 1 j lt h in
    let moved = ap (λ (o : Option ℕ). unwrap_or o t.button) at in
    (d, le, moved, ap (is_taken seats) moved ∙ here)
