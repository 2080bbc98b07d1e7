-- ===== src/Server/Round/Payout.antt =====
-- crates/poker-server/src/table.rs, `apply_hand_result`: the chips of the seats after a hand.
use mathlib.Core.Path.{subst}
use vibe_poker.Base.{
  ℕ, zero, suc, ◌^◌, ◌<◌, ◌||◌, List, [], ◌∷◌, Option, none, some, get_elem?, get_elem?-update_self,
  get_elem?-update_ne, get_elem?-map, update, sub32, ◌==◌, if◌then◌else◌, ◌≡◌, ◌∙◌, refl, sym, ap,
  arith, ◌≢◌,
}
use vibe_poker.Game.Event.{SeatOutcome, HandResult}
use vibe_poker.Server.Table.{Seat, Table}
use vibe_poker.Server.Round.{settled_stack, paid, pay_outcomes, stays, settle_table}

-- The engine's change of a stack brings it from what it was to what it is after the hand.
settled_stack_lem :
    (stack final : ℕ)
    → stack < 2 ^ 31
    → final < 2 ^ 31
    → settled_stack stack (sub32 final stack) ≡ final
unfolding settled_stack sub32
settled_stack_lem stack final h k = ground arith

-- The seats of the outcomes are different, and none is the seat `i`.
abbrev pub IsApartFrom : ℕ → List SeatOutcome → Type 0
IsApartFrom i [] = Unit
IsApartFrom i (o ∷ os) = (o.seat ≢ i) × IsApartFrom i os

abbrev pub IsOnePerSeat : List SeatOutcome → Type 0
IsOnePerSeat [] = Unit
IsOnePerSeat (o ∷ os) = IsApartFrom o.seat os × IsOnePerSeat os

pay_outcomes-apart :
    (os : List SeatOutcome) (i : ℕ) (seats : List (Option Seat))
    → IsApartFrom i os
    → get_elem? (pay_outcomes os seats) i ≡ get_elem? seats i
unfolding pay_outcomes
pay_outcomes-apart [] i seats h = refl
pay_outcomes-apart (o ∷ os) i seats h =
    pay_outcomes-apart os i (update (paid o.chip_delta) seats o.seat) h.1
    ∙ get_elem?-update_ne (paid o.chip_delta) seats o.seat i h.0

apart-get :
    (os : List SeatOutcome) (n : ℕ) (o : SeatOutcome) (i : ℕ)
    → IsApartFrom i os
    → get_elem? os n ≡ some o
    → i ≢ o.seat
apart-get [] n o i h g = absurd (ground arith)
apart-get (x ∷ os) zero o i h g =
    let same : x ≡ o = ground arith in λ e. h.0 (ap (λ (y : SeatOutcome). y.seat) same ∙ sym e)
apart-get (x ∷ os) (suc n) o i h g = apart-get os n o i h.1 g

pay_outcomes-seat :
    (os : List SeatOutcome) (n : ℕ) (o : SeatOutcome) (seats : List (Option Seat)) (s : Seat)
    → IsOnePerSeat os
    → get_elem? os n ≡ some o
    → get_elem? seats o.seat ≡ some (some s)
    → get_elem? (pay_outcomes os seats) o.seat ≡ some (paid o.chip_delta (some s))
unfolding pay_outcomes
pay_outcomes-seat [] n o seats s h g k = absurd (ground arith)
pay_outcomes-seat (x ∷ os) zero o seats s h g k =
    let same : x ≡ o = ground arith in
    let there = ap (λ (y : SeatOutcome). y.seat) same in
    let apart = subst (λ i. IsApartFrom i os) there h.0 in
    pay_outcomes-apart os o.seat (update (paid x.chip_delta) seats x.seat) apart
    ∙ ap (λ (y : SeatOutcome). get_elem? (update (paid y.chip_delta) seats y.seat) o.seat) same
    ∙ get_elem?-update_self (paid o.chip_delta) seats o.seat k
pay_outcomes-seat (x ∷ os) (suc n) o seats s h g k =
    pay_outcomes-seat os n o (update (paid x.chip_delta) seats x.seat) s h.1 g (
      get_elem?-update_ne (paid x.chip_delta) seats x.seat o.seat (apart-get os n o x.seat h.0 g)
      ∙ k)

-- After a hand, whatever its other outcomes: a seat whose outcome is the difference, as an `i32`,
-- of a final stack and the seat's stack, holds the final stack; if that is 0, or the player was
-- leaving, then the seat is vacant. It is assumed that the hand has one outcome for a seat and that
-- the stacks are below 2 ^ 31.
pub settle_table_seat :
    (r : HandResult) (t : Table) (n final : ℕ) (o : SeatOutcome) (s : Seat)
    → IsOnePerSeat r.seats
    → get_elem? r.seats n ≡ some o
    → get_elem? t.seats o.seat ≡ some (some s)
    → o.chip_delta ≡ sub32 final s.stack
    → s.stack < 2 ^ 31
    → final < 2 ^ 31
    → get_elem? (settle_table r t).seats o.seat
      ≡ some (if s.leave_pending || final == 0 then none else some (record s { stack = final }))
unfolding settle_table
settle_table_seat r t n final o s h g k d lt mt =
    get_elem?-map stays (pay_outcomes r.seats t.seats) o.seat
      (pay_outcomes-seat r.seats n o t.seats s h g k)
    ∙ rw (d, settled_stack_lem s.stack final lt mt) refl
