-- ===== src/Server/Round.antt =====
-- crates/poker-server/src/table.rs: the game loop of a table, around the hand that the engine plays.
pub mod Button
pub mod Payout
use Prim.Native.String.{String}
use Prim.Native.Nat.{bit_xor}
use vibe_poker.Base.{
  map, ◌-◌, u32_mod, ℕ, zero, suc, ◌+◌, ◌*◌, ◌/◌, ◌%◌, ◌^◌, Bool, true, false, not, ◌&&◌, ◌||◌,
  List, [], ◌∷◌, ◌++◌, Option, none, some, get_elem?, set, update, length, replicate, count_if,
  position_from, mul32, ltb, leb, ◌==◌, if◌then◌else◌,
}
use vibe_poker.Net.Protocol.{ServerMessage, SeatInfo, TableInfo}
use vibe_poker.Server.Store.{
  Store, Connection, PendingAction, SeatLink, current, is_some, new_link, on_connection, on_link,
  pending_of, send_current, try_send, take_pending, is_id,
}
use vibe_poker.Server.Table.{
  TableConfig, Seat, Table, table_state, seat_infos, seat_infos_from, seated_count, links_of,
  send_each, holds, vacate,
}
use vibe_poker.Game.Event.{HandResult, SeatOutcome}

-- The loop of `next_occupied_seat`; `rounds` are left.
unfoldable pub occupied_from : List (Option Seat) → ℕ → (rounds offset : ℕ) → Option ℕ
occupied_from seats from zero offset = none
occupied_from seats from (suc rounds) offset =
    let i = (from + offset) % length seats in
    let rest = occupied_from seats from rounds (offset + 1) in
    if elim (get_elem? seats i) [ none ↦ false | some s ↦ is_some s ] then some i else rest

unfoldable pub next_occupied_seat : List (Option Seat) → ℕ → Option ℕ
unfolding occupied_from
next_occupied_seat seats from = occupied_from seats from (length seats) 1

abbrev pub u64_mod : ℕ
u64_mod = 2 ^ 64

-- `derive_seed`
unfoldable pub derive_seed : ℕ → ℕ → ℕ
derive_seed table_id hand_id =
    let x =
      bit_xor (table_id * 0x9E3779B97F4A7C15 % u64_mod) (hand_id * 0xBF58476D1CE4E5B9 % u64_mod) in
    let y = bit_xor x (x / 2 ^ 27) in y * 0x94D049BB133111EB % u64_mod

-- `wait_for_quorum`, each time that it is woken: with enough players the hand is claimed.
unfoldable pub claim_hand : Table → Option Table
claim_hand t =
    if not t.hand_in_progress && leb t.config.min_seats (seated_count t.seats)
    then some (record t { hand_in_progress = true })
    else none

pub record SnapshotPlayer : Type 0 where
  pub table_seat : ℕ
  pub stack : ℕ
  pub link : ℕ

pub record RunningSnapshot : Type 0 where
  pub hand_id : ℕ
  pub players : List SnapshotPlayer
  pub dealer : ℕ

-- The loop of `take_running_snapshot`, from the seat `i` on: those who can post the big blind play.
unfoldable pub playing_from : (big_blind i : ℕ) → List (Option Seat) → List SnapshotPlayer
playing_from big_blind i [] = []
playing_from big_blind i (none ∷ seats) = playing_from big_blind (i + 1) seats
playing_from big_blind i (some s ∷ seats) =
    let rest = playing_from big_blind (i + 1) seats in
    if ltb s.stack big_blind
    then rest
    else record { table_seat = i; stack = s.stack; link = s.link } ∷ rest

abbrev pub unwrap_or {ℓ} : {A : Type ℓ} → Option A → A → A
unwrap_or none d = d
unwrap_or (some a) d = a

-- `take_running_snapshot`; hand ids are 64-bit.
unfoldable pub take_running_snapshot : Table → Table × RunningSnapshot
unfolding playing_from
take_running_snapshot t =
    let players = playing_from t.config.big_blind 0 t.seats in
    (
      record t { next_hand_id = (t.next_hand_id + 1) % u64_mod },
      record {
        hand_id = t.next_hand_id;
        players = players;
        dealer =
            unwrap_or (position_from 0 (λ (p : SnapshotPlayer). leb t.button p.table_seat) players)
              0;
      },
    )

-- The quorum was lost between the wake-up and the snapshot.
unfoldable pub is_short : Table → RunningSnapshot → Bool
is_short t r = ltb (length r.players) t.config.min_seats

unfoldable pub abandon : Table → Table
abandon t = record t { hand_in_progress = false }

-- `r_with_table_seats`, for one seat's outcome.
abbrev pub at_table : List ℕ → SeatOutcome → SeatOutcome
at_table table_seats o = elim (get_elem? table_seats o.seat) [
  | none ↦ o
  | some seat ↦ record o { seat = seat }
]

unfoldable pub with_table_seats : List ℕ → HandResult → HandResult
with_table_seats table_seats r = record r { seats = map (at_table table_seats) r.seats }

-- `(stack as i64 + delta as i64).max(0) as u32`, where `delta` is the bit pattern of an `i32`.
unfoldable pub settled_stack : (stack delta : ℕ) → ℕ
settled_stack stack delta =
    if ltb delta (2 ^ 31) then (stack + delta) % u32_mod else stack + delta - u32_mod

abbrev pub paid : ℕ → Option Seat → Option Seat
paid delta none = none
paid delta (some s) = some (record s { stack = settled_stack s.stack delta })

-- The loop of `apply_hand_result` over the outcomes.
unfoldable pub pay_outcomes : List SeatOutcome → List (Option Seat) → List (Option Seat)
unfolding settled_stack
pay_outcomes [] seats = seats
pay_outcomes (o ∷ outcomes) seats = pay_outcomes outcomes (update (paid o.chip_delta) seats o.seat)

-- Who leaves, or has no chips left, is gone.
abbrev pub stays : Option Seat → Option Seat
stays none = none
stays (some s) = if s.leave_pending || s.stack == 0 then none else some s

-- The table after a hand.
unfoldable pub settle_table : HandResult → Table → Table
unfolding pay_outcomes next_occupied_seat
settle_table r t =
    let seats = map stays (pay_outcomes r.seats t.seats) in
    record t {
      seats = seats;
      button = unwrap_or (next_occupied_seat seats t.button) t.button;
      hand_in_progress = false;
    }

-- `apply_hand_result`
unfoldable pub apply_hand_result : HandResult → Table → Store → Table × Store
unfolding settle_table send_each
apply_hand_result r t w =
    let settled = settle_table r t in
    (settled, send_each (links_of (λ s. true) settled.seats) (table_state settled) w)

pub record HandSeatRecord : Type 0 where
  pub seat : ℕ
  pub player_id : Option ℕ
  pub chip_delta : ℕ
  pub sat_out : Bool

-- The rows of `persist_hand`, from the engine's seat `i` on.
unfoldable pub hand_seats_from : List ℕ → ℕ → List SeatOutcome → List HandSeatRecord
hand_seats_from player_ids i [] = []
hand_seats_from player_ids i (o ∷ outcomes) =
    record {
      seat = o.seat;
      player_id = get_elem? player_ids i;
      chip_delta = o.chip_delta;
      sat_out = o.sat_out;
    }
    ∷ hand_seats_from player_ids (i + 1) outcomes
