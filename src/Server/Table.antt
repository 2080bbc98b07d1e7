-- ===== src/Server/Table.antt =====
-- crates/poker-server/src/table.rs: a table's seats, and who sits down and leaves.
pub mod Seating
pub mod Owners
use Prim.Native.String.{String}
use Prim.Native.Nat.{bit_xor}
use vibe_poker.Base.{
  ℕ, zero, suc, ◌+◌, ◌*◌, ◌/◌, ◌%◌, ◌^◌, Bool, true, false, not, ◌&&◌, ◌||◌, List, [], ◌∷◌, ◌++◌,
  Option, none, some, get_elem?, set, update, length, replicate, count_if, position_from, mul32,
  ltb, leb, ◌==◌, if◌then◌else◌,
}
use vibe_poker.Net.Protocol.{ServerMessage, SeatInfo, TableInfo}
use vibe_poker.Server.Store.{
  Store, Connection, PendingAction, SeatLink, current, is_some, new_link, on_connection, on_link,
  pending_of, send_current, try_send, take_pending, is_id,
}

-- Durations are in milliseconds.
pub record TableConfig : Type 0 where
  pub name : String
  pub max_seats : ℕ
  pub min_seats : ℕ
  pub small_blind : ℕ
  pub big_blind : ℕ
  pub default_buy_in : ℕ
  pub action_deadline : ℕ
  pub between_hands : ℕ

pub record Seat : Type 0 where
  pub player_id : ℕ
  pub username : String
  pub stack : ℕ
  pub link : ℕ
  pub leave_pending : Bool

pub record Table : Type 0 where
  pub id : ℕ
  pub config : TableConfig
  pub seats : List (Option Seat)
  pub button : ℕ
  pub next_hand_id : ℕ
  pub hand_in_progress : Bool

-- `Table::new`
abbrev pub new_table : ℕ → TableConfig → Table
new_table id config = record {
  id = id;
  config = config;
  seats = replicate config.max_seats none;
  button = 0;
  next_hand_id = 1;
  hand_in_progress = false;
}

abbrev pub seated_count : List (Option Seat) → ℕ
seated_count = count_if is_some

-- `Table::info`; the count is cast to a byte.
unfoldable pub info : Table → TableInfo
info t = record {
  table_id = t.id;
  name = t.config.name;
  small_blind = t.config.small_blind;
  big_blind = t.config.big_blind;
  max_seats = t.config.max_seats;
  seated = seated_count t.seats % 256;
  default_buy_in = t.config.default_buy_in;
}

abbrev pub seat_info : ℕ → Seat → SeatInfo
seat_info i s = record { seat = i; player_id = s.player_id; username = s.username; stack = s.stack }

-- The loop of `seat_infos_locked`, from the seat `i` on.
abbrev pub seat_infos_from : ℕ → List (Option Seat) → List SeatInfo
seat_infos_from i [] = []
seat_infos_from i (none ∷ seats) = seat_infos_from (i + 1) seats
seat_infos_from i (some s ∷ seats) = seat_info i s ∷ seat_infos_from (i + 1) seats

abbrev pub seat_infos : Table → List SeatInfo
seat_infos t = seat_infos_from 0 t.seats

-- Does the player hold this seat?
abbrev pub holds : ℕ → Option Seat → Bool
holds player_id none = false
holds player_id (some s) = s.player_id == player_id

abbrev pub any {ℓ} : {A : Type ℓ} → (A → Bool) → List A → Bool
any p [] = false
any p (x ∷ xs) = p x || any p xs

abbrev pub is_vacant : Option Seat → Bool
is_vacant s = not (is_some s)

pub data SitError : Type 0 where
  buy_in_below : (least : ℕ) → SitError
  already_seated table_full : SitError

pub data SitResult : Type 0 where
  sat : (seat : ℕ) → Table → Store → SitResult
  refused : SitError → SitResult

-- The seat of a player who sits down through the link `link`.
abbrev pub taken : Connection → ℕ → ℕ → Seat
taken c buy_in link = record {
  player_id = c.player_id;
  username = c.username;
  stack = buy_in;
  link = link;
  leave_pending = false;
}

-- The seat is taken on a link made for it.
unfoldable pub sit_at : Option ℕ → ℕ → Connection → ℕ → Table → Store → SitResult
sit_at none conn c buy_in t w = refused table_full
sit_at (some i) conn c buy_in t w =
    sat i (record t { seats = set t.seats i (some (taken c buy_in (length w.links))) })
      (record w { links = w.links ++ (new_link conn ∷ []) })

-- `Table::sit` of the connection `conn`, whose content is `c`.
unfoldable pub sit : ℕ → Connection → ℕ → Table → Store → SitResult
unfolding sit_at
sit conn c buy_in t w =
    if ltb buy_in (mul32 t.config.big_blind 10)
    then refused (buy_in_below (mul32 t.config.big_blind 10))
    else if any (holds c.player_id) t.seats
    then refused already_seated
    else sit_at (position_from 0 is_vacant t.seats) conn c buy_in t w

abbrev pub mark_leaving : Option Seat → Option Seat
mark_leaving none = none
mark_leaving (some s) = some (record s { leave_pending = true })

-- The seat is vacated, between hands, or marked, in one.
abbrev pub vacate : Bool → Option Seat → Option Seat
vacate true s = mark_leaving s
vacate false s = none

unfoldable pub leave_at : Option ℕ → Table → Option Table
leave_at none t = none
leave_at (some i) t = some (record t { seats = update (vacate t.hand_in_progress) t.seats i })

-- `Table::leave`; `none` is the error "not seated at this table".
unfoldable pub leave : ℕ → Table → Option Table
unfolding leave_at
leave player_id t = leave_at (position_from 0 (holds player_id) t.seats) t

-- The session that drives a link.
abbrev pub session_of : Store → ℕ → Option ℕ
session_of w link = elim (current w link) [
  | none ↦ none
  | some conn ↦ elim (get_elem? w.connections conn) [ none ↦ none | some c ↦ some c.session_id ]
]

-- `Some(sid)` that is not the seat's session: a newer session owns the seat.
abbrev pub is_superseded : Store → Option ℕ → Seat → Bool
is_superseded w none s = false
is_superseded w (some sid) s = not (is_id (session_of w s.link) sid)

-- The loop of `Table::force_leave`: it ends at the player's first seat.
unfoldable pub force_from :
    Store → ℕ → Option ℕ → Bool → List (Option Seat) → List (Option Seat) × Bool
force_from w player_id session in_hand [] = ([], false)
force_from w player_id session in_hand (none ∷ seats) =
    let (rest, changed) = force_from w player_id session in_hand seats in (none ∷ rest, changed)
force_from w player_id session in_hand (some s ∷ seats) =
    let (rest, changed) = force_from w player_id session in_hand seats in
    if s.player_id == player_id
    then (if is_superseded w session s
        then (some s ∷ seats, false)
        else (vacate in_hand (some s) ∷ seats, true))
    else (some s ∷ rest, changed)

-- The links of the seats that pass, in the order of the seats.
abbrev pub links_of : (Seat → Bool) → List (Option Seat) → List ℕ
links_of p [] = []
links_of p (none ∷ seats) = links_of p seats
links_of p (some s ∷ seats) = if p s then s.link ∷ links_of p seats else links_of p seats

abbrev pub table_state : Table → ServerMessage
table_state t = ServerMessage.table_state t.id (seat_infos t) t.button

unfoldable pub send_each : List ℕ → ServerMessage → Store → Store
unfolding send_current
send_each [] msg w = w
send_each (link ∷ links) msg w = send_each links msg (send_current link msg w)

-- `except.map_or(true, |id| s.player_id != id)`
abbrev pub is_other : Option ℕ → Seat → Bool
is_other none s = true
is_other (some id) s = not (s.player_id == id)

-- `Table::broadcast_table_state`
unfoldable pub broadcast_table_state : Option ℕ → Table → Store → Store
unfolding send_each
broadcast_table_state except t w = send_each (links_of (is_other except) t.seats) (table_state t) w

-- `Table::force_leave`
unfoldable pub force_leave : ℕ → Option ℕ → Table → Store → Table × Store
unfolding force_from broadcast_table_state
force_leave player_id session t w =
    let (seats, changed) = force_from w player_id session t.hand_in_progress t.seats in
    let left = record t { seats = seats } in
    (left, if changed then broadcast_table_state none left w else w)
