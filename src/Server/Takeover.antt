-- ===== src/Server/Takeover.antt =====
-- crates/poker-server/src/table.rs: a new connection takes over its player's seat, with the prompt
-- that waits there.
pub mod Prompts
use Prim.Native.String.{String}
use Prim.Native.Nat.{bit_xor}
use vibe_poker.Base.{
  ℕ, zero, suc, ◌+◌, ◌*◌, ◌/◌, ◌%◌, ◌^◌, Bool, true, false, not, ◌&&◌, ◌||◌, List, [], ◌∷◌, ◌++◌,
  Option, none, some, get_elem?, set, update, length, replicate, count_if, position_from, mul32,
  ltb, leb, ◌==◌, if◌then◌else◌,
}
use vibe_poker.Net.Protocol.{ServerMessage, SeatInfo, TableInfo}
use vibe_poker.Server.Store.{
  Store, Connection, PendingAction, SeatLink, current, is_some, new_link, on_connection, on_link,
  pending_of, send_current, try_send, take_pending, is_id,
}
use vibe_poker.Server.Table.{
  TableConfig, Seat, Table, table_state, seat_infos, seat_infos_from, seated_count, links_of,
  send_each, holds, vacate,
}

-- The place and the link of the player's seat.
unfoldable pub seat_link_from : ℕ → ℕ → List (Option Seat) → Option (ℕ × ℕ)
seat_link_from i player_id [] = none
seat_link_from i player_id (none ∷ seats) = seat_link_from (i + 1) player_id seats
seat_link_from i player_id (some s ∷ seats) =
    if s.player_id == player_id then some (i, s.link) else seat_link_from (i + 1) player_id seats

-- `Table::seat_link_for`
unfoldable pub seat_link_for : ℕ → Table → Option (ℕ × ℕ)
unfolding seat_link_from
seat_link_for player_id t = seat_link_from 0 player_id t.seats

abbrev pub reprompt : ℕ → PendingAction → ServerMessage
reprompt deadline p = ServerMessage.prompt p.table_id p.hand_id p.seat p.legal (deadline % 2 ^ 32)

-- The prompt that waited on the old connection moves to the new one, and is sent again there.
unfoldable pub migrate : ℕ → Option PendingAction → ℕ → Store → Store
migrate deadline none conn w = w
migrate deadline (some p) conn w =
    try_send conn (reprompt deadline p) (on_connection conn (λ c. record c { pending = some p }) w)

abbrev pub pending_at : Option ℕ → Store → Option PendingAction
pending_at none w = none
pending_at (some conn) w = pending_of (get_elem? w.connections conn)

abbrev pub take_at : Option ℕ → Store → Store
take_at none w = w
take_at (some conn) w = on_connection conn take_pending w

-- The seat `i` on the link `link` is taken over by the connection `conn`.
unfoldable pub take_over : ℕ → (i link : ℕ) → Table → Store → Store
unfolding migrate
take_over conn i link t w =
    let w1 = try_send conn (ServerMessage.joined_table t.id i (seat_infos t)) w in
    let old = current w1 link in
    migrate t.config.action_deadline (pending_at old w1) conn
      (on_link link (λ l. record l { inner = conn }) (take_at old w1))

unfoldable pub reconnect_at : Option (ℕ × ℕ) → ℕ → Table → Store → Option ℕ × Store
unfolding take_over
reconnect_at none conn t w = (none, w)
reconnect_at (some (i, link)) conn t w = (some i, take_over conn i link t w)

-- `Table::reconnect_player` of the connection `conn`, whose player is `player_id`.
unfoldable pub reconnect_player : ℕ → ℕ → Table → Store → Option ℕ × Store
unfolding reconnect_at seat_link_for
reconnect_player conn player_id t w = reconnect_at (seat_link_for player_id t) conn t w
