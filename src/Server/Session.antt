-- ===== src/Server/Session.antt =====
-- crates/poker-server/src/session.rs: what a session does with the messages of its client, after the
-- handshake, and what is done when it ends.
use Prim.Native.String.{String}
use vibe_poker.Base.{ℕ, Bool, true, false, List, [], ◌∷◌, ◌++◌, Option, none, some, if◌then◌else◌}
use vibe_poker.Net.Protocol.{ClientMessage, ServerMessage, ServerMessages}
use vibe_poker.Server.Store.{
  Store, Connection, on_connection, try_send, deliver_action, cancel_pending, replay_snapshot,
}
use vibe_poker.Server.Table.{
  Table, SitError, buy_in_below, already_seated, table_full, sat, refused, sit, leave, force_leave,
  seat_infos, broadcast_table_state,
}
use vibe_poker.Server.Takeover.{seat_link_for}
use vibe_poker.Server.Manager.{
  World, get, current_table, put_table, record_join, record_leave, list_infos,
}

-- A session ends, or its next message is read.
pub data Flow : Type 0 where
  continue end out_of_order : Flow

abbrev pub with_store : (Store → Store) → World → World
with_store f s = record s { store = f s.store }

-- `conn.try_send(ServerMessage::ActionRejected { .. })`
abbrev pub reject : ℕ → String → World → World
reject conn reason = with_store (try_send conn (ServerMessage.action_rejected reason))

-- `conn.out_tx.send(msg).await`, which waits for room in the queue.
abbrev pub send_waiting : ℕ → ServerMessage → World → World
send_waiting conn msg = with_store (
    on_connection conn (λ c. if c.writing then record c { outbox = c.outbox ++ (msg ∷ []) } else c))

abbrev pub to_messages : List ServerMessage → ServerMessages
to_messages [] = ServerMessages.end
to_messages (m ∷ ms) = ServerMessages.next m (to_messages ms)

-- The link of the player's seat, if the player is seated.
abbrev pub link_at : ℕ → World → Option Table → Option ℕ
link_at player_id s none = none
link_at player_id s (some t) = elim (seat_link_for player_id t) [
  | none ↦ none
  | some (i, link) ↦ some link
]

abbrev pub table_of : World → Option ℕ → Option Table
table_of s none = none
table_of s (some id) = get id s

abbrev pub snapshot_at : ℕ → World → Option ℕ → Option (List ServerMessage)
snapshot_at hand_id s none = none
snapshot_at hand_id s (some link) = replay_snapshot hand_id link s.store

-- What `handle_request_replay` answers from.
unfoldable pub replay_for : ℕ → ℕ → World → Option (List ServerMessage)
unfolding seat_link_for replay_snapshot
replay_for player_id hand_id s =
    snapshot_at hand_id s (link_at player_id s (table_of s (current_table player_id s)))

unfoldable pub handle_request_replay : ℕ → ℕ → ℕ → World → World
unfolding replay_for
handle_request_replay conn player_id hand_id s = elim (replay_for player_id hand_id s) [
  | none ↦ reject conn "not seated at this hand" s
  | some events ↦
      with_store (try_send conn (ServerMessage.replay_events hand_id (to_messages events))) s
]

-- The player's session ends: the seat is left, unless a newer session took it over (`revoked`).
unfoldable pub vacate_table : ℕ → ℕ → Option Table → World → World
unfolding force_leave
vacate_table player_id session_id none s = s
vacate_table player_id session_id (some t) s =
    let (left, w) = force_leave player_id (some session_id) t s.store in
    record s { store = w; tables = put_table left s.tables }

unfoldable pub close_session : ℕ → (player_id session_id : ℕ) → (revoked : Bool) → World → World
unfolding cancel_pending vacate_table
close_session conn player_id session_id revoked s =
    let cancelled = with_store (cancel_pending conn) s in
    if revoked
    then cancelled
    else vacate_table player_id session_id (table_of s (current_table player_id s))
        (record_leave player_id cancelled)

-- A text with a number in it, as `format!` prints it.
module _ (decimal : ℕ → String → String) where
  abbrev pub no_such_table : ℕ → String
  no_such_table id = decimal id "no such table: {}"

  abbrev pub reason_of : SitError → String
  reason_of (buy_in_below least) = decimal least "buy-in must be at least {}"
  reason_of already_seated = "already seated at this table"
  reason_of table_full = "table full"

  unfoldable pub join : ℕ → Connection → ℕ → Table → World → World
  unfolding sit broadcast_table_state
  join conn c buy_in t s = elim (sit conn c buy_in t s.store) [
    | refused e ↦ reject conn (reason_of e) s
    | sat i seated w ↦
        (let joined =
            record_join c.player_id t.id
              (record s { store = w; tables = put_table seated s.tables }) in
          with_store
            (λ w1.
              broadcast_table_state (some c.player_id) seated
                (try_send conn (ServerMessage.joined_table t.id i (seat_infos seated)) w1))
            joined)
  ]

  abbrev pub join_at : ℕ → Connection → ℕ → ℕ → Option Table → World → World
  join_at conn c table_id buy_in none s = reject conn (no_such_table table_id) s
  join_at conn c table_id buy_in (some t) s = join conn c buy_in t s

  unfoldable pub handle_join : ℕ → Connection → ℕ → ℕ → World → World
  unfolding join
  handle_join conn c table_id buy_in s = elim (current_table c.player_id s) [
    | some _ ↦ reject conn "already seated at a table" s
    | none ↦ join_at conn c table_id buy_in (get table_id s) s
  ]

  unfoldable pub depart : ℕ → ℕ → Table → World → World
  unfolding leave broadcast_table_state
  depart conn player_id t s = elim (leave player_id t) [
    | none ↦ reject conn "not seated at this table" s
    | some left ↦
        with_store
          (λ w.
            broadcast_table_state (some player_id) left
              (try_send conn (ServerMessage.left_table t.id) w))
          (record_leave player_id (record s { tables = put_table left s.tables }))
  ]

  abbrev pub depart_at : ℕ → ℕ → ℕ → Option Table → World → World
  depart_at conn player_id table_id none s = reject conn (no_such_table table_id) s
  depart_at conn player_id table_id (some t) s =
      depart conn player_id t (with_store (cancel_pending conn) s)

  unfoldable pub handle_leave : ℕ → ℕ → ℕ → World → World
  unfolding depart cancel_pending
  handle_leave conn player_id table_id s = depart_at conn player_id table_id (get table_id s) s

  abbrev pub answered : ℕ → Store × Bool → World → World
  answered conn (w, true) s = record s { store = w }
  answered conn (w, false) s = reject conn "no matching pending action" (record s { store = w })

  -- The match of `reader_loop` on a message.
  unfoldable pub dispatch : ℕ → Connection → ClientMessage → World → World × Flow
  unfolding handle_join handle_leave deliver_action handle_request_replay list_infos
  dispatch conn c (ClientMessage.register _ _ _ _ _) s = (s, out_of_order)
  dispatch conn c (ClientMessage.authenticate _ _ _) s = (s, out_of_order)
  dispatch conn c ClientMessage.heartbeat s =
      (with_store (try_send conn ServerMessage.heartbeat) s, continue)
  dispatch conn c ClientMessage.disconnect s =
      (send_waiting conn (ServerMessage.goodbye "client requested") s, end)
  dispatch conn c ClientMessage.list_tables s =
      (with_store (try_send conn (ServerMessage.table_list (list_infos s))) s, continue)
  dispatch conn c (ClientMessage.join_table table_id buy_in) s =
      (handle_join conn c table_id buy_in s, continue)
  dispatch conn c (ClientMessage.leave_table table_id) s =
      (handle_leave conn c.player_id table_id s, continue)
  dispatch conn c (ClientMessage.submit_action table_id hand_id action) s =
      (answered conn (deliver_action conn table_id hand_id action s.store) s, continue)
  dispatch conn c (ClientMessage.request_replay hand_id) s =
      (handle_request_replay conn c.player_id hand_id s, continue)

  -- One round of `reader_loop`: a message, `none` for the idle timeout, whether a newer session has
  -- revoked this one, and whether the token bucket lets the message pass.
  unfoldable pub read_one :
      ℕ → Connection → Option ClientMessage → (revoked allowed : Bool) → World → World × Flow
  unfolding dispatch
  read_one conn c none revoked allowed s =
      (send_waiting conn (ServerMessage.goodbye "idle timeout") s, end)
  read_one conn c (some msg) true allowed s =
      (send_waiting conn (ServerMessage.goodbye "session revoked") s, end)
  read_one conn c (some msg) false false s =
      (send_waiting conn (ServerMessage.goodbye "rate limit exceeded") s, end)
  read_one conn c (some msg) false true s = dispatch conn c msg s
