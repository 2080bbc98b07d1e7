-- ===== src/Server/Store.antt =====
-- crates/poker-server/src/connection.rs: connections and seat links. They are shared (`Arc`), so they
-- stand in a store and are named by their place in it.
pub mod Mail
pub mod Delivery
use Prim.Native.String.{String}
use vibe_poker.Base.{
  ℕ, ◌+◌, ◌&&◌, Bool, true, false, List, [], ◌∷◌, ◌++◌, Option, none, some, get_elem?, update,
  length, ltb, ◌==◌, if◌then◌else◌,
}
use vibe_poker.Game.Action.{Action, LegalActions, is_legal}
use vibe_poker.Net.Protocol.{ServerMessage}

abbrev pub outbound_capacity : ℕ
outbound_capacity = 256

-- The responder of a prompt is the name of its `oneshot` channel.
pub record PendingAction : Type 0 where
  pub table_id : ℕ
  pub hand_id : ℕ
  pub seat : ℕ
  pub legal : LegalActions
  pub responder : ℕ

-- `out_tx` is the queue's content; `writing` says that its writer still drains it.
pub record Connection : Type 0 where
  pub player_id : ℕ
  pub username : String
  pub session_id : ℕ
  pub outbox : List ServerMessage
  pub writing : Bool
  pub pending : Option PendingAction
  pub departed : Bool

-- `Connection::new`
abbrev pub new_connection : ℕ → String → ℕ → Connection
new_connection player_id username session_id = record {
  player_id = player_id;
  username = username;
  session_id = session_id;
  outbox = [];
  writing = true;
  pending = none;
  departed = false;
}

pub record ReplayBuffer : Type 0 where
  pub hand_id : Option ℕ
  pub events : List ServerMessage

pub record SeatLink : Type 0 where
  pub inner : ℕ
  pub replay : ReplayBuffer

-- `SeatLink::new`
abbrev pub new_link : ℕ → SeatLink
new_link conn = record { inner = conn; replay = record { hand_id = none; events = [] } }

-- `waiting` names the channels whose receiver still waits, `resolved` what was sent to them.
pub record Store : Type 0 where
  pub connections : List Connection
  pub links : List SeatLink
  pub waiting : List ℕ
  pub resolved : List (ℕ × Action)

abbrev pub on_connection : ℕ → (Connection → Connection) → Store → Store
on_connection conn f w = record w { connections = update f w.connections conn }

abbrev pub on_link : ℕ → (SeatLink → SeatLink) → Store → Store
on_link link f w = record w { links = update f w.links link }

abbrev pub inner_of : Option SeatLink → Option ℕ
inner_of none = none
inner_of (some l) = some l.inner

-- `SeatLink::current`
abbrev pub current : Store → ℕ → Option ℕ
current w link = inner_of (get_elem? w.links link)

-- A message is dropped if the queue is full or its writer has ended.
unfoldable pub queued : ServerMessage → Connection → Connection
queued msg c =
    if c.writing && ltb (length c.outbox) outbound_capacity
    then record c { outbox = c.outbox ++ (msg ∷ []) }
    else c

-- `Connection::try_send`
abbrev pub try_send : ℕ → ServerMessage → Store → Store
try_send conn msg w = on_connection conn (queued msg) w

abbrev pub try_send_at : Option ℕ → ServerMessage → Store → Store
try_send_at none msg w = w
try_send_at (some conn) msg w = try_send conn msg w

-- `link.current().try_send(msg)`
unfoldable pub send_current : ℕ → ServerMessage → Store → Store
send_current link msg w = try_send_at (current w link) msg w

abbrev pub waits : ℕ → List ℕ → Bool
waits r [] = false
waits r (x ∷ xs) = if x == r then true else waits r xs

abbrev pub drop_waiting : ℕ → List ℕ → List ℕ
drop_waiting r [] = []
drop_waiting r (x ∷ xs) = let rest = drop_waiting r xs in if x == r then rest else x ∷ rest

-- `responder.send(action).is_ok()`
unfoldable pub respond : ℕ → Action → Store → Store × Bool
respond r action w =
    if waits r w.waiting
    then (
      record w { waiting = drop_waiting r w.waiting; resolved = (r, action) ∷ w.resolved },
      true,
    )
    else (w, false)

-- Does the pending prompt ask for this action?
abbrev pub accepts : (table_id hand_id : ℕ) → Action → PendingAction → Bool
accepts table_id hand_id action p =
    p.table_id == table_id && (p.hand_id == hand_id && is_legal p.legal action)

abbrev pub take_pending : Connection → Connection
take_pending c = record c { pending = none }

-- `Connection::deliver_action`, given the slot's content.
unfoldable pub deliver_to :
    ℕ → Option PendingAction → (table_id hand_id : ℕ) → Action → Store → Store × Bool
unfolding respond
deliver_to conn none table_id hand_id action w = (w, false)
deliver_to conn (some p) table_id hand_id action w =
    if accepts table_id hand_id action p
    then respond p.responder action (on_connection conn take_pending w)
    else (w, false)

abbrev pub pending_of : Option Connection → Option PendingAction
pending_of none = none
pending_of (some c) = c.pending

unfoldable pub deliver_action : ℕ → (table_id hand_id : ℕ) → Action → Store → Store × Bool
unfolding deliver_to
deliver_action conn table_id hand_id action w =
    deliver_to conn (pending_of (get_elem? w.connections conn)) table_id hand_id action w

-- Dropping the pending prompt drops its sender, so that its receiver stops waiting.
abbrev pub drop_responder : Option PendingAction → List ℕ → List ℕ
drop_responder none waiting = waiting
drop_responder (some p) waiting = drop_waiting p.responder waiting

-- `Connection::cancel_pending`
unfoldable pub cancel_pending : ℕ → Store → Store
cancel_pending conn w = record w {
  connections = update (λ c. record c { departed = true; pending = none }) w.connections conn;
  waiting = drop_responder (pending_of (get_elem? w.connections conn)) w.waiting;
}

abbrev pub begun : ℕ → SeatLink → SeatLink
begun hand_id l = record l { replay = record { hand_id = some hand_id; events = [] } }

-- `SeatLink::replay_begin`
unfoldable pub replay_begin : ℕ → ℕ → Store → Store
replay_begin hand_id link = on_link link (begun hand_id)

abbrev pub is_some {ℓ} : {A : Type ℓ} → Option A → Bool
is_some none = false
is_some (some a) = true

abbrev pub pushed : ServerMessage → ReplayBuffer → ReplayBuffer
pushed msg b = if is_some b.hand_id then record b { events = b.events ++ (msg ∷ []) } else b

-- `SeatLink::replay_push`
unfoldable pub replay_push : ServerMessage → ℕ → Store → Store
replay_push msg link = on_link link (λ l. record l { replay = pushed msg l.replay })

abbrev pub sealed : SeatLink → SeatLink
sealed l = record l { replay = record { hand_id = none; events = [] } }

-- `SeatLink::replay_end`
unfoldable pub replay_end : ℕ → Store → Store
replay_end link = on_link link sealed

abbrev pub is_id : Option ℕ → ℕ → Bool
is_id none n = false
is_id (some m) n = m == n

abbrev pub snapshot_of : ℕ → ReplayBuffer → Option (List ServerMessage)
snapshot_of hand_id b = if is_id b.hand_id hand_id then some b.events else none

abbrev pub buffer_of : Option SeatLink → ReplayBuffer
buffer_of none = record { hand_id = none; events = [] }
buffer_of (some l) = l.replay

abbrev pub buffer : Store → ℕ → ReplayBuffer
buffer w link = buffer_of (get_elem? w.links link)

-- `SeatLink::replay_snapshot`
unfoldable pub replay_snapshot : ℕ → ℕ → Store → Option (List ServerMessage)
replay_snapshot hand_id link w = snapshot_of hand_id (buffer w link)
