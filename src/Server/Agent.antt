-- ===== src/Server/Agent.antt =====
-- crates/poker-server/src/remote_agent.rs: the agent that prompts a seat's client, and waits.
pub mod Answers
use vibe_poker.Base.{
  ℕ, ◌%◌, ◌^◌, Bool, true, false, List, [], ◌∷◌, Option, none, some, get_elem?, ◌==◌, if◌then◌else◌,
}
use vibe_poker.Game.Action.{Action, LegalActions, fold}
use vibe_poker.Net.Protocol.{ServerMessage}
use vibe_poker.Server.Store.{
  Store, Connection, PendingAction, current, on_connection, pending_of, drop_responder,
  drop_waiting, take_pending, try_send, replay_push,
}

-- `deadline` is in milliseconds.
pub record RemoteAgent : Type 0 where
  pub link : ℕ
  pub table_id : ℕ
  pub current_hand : ℕ
  pub deadline : ℕ

-- `RemoteAgent::on_hand_start`
abbrev pub on_hand_start : ℕ → RemoteAgent → RemoteAgent
on_hand_start hand_id g = record g { current_hand = hand_id }

abbrev pub prompt_of : RemoteAgent → ℕ → LegalActions → ServerMessage
prompt_of g position legal =
    ServerMessage.prompt g.table_id g.current_hand position legal (g.deadline % 2 ^ 32)

abbrev pub pending_for : RemoteAgent → ℕ → LegalActions → ℕ → PendingAction
pending_for g position legal responder = record {
  table_id = g.table_id;
  hand_id = g.current_hand;
  seat = position;
  legal = legal;
  responder = responder;
}

-- The prompt is put on the connection. The one that it replaces is dropped.
abbrev pub put_prompt : ℕ → PendingAction → Store → Store
put_prompt conn p w =
    let put = on_connection conn (λ c. record c { pending = some p }) w in
    record put {
      waiting = p.responder ∷ drop_responder (pending_of (get_elem? w.connections conn)) w.waiting;
    }

-- The prompt is sent, and kept for a replay.
abbrev pub send_prompt : RemoteAgent → ℕ → LegalActions → (conn responder : ℕ) → Store → Store
send_prompt g position legal conn responder w = replay_push (prompt_of g position legal) g.link (
    try_send conn (prompt_of g position legal)
      (put_prompt conn (pending_for g position legal responder) w))

-- The connection is gone if there is none; it may have departed.
abbrev pub has_departed : Option Connection → Bool
has_departed none = true
has_departed (some c) = c.departed

abbrev pub ask_on : Option ℕ → RemoteAgent → ℕ → LegalActions → ℕ → Store → Bool × Store
ask_on none g position legal responder w = (false, w)
ask_on (some conn) g position legal responder w =
    if has_departed (get_elem? w.connections conn)
    then (false, w)
    else (true, send_prompt g position legal conn responder w)

-- `RemoteAgent::act` up to where it waits on the channel `responder`; `false` is the fold at once of
-- a connection that has departed.
unfoldable pub ask : RemoteAgent → ℕ → LegalActions → ℕ → Store → Bool × Store
unfolding replay_push
ask g position legal responder w = ask_on (current w g.link) g position legal responder w

-- What was sent on the channel.
abbrev pub sent_on : ℕ → List (ℕ × Action) → Option Action
sent_on r [] = none
sent_on r ((q, a) ∷ m) = if q == r then some a else sent_on r m

abbrev pub clean_up : Option ℕ → Store → Store
clean_up none w = w
clean_up (some conn) w =
    let taken = on_connection conn take_pending w in
    record taken { waiting = drop_responder (pending_of (get_elem? w.connections conn)) w.waiting }

abbrev pub concluded : Option Action → RemoteAgent → ℕ → Store → Action × Store
concluded (some action) g responder w = (action, w)
concluded none g responder w =
    (fold, clean_up (current w g.link) (record w { waiting = drop_waiting responder w.waiting }))

-- The rest of `RemoteAgent::act`: the action that was sent, or, when the channel was dropped or the
-- deadline has passed, a fold.
unfoldable pub conclude : RemoteAgent → ℕ → Store → Action × Store
conclude g responder w = concluded (sent_on responder w.resolved) g responder w
