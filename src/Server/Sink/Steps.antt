-- ===== src/Server/Sink/Steps.antt =====
-- crates/poker-server: a hand at a table step by step, as its events (`BroadcastSink`), the prompts of
-- its agents (remote_agent.rs), and what the connections do (connection.rs, `reconnect_player`)
-- follow one another.
use vibe_poker.Base.{
  ℕ, ◌&&◌, Bool, false, List, [], ◌∷◌, ◌++◌, Option, none, some, get_elem?, ◌==◌, if◌then◌else◌,
}
use vibe_poker.Game.Action.{Action, LegalActions}
use vibe_poker.Game.Event.{EngineEvent}
use vibe_poker.Net.Protocol.{ServerMessage}
use vibe_poker.Server.Store.{Store, deliver_action, cancel_pending}
use vibe_poker.Server.Table.{Table}
use vibe_poker.Server.Takeover.{reconnect_player}
use vibe_poker.Server.Agent.{RemoteAgent, prompt_of, ask, conclude}
use vibe_poker.Server.Sink.{BroadcastSink, on_event}
use vibe_poker.Server.Sink.Replay.{sees}

-- An event of the engine; an agent that asks its seat, and waits on a channel; an action that a
-- client submits on its connection; an agent that waits no more; a connection that ends; and one that
-- takes over its player's seat at the table.
pub data HandStep : Type 0 where
  shown : EngineEvent → HandStep
  asked : (seat : ℕ) → LegalActions → (responder : ℕ) → HandStep
  submitted : (conn table_id hand_id : ℕ) → Action → HandStep
  answered : (seat responder : ℕ) → HandStep
  departed : (conn : ℕ) → HandStep
  reconnected : (conn player_id : ℕ) → Table → HandStep

-- The agent of a seat in the hand: `RemoteAgent::new`, after `on_hand_start`.
abbrev pub agent_of : (table_id hand_id deadline link : ℕ) → RemoteAgent
agent_of table_id hand_id deadline link = record {
  link = link;
  table_id = table_id;
  current_hand = hand_id;
  deadline = deadline;
}

module _ (hand_id deadline : ℕ) where
  abbrev pub agent : BroadcastSink → ℕ → RemoteAgent
  agent k link = agent_of k.table_id hand_id deadline link

  unfoldable pub ask_seat : Option ℕ → BroadcastSink → ℕ → LegalActions → ℕ → Store → Bool × Store
  unfolding ask
  ask_seat none k seat legal responder w = (false, w)
  ask_seat (some link) k seat legal responder w = ask (agent k link) seat legal responder w

  unfoldable pub conclude_seat : Option ℕ → BroadcastSink → ℕ → Store → Store
  unfolding conclude
  conclude_seat none k responder w = w
  conclude_seat (some link) k responder w = (conclude (agent k link) responder w).1

  unfoldable pub hand_step : HandStep → BroadcastSink × Store → BroadcastSink × Store
  unfolding on_event ask_seat conclude_seat deliver_action cancel_pending reconnect_player
  hand_step (shown e) (k, w) = on_event e (k, w)
  hand_step (asked seat legal responder) (k, w) =
      (k, (ask_seat (get_elem? k.links seat) k seat legal responder w).1)
  hand_step (submitted conn table_id hand action) (k, w) =
      (k, (deliver_action conn table_id hand action w).0)
  hand_step (answered seat responder) (k, w) =
      (k, conclude_seat (get_elem? k.links seat) k responder w)
  hand_step (departed conn) (k, w) = (k, cancel_pending conn w)
  hand_step (reconnected conn player_id t) (k, w) = (k, (reconnect_player conn player_id t w).1)

  unfoldable pub hand_steps : List HandStep → BroadcastSink × Store → BroadcastSink × Store
  unfolding hand_step
  hand_steps [] s = s
  hand_steps (x ∷ xs) s = hand_steps xs (hand_step x s)

  -- What the step tells the seat `j`: an event that the seat may see, or its own prompt, unless its
  -- connection has departed.
  unfoldable pub told : ℕ → HandStep → BroadcastSink × Store → List ServerMessage
  unfolding ask_seat
  told j (shown e) (k, w) = if sees j e then ServerMessage.table_event k.table_id e ∷ [] else []
  told j (asked seat legal responder) (k, w) =
      let went = (ask_seat (get_elem? k.links seat) k seat legal responder w).0 in
      if seat == j && went then prompt_of (agent k 0) seat legal ∷ [] else []
  told j _ _ = []

  unfoldable pub told_by : ℕ → List HandStep → BroadcastSink × Store → List ServerMessage
  unfolding told hand_step
  told_by j [] s = []
  told_by j (x ∷ xs) s = told j x s ++ told_by j xs (hand_step x s)
