-- ===== src/Client/Prompt.antt =====
-- crates/poker-client-core/src/core.rs: the prompt that the view shows and the one that is answered.
use vibe_poker.Base.{
  Bool, true, false, List, [], ◌∷◌, Option, none, some, ℕ, refl, if◌then◌else◌, arith,
}
use vibe_poker.Game.Action.{Action, is_legal}
use vibe_poker.Game.Event.{
  EngineEvent, hand_started, hole_cards_dealt, board_dealt, action_taken, player_all_in, hand_ended,
}
use vibe_poker.Net.Protocol.{ServerMessage, ServerMessages}
use vibe_poker.Client.View.{CurrentHand}
use vibe_poker.Client.Effect.{Intent}
use vibe_poker.Client.Core.{
  ActivePrompt, ClientCore, Handled, handle_intent, open_pending, queue_or_send_handshake,
  handle_submit_action, submit, answer, reset_to_disconnected, reset_to_ended, is_awaiting,
  map_hand,
}
use vibe_poker.Client.Projection.{
  project, project_engine_event, is_at, hand_after_action, hand_after_board,
}
use vibe_poker.Client.Inbound.{handle_inbound, handle_all, rearm, rearmed}
use vibe_poker.Client.Run.{IsArmed, Backed, Input, intent, inbound, react, run}

-- A change of the hand in the view keeps the view backed if it does so for every hand.
Backed-map_hand :
    (f : CurrentHand → CurrentHand) (p q : Option ActivePrompt) (o : Option CurrentHand)
    → ((g : CurrentHand) → Backed (some g) p → Backed (some (f g)) q)
    → Backed o p
    → Backed (map_hand f o) q
Backed-map_hand f p q none step h = tt
Backed-map_hand f p q (some g) step h = step g h

if-IsArmed : (b : Bool) (x y : Handled) → IsArmed x.0 → IsArmed y.0 → IsArmed (if b then x else y).0
if-IsArmed true x y h k = h
if-IsArmed false x y h k = k

submit-IsArmed :
    (a : Action) (p : ActivePrompt) (c : ClientCore) → IsArmed c → IsArmed (submit a p c).0
unfolding submit
submit-IsArmed a p c h =
    if-IsArmed (is_legal p.legal a) _ _
      (Backed-map_hand _ c.active_prompt _ c.view.current_hand (λ g k. refl) h) h

answer-IsArmed :
    (a : Action) (o : Option ActivePrompt) (c : ClientCore) → IsArmed c → IsArmed (answer a o c).0
unfolding answer
answer-IsArmed a none c h = h
answer-IsArmed a (some p) c h = submit-IsArmed a p c h

handle_submit_action-IsArmed :
    (a : Action) (c : ClientCore) → IsArmed c → IsArmed (handle_submit_action a c).0
unfolding handle_submit_action
handle_submit_action-IsArmed a c h =
    if-IsArmed (is_awaiting c.view.current_hand) _ _ (answer-IsArmed a c.active_prompt c h) h

handle_intent-IsArmed : (i : Intent) (c : ClientCore) → IsArmed c → IsArmed (handle_intent i c).0
unfolding handle_intent open_pending queue_or_send_handshake reset_to_disconnected reset_to_ended
handle_intent-IsArmed (Intent.submit_action a) c h = handle_submit_action-IsArmed a c h
handle_intent-IsArmed (Intent.connection_opened) c h = ground arith
handle_intent-IsArmed (Intent.register _ _ _ _) c h = ground arith
handle_intent-IsArmed (Intent.authenticate_password _ _ _) c h = ground arith
handle_intent-IsArmed (Intent.authenticate_session _ _) c h = ground arith
handle_intent-IsArmed (Intent.disconnect) c h = tt
handle_intent-IsArmed (Intent.connection_lost _) c h = tt
handle_intent-IsArmed _ c h = h

project-IsArmed : (e : EngineEvent) (c : ClientCore) → IsArmed c → IsArmed (project e c).0
unfolding project hand_after_action hand_after_board
project-IsArmed (hand_started _ _ _) c h = refl
project-IsArmed (hole_cards_dealt seat cards) c h =
    if-IsArmed _ _ _ (Backed-map_hand _ c.active_prompt _ c.view.current_hand (λ g k. k) h) h
project-IsArmed (board_dealt _ _) c h =
    Backed-map_hand _ c.active_prompt _ c.view.current_hand (λ g k. k) h
project-IsArmed (action_taken _ _ _) c h =
    Backed-map_hand _ c.active_prompt _ c.view.current_hand (λ g k. k) h
project-IsArmed (player_all_in _ _) c h =
    Backed-map_hand _ c.active_prompt _ c.view.current_hand (λ g k. k) h
project-IsArmed (hand_ended _ _) c h = tt

project_engine_event-IsArmed :
    (t : ℕ) (e : EngineEvent) (c : ClientCore) → IsArmed c → IsArmed (project_engine_event t e c).0
unfolding project_engine_event
project_engine_event-IsArmed t e c h =
    if-IsArmed (is_at t c.view.phase) _ _ (project-IsArmed e c h) h

Backed-rearmed :
    (p : Option ActivePrompt) (o : Option CurrentHand) → Backed o p → Backed (rearmed p o) p
Backed-rearmed none o h = h
Backed-rearmed (some p) o h = Backed-map_hand _ (some p) (some p) o (λ g k. refl) h

mutual
  unfolding handle_inbound handle_all rearm reset_to_ended

  handle_inbound-IsArmed :
      (m : ServerMessage) (c : ClientCore) → IsArmed c → IsArmed (handle_inbound m c).0
  handle_inbound-IsArmed (ServerMessage.goodbye _) c h = tt
  handle_inbound-IsArmed (ServerMessage.joined_table _ _ _) c h = tt
  handle_inbound-IsArmed (ServerMessage.left_table _) c h = tt
  handle_inbound-IsArmed (ServerMessage.table_state t _ _) c h =
      if-IsArmed (is_at t c.view.phase) _ _ h h
  handle_inbound-IsArmed (ServerMessage.table_event t e) c h = project_engine_event-IsArmed t e c h
  handle_inbound-IsArmed (ServerMessage.prompt _ _ _ _ _) c h =
      Backed-map_hand _ c.active_prompt _ c.view.current_hand (λ g k. refl) h
  handle_inbound-IsArmed (ServerMessage.action_rejected _) c h =
      Backed-rearmed c.active_prompt c.view.current_hand h
  handle_inbound-IsArmed (ServerMessage.replay_events _ ms) c h = handle_all-IsArmed ms c h
  handle_inbound-IsArmed _ c h = h

  handle_all-IsArmed :
      (ms : ServerMessages) (c : ClientCore) → IsArmed c → IsArmed (handle_all ms c).0
  handle_all-IsArmed ServerMessages.end c h = h
  handle_all-IsArmed (ServerMessages.next m ms) c h =
      handle_all-IsArmed ms (handle_inbound m c).0 (handle_inbound-IsArmed m c h)

-- Whatever the host and the server send, in whatever order, replays included: from a client (a
-- fresh one, for example) in which the view shows the active prompt's legal actions while the hand
-- awaits an action and none while it does not, every run leads to such a client.
pub run-IsArmed : (c : ClientCore) (inputs : List Input) → IsArmed c → IsArmed (run inputs c).0
unfolding run react
run-IsArmed c [] h = h
run-IsArmed c (intent i ∷ xs) h = run-IsArmed (handle_intent i c).0 xs (handle_intent-IsArmed i c h)
run-IsArmed c (inbound m ∷ xs) h =
    run-IsArmed (handle_inbound m c).0 xs (handle_inbound-IsArmed m c h)
