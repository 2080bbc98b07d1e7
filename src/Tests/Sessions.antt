-- ===== src/Tests/Sessions.antt =====
-- Client sessions at concrete inputs.
use vibe_poker.Base.{ℕ, Option, ◌++◌, ◌≡◌, refl, some, none, List, [], ◌∷◌, true, false}
use vibe_poker.Game.Action.{Action, LegalActions, raise, is_legal}
use vibe_poker.Game.State.{flop}
use vibe_poker.Game.Event.{hand_started, hole_cards_dealt, board_dealt, action_taken}
use vibe_poker.Core.Card.{Card}
use vibe_poker.Net.Protocol.{ClientMessage, ServerMessage, ServerMessages, protocol_version}
use vibe_poker.Client.Effect.{Intent}
use vibe_poker.Client.View.{CurrentHand}
use vibe_poker.Client.Core.{
  ClientCore, new_core, handle_intent, queue_or_send_handshake, open_pending,
}
use vibe_poker.Client.Projection.{
  project_engine_event, project, hand_after_board, push_new, contains, bets_after, update_bet,
}
use vibe_poker.Client.Inbound.{handle_inbound, handle_all}
use vibe_poker.Client.Run.{Input, intent, inbound, IsArmed, react, run, sent}
use vibe_poker.Client.Prompt.{run-IsArmed}
use vibe_poker.Client.Submit.{offers, IsSubmitted, submit_action_lem, submit_action-once}
use vibe_poker.Client.Handshake.{handshake_comm}
use vibe_poker.Client.Replay.{replay_absorbs}

abbrev registration : Intent
registration = Intent.register "a@b" "alice" "secret" none

abbrev legal : LegalActions
legal = record {
  can_check = false;
  can_call = true;
  call_amount = 2;
  can_raise = true;
  min_raise = 4;
  max_raise = 100;
  all_in_amount = 98;
}

abbrev dealt : ServerMessages → ServerMessages
dealt rest =
    ServerMessages.next
      (ServerMessage.table_event 7 (hole_cards_dealt 1 (record { bits = 3 }, record { bits = 51 })))
      (ServerMessages.next (ServerMessage.table_event 7 (action_taken 0 (raise 4) 6)) rest)

abbrev asked : ServerMessages
asked = dealt (ServerMessages.next (ServerMessage.prompt 7 12 1 legal 15000) ServerMessages.end)

abbrev joined : List Input
joined =
    intent (Intent.connect "host")
    ∷ intent registration
    ∷ intent Intent.connection_opened
    ∷ inbound (ServerMessage.joined_table 7 1 [])
    ∷ []

abbrev hand : List Input
hand =
    inbound (ServerMessage.table_event 7 (hand_started 12 0 99))
    ∷ inbound (ServerMessage.replay_events 12 asked)
    ∷ []

unfoldable at_table : ClientCore
unfolding run react handle_intent queue_or_send_handshake open_pending handle_inbound
at_table = (run joined (new_core none)).0

unfoldable at_prompt : ClientCore
unfolding at_table run react handle_inbound handle_all project_engine_event project
at_prompt = (run hand at_table).0

offers_raise : offers at_prompt (raise 8) ≡ true
unfolding at_prompt is_legal push_new contains bets_after update_bet
offers_raise = refl

run-IsArmed_example : IsArmed (run hand at_table).0
unfolding at_table
run-IsArmed_example = run-IsArmed at_table hand tt

submit_action_lem_example : IsSubmitted at_prompt (raise 8)
unfolding at_prompt
submit_action_lem_example = submit_action_lem at_prompt (raise 8) refl

submit_action-once_example :
    let c1 = (handle_intent (Intent.submit_action (raise 8)) at_prompt).0 in
    (sent (handle_intent (Intent.submit_action Action.call) c1).1 ≡ [])
    × (offers (handle_inbound (ServerMessage.action_rejected "late") c1).0 Action.call
        ≡ offers at_prompt Action.call)
unfolding at_prompt
submit_action-once_example =
    submit_action-once at_prompt (raise 8) Action.call "late" refl offers_raise

handshake_comm_example :
    let early = run (intent registration ∷ intent Intent.connection_opened ∷ []) (new_core none) in
    let late = run (intent Intent.connection_opened ∷ intent registration ∷ []) (new_core none) in
    (early.0 ≡ late.0)
    × (sent early.1 ≡ sent late.1)
    × ((m : ClientMessage) × (sent early.1 ≡ m ∷ []))
    × (sent (handle_intent Intent.connection_opened early.0).1 ≡ [])
handshake_comm_example = handshake_comm (new_core none) registration refl refl refl

replay_absorbs_example :
    let start = ServerMessage.table_event 7 (hand_started 12 0 99) in
    let replay = ServerMessage.replay_events 12 (ServerMessages.next start asked) in
    (handle_inbound replay
      (handle_all (ServerMessages.next start (dealt ServerMessages.end)) at_table).0).0
    ≡ (handle_inbound replay at_table).0
unfolding at_table
replay_absorbs_example =
    replay_absorbs 7 12 12 0 99
      (ServerMessages.next (ServerMessage.table_event 7 (hand_started 12 0 99))
        (dealt ServerMessages.end))
      asked at_table refl refl

-- A board event that is processed twice leaves its cards twice in the view.
abbrev flop_cards : List Card
flop_cards = record { bits = 0 } ∷ record { bits = 4 } ∷ record { bits = 8 } ∷ []

abbrev flop_dealt : List Input
flop_dealt = inbound (ServerMessage.table_event 7 (board_dealt flop flop_cards)) ∷ []

abbrev board_of : Option CurrentHand → List ℕ
board_of none = []
board_of (some h) = h.board

flop_twice :
    board_of (run (flop_dealt ++ flop_dealt) at_prompt).0.view.current_hand
    ≡ 0 ∷ 4 ∷ 8 ∷ 0 ∷ 4 ∷ 8 ∷ []
unfolding at_prompt run react handle_inbound project_engine_event project hand_after_board
flop_twice = refl

-- After `Rejected` the transport still counts as open, so that a handshake is sent to it.
rejected_then_register :
    sent (run (inbound (ServerMessage.rejected 5 "no") ∷ intent registration ∷ []) at_table).1
    ≡ ClientMessage.register protocol_version "a@b" "alice" "secret" none ∷ []
unfolding at_table run react handle_intent handle_inbound queue_or_send_handshake
rejected_then_register = refl
