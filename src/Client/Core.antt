-- ===== src/Client/Core.antt =====
-- crates/poker-client-core/src/core.rs: the client's state machine. A handler returns the new core
-- and the effects in their order.
use Prim.Native.String.{String}
use vibe_poker.Base.{ℕ, Bool, true, false, List, [], ◌∷◌, Option, none, some, if◌then◌else◌}
use vibe_poker.Game.Action.{Action, LegalActions, is_legal}
use vibe_poker.Net.Protocol.{ClientMessage, by_password, by_session, protocol_version}
use vibe_poker.Client.View.{
  Phase, connecting, authenticating, ended, CurrentHand, ClientView, empty_view,
}
use vibe_poker.Client.Effect.{
  Effect, Intent, open_connection, close_connection, send, log, debug, info, warn,
}

pub record ActivePrompt : Type 0 where
  pub table_id : ℕ
  pub hand_id : ℕ
  pub seat : ℕ
  pub legal : LegalActions

pub record ClientCore : Type 0 where
  pub view : ClientView
  pub session_key : Option String
  pub connection_open : Bool
  pub pending_handshake : Option ClientMessage
  pub active_prompt : Option ActivePrompt

-- `ClientCore::new`
abbrev pub new_core : Option String → ClientCore
new_core key = record {
  view = empty_view;
  session_key = key;
  connection_open = false;
  pending_handshake = none;
  active_prompt = none;
}

abbrev pub Handled : Type 0
Handled = ClientCore × List Effect

unfoldable pub reset_to_disconnected : ClientCore → ClientCore
reset_to_disconnected c = record c {
  view = empty_view;
  connection_open = false;
  pending_handshake = none;
  active_prompt = none;
}

unfoldable pub reset_to_ended : String → ClientCore → ClientCore
reset_to_ended reason c = record c {
  view = record empty_view { phase = ended reason };
  connection_open = false;
  pending_handshake = none;
  active_prompt = none;
}

abbrev in_phase : Phase → ClientCore → ClientCore
in_phase p c = record c { view = record (c.view) { phase = p } }

unfoldable pub queue_or_send_handshake : ClientMessage → ClientCore → Handled
queue_or_send_handshake msg c =
    if c.connection_open then (in_phase authenticating c, send msg ∷ []) else (
      record c { pending_handshake = some msg },
      log debug "core: connection not yet open, queued handshake" ∷ [],
    )

abbrev pub is_awaiting : Option CurrentHand → Bool
is_awaiting none = false
is_awaiting (some h) = h.awaiting_action

abbrev pub map_hand : (CurrentHand → CurrentHand) → Option CurrentHand → Option CurrentHand
map_hand f none = none
map_hand f (some h) = some (f h)

-- `if let Some(h) = self.view.current_hand.as_mut()`
abbrev pub on_hand : (CurrentHand → CurrentHand) → ClientCore → ClientCore
on_hand f c = record c { view = record (c.view) { current_hand = map_hand f c.view.current_hand } }

-- The optimistic clear of a submission.
abbrev pub stand_down : CurrentHand → CurrentHand
stand_down h = record h { awaiting_action = false; legal_actions = none; action_deadline_ms = none }

unfoldable pub submit : Action → ActivePrompt → ClientCore → Handled
submit action p c =
    if is_legal p.legal action
    then (
      on_hand stand_down c,
      send (ClientMessage.submit_action p.table_id p.hand_id action)
          ∷ log info "core: submitted action"
          ∷ [],
    )
    else (c, log warn "core: SubmitAction failed local legality check; ignoring" ∷ [])

-- `let Some(prompt) = self.active_prompt.as_ref() else { .. }`
unfoldable pub answer : Action → Option ActivePrompt → ClientCore → Handled
unfolding submit
answer action none c =
    (c, log warn "core: SubmitAction with no active prompt record; ignoring" ∷ [])
answer action (some p) c = submit action p c

unfoldable pub handle_submit_action : Action → ClientCore → Handled
unfolding answer
handle_submit_action action c =
    if is_awaiting c.view.current_hand
    then answer action c.active_prompt c
    else (c, log warn "core: SubmitAction with no live prompt; ignoring" ∷ [])

unfoldable pub open_pending : ClientCore → Handled
open_pending c = elim c.pending_handshake [
  | none ↦ (
    record c { connection_open = true },
    log debug "core: connection opened, awaiting handshake intent" ∷ [],
  )
  | some msg ↦ (
    in_phase authenticating (record c { connection_open = true; pending_handshake = none }),
    log debug "core: connection opened, flushing pending handshake" ∷ send msg ∷ [],
  )
]

unfoldable pub handle_intent : Intent → ClientCore → Handled
unfolding open_pending queue_or_send_handshake handle_submit_action reset_to_disconnected
    reset_to_ended
handle_intent (Intent.connect addr) c =
    (in_phase connecting c, open_connection addr ∷ log info "core: opening connection" ∷ [])
handle_intent Intent.connection_opened c = open_pending c
handle_intent (Intent.register email username password device_label) c =
    queue_or_send_handshake
      (ClientMessage.register protocol_version email username password device_label) c
handle_intent (Intent.authenticate_password identifier password device_label) c =
    queue_or_send_handshake
      (ClientMessage.authenticate protocol_version (by_password identifier password) device_label) c
handle_intent (Intent.authenticate_session key device_label) c =
    queue_or_send_handshake
      (ClientMessage.authenticate protocol_version (by_session key) device_label)
      (record c { session_key = some key })
handle_intent Intent.list_tables c = (c, send ClientMessage.list_tables ∷ [])
handle_intent (Intent.join_table table_id buy_in) c =
    (c, send (ClientMessage.join_table table_id buy_in) ∷ [])
handle_intent (Intent.leave_table table_id) c = (c, send (ClientMessage.leave_table table_id) ∷ [])
handle_intent (Intent.submit_action action) c = handle_submit_action action c
handle_intent Intent.heartbeat c = (c, send ClientMessage.heartbeat ∷ [])
handle_intent Intent.disconnect c =
    (reset_to_disconnected c, send ClientMessage.disconnect ∷ close_connection ∷ [])
handle_intent (Intent.connection_lost reason) c =
    (reset_to_ended reason c, log warn "core: connection lost" ∷ [])
