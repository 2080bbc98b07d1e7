-- ===== src/Client/Replay.antt =====
-- crates/poker-client-core/src/core.rs: the replay of a hand.
use vibe_poker.Base.{
  Bool, true, false, ◌&&◌, none, ◌≡◌, refl, sym, ap, ◌∙◌, arith, ℕ, if◌then◌else◌,
}
use vibe_poker.Game.Event.{
  EngineEvent, hand_started, hole_cards_dealt, board_dealt, action_taken, player_all_in, hand_ended,
}
use vibe_poker.Net.Protocol.{ServerMessage, ServerMessages}
use vibe_poker.Client.Core.{ClientCore, Handled}
use vibe_poker.Client.Projection.{is_at, project, project_engine_event}
use vibe_poker.Client.Inbound.{handle_inbound, handle_all, rearm}

-- The messages that a seat's replay buffer holds: table events and prompts, and what else touches
-- only the hand.
abbrev pub is_hand_message : ServerMessage → Bool
is_hand_message (ServerMessage.table_event _ _) = true
is_hand_message (ServerMessage.prompt _ _ _ _ _) = true
is_hand_message (ServerMessage.action_rejected _) = true
is_hand_message ServerMessage.heartbeat = true
is_hand_message _ = false

abbrev pub are_hand_messages : ServerMessages → Bool
are_hand_messages ServerMessages.end = true
are_hand_messages (ServerMessages.next m ms) = is_hand_message m && are_hand_messages ms

-- The client without its hand.
abbrev forget : ClientCore → ClientCore
forget c = record c {
  view = record (c.view) { current_hand = none; last_action_rejection = none };
  active_prompt = none;
}

forget-if :
    (b : Bool) (x y : Handled) (c : ClientCore)
    → forget x.0 ≡ forget c
    → forget y.0 ≡ forget c
    → forget (if b then x else y).0 ≡ forget c
forget-if true x y c h k = h
forget-if false x y c h k = k

forget-project : (e : EngineEvent) (c : ClientCore) → forget (project e c).0 ≡ forget c
unfolding project
forget-project (hand_started _ _ _) c = refl
forget-project (hole_cards_dealt _ _) c = forget-if _ _ _ c refl refl
forget-project (board_dealt _ _) c = refl
forget-project (action_taken _ _ _) c = refl
forget-project (player_all_in _ _) c = refl
forget-project (hand_ended _ _) c = refl

forget-handle_inbound :
    (m : ServerMessage) (c : ClientCore)
    → is_hand_message m ≡ true
    → forget (handle_inbound m c).0 ≡ forget c
unfolding handle_inbound project_engine_event rearm
forget-handle_inbound (ServerMessage.table_event t e) c h =
    forget-if (is_at t c.view.phase) _ _ c (forget-project e c) refl
forget-handle_inbound (ServerMessage.prompt _ _ _ _ _) c h = refl
forget-handle_inbound (ServerMessage.action_rejected _) c h = refl
forget-handle_inbound ServerMessage.heartbeat c h = refl
forget-handle_inbound _ c h = absurd (ground arith)

forget-handle_all :
    (ms : ServerMessages) (c : ClientCore)
    → are_hand_messages ms ≡ true
    → forget (handle_all ms c).0 ≡ forget c
unfolding handle_all
forget-handle_all ServerMessages.end c h = refl
forget-handle_all (ServerMessages.next m ms) c h =
    forget-handle_all ms (handle_inbound m c).0 (ground arith)
    ∙ forget-handle_inbound m c (ground arith)

-- The start of a hand forgets the hand before it.
handle_inbound-forget :
    (t hand_id dealer deck_seed : ℕ) (c : ClientCore)
    → is_at t c.view.phase ≡ true
    → (handle_inbound (ServerMessage.table_event t (hand_started hand_id dealer deck_seed)) c).0
      ≡ (project (hand_started hand_id dealer deck_seed) (forget c)).0
unfolding handle_inbound project_engine_event project
handle_inbound-forget t i d s c h = rw h refl

-- At a client that is seated at the table, a replay of the hand's own messages that begins with the
-- start of the hand leads to the same client whichever of the hand's messages, live or replayed, the
-- client had already processed.
pub replay_absorbs :
    (t replay_id hand_id dealer deck_seed : ℕ) (seen ms : ServerMessages) (c : ClientCore)
    → are_hand_messages seen ≡ true
    → is_at t c.view.phase ≡ true
    → let start = ServerMessage.table_event t (hand_started hand_id dealer deck_seed) in
      let replay = ServerMessage.replay_events replay_id (ServerMessages.next start ms) in
      (handle_inbound replay (handle_all seen c).0).0 ≡ (handle_inbound replay c).0
unfolding handle_inbound handle_all
replay_absorbs t r i d s seen ms c h at =
    let kept = forget-handle_all seen c h in
    let still_at = ap (λ (x : ClientCore). is_at t x.view.phase) kept ∙ at in
    ap (λ x. (handle_all ms x).0)
      (handle_inbound-forget t i d s (handle_all seen c).0 still_at
        ∙ ap (λ x. (project (hand_started i d s) x).0) kept
        ∙ sym (handle_inbound-forget t i d s c at))
