-- ===== src/Server/Sink/CatchUp.antt =====
-- crates/poker-server/src/session.rs and crates/poker-client-core/src/core.rs: the server's replay of
-- a hand, at the client.
use vibe_poker.Base.{◌==◌, refl, arith, ℕ, true, List, [], ◌∷◌, some, get_elem?, all_of, ◌≡◌}
use vibe_poker.Game.Event.{hand_started}
use vibe_poker.Net.Protocol.{ServerMessage, ServerMessages}
use vibe_poker.Client.Core.{ClientCore}
use vibe_poker.Client.Inbound.{handle_inbound, handle_all}
use vibe_poker.Client.Projection.{is_at}
use vibe_poker.Client.Replay.{are_hand_messages, replay_absorbs}
use vibe_poker.Server.Store.{Store, is_some, replay_snapshot}
use vibe_poker.Server.Session.{to_messages}
use vibe_poker.Server.Sink.Buffers.{IsNodup}
use vibe_poker.Server.Sink.Links.{noted-same}
use vibe_poker.Server.Sink.Replay.{buffer-started}
use vibe_poker.Server.Sink.Steps.{HandStep, hand_steps, told_by}
use vibe_poker.Server.Sink.Told.{is_during, hand_steps-buffer}
use vibe_poker.Server.Sink.{BroadcastSink, noted, spread, on_event}

-- In the midst of a hand, after whatever events, prompts, submissions, departures and reconnections,
-- a seat's replay exists, and brings a client that is seated at the table, whichever of the hand's
-- messages it had processed, to where it would be had it processed the start of the hand and then
-- what the server told the seat, the events that the seat may see and its own prompts, in order and
-- each once, and submitted nothing. A prompt that was answered is among these. It is assumed that the
-- seats' links are different and that the seat's link exists.
pub replay_catches_up :
    (k : BroadcastSink) (steps : List HandStep) (hand_id deadline dealer deck_seed j m : ℕ)
    (w : Store) (seen : ServerMessages) (c : ClientCore)
    → all_of is_during steps ≡ true
    → IsNodup k.links
    → get_elem? k.links j ≡ some m
    → is_some (get_elem? w.links m) ≡ true
    → are_hand_messages seen ≡ true
    → is_at k.table_id c.view.phase ≡ true
    → let start = hand_started hand_id dealer deck_seed in
      let begun = on_event start (k, w) in
      let after = hand_steps hand_id deadline steps begun in
      let messages =
        ServerMessage.table_event k.table_id start ∷ told_by hand_id deadline j steps begun in
      (replay_snapshot hand_id m after.1 ≡ some messages)
      × ((handle_inbound
            (ServerMessage.replay_events hand_id (to_messages messages))
            (handle_all seen c).0).0
          ≡ (handle_all (to_messages messages) c).0)
unfolding handle_inbound on_event replay_snapshot
replay_catches_up k steps i deadline dealer seed j m w seen c h d g x hs at =
    let start = hand_started i dealer seed in
    let same = noted-same start k in
    let during =
      hand_steps-buffer i deadline steps (noted start k) i j m
        (ServerMessage.table_event k.table_id start ∷ []) (spread start k w) h (rw same.0 d)
        (rw same.0 g) (buffer-started k i dealer seed j m w d g x) in
    let told = told_by i deadline j steps (on_event start (k, w)) in
    let found : (i == i) ≡ true = ground arith in
    (
      rw (during, found) refl,
      replay_absorbs k.table_id i i dealer seed seen (to_messages told) c hs at,
    )
