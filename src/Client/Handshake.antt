-- ===== src/Client/Handshake.antt =====
-- crates/poker-client-core/src/core.rs: the handshake, before and after the transport opens.
use vibe_poker.Base.{Bool, true, false, [], ◌∷◌, none, ◌≡◌, refl, arith}
use vibe_poker.Net.Protocol.{ClientMessage}
use vibe_poker.Client.Effect.{Intent}
use vibe_poker.Client.Core.{ClientCore, handle_intent, open_pending, queue_or_send_handshake}
use vibe_poker.Client.Run.{intent, react, run, sent}

abbrev pub is_handshake : Intent → Bool
is_handshake (Intent.register _ _ _ _) = true
is_handshake (Intent.authenticate_password _ _ _) = true
is_handshake (Intent.authenticate_session _ _) = true
is_handshake _ = false

-- On a closed transport with nothing queued, a handshake intent before `ConnectionOpened` and one
-- after it lead to the same client and send the same one message, and a second `ConnectionOpened`
-- sends nothing more.
pub handshake_comm :
    (c : ClientCore) (i : Intent)
    → is_handshake i ≡ true
    → c.connection_open ≡ false
    → c.pending_handshake ≡ none
    → let early = run (intent i ∷ intent Intent.connection_opened ∷ []) c in
      let late = run (intent Intent.connection_opened ∷ intent i ∷ []) c in
      (early.0 ≡ late.0)
      × (sent early.1 ≡ sent late.1)
      × ((m : ClientMessage) × (sent early.1 ≡ m ∷ []))
      × (sent (handle_intent Intent.connection_opened early.0).1 ≡ [])
unfolding run react handle_intent open_pending queue_or_send_handshake
handshake_comm c (Intent.register _ _ _ _) h closed none_queued =
    rw closed (rw none_queued (refl, refl, (_, refl), refl))
handshake_comm c (Intent.authenticate_password _ _ _) h closed none_queued =
    rw closed (rw none_queued (refl, refl, (_, refl), refl))
handshake_comm c (Intent.authenticate_session _ _) h closed none_queued =
    rw closed (rw none_queued (refl, refl, (_, refl), refl))
handshake_comm c _ h closed none_queued = absurd (ground arith)
