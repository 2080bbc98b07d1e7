-- ===== src/Client/Run.antt =====
-- crates/poker-client-core/src/core.rs: the client driven by its host, over a sequence of intents and
-- inbound messages.
use vibe_poker.Base.{List, [], ◌∷◌, ◌++◌, Option, none, some, Bool, true, false, ◌≡◌}
use vibe_poker.Game.Action.{LegalActions}
use vibe_poker.Net.Protocol.{ClientMessage, ServerMessage}
use vibe_poker.Client.View.{CurrentHand}
use vibe_poker.Client.Effect.{Effect, Intent, send}
use vibe_poker.Client.Core.{ActivePrompt, ClientCore, Handled, handle_intent}
use vibe_poker.Client.Inbound.{handle_inbound}

pub data Input : Type 0 where
  intent : Intent → Input
  inbound : ServerMessage → Input

unfoldable pub react : Input → ClientCore → Handled
unfolding handle_intent handle_inbound
react (intent i) c = handle_intent i c
react (inbound m) c = handle_inbound m c

unfoldable pub run : List Input → ClientCore → Handled
unfolding react
run [] c = (c, [])
run (x ∷ xs) c = let (c1, es) = react x c in let (c2, fs) = run xs c1 in (c2, es ++ fs)

-- The messages that a list of effects sends.
abbrev pub sent : List Effect → List ClientMessage
sent [] = []
sent (send m ∷ es) = m ∷ sent es
sent (e ∷ es) = sent es

-- While a hand asks for an action, what it shows as legal is its prompt's; else it shows nothing.
abbrev pub Shows : Bool → Option LegalActions → Option ActivePrompt → Type 0
Shows false legal prompt = legal ≡ none
Shows true legal none = ⊥
Shows true legal (some p) = legal ≡ some p.legal

abbrev pub Backed : Option CurrentHand → Option ActivePrompt → Type 0
Backed none prompt = Unit
Backed (some h) prompt = Shows h.awaiting_action h.legal_actions prompt

abbrev pub IsArmed : ClientCore → Type 0
IsArmed c = Backed c.view.current_hand c.active_prompt
