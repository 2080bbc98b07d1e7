-- ===== src/Client/Submit.antt =====
-- crates/poker-client-core/src/core.rs: submitting an action, against what the view offers.
use Prim.Native.String.{String}
use vibe_poker.Base.{
  Bool, true, false, [], ◌∷◌, Option, none, some, ◌≡◌, refl, sym, ap, ◌∙◌, arith, ◌⊎◌, inl, inr,
  Bool-cases,
}
use vibe_poker.Game.Action.{Action, is_legal, LegalActions}
use vibe_poker.Net.Protocol.{ClientMessage, ServerMessage}
use vibe_poker.Client.View.{CurrentHand}
use vibe_poker.Client.Effect.{Intent}
use vibe_poker.Client.Core.{
  ActivePrompt, ClientCore, handle_intent, handle_submit_action, answer, submit, is_awaiting,
  map_hand, on_hand, stand_down,
}
use vibe_poker.Client.Inbound.{handle_inbound, rearm, rearmed}
use vibe_poker.Client.Run.{Shows, IsArmed, Backed, sent}

abbrev allows : Option LegalActions → Action → Bool
allows none a = false
allows (some l) a = is_legal l a

abbrev offered : Option CurrentHand → Action → Bool
offered none a = false
offered (some h) a = allows h.legal_actions a

-- Does the view show the action as legal?
abbrev pub offers : ClientCore → Action → Bool
offers c a = offered c.view.current_hand a

Shows-on :
    (b : Bool) (l : Option LegalActions) (q : Option ActivePrompt)
    → b ≡ true
    → Shows b l q
    → (p : ActivePrompt) × (q ≡ some p) × (l ≡ some p.legal)
Shows-on false l q e h = absurd (ground arith)
Shows-on true l none e h = elim h [ ]
Shows-on true l (some p) e h = (p, refl, h)

Shows-off :
    (b : Bool) (l : Option LegalActions) (q : Option ActivePrompt)
    → b ≡ false
    → Shows b l q
    → l ≡ none
Shows-off false l q e h = h
Shows-off true l q e h = absurd (ground arith)

-- The three ways in which a submission meets the hand in the view and the active prompt.
abbrev IsAnswered : Option CurrentHand → Option ActivePrompt → Action → Type 0
IsAnswered o q a =
    ((offered o a ≡ false) × (is_awaiting o ≡ false))
    ⊎ ((p : ActivePrompt) × (q ≡ some p)
        × (is_awaiting o ≡ true)
        × (offered o a ≡ is_legal p.legal a))

offered-answers :
    (o : Option CurrentHand) (q : Option ActivePrompt) (a : Action) → Backed o q → IsAnswered o q a
offered-answers none q a h = inl (refl, refl)
offered-answers (some g) q a h = elim (Bool-cases g.awaiting_action) [
  | inl on ↦
      (let (p, e, l) = Shows-on g.awaiting_action g.legal_actions q on h in
        inr (p, e, on, ap (λ o. allows o a) l))
  | inr off ↦ inl (ap (λ o. allows o a) (Shows-off g.awaiting_action g.legal_actions q off h), off)
]

-- Either nothing is offered, sent and changed, or the active prompt is answered.
abbrev pub IsSubmitted : ClientCore → Action → Type 0
IsSubmitted c a =
    ((offers c a ≡ false)
      × (sent (handle_intent (Intent.submit_action a) c).1 ≡ [])
      × ((handle_intent (Intent.submit_action a) c).0 ≡ c))
    ⊎ ((p : ActivePrompt) × (c.active_prompt ≡ some p)
        × (offers c a ≡ true)
        × (sent (handle_intent (Intent.submit_action a) c).1
            ≡ ClientMessage.submit_action p.table_id p.hand_id a ∷ []))

-- Under the view's invariant, submitting an action that the view shows as legal sends one message,
-- with the active prompt's table and hand and the action; submitting another action sends nothing
-- and changes nothing.
pub submit_action_lem : (c : ClientCore) (a : Action) → IsArmed c → IsSubmitted c a
unfolding handle_intent handle_submit_action answer submit
submit_action_lem c a h = elim (offered-answers c.view.current_hand c.active_prompt a h) [
  | inl (o, w) ↦ inl (o, rw w refl, rw w refl)
  | inr (p, e, w, l) ↦ elim (Bool-cases (is_legal p.legal a)) [
    | inl t ↦ inr (p, e, l ∙ t, rw w (rw e (rw t refl)))
    | inr f ↦ inl (l ∙ f, rw w (rw e (rw f refl)), rw w (rw e (rw f refl)))
  ]
]

submit_action-stand_down :
    (c : ClientCore) (a : Action)
    → IsArmed c
    → offers c a ≡ true
    → (handle_intent (Intent.submit_action a) c).0 ≡ on_hand stand_down c
unfolding handle_intent handle_submit_action answer submit
submit_action-stand_down c a h o = elim (offered-answers c.view.current_hand c.active_prompt a h) [
  | inl (n, w) ↦ absurd (ground arith)
  | inr (p, e, w, l) ↦ rw w (rw e (rw (sym l ∙ o) refl))
]

is_awaiting-stand_down : (o : Option CurrentHand) → is_awaiting (map_hand stand_down o) ≡ false
is_awaiting-stand_down none = refl
is_awaiting-stand_down (some g) = refl

offered-rearmed :
    (o : Option CurrentHand) (q : Option ActivePrompt) (a : Action) (b : Action)
    → Backed o q
    → offered o a ≡ true
    → offered (rearmed q (map_hand stand_down o)) b ≡ offered o b
offered-rearmed none q a b h t = absurd (ground arith)
offered-rearmed (some g) q a b h t = elim (offered-answers (some g) q a h) [
  | inl (n, w) ↦ absurd (ground arith)
  | inr (p, e, w, l) ↦
      (let (p', e', l') = Shows-on g.awaiting_action g.legal_actions q w h in rw e' (rw l' refl))
]

-- Under the view's invariant, once an offered action is submitted, no further submission sends
-- anything; and after the server's `ActionRejected` the client offers what it offered before.
pub submit_action-once :
    (c : ClientCore) (a : Action) (b : Action) (reason : String)
    → IsArmed c
    → offers c a ≡ true
    → let c1 = (handle_intent (Intent.submit_action a) c).0 in
      (sent (handle_intent (Intent.submit_action b) c1).1 ≡ [])
      × (offers (handle_inbound (ServerMessage.action_rejected reason) c1).0 b ≡ offers c b)
unfolding handle_intent handle_submit_action handle_inbound rearm
submit_action-once c a b reason h o = rw (submit_action-stand_down c a h o) (
  rw (is_awaiting-stand_down c.view.current_hand) refl,
  offered-rearmed c.view.current_hand c.active_prompt a b h o,
)
