-- ===== src/Server/Store/Delivery.antt =====
-- crates/poker-server/src/connection.rs: an action reaches the prompt that waits for it, once.
use vibe_poker.Base.{
  ℕ, true, false, ◌∷◌, Option, none, some, get_elem?, get_elem?-update_self, get_elem?-update_keeps,
  ◌⊎◌, ◌≡◌, ◌∙◌, refl, ap, Bool-cases, Option-cases, inl, inr,
}
use vibe_poker.Game.Action.{Action}
use vibe_poker.Server.Store.{
  Store, PendingAction, on_connection, respond, waits, accepts, take_pending, pending_of,
  deliver_to, deliver_action,
}

-- What a delivered action did: the prompt asked for it, its receiver has got it, and is gone.
pub record IsDelivered (conn table_id hand_id : ℕ) (action : Action) (w v : Store) : Type 0 where
  pub prompt : PendingAction
  pub waited : pending_of (get_elem? w.connections conn) ≡ some prompt
  pub asked : accepts table_id hand_id action prompt ≡ true
  pub got : v.resolved ≡ ((prompt.responder, action) ∷ w.resolved)
  pub gone : pending_of (get_elem? v.connections conn) ≡ none

respond-cases :
    (r : ℕ) (action : Action) (w : Store)
    → ((respond r action w).1 ≡ true)
        × ((respond r action w).0.resolved ≡ ((r, action) ∷ w.resolved))
        × ((respond r action w).0.connections ≡ w.connections)
      ⊎ (respond r action w ≡ (w, false))
unfolding respond
respond-cases r action w = elim (Bool-cases (waits r w.waiting)) [
  | inl e ↦ inl (rw e (refl, refl, refl))
  | inr e ↦ inr (rw e refl)
]

taken-pending :
    (conn : ℕ) (w : Store)
    → pending_of (get_elem? (on_connection conn take_pending w).connections conn) ≡ none
taken-pending conn w = elim (Option-cases (get_elem? w.connections conn)) [
  | inl e ↦
      get_elem?-update_keeps (λ o. pending_of o ≡ none) take_pending w.connections conn conn
        (λ _ _ _. refl) (ap pending_of e)
  | inr (c, e) ↦ ap pending_of (get_elem?-update_self take_pending w.connections conn e)
]

deliver_to-cases :
    (o : Option PendingAction) (conn table_id hand_id : ℕ) (action : Action) (w : Store)
    → pending_of (get_elem? w.connections conn) ≡ o
    → let r = deliver_to conn o table_id hand_id action w in
      ((r.1 ≡ true) × IsDelivered conn table_id hand_id action w r.0)
      ⊎ ((r.1 ≡ false) × (r.0.resolved ≡ w.resolved))
unfolding deliver_to
deliver_to-cases none conn t h action w g = inr (refl, refl)
deliver_to-cases (some p) conn t h action w g = elim (Bool-cases (accepts t h action p)) [
  | inl e ↦ elim (respond-cases p.responder action (on_connection conn take_pending w)) [
    | inl (ok, got, same) ↦ inl (
        rw e (
          ok,
          record {
            prompt = p;
            waited = g;
            asked = e;
            got = got;
            gone = ap (λ cs. pending_of (get_elem? cs conn)) same ∙ taken-pending conn w;
          },
        ))
    | inr q ↦ inr (rw (e, q) (refl, refl))
  ]
  | inr e ↦ inr (rw e (refl, refl))
]

-- An action that a client submits either resolves the prompt that waits on its connection, which
-- asked for this table, this hand and an action that is legal there, and then nothing that is
-- submitted after it is delivered until there is a new prompt; or it resolves nothing, and is
-- reported as not delivered.
pub deliver_action-once :
    (conn table_id hand_id : ℕ) (action : Action) (w : Store)
    → let r = deliver_action conn table_id hand_id action w in
      ((r.1 ≡ true)
        × IsDelivered conn table_id hand_id action w r.0
        × ((t h : ℕ) (b : Action) → deliver_action conn t h b r.0 ≡ (r.0, false)))
      ⊎ ((r.1 ≡ false) × (r.0.resolved ≡ w.resolved))
unfolding deliver_action deliver_to
deliver_action-once conn t h action w =
    elim (deliver_to-cases (pending_of (get_elem? w.connections conn)) conn t h action w refl) [
      | inl (ok, d) ↦ inl (ok, d, λ u k b. rw d.gone refl)
      | inr q ↦ inr q
    ]
