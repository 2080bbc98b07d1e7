-- ===== src/Server/Agent/Answers.antt =====
-- crates/poker-server/src/remote_agent.rs and connection.rs: a prompt and its answer.
use vibe_poker.Base.{
  ℕ, true, false, some, get_elem?, get_elem?-update_self, get_elem?-update_same, ◌==◌, ◌≡◌, ◌∙◌,
  refl, ap, arith,
}
use vibe_poker.Game.Action.{Action, LegalActions, is_legal}
use vibe_poker.Server.Store.{
  Store, Connection, SeatLink, inner_of, current, pending_of, queued, replay_push, respond,
  deliver_to, deliver_action,
}
use vibe_poker.Server.Takeover.Prompts.{queued-pending}
use vibe_poker.Server.Agent.{
  RemoteAgent, prompt_of, pending_for, put_prompt, send_prompt, has_departed, ask, conclude,
}

-- A prompt that is put on a connection waits there.
prompt-waits :
    (g : RemoteAgent) (position : ℕ) (legal : LegalActions) (conn r : ℕ) (w : Store)
    (c : Connection)
    → get_elem? w.connections conn ≡ some c
    → pending_of (get_elem? (send_prompt g position legal conn r w).connections conn)
      ≡ some (pending_for g position legal r)
unfolding replay_push
prompt-waits g position legal conn r w c h =
    let p = pending_for g position legal r in
    get_elem?-update_same pending_of (queued (prompt_of g position legal))
      (put_prompt conn p w).connections conn conn (queued-pending (prompt_of g position legal))
    ∙ ap pending_of
        (get_elem?-update_self (λ x. record x { pending = some p }) w.connections conn h)

-- A seat whose connection is there and has not departed is asked; and when its client then submits
-- an action that is legal there, for the table and the hand of the prompt, that action is
-- delivered, and is what the agent returns.
pub act-answered :
    (g : RemoteAgent) (position : ℕ) (legal : LegalActions) (r conn : ℕ) (l : SeatLink)
    (c : Connection) (action : Action) (w : Store)
    → get_elem? w.links g.link ≡ some l
    → l.inner ≡ conn
    → get_elem? w.connections conn ≡ some c
    → c.departed ≡ false
    → is_legal legal action ≡ true
    → let asked = ask g position legal r w in
      let delivered = deliver_action conn g.table_id g.current_hand action asked.1 in
      (asked.0 ≡ true) × (delivered.1 ≡ true) × ((conclude g r delivered.0).0 ≡ action)
unfolding ask deliver_action deliver_to respond conclude replay_push
act-answered g position legal r conn l c action w hl inner hc here ok =
    let leads : current w g.link ≡ some conn = ap inner_of hl ∙ ap some inner in
    let present : has_departed (get_elem? w.connections conn) ≡ false = ap has_departed hc ∙ here in
    let waiting = prompt-waits g position legal conn r w c hc in
    let t : (g.table_id == g.table_id) ≡ true = ground arith in
    let h : (g.current_hand == g.current_hand) ≡ true = ground arith in
    let q : (r == r) ≡ true = ground arith in
    rw (leads, present, waiting, t, h, ok, q, q) (refl, refl, refl)
