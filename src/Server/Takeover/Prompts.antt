-- ===== src/Server/Takeover/Prompts.antt =====
-- crates/poker-server/src/table.rs, `reconnect_player`: the prompt moves to the new connection.
use vibe_poker.Base.{
  ℕ, true, false, ◌∷◌, ◌==◌, refl, Option, none, some, get_elem?, get_elem?-update_self,
  get_elem?-update_ne, get_elem?-update_same, get_elem?-lt, get_elem?_total, length-update, ◌≡◌,
  ◌≢◌, ◌∙◌, sym, ap, arith,
}
use vibe_poker.Game.Action.{Action, is_legal}
use vibe_poker.Net.Protocol.{ServerMessage}
use vibe_poker.Server.Store.{
  Store, Connection, SeatLink, PendingAction, current, inner_of, on_connection, on_link, pending_of,
  queued, take_pending, deliver_action, deliver_to, respond, waits, try_send,
}
use vibe_poker.Server.Table.{Table, seat_infos}
use vibe_poker.Server.Takeover.{take_over, migrate, reprompt}

abbrev pending_on : Store → ℕ → Option PendingAction
pending_on w conn = pending_of (get_elem? w.connections conn)

pub queued-pending : (msg : ServerMessage) (c : Connection) → (queued msg c).pending ≡ c.pending
unfolding queued
queued-pending msg c = ground arith

pending-try_send :
    (conn n : ℕ) (msg : ServerMessage) (w : Store)
    → pending_on (try_send conn msg w) n ≡ pending_on w n
pending-try_send conn n msg w =
    get_elem?-update_same pending_of (queued msg) w.connections conn n (queued-pending msg)

put-pending :
    (conn : ℕ) (p : PendingAction) (w : Store) (c : Connection)
    → get_elem? w.connections conn ≡ some c
    → pending_on (on_connection conn (λ d. record d { pending = some p }) w) conn ≡ some p
put-pending conn p w c g =
    ap pending_of (get_elem?-update_self (λ d. record d { pending = some p }) w.connections conn g)

-- The move itself, from the store in which the old connection's slot has been read.
moved :
    (deadline conn link old : ℕ) (w : Store) (c d : Connection) (l : SeatLink) (p : PendingAction)
    → get_elem? w.links link ≡ some l
    → old ≢ conn
    → get_elem? w.connections old ≡ some d
    → get_elem? w.connections conn ≡ some c
    → let v =
        migrate deadline
          (some p)
          conn
          (on_link link (λ x. record x { inner = conn }) (on_connection old take_pending w)) in
      (current v link ≡ some conn)
      × (pending_on v old ≡ none)
      × (pending_on v conn ≡ some p)
      × (v.waiting ≡ w.waiting)
      × (v.resolved ≡ w.resolved)
unfolding migrate
moved deadline conn link old w c d l p gl apart gd gc =
    let w1 = on_link link (λ x. record x { inner = conn }) (on_connection old take_pending w) in
    let w2 = on_connection conn (λ x. record x { pending = some p }) w1 in
    let msg = reprompt deadline p in
    let emptied = ap pending_of (get_elem?-update_self take_pending w.connections old gd) in
    let here = get_elem?-update_ne take_pending w.connections old conn apart ∙ gc in
    (
      ap inner_of (get_elem?-update_self (λ x. record x { inner = conn }) w.links link gl),
      pending-try_send conn old msg w2
          ∙ ap pending_of (
              get_elem?-update_ne (λ x. record x { pending = some p }) w1.connections conn old
                (λ e. apart (sym e)))
          ∙ emptied,
      pending-try_send conn conn msg w2 ∙ put-pending conn p w1 c here,
      refl,
      refl,
    )

queued-some :
    (conn n : ℕ) (msg : ServerMessage) (w : Store) {c : Connection}
    → get_elem? w.connections n ≡ some c
    → (d : Connection) × (get_elem? (try_send conn msg w).connections n ≡ some d)
queued-some conn n msg w {c} g =
    get_elem?_total (try_send conn msg w).connections n
      (rw (length-update (queued msg) w.connections conn) (get_elem?-lt w.connections n g))

-- An action that answers the prompt on a connection is delivered, if the prompt's receiver waits.
delivers :
    (conn : ℕ) (p : PendingAction) (action : Action) (v : Store)
    → pending_on v conn ≡ some p
    → waits p.responder v.waiting ≡ true
    → is_legal p.legal action ≡ true
    → let delivered = deliver_action conn p.table_id p.hand_id action v in
      (delivered.1 ≡ true) × (delivered.0.resolved ≡ ((p.responder, action) ∷ v.resolved))
unfolding deliver_action deliver_to respond
delivers conn p action v h waiting ok =
    let t : (p.table_id == p.table_id) ≡ true = ground arith in
    let k : (p.hand_id == p.hand_id) ≡ true = ground arith in rw (h, t, k, ok, waiting) (refl, refl)

refuses :
    (old t h : ℕ) (action : Action) (v : Store)
    → pending_on v old ≡ none
    → deliver_action old t h action v ≡ (v, false)
unfolding deliver_action deliver_to
refuses old t h action v e = rw e refl

taken_over :
    (conn i link old : ℕ) (t : Table) (w : Store) (c d : Connection) (l : SeatLink)
    (p : PendingAction)
    → get_elem? w.links link ≡ some l
    → l.inner ≡ old
    → old ≢ conn
    → get_elem? w.connections old ≡ some d
    → d.pending ≡ some p
    → get_elem? w.connections conn ≡ some c
    → let v = take_over conn i link t w in
      (current v link ≡ some conn)
      × (pending_on v old ≡ none)
      × (pending_on v conn ≡ some p)
      × (v.waiting ≡ w.waiting)
      × (v.resolved ≡ w.resolved)
unfolding take_over
taken_over conn i link old t w c d l p gl inner apart gd gp gc =
    let msg = ServerMessage.joined_table t.id i (seat_infos t) in
    let w1 = try_send conn msg w in
    let leads : current w1 link ≡ some old = ap inner_of gl ∙ ap some inner in
    let waits : pending_on w1 old ≡ some p =
      pending-try_send conn old msg w ∙ ap pending_of gd ∙ gp in
    let (c1, gc1) = queued-some conn conn msg w gc in
    let (d1, gd1) = queued-some conn old msg w gd in
    rw (leads, waits) (moved t.config.action_deadline conn link old w1 c1 d1 l p gl apart gd1 gc1)

-- A new connection takes over a seat while a prompt waits on the seat's old connection, and its
-- receiver waits for the action: the link then leads to the new connection, and the prompt waits
-- there alone. A legal action that the new connection then submits, for the table and the hand of the
-- prompt, is delivered to that receiver, and nothing that the old connection submits is delivered.
pub take_over-moves :
    (conn i link old : ℕ) (t : Table) (w : Store) (c d : Connection) (l : SeatLink)
    (p : PendingAction) (action : Action)
    → get_elem? w.links link ≡ some l
    → l.inner ≡ old
    → old ≢ conn
    → get_elem? w.connections old ≡ some d
    → d.pending ≡ some p
    → get_elem? w.connections conn ≡ some c
    → waits p.responder w.waiting ≡ true
    → is_legal p.legal action ≡ true
    → let v = take_over conn i link t w in
      let delivered = deliver_action conn p.table_id p.hand_id action v in
      (current v link ≡ some conn)
      × (pending_of (get_elem? v.connections old) ≡ none)
      × (pending_of (get_elem? v.connections conn) ≡ some p)
      × (delivered.1 ≡ true)
      × (delivered.0.resolved ≡ ((p.responder, action) ∷ w.resolved))
      × ((table_id hand_id : ℕ) (b : Action) → deliver_action old table_id hand_id b v ≡ (v, false))
take_over-moves conn i link old t w c d l p action gl inner apart gd gp gc waiting ok =
    let v = take_over conn i link t w in
    let (leads, emptied, here, same, before) =
      taken_over conn i link old t w c d l p gl inner apart gd gp gc in
    let (sent, got) = delivers conn p action v here (ap (waits p.responder) same ∙ waiting) ok in
    (
      leads,
      emptied,
      here,
      sent,
      got ∙ ap (◌∷◌ (p.responder, action)) before,
      λ table_id hand_id b. refuses old table_id hand_id b v emptied,
    )
