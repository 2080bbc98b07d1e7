-- ===== src/Server/Sink/Told.antt =====
-- crates/poker-server: what the steps of a hand leave in a seat's replay buffer, prompts included.
use vibe_poker.Base.{
  ℕ, ◌&&◌, Bool, true, false, List, [], ◌∷◌, ◌++◌, Option, none, some, get_elem?,
  get_elem?-update_same, ◌==◌, if◌then◌else◌, ◌≡◌, ◌∙◌, refl, sym, ap, arith, Bool-cases, inl, inr,
  all_of,
}
use mathlib.Core.List.{append-nil, append_assoc}
use vibe_poker.Game.Action.{Action, LegalActions}
use vibe_poker.Net.Protocol.{ServerMessage}
use vibe_poker.Server.Store.{
  Store, PendingAction, ReplayBuffer, buffer, buffer_of, pushed, replay_push, current, respond,
  deliver_to, deliver_action, pending_of, accepts, waits, try_send, on_link, cancel_pending,
  SeatLink,
}
use vibe_poker.Server.Table.{Table, seat_infos}
use vibe_poker.Server.Takeover.{
  seat_link_for, migrate, take_at, pending_at, take_over, reconnect_at, reconnect_player,
}
use vibe_poker.Server.Agent.{
  RemoteAgent, prompt_of, put_prompt, pending_for, has_departed, ask, ask_on, conclude, concluded,
  clean_up, sent_on,
}
use vibe_poker.Server.Sink.{BroadcastSink, on_event}
use vibe_poker.Server.Sink.Buffers.{IsNodup, buffer-push, buffer-push_ne}
use vibe_poker.Server.Sink.Links.{noted-same}
use vibe_poker.Server.Sink.Replay.{is_inner, sees, buffer-spread, position_unique}
use vibe_poker.Server.Sink.Steps.{
  HandStep, shown, asked, submitted, answered, departed, reconnected, agent, ask_seat,
  conclude_seat, hand_step, hand_steps, told, told_by,
}

links-deliver_to :
    (conn : ℕ) (o : Option PendingAction) (t h : ℕ) (a : Action) (w : Store)
    → (deliver_to conn o t h a w).0.links ≡ w.links
unfolding deliver_to respond
links-deliver_to conn none t h a w = refl
links-deliver_to conn (some p) t h a w = elim (Bool-cases (accepts t h a p)) [
  | inl e ↦ elim (Bool-cases (waits p.responder w.waiting)) [
    | inl q ↦ rw (e, q) refl
    | inr q ↦ rw (e, q) refl
  ]
  | inr e ↦ rw e refl
]

links-clean_up : (o : Option ℕ) (w : Store) → (clean_up o w).links ≡ w.links
links-clean_up none w = refl
links-clean_up (some conn) w = refl

links-concluded :
    (o : Option Action) (g : RemoteAgent) (r : ℕ) (w : Store)
    → (concluded o g r w).1.links ≡ w.links
links-concluded (some a) g r w = refl
links-concluded none g r w = links-clean_up (current w g.link) _

links-take_at : (o : Option ℕ) (w : Store) → (take_at o w).links ≡ w.links
links-take_at none w = refl
links-take_at (some conn) w = refl

links-migrate :
    (deadline : ℕ) (o : Option PendingAction) (conn : ℕ) (w : Store)
    → (migrate deadline o conn w).links ≡ w.links
unfolding migrate
links-migrate deadline none conn w = refl
links-migrate deadline (some p) conn w = refl

-- A take-over moves a link, and keeps what it has for a replay.
buffer-reconnect_at :
    (o : Option (ℕ × ℕ)) (conn : ℕ) (t : Table) (m : ℕ) (w : Store)
    → buffer (reconnect_at o conn t w).1 m ≡ buffer w m
unfolding reconnect_at take_over
buffer-reconnect_at none conn t m w = refl
buffer-reconnect_at (some (i, link)) conn t m w =
    let w1 = try_send conn (ServerMessage.joined_table t.id i (seat_infos t)) w in
    let old = current w1 link in
    let at = λ (links : List SeatLink). buffer_of (get_elem? links m) in
    ap at (
      links-migrate t.config.action_deadline (pending_at old w1) conn
        (on_link link (λ l. record l { inner = conn }) (take_at old w1)))
    ∙ get_elem?-update_same buffer_of (λ l. record l { inner = conn }) (take_at old w1).links link m
        (λ l. refl)
    ∙ ap at (links-take_at old w1)

-- A prompt goes to the buffer of the agent's link, if the agent asks.
buffer-ask_on :
    (o : Option ℕ) (g : RemoteAgent) (position : ℕ) (legal : LegalActions) (r m : ℕ) (w : Store)
    → let out = ask_on o g position legal r w in
      buffer out.1 m ≡ (
        if g.link == m && out.0
        then pushed (prompt_of g position legal) (buffer w m)
        else buffer w m)
buffer-ask_on none g position legal r m w = elim (Bool-cases (g.link == m)) [
  | inl e ↦ rw e refl
  | inr e ↦ rw e refl
]
buffer-ask_on (some conn) g position legal r m w =
    elim (Bool-cases (has_departed (get_elem? w.connections conn))) [
      | inl q ↦ elim (Bool-cases (g.link == m)) [ inl e ↦ rw (q, e) refl | inr e ↦ rw (q, e) refl ]
      | inr q ↦ elim (Bool-cases (g.link == m)) [
        | inl e ↦
            (let same : g.link ≡ m = ground arith in
              let msg = prompt_of g position legal in
              let sent = try_send conn msg (put_prompt conn (pending_for g position legal r) w) in
              rw (q, e) (ap (λ l. buffer (replay_push msg l sent) m) same ∙ buffer-push msg m sent))
        | inr e ↦ rw (q, e) (buffer-push_ne (prompt_of g position legal) g.link m _ e)
      ]
    ]

-- The link of a seat is the link of the seat `j` just if the seat is `j`.
link-seat :
    (links : List ℕ) (seat j l m : ℕ)
    → IsNodup links
    → get_elem? links seat ≡ some l
    → get_elem? links j ≡ some m
    → (l == m) ≡ (seat == j)
link-seat links seat j l m d g h = elim (Bool-cases (seat == j)) [
  | inl e ↦ (let same : seat ≡ j = ground arith in let there : l ≡ m = ground arith in ground arith)
  | inr e ↦ elim (Bool-cases (l == m)) [
    | inl q ↦
        (let there : l ≡ m = ground arith in
          let same = position_unique links seat j m d (g ∙ ap (λ x. some x) there) h in
          absurd (ground arith))
    | inr q ↦ q ∙ sym e
  ]
]

-- Is the step none that starts or ends the hand?
abbrev pub is_during : HandStep → Bool
is_during (shown e) = is_inner e
is_during _ = true

abbrev pub during : ℕ → List ServerMessage → ReplayBuffer
during hand_id sent = record { hand_id = some hand_id; events = sent }

if-during :
    (b : Bool) (hand_id : ℕ) (sent : List ServerMessage) (msg : ServerMessage)
    → (if b then pushed msg (during hand_id sent) else during hand_id sent)
      ≡ during hand_id (sent ++ (if b then msg ∷ [] else []))
if-during true i sent msg = refl
if-during false i sent msg = ap (during i) (sym (append-nil sent))

module _ (hand_id deadline : ℕ) where
  ask_seat-buffer :
      (o : Option ℕ) (k : BroadcastSink) (seat j m : ℕ) (legal : LegalActions) (r : ℕ) (w : Store)
      → get_elem? k.links seat ≡ o
      → IsNodup k.links
      → get_elem? k.links j ≡ some m
      → let out = ask_seat hand_id deadline o k seat legal r w in
        buffer out.1 m ≡ (
          if seat == j && out.0
          then pushed (prompt_of (agent hand_id deadline k 0) seat legal) (buffer w m)
          else buffer w m)
  unfolding ask_seat ask
  ask_seat-buffer none k seat j m legal r w g d h = elim (Bool-cases (seat == j)) [
    | inl e ↦ rw e refl
    | inr e ↦ rw e refl
  ]
  ask_seat-buffer (some l) k seat j m legal r w g d h =
      let a = agent hand_id deadline k l in
      rw (sym (link-seat k.links seat j l m d g h)) (buffer-ask_on (current w l) a seat legal r m w)

  links-conclude_seat :
      (o : Option ℕ) (k : BroadcastSink) (r : ℕ) (w : Store)
      → (conclude_seat hand_id deadline o k r w).links ≡ w.links
  unfolding conclude_seat conclude
  links-conclude_seat none k r w = refl
  links-conclude_seat (some l) k r w =
      links-concluded (sent_on r w.resolved) (agent hand_id deadline k l) r w

  hand_step-buffer :
      (x : HandStep) (k : BroadcastSink) (i j m : ℕ) (sent : List ServerMessage) (w : Store)
      → is_during x ≡ true
      → IsNodup k.links
      → get_elem? k.links j ≡ some m
      → buffer w m ≡ during i sent
      → buffer (hand_step hand_id deadline x (k, w)).1 m
        ≡ during i (sent ++ told hand_id deadline j x (k, w))
  unfolding hand_step told on_event deliver_action cancel_pending reconnect_player
  hand_step-buffer (shown e) k i j m sent w h d g b =
      buffer-spread e k j m w h d g
      ∙ rw b (if-during (sees j e) i sent (ServerMessage.table_event k.table_id e))
  hand_step-buffer (asked seat legal r) k i j m sent w h d g b =
      let out = ask_seat hand_id deadline (get_elem? k.links seat) k seat legal r w in
      ask_seat-buffer (get_elem? k.links seat) k seat j m legal r w refl d g
      ∙ rw b (
          if-during (seat == j && out.0) i sent (prompt_of (agent hand_id deadline k 0) seat legal))
  hand_step-buffer (submitted conn t n a) k i j m sent w h d g b =
      ap (λ links. buffer_of (get_elem? links m))
        (links-deliver_to conn (pending_of (get_elem? w.connections conn)) t n a w)
      ∙ b
      ∙ ap (during i) (sym (append-nil sent))
  hand_step-buffer (answered seat r) k i j m sent w h d g b =
      ap (λ links. buffer_of (get_elem? links m))
        (links-conclude_seat (get_elem? k.links seat) k r w)
      ∙ b
      ∙ ap (during i) (sym (append-nil sent))
  hand_step-buffer (departed conn) k i j m sent w h d g b =
      b ∙ ap (during i) (sym (append-nil sent))
  hand_step-buffer (reconnected conn player_id t) k i j m sent w h d g b =
      buffer-reconnect_at (seat_link_for player_id t) conn t m w
      ∙ b
      ∙ ap (during i) (sym (append-nil sent))

  hand_step-links :
      (x : HandStep) (k : BroadcastSink) (w : Store)
      → (hand_step hand_id deadline x (k, w)).0.links ≡ k.links
  unfolding hand_step on_event
  hand_step-links (shown e) k w = (noted-same e k).0
  hand_step-links (asked seat legal r) k w = refl
  hand_step-links (submitted conn t n a) k w = refl
  hand_step-links (answered seat r) k w = refl
  hand_step-links (departed conn) k w = refl
  hand_step-links (reconnected conn player_id t) k w = refl

  -- After the steps, the buffer of the seat `j` has got what they told the seat, in order.
  pub hand_steps-buffer :
      (xs : List HandStep) (k : BroadcastSink) (i j m : ℕ) (sent : List ServerMessage) (w : Store)
      → all_of is_during xs ≡ true
      → IsNodup k.links
      → get_elem? k.links j ≡ some m
      → buffer w m ≡ during i sent
      → buffer (hand_steps hand_id deadline xs (k, w)).1 m
        ≡ during i (sent ++ told_by hand_id deadline j xs (k, w))
  unfolding hand_steps told_by
  hand_steps-buffer [] k i j m sent w h d g b = b ∙ ap (during i) (sym (append-nil sent))
  hand_steps-buffer (x ∷ xs) k i j m sent w h d g b =
      let next = hand_step hand_id deadline x (k, w) in
      let told_now = told hand_id deadline j x (k, w) in
      let same = hand_step-links x k w in
      hand_steps-buffer xs next.0 i j m (sent ++ told_now) next.1 (ground arith) (rw same d)
        (rw same g) (hand_step-buffer x k i j m sent w (ground arith) d g b)
      ∙ ap (during i) (append_assoc sent told_now (told_by hand_id deadline j xs next))
