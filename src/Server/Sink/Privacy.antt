-- ===== src/Server/Sink/Privacy.antt =====
-- crates/poker-server/src/table.rs, `BroadcastSink`: whose hole cards a seat gets to see.
use mathlib.Core.Path.{subst}
use vibe_poker.Base.{
  ℕ, suc, ◌+◌, Bool, true, not, ◌||◌, List, [], ◌∷◌, map, Option, none, some, get_elem?,
  get_elem?-update_keeps, all_of, ◌==◌, ◌≡◌, ◌∙◌, refl, sym, ap, arith, Bool-cases, inl, inr,
}
use vibe_poker.Core.Card.{Card}
use vibe_poker.Game.Event.{
  EngineEvent, SeatOutcome, HandResult, hand_started, hole_cards_dealt, board_dealt, action_taken,
  player_all_in, hand_ended,
}
use vibe_poker.Net.Protocol.{ServerMessage}
use vibe_poker.Server.Store.{
  Store, SeatLink, buffer, buffer_of, current, is_some, on_link, replay_begin, replay_end,
  replay_push, pushed,
}
use vibe_poker.Server.Store.Mail.{
  mail, box, current-on_link, links-send_current, send_current-mail, replay_push-buffer,
}
use vibe_poker.Server.Sink.Links.{current-fan}
use vibe_poker.Server.Sink.{
  BroadcastSink, fan, fan_each, broadcast_all, send_at, send_to, reveals, masked, filtered_hand_end,
  fan_end, begin_each, seal_each, spread,
}

-- An outcome shows no hole cards but the seat's own and those of the seats `shown`.
abbrev pub fair_outcome : (ℕ → Bool) → ℕ → SeatOutcome → Bool
fair_outcome shown j o = o.seat == j || (shown o.seat || not (is_some o.hole_cards))

abbrev pub fair_event : (ℕ → Bool) → ℕ → EngineEvent → Bool
fair_event shown j (hole_cards_dealt seat cards) = seat == j
fair_event shown j (hand_ended hand_id r) = all_of (fair_outcome shown j) r.seats
fair_event shown j _ = true

-- May the seat `j` get this message?
abbrev pub fair : (ℕ → Bool) → ℕ → ServerMessage → Bool
fair shown j (ServerMessage.table_event t e) = fair_event shown j e
fair shown j _ = true

-- All that the link's connection is sent, and all that its buffer keeps for a replay, passes `f`.
abbrev pub IsClean : (ServerMessage → Bool) → ℕ → Store → Type 0
IsClean f m w = (all_of f (mail w m) ≡ true) × (all_of f (buffer w m).events ≡ true)

-- Of the links, only that at the place `j` leads to the connection of the link `m`.
abbrev pub IsSole : List ℕ → ℕ → ℕ → ℕ → Store → Type 0
IsSole links i j m w =
    (n l : ℕ) → get_elem? links n ≡ some l → current w l ≡ current w m → i + n ≡ j

fan-IsClean :
    (f : ServerMessage → Bool) (msg : ServerMessage) (link m : ℕ) (w : Store)
    → (current w link ≡ current w m → f msg ≡ true)
    → IsClean f m w
    → IsClean f m (fan msg link w)
unfolding fan replay_push
fan-IsClean f msg link m w h (boxed, kept) =
    let keeps = λ (n : ℕ).
      current-on_link link n (λ l. record l { replay = pushed msg l.replay }) w (λ l. refl) in
    let w1 = replay_push msg link w in
    (
      send_current-mail f link m msg w1 (λ e. h (sym (keeps link) ∙ e ∙ keeps m))
          (subst (λ p. all_of f (box w p) ≡ true) (sym (keeps m)) boxed),
      subst (λ links. all_of f (buffer_of (get_elem? links m)).events ≡ true)
          (sym (links-send_current link msg w1))
          (replay_push-buffer f link m msg w (λ e. h (ap (current w) e)) kept),
    )

IsSole-tail :
    (links : List ℕ) (i j m link : ℕ) (msg : ServerMessage) (w : Store)
    → IsSole (link ∷ links) i j m w
    → IsSole links (i + 1) j m (fan msg link w)
IsSole-tail links i j m link msg w h n l g e =
    let x = h (suc n) l g (sym (current-fan msg link l w) ∙ e ∙ current-fan msg link m w) in
    omega (arith, x)

-- A message that all may get.
fan_each-IsClean :
    (f : ServerMessage → Bool) (msg : ServerMessage) (links : List ℕ) (m : ℕ) (w : Store)
    → f msg ≡ true
    → IsClean f m w
    → IsClean f m (fan_each msg links w)
unfolding fan_each
fan_each-IsClean f msg [] m w h c = c
fan_each-IsClean f msg (l ∷ ls) m w h c =
    fan_each-IsClean f msg ls m (fan msg l w) h (fan-IsClean f msg l m w (λ _. h) c)

masked-fair_outcome :
    (k : BroadcastSink) (shown : ℕ → Bool) (j : ℕ) (o : SeatOutcome)
    → ((s : ℕ) → reveals k s ≡ true → shown s ≡ true)
    → fair_outcome shown j (masked k j o) ≡ true
masked-fair_outcome k shown j o h = elim (Bool-cases (o.seat == j)) [
  | inl e ↦ rw (e, e) refl
  | inr e ↦ elim (Bool-cases (reveals k o.seat)) [
    | inl s ↦ rw (e, s, e, h o.seat s) refl
    | inr s ↦ rw (e, s, e) (ground arith)
  ]
]

masked-fair :
    (k : BroadcastSink) (shown : ℕ → Bool) (j : ℕ) (os : List SeatOutcome)
    → ((s : ℕ) → reveals k s ≡ true → shown s ≡ true)
    → all_of (fair_outcome shown j) (map (masked k j) os) ≡ true
masked-fair k shown j [] h = refl
masked-fair k shown j (o ∷ os) h =
    let one = masked-fair_outcome k shown j o h in
    let rest = masked-fair k shown j os h in ground arith

fan_end-IsClean :
    (k : BroadcastSink) (shown : ℕ → Bool) (hand_id : ℕ) (r : HandResult) (i j m : ℕ)
    (links : List ℕ) (w : Store)
    → ((s : ℕ) → reveals k s ≡ true → shown s ≡ true)
    → IsSole links i j m w
    → IsClean (fair shown j) m w
    → IsClean (fair shown j) m (fan_end k hand_id r i links w)
unfolding fan_end filtered_hand_end
fan_end-IsClean k shown hand_id r i j m [] w h sole c = c
fan_end-IsClean k shown hand_id r i j m (l ∷ ls) w h sole c =
    let msg = ServerMessage.table_event k.table_id (hand_ended hand_id (filtered_hand_end k i r)) in
    let at : current w l ≡ current w m → i ≡ j = λ e. omega (arith, sole 0 l refl e) in
    fan_end-IsClean k shown hand_id r (i + 1) j m ls (fan msg l w) h
      (IsSole-tail ls i j m l msg w sole)
      (fan-IsClean (fair shown j) msg l m w
        (λ e.
          subst (λ x. all_of (fair_outcome shown x) (map (masked k i) r.seats) ≡ true) (at e)
            (masked-fair k shown i r.seats h))
        c)

-- Emptying a replay buffer.
emptied-IsClean :
    (f : ServerMessage → Bool) (g : SeatLink → SeatLink) (link m : ℕ) (w : Store)
    → ((l : SeatLink) → (g l).inner ≡ l.inner)
    → ((l : SeatLink) → (g l).replay.events ≡ [])
    → IsClean f m w
    → IsClean f m (on_link link g w)
emptied-IsClean f g link m w h k (boxed, kept) = (
  subst (λ p. all_of f (box w p) ≡ true) (sym (current-on_link link m g w h)) boxed,
  get_elem?-update_keeps (λ o. all_of f (buffer_of o).events ≡ true) g w.links link m
      (λ e l _. ap (all_of f) (k l)) kept,
)

seal_each-IsClean :
    (f : ServerMessage → Bool) (links : List ℕ) (m : ℕ) (w : Store)
    → IsClean f m w
    → IsClean f m (seal_each links w)
unfolding seal_each replay_end
seal_each-IsClean f [] m w c = c
seal_each-IsClean f (l ∷ ls) m w c =
    seal_each-IsClean f ls m (replay_end l w) (emptied-IsClean f _ l m w (λ _. refl) (λ _. refl) c)

begin_each-IsClean :
    (f : ServerMessage → Bool) (hand_id : ℕ) (links : List ℕ) (m : ℕ) (w : Store)
    → IsClean f m w
    → IsClean f m (begin_each hand_id links w)
unfolding begin_each replay_begin
begin_each-IsClean f h [] m w c = c
begin_each-IsClean f h (l ∷ ls) m w c =
    begin_each-IsClean f h ls m (replay_begin h l w)
      (emptied-IsClean f _ l m w (λ _. refl) (λ _. refl) c)

-- The end of a hand reveals no more than `shown`.
abbrev pub Discloses : (ℕ → Bool) → EngineEvent → BroadcastSink → Type 0
Discloses shown (hand_ended _ _) k = (s : ℕ) → reveals k s ≡ true → shown s ≡ true
Discloses shown _ k = Unit

send_at-IsClean :
    (o : Option ℕ) (links : List ℕ) (t : ℕ) (shown : ℕ → Bool) (seat : ℕ) (cards : Card × Card)
    (j m : ℕ) (w : Store)
    → get_elem? links seat ≡ o
    → IsSole links 0 j m w
    → IsClean (fair shown j) m w
    → IsClean
        (fair shown j)
        m
        (send_at o (ServerMessage.table_event t (hole_cards_dealt seat cards)) w)
unfolding send_at
send_at-IsClean none links t shown seat cards j m w g sole c = c
send_at-IsClean (some l) links t shown seat cards j m w g sole c =
    fan-IsClean (fair shown j) _ l m w (λ e. let x = sole seat l g e in ground arith) c

pub spread-IsClean :
    (e : EngineEvent) (k : BroadcastSink) (shown : ℕ → Bool) (j m : ℕ) (w : Store)
    → Discloses shown e k
    → IsSole k.links 0 j m w
    → IsClean (fair shown j) m w
    → IsClean (fair shown j) m (spread e k w)
unfolding spread broadcast_all send_to
spread-IsClean (hand_started i d s) k shown j m w h sole c =
    fan_each-IsClean _ _ k.links m _ refl (begin_each-IsClean _ i k.links m w c)
spread-IsClean (hole_cards_dealt seat cards) k shown j m w h sole c =
    send_at-IsClean (get_elem? k.links seat) k.links k.table_id shown seat cards j m w refl sole c
spread-IsClean (board_dealt _ _) k shown j m w h sole c = fan_each-IsClean _ _ k.links m w refl c
spread-IsClean (action_taken _ _ _) k shown j m w h sole c = fan_each-IsClean _ _ k.links m w refl c
spread-IsClean (player_all_in _ _) k shown j m w h sole c = fan_each-IsClean _ _ k.links m w refl c
spread-IsClean (hand_ended i r) k shown j m w h sole c =
    seal_each-IsClean _ k.links m _ (fan_end-IsClean k shown i r 0 j m k.links w h sole c)
