-- ===== src/Server/Sink/Replay.antt =====
-- crates/poker-server/src/table.rs and session.rs: what a replay of the hand in progress gives.
use vibe_poker.Base.{
  ℕ, zero, suc, Bool, true, false, List, [], ◌∷◌, ◌++◌, map, Option, none, some, get_elem?, all_of,
  ◌==◌, if◌then◌else◌, ◌≡◌, ◌∙◌, refl, sym, ap, arith, Bool-cases, inl, inr,
}
use mathlib.Core.List.{append-nil, append_assoc}
use vibe_poker.Game.Event.{
  EngineEvent, HandResult, hand_started, hole_cards_dealt, board_dealt, action_taken, player_all_in,
  hand_ended,
}
use vibe_poker.Net.Protocol.{ServerMessage}
use vibe_poker.Server.Store.{Store, buffer, is_some, pushed, replay_snapshot}
use vibe_poker.Server.Sink.Buffers.{
  IsNodup, get_elem?-mem, buffer-fan, buffer-fan_ne, buffer-fan_each, buffer-begin_each,
  buffer-seal_each,
}
use vibe_poker.Server.Sink.Links.{noted-same}
use vibe_poker.Server.Sink.{
  BroadcastSink, broadcast_all, send_at, send_to, noted, spread, on_event, on_events,
}

-- Is the event within a hand, neither its start nor its end?
abbrev pub is_inner : EngineEvent → Bool
is_inner (hand_started _ _ _) = false
is_inner (hand_ended _ _) = false
is_inner _ = true

-- May the seat `j` see this event of a hand?
abbrev pub sees : ℕ → EngineEvent → Bool
sees j (hole_cards_dealt seat cards) = seat == j
sees j _ = true

-- The events that the seat `j` may see.
abbrev pub seen_by : ℕ → List EngineEvent → List EngineEvent
seen_by j [] = []
seen_by j (e ∷ es) = let rest = seen_by j es in if sees j e then e ∷ rest else rest

pub position_unique :
    (links : List ℕ) (i j m : ℕ)
    → IsNodup links
    → get_elem? links i ≡ some m
    → get_elem? links j ≡ some m
    → i ≡ j
position_unique [] i j m d h k = absurd (ground arith)
position_unique (l ∷ ls) zero zero m d h k = refl
position_unique (l ∷ ls) zero (suc j) m d h k = absurd (ground (arith, get_elem?-mem m ls j k, d.0))
position_unique (l ∷ ls) (suc i) zero m d h k = absurd (ground (arith, get_elem?-mem m ls i h, d.0))
position_unique (l ∷ ls) (suc i) (suc j) m d h k = ap suc (position_unique ls i j m d.1 h k)

-- A message to one seat reaches that seat's buffer alone.
buffer-send_at :
    (o : Option ℕ) (links : List ℕ) (seat j m : ℕ) (msg : ServerMessage) (w : Store)
    → get_elem? links seat ≡ o
    → IsNodup links
    → get_elem? links j ≡ some m
    → buffer (send_at o msg w) m ≡ (if seat == j then pushed msg (buffer w m) else buffer w m)
unfolding send_at
buffer-send_at none links seat j m msg w g d h = elim (Bool-cases (seat == j)) [
  | inl e ↦ (let same : seat ≡ j = ground arith in absurd (ground arith))
  | inr e ↦ rw e refl
]
buffer-send_at (some l) links seat j m msg w g d h = elim (Bool-cases (seat == j)) [
  | inl e ↦
      (let same : seat ≡ j = ground arith in
        let there : l ≡ m = ground arith in rw (e, there) (buffer-fan msg m w))
  | inr e ↦ rw e (
      buffer-fan_ne msg l m w (elim (Bool-cases (l == m)) [
        | inl q ↦
            (let there : l ≡ m = ground arith in
              let same = position_unique links seat j m d (rw (sym there) g) h in
              absurd (ground arith))
        | inr q ↦ q
      ]))
]

pub buffer-spread :
    (e : EngineEvent) (k : BroadcastSink) (j m : ℕ) (w : Store)
    → is_inner e ≡ true
    → IsNodup k.links
    → get_elem? k.links j ≡ some m
    → buffer (spread e k w) m ≡ (
        if sees j e
        then pushed (ServerMessage.table_event k.table_id e) (buffer w m)
        else buffer w m)
unfolding spread broadcast_all send_to
buffer-spread (hand_started _ _ _) k j m w i d h = absurd (ground arith)
buffer-spread (hole_cards_dealt seat cards) k j m w i d h =
    buffer-send_at (get_elem? k.links seat) k.links seat j m _ w refl d h
buffer-spread (board_dealt _ _) k j m w i d h = buffer-fan_each _ k.links j m w d h
buffer-spread (action_taken _ _ _) k j m w i d h = buffer-fan_each _ k.links j m w d h
buffer-spread (player_all_in _ _) k j m w i d h = buffer-fan_each _ k.links j m w d h
buffer-spread (hand_ended _ _) k j m w i d h = absurd (ground arith)

abbrev pub events_at : ℕ → List EngineEvent → List ServerMessage
events_at t es = map (ServerMessage.table_event t) es

-- What is in the buffer of the seat `j`, on the link `m`, after these events of a hand.
buffer-on_events :
    (es : List EngineEvent) (k : BroadcastSink) (hand_id j m : ℕ) (sent : List ServerMessage)
    (w : Store)
    → all_of is_inner es ≡ true
    → IsNodup k.links
    → get_elem? k.links j ≡ some m
    → buffer w m ≡ record { hand_id = some hand_id; events = sent }
    → buffer (on_events es (k, w)).1 m
      ≡ record { hand_id = some hand_id; events = sent ++ events_at k.table_id (seen_by j es) }
unfolding on_events on_event
buffer-on_events [] k i j m sent w h d g b = rw (b, append-nil sent) refl
buffer-on_events (e ∷ es) k i j m sent w h d g b =
    let (same, id) = noted-same e k in
    let msg = ServerMessage.table_event k.table_id e in
    let next = buffer-spread e k j m w (ground arith) d g in
    let rest =
      λ (sent1 : List ServerMessage)
          (b1 : buffer (spread e k w) m ≡ record { hand_id = some i; events = sent1 }).
        buffer-on_events es (noted e k) i j m sent1 (spread e k w) (ground arith) (rw same d)
          (rw same g) b1 in
    elim (Bool-cases (sees j e)) [
      | inl q ↦
          rest (sent ++ (msg ∷ [])) (next ∙ rw (q, b) refl)
          ∙ rw (id, q, append_assoc sent (msg ∷ []) (events_at k.table_id (seen_by j es))) refl
      | inr q ↦ rest sent (next ∙ rw (q, b) refl) ∙ rw (id, q) refl
    ]

pub buffer-started :
    (k : BroadcastSink) (hand_id dealer deck_seed j m : ℕ) (w : Store)
    → IsNodup k.links
    → get_elem? k.links j ≡ some m
    → is_some (get_elem? w.links m) ≡ true
    → buffer (spread (hand_started hand_id dealer deck_seed) k w) m ≡ record {
      hand_id = some hand_id;
      events = ServerMessage.table_event k.table_id (hand_started hand_id dealer deck_seed) ∷ [];
    }
unfolding spread broadcast_all
buffer-started k i dealer seed j m w d g x =
    buffer-fan_each _ k.links j m _ d g ∙ rw (buffer-begin_each i k.links j m w d g x) refl

buffer-ended :
    (k : BroadcastSink) (hand_id : ℕ) (r : HandResult) (j m : ℕ) (w : Store)
    → get_elem? k.links j ≡ some m
    → buffer (spread (hand_ended hand_id r) k w) m ≡ record { hand_id = none; events = [] }
unfolding spread
buffer-ended k i r j m w g = buffer-seal_each k.links j m _ g

links-on_events :
    (es : List EngineEvent) (k : BroadcastSink) (w : Store)
    → (on_events es (k, w)).0.links ≡ k.links
unfolding on_events on_event
links-on_events [] k w = refl
links-on_events (e ∷ es) k w = links-on_events es (noted e k) (spread e k w) ∙ (noted-same e k).0

-- A seat that asks for the events of the hand in progress gets them from the start of the hand, the
-- other seats' hole cards left out, in the order of the hand; when the hand has ended it gets none.
-- It is assumed that the seats' links are different and that the seat's link exists.
pub replay_snapshot-on_events :
    (k : BroadcastSink) (es : List EngineEvent) (hand_id dealer deck_seed j m : ℕ) (r : HandResult)
    (w : Store)
    → all_of is_inner es ≡ true
    → IsNodup k.links
    → get_elem? k.links j ≡ some m
    → is_some (get_elem? w.links m) ≡ true
    → let played = on_events (hand_started hand_id dealer deck_seed ∷ es) (k, w) in
      (replay_snapshot hand_id m played.1
        ≡ some (events_at k.table_id (hand_started hand_id dealer deck_seed ∷ seen_by j es)))
      × ((n : ℕ) → replay_snapshot n m (on_event (hand_ended hand_id r) played).1 ≡ none)
unfolding replay_snapshot on_events on_event
replay_snapshot-on_events k es i dealer seed j m r w h d g x =
    let e = hand_started i dealer seed in
    let started = buffer-started k i dealer seed j m w d g x in
    let same = noted-same e k in
    let during =
      buffer-on_events es (noted e k) i j m _ (spread e k w) h (rw same.0 d) (rw same.0 g)
        started in
    let found : (i == i) ≡ true = ground arith in
    (
      rw (during, found) refl,
      λ n.
          rw
            (buffer-ended (on_events (e ∷ es) (k, w)).0 i r j m (on_events (e ∷ es) (k, w)).1
              (rw (links-on_events (e ∷ es) k w) g))
            refl,
    )
