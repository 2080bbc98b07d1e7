-- ===== src/Server/Sink/Hands.antt =====
-- crates/poker-server/src/table.rs, `BroadcastSink`: what the seats see of a whole hand.
use vibe_poker.Base.{
  ℕ, ◌+◌, Bool, true, false, not, ◌&&◌, ◌||◌, List, [], ◌∷◌, get_elem?, ◌++◌, all_of, length, leb,
  ◌==◌, if◌then◌else◌, ◌≡◌, ◌∙◌, refl, sym, ap, arith,
}
use vibe_poker.Game.Event.{
  EngineEvent, HandResult, hand_started, hole_cards_dealt, board_dealt, action_taken, player_all_in,
  hand_ended,
}
use vibe_poker.Server.Store.{Store}
use vibe_poker.Server.Sink.Privacy.{fair, IsClean, IsSole, Discloses, spread-IsClean}
use vibe_poker.Server.Sink.Links.{current-spread, noted-same}
use vibe_poker.Server.Sink.{
  BroadcastSink, new_sink, mem, non_folded_from, is_showdown, reveals, is_fold, noted, spread,
  on_event, on_events,
}

-- How many board cards the events of a hand deal.
abbrev pub board_count : List EngineEvent → ℕ
board_count [] = 0
board_count (board_dealt street cards ∷ es) = length cards + board_count es
board_count (_ ∷ es) = board_count es

-- Does the seat fold in these events?
abbrev pub folds : ℕ → List EngineEvent → Bool
folds s [] = false
folds s (action_taken seat action pot_total ∷ es) =
    let rest = folds s es in (is_fold action && seat == s) || rest
folds s (_ ∷ es) = folds s es

abbrev standing : List EngineEvent → ℕ → List ℕ → ℕ
standing es i [] = 0
standing es i (link ∷ links) = (if folds i es then 0 else 1) + standing es (i + 1) links

-- Was there a showdown, with five board cards and two seats or more still in the hand?
abbrev pub shown_by : List ℕ → List EngineEvent → ℕ → Bool
shown_by links es s = leb 5 (board_count es) && leb 2 (standing es 0 links) && not (folds s es)

abbrev pub is_within : EngineEvent → Bool
is_within (hand_ended _ _) = false
is_within _ = true

-- What the sink has kept after events within a hand.
record IsCounted (es : List EngineEvent) (k after : BroadcastSink) : Type 0 where
  links_same : after.links ≡ k.links
  cards : after.board_cards ≡ k.board_cards + board_count es
  folded : (s : ℕ) → mem s after.folded ≡ (folds s es || mem s k.folded)

mem-if :
    (b : Bool) (s seat : ℕ) (rest : Bool) (folded : List ℕ)
    → (rest || mem s (if b then seat ∷ folded else folded))
      ≡ (((b && seat == s) || rest) || mem s folded)
mem-if false s seat rest folded = refl
mem-if true s seat rest folded = ground arith

||-false : (b : Bool) → (b || false) ≡ b
||-false true = refl
||-false false = refl

on_events-IsCounted :
    (es : List EngineEvent) (k : BroadcastSink) (w : Store)
    → all_of is_within es ≡ true
    → IsCounted es k (on_events es (k, w)).0
unfolding on_events on_event noted
on_events-IsCounted [] k w h = record { links_same = refl; cards = omega arith; folded = λ s. refl }
on_events-IsCounted (hand_started i d s ∷ es) k w h =
    let ih = on_events-IsCounted es (noted (hand_started i d s) k) _ h in
    record { links_same = ih.links_same; cards = ih.cards; folded = ih.folded }
on_events-IsCounted (hole_cards_dealt s cards ∷ es) k w h =
    let ih = on_events-IsCounted es (noted (hole_cards_dealt s cards) k) _ h in
    record { links_same = ih.links_same; cards = ih.cards; folded = ih.folded }
on_events-IsCounted (player_all_in s n ∷ es) k w h =
    let ih = on_events-IsCounted es (noted (player_all_in s n) k) _ h in
    record { links_same = ih.links_same; cards = ih.cards; folded = ih.folded }
on_events-IsCounted (board_dealt street cards ∷ es) k w h =
    let ih = on_events-IsCounted es (noted (board_dealt street cards) k) _ h in
    record { links_same = ih.links_same; cards = omega (arith, ih.cards); folded = ih.folded }
on_events-IsCounted (action_taken seat action n ∷ es) k w h =
    let ih = on_events-IsCounted es (noted (action_taken seat action n) k) _ h in
    record {
      links_same = ih.links_same;
      cards = ih.cards;
      folded = λ s. ih.folded s ∙ mem-if (is_fold action) s seat (folds s es) k.folded;
    }
on_events-IsCounted (hand_ended _ _ ∷ es) k w h = absurd (ground arith)

non_folded_from-standing :
    (es : List EngineEvent) (folded : List ℕ) (i : ℕ) (links : List ℕ)
    → ((s : ℕ) → mem s folded ≡ folds s es)
    → non_folded_from folded i links ≡ standing es i links
non_folded_from-standing es folded i [] h = refl
non_folded_from-standing es folded i (l ∷ ls) h =
    rw (h i, non_folded_from-standing es folded (i + 1) ls h) refl

-- The sink reveals the seats that the events of the hand say it should.
reveals_lem :
    (t : ℕ) (links : List ℕ) (es : List EngineEvent) (w : Store)
    → all_of is_within es ≡ true
    → (s : ℕ) → reveals (on_events es (new_sink t links, w)).0 s ≡ shown_by links es s
unfolding is_showdown
reveals_lem t links es w h s =
    let c = on_events-IsCounted es (new_sink t links) w h in
    let same : (x : ℕ) → mem x (on_events es (new_sink t links, w)).0.folded ≡ folds x es =
      λ x. c.folded x ∙ ||-false (folds x es) in
    let dealt : (on_events es (new_sink t links, w)).0.board_cards ≡ board_count es =
      omega (arith, c.cards) in
    rw (dealt, c.links_same, same s, non_folded_from-standing es _ 0 links same) refl

Discloses-within :
    (e : EngineEvent) (k : BroadcastSink) (shown : ℕ → Bool)
    → is_within e ≡ true
    → Discloses shown e k
Discloses-within (hand_started _ _ _) k shown h = tt
Discloses-within (hole_cards_dealt _ _) k shown h = tt
Discloses-within (board_dealt _ _) k shown h = tt
Discloses-within (action_taken _ _ _) k shown h = tt
Discloses-within (player_all_in _ _) k shown h = tt
Discloses-within (hand_ended _ _) k shown h = absurd (ground arith)

IsSole-spread :
    (e : EngineEvent) (k : BroadcastSink) (j m : ℕ) (w : Store)
    → IsSole k.links 0 j m w
    → IsSole (noted e k).links 0 j m (spread e k w)
IsSole-spread e k j m w sole n l g q =
    sole n l (sym (ap (λ links. get_elem? links n) (noted-same e k).0) ∙ g)
      (sym (current-spread e k l w) ∙ q ∙ current-spread e k m w)

on_event-IsClean :
    (e : EngineEvent) (k : BroadcastSink) (shown : ℕ → Bool) (j m : ℕ) (w : Store)
    → Discloses shown e k
    → IsSole k.links 0 j m w
    → IsClean (fair shown j) m w
    → IsClean (fair shown j) m (on_event e (k, w)).1
unfolding on_event
on_event-IsClean = spread-IsClean

-- The events within a hand disclose nothing to all.
on_events-IsClean :
    (es : List EngineEvent) (k : BroadcastSink) (shown : ℕ → Bool) (j m : ℕ) (w : Store)
    → all_of is_within es ≡ true
    → IsSole k.links 0 j m w
    → IsClean (fair shown j) m w
    → IsClean (fair shown j) m (on_events es (k, w)).1
      × IsSole (on_events es (k, w)).0.links 0 j m (on_events es (k, w)).1
unfolding on_events on_event
on_events-IsClean [] k shown j m w h sole c = (c, sole)
on_events-IsClean (e ∷ es) k shown j m w h sole c =
    on_events-IsClean es (noted e k) shown j m (spread e k w) (ground arith)
      (IsSole-spread e k j m w sole)
      (spread-IsClean e k shown j m w (Discloses-within e k shown (ground arith)) sole c)

on_events-append :
    (es : List EngineEvent) (e : EngineEvent) (s : BroadcastSink × Store)
    → on_events (es ++ (e ∷ [])) s ≡ on_event e (on_events es s)
unfolding on_events
on_events-append [] e s = refl
on_events-append (x ∷ es) e s = on_events-append es e (on_event x s)

-- Whatever the events of a hand and its result: if a connection is reached through no other seat's
-- link than that of the seat `j`, then after the hand what it was sent, and what is kept for its
-- replay, shows no hole cards but those of the seat `j`, and, at the end of the hand, those of the
-- seats that did not fold, if five board cards were dealt and two seats or more did not fold. This
-- is so if it was so before the hand.
pub hand_privacy :
    (t : ℕ) (links : List ℕ) (es : List EngineEvent) (hand_id : ℕ) (r : HandResult) (j m : ℕ)
    (w : Store)
    → all_of is_within es ≡ true
    → IsSole links 0 j m w
    → IsClean (fair (shown_by links es) j) m w
    → IsClean
        (fair (shown_by links es) j)
        m
        (on_events (es ++ (hand_ended hand_id r ∷ [])) (new_sink t links, w)).1
hand_privacy t links es hand_id r j m w h sole c =
    let shown = shown_by links es in
    let k = (on_events es (new_sink t links, w)).0 in
    let (clean, apart) = on_events-IsClean es (new_sink t links) shown j m w h sole c in
    rw (on_events-append es (hand_ended hand_id r) (new_sink t links, w)) (
      on_event-IsClean (hand_ended hand_id r) k shown j m _
        (λ s e. sym (reveals_lem t links es w h s) ∙ e) apart clean)
