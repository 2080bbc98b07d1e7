-- ===== src/Game/Tree/Opening.antt =====
-- tree.rs, `GameTree::new`: a hand without antes and dead hands starts at a node of the tree.
use vibe_poker.Base.{
  ℕ, ◌+◌, ◌*◌, ◌≤◌, ◌<◌, ◌≡◌, refl, ◌∙◌, ap, false, List, [], ◌∷◌, ◌++◌, map, Option, none, some,
  ◌>>=◌, arith, length, replicate, length-map, length-replicate, count_if, sum_of, Bool-cases,
  Option-cases, inl, inr, ltb, if◌then◌else◌, u32_mod,
}
use vibe_poker.Core.Deck.{Deck}
use vibe_poker.Game.State.{PlayerState, GameState, is_active, is_in}
use vibe_poker.Game.Action.{Action}
use vibe_poker.Game.Event.{EngineEvent, hand_started}
use vibe_poker.Game.Hand.{
  new_player, init_state, post_antes, post_blinds, bb_seat, deal_hole_cards, first_after,
  next_active_after,
}
use vibe_poker.Game.Hand.Deals.{Dealt, deal_hole_from-Dealt}
use vibe_poker.Game.Hand.Blinds.{Posted, post_blinds-Posted}
use vibe_poker.Game.Tree.{Engine, GameTree, Step, ask, first_phase, start}
use vibe_poker.Game.Tree.Seats.{first_after-found}
use vibe_poker.Game.Tree.Nodes.{IsNode, Leads, Dealable, left}
use vibe_poker.Game.Tree.Advance.{Acting, uncontested-IsNode}
use vibe_poker.Game.Tree.Play.{play, play_conserves}

-- The first node, once the cards are dealt.
first_phase-IsNode :
    (bound total : ℕ) (s : GameState) (d : Deck) (canonical_bb : ℕ)
    → Acting bound total s
    → 2 ≤ count_if is_in s.players
    → total ≤ bound
    → Dealable (length s.board) d (left s.street)
    → (t : GameTree) × (first_phase s d canonical_bb ≡ some t) × IsNode bound total t
unfolding first_phase next_active_after
first_phase-IsNode bound total s d bb a two small f =
    let test = λ (p : PlayerState). is_active p.status in
    elim (Option-cases (first_after test s.players bb (length s.players) 1)) [
      | inl h ↦
          (let (t, ends, node) = uncontested-IsNode bound total s d a in
            (t, rw (first_phase, h) ends, node))
      | inr (first, h) ↦
          (let (p, seated, active) =
              first_after-found test s.players bb (length s.players) 1 first h in
            (
              ask s d first (replicate (length s.players) false),
              rw (first_phase, h) refl,
              record {
                sound = record {
                  books = a.books;
                  lives = a.lives;
                  kept = a.kept;
                  contested = two;
                  chips_bound = small;
                  bet_bound = a.bet_bound;
                  increment_bound = a.increment_bound;
                  increment_pos = a.increment_pos;
                };
                dealable = f;
                answers = length-replicate (length s.players) false;
                player = p;
                seated = seated;
                active = active;
              },
            ))
    ]

-- `start` from its first node, from the deal, and from the blinds on.
abbrev then_first :
    ℕ → ℕ → ℕ → List EngineEvent → List EngineEvent → List EngineEvent → Option GameTree → Step
then_first i seed dealer anted blinds dealt o = do
  t ← o
  some (t, hand_started i dealer seed ∷ (anted ++ (blinds ++ dealt)))

abbrev then_dealt :
    Engine
    → ℕ
    → ℕ
    → ℕ
    → GameState
    → List EngineEvent
    → List EngineEvent
    → Option (GameState × Deck × List EngineEvent)
    → Step
then_dealt engine i seed dealer s2 anted blinds o = do
  (s3, deck', dealt) ← o
  then_first i seed dealer anted blinds dealt (first_phase s3 deck' (bb_seat s2))

abbrev opened :
    Engine → ℕ → ℕ → ℕ → Deck → List EngineEvent → Option (GameState × List EngineEvent) → Step
opened engine i seed dealer deck anted o = do
  (s2, blinds) ← o
  then_dealt engine i seed dealer s2 anted blinds (deal_hole_cards s2 deck)

start-run :
    (engine : Engine) (hand_id deck_seed dealer : ℕ) (stacks : List ℕ) (deck : Deck)
    (s2 s3 : GameState) (deck' : Deck) (tree : GameTree) (blinds dealt : List EngineEvent)
    → engine.rules.ante ≡ 0
    → post_blinds engine.rules (init_state engine.rules hand_id stacks dealer) ≡ some (s2, blinds)
    → deal_hole_cards s2 deck ≡ some (s3, deck', dealt)
    → first_phase s3 deck' (bb_seat s2) ≡ some tree
    → start engine hand_id deck_seed stacks dealer none deck
      ≡ some (tree, hand_started hand_id dealer deck_seed ∷ ([] ++ (blinds ++ dealt)))
unfolding start
start-run engine i seed dealer stacks deck s2 s3 deck' tree blinds dealt free run1 run2 run3 =
    let s0 = init_state engine.rules i stacks dealer in
    let bare : (ltb 0 engine.rules.ante) ≡ false = ground arith in
    let begin = λ (a : GameState × List EngineEvent).
      opened engine i seed dealer deck a.1 (post_blinds engine.rules a.0) in
    ap (λ b. begin (if b then post_antes engine.rules s0 else (s0, []))) bare
    ∙ ap (opened engine i seed dealer deck []) run1
    ∙ ap (then_dealt engine i seed dealer s2 [] blinds) run2
    ∙ ap (then_first i seed dealer [] blinds dealt) run3

count-new :
    (stacks : List ℕ)
    → count_if is_in (map new_player stacks) ≡ count_if (λ (x : ℕ). ltb 0 x) stacks
count-new [] = refl
count-new (x ∷ xs) = elim (Bool-cases (ltb 0 x)) [
  | inl e ↦ rw e (ap (λ n. 1 + n) (count-new xs))
  | inr e ↦ rw e (ap (λ n. 0 + n) (count-new xs))
]

Dealt-Acting :
    (bound total bet : ℕ) (s t : GameState) (qs : List PlayerState)
    → Posted bet total s t
    → Dealt bet t.players qs
    → 2 ≤ count_if is_in s.players
    → 0 < bet
    → bet ≤ bound
    → Acting bound total (record t { current_bet = bet; min_raise_increment = bet; players = qs })
Dealt-Acting bound total bet s t qs o d two h le = record {
  books = record {
    bounded = omega (arith, o.books.bounded, d.chips_kept);
    within = d.within o.books.within;
    balanced = omega (arith, o.books.balanced, d.bets_kept, d.stakes_kept);
    no_side = o.books.no_side;
  };
  lives = d.lives;
  kept = d.chips_kept ∙ o.kept;
  present = omega (arith, d.count_kept, o.present, two);
  bet_bound = le;
  increment_bound = le;
  increment_pos = h;
}

pub start-Leads :
    (engine : Engine) (bound hand_id deck_seed dealer : ℕ) (stacks : List ℕ) (deck : Deck)
    → engine.rules.ante ≡ 0
    → engine.rules.small_blind ≤ engine.rules.big_blind
    → 0 < engine.rules.big_blind
    → engine.rules.big_blind ≤ bound
    → sum_of (λ x. x) stacks ≤ bound
    → bound + bound < u32_mod
    → dealer < length stacks
    → 2 ≤ count_if (λ (x : ℕ). ltb 0 x) stacks
    → deck.cursor + 2 * length stacks + 5 ≤ length deck.cards
    → Leads bound (sum_of (λ x. x) stacks) (start engine hand_id deck_seed stacks dealer none deck)
unfolding init_state deal_hole_cards
start-Leads engine bound i seed dealer stacks deck free le pos small kept room inside two cards =
    let s = init_state engine.rules i stacks dealer in
    let total = sum_of (λ x. x) stacks in
    let bet = engine.rules.big_blind in
    let seats = length-map new_player stacks in
    let players : 2 ≤ count_if is_in s.players = omega (arith, two, count-new stacks) in
    let (t, blinds, run1, o) =
      post_blinds-Posted engine.rules i dealer stacks (omega (arith, inside, seats)) players le pos
        (omega (arith, kept, room)) in
    let (qs, d, dealt, run2, q, at, same) =
      deal_hole_from-Dealt bet 0 t.players deck (omega (arith, cards, o.count, seats)) o.seated in
    let s3 = record t { current_bet = bet; min_raise_increment = bet; players = qs } in
    let s2 = record t { current_bet = bet; min_raise_increment = bet } in
    let empty : length s3.board ≡ 0 = ap (λ (x : GameState). length x.board) o.same in
    let first : left s3.street ≡ 5 = ap (λ (x : GameState). left x.street) o.same in
    let (tree, run3, node) =
      first_phase-IsNode bound total s3 d (bb_seat s2)
        (Dealt-Acting bound total bet s t qs o q players pos small)
        (omega (arith, q.count_kept, o.present, players)) kept
        (record {
          enough = omega (arith, at, cards, o.count, seats, first, ap length same);
          fills = omega (arith, empty, first);
        }) in
    (
      tree,
      _,
      start-run engine i seed dealer stacks deck s2 s3 d tree blinds dealt free run1 (rw run2 refl)
          run3,
      node,
    )

-- A hand of `GameTree::new` without antes and dead hands, on a deck that has the cards, starts at a
-- node, and however it is played and however long, no step panics, and it stands at a node again.
-- That is a decision of a player who may act, with two players or more in the hand and its books in
-- order; or the end, where the stacks hold all the chips that were brought. It is assumed that two
-- players or more have chips, that the dealer is a seat, that the big blind is positive and the
-- small blind not above it, and that the chips and the big blind are within a bound of which twice
-- fits a `u32`.
pub play_from_start :
    (engine : Engine) (bound hand_id deck_seed dealer : ℕ) (stacks : List ℕ) (deck : Deck)
    (actions : List Action)
    → engine.rules.ante ≡ 0
    → engine.rules.small_blind ≤ engine.rules.big_blind
    → 0 < engine.rules.big_blind
    → engine.rules.big_blind ≤ bound
    → sum_of (λ x. x) stacks ≤ bound
    → bound + bound < u32_mod
    → dealer < length stacks
    → 2 ≤ count_if (λ (x : ℕ). ltb 0 x) stacks
    → deck.cursor + 2 * length stacks + 5 ≤ length deck.cards
    → (tree : GameTree) × (es : List EngineEvent) × (end : GameTree) × (start engine hand_id
          deck_seed stacks dealer none deck
        ≡ some (tree, es))
      × (play engine tree actions ≡ some end)
      × IsNode bound (sum_of (λ x. x) stacks) end
play_from_start engine bound i seed dealer stacks deck actions free le pos small kept room inside
      two cards =
    let (tree, es, started, node) =
      start-Leads engine bound i seed dealer stacks deck free le pos small kept room inside two
        cards in
    let (end, played, stands) =
      play_conserves engine bound (sum_of (λ x. x) stacks) room small pos actions tree node in
    (tree, es, end, started, played, stands)
