-- ===== src/Game/Tree.antt =====
-- crates/poker-engine/src/game/tree.rs: the stepper over one hand. `none` is a panic; a step returns
-- the tree and the events that its sink gets.
mod Seats
pub mod Nodes
mod Streets
mod Advance
pub mod Conservation
pub mod Play
pub mod Opening
use vibe_poker.Base.{
  ℕ, zero, suc, ◌+◌, ◌%◌, Bool, true, false, not, ◌&&◌, List, [], ◌∷◌, ◌++◌, Option, none, some,
  ◌>>=◌, get_elem?, set, length, replicate, position_from, ltb, leb, ◌==◌, if◌then◌else◌,
}
use vibe_poker.Core.Card.{Card}
use vibe_poker.Core.Deck.{Deck, Generator, new_deck}
use vibe_poker.Game.State.{
  GameState, Street, preflop, flop, turn, river, showdown, BettingRules, SeatKind, is_active, is_in,
  players_still_in,
}
use vibe_poker.Game.Action.{Action, LegalActions}
use vibe_poker.Game.Event.{EngineEvent, hand_started}
use vibe_poker.Game.Pots.{collect_street_bets}
use vibe_poker.Game.Betting.{normalize_action, apply_action, compute_legal_actions}
use vibe_poker.Game.Showdown.{award_uncontested, resolve_showdown}
use vibe_poker.Game.Hand.{
  init_state, post_antes, post_blinds, bb_seat, deal_hole_cards, mark_dead, next_active_after,
  active_count, begin_street, deal_board_cards, deal_remaining_board,
}

-- The rules, and the evaluator's ranking of seven cards.
pub record Engine : Type 0 where
  pub rules : BettingRules
  pub rank_7 : List Card → ℕ

pub data Phase : Type 0 where
  decision : (current : ℕ) → (has_responded : List Bool) → Phase
  terminal : (chip_deltas : List ℕ) → Phase

pub record GameTree : Type 0 where
  pub state : GameState
  pub deck : Deck
  pub phase : Phase

abbrev pub Step : Type 0
Step = Option (GameTree × List EngineEvent)

abbrev finish : Deck → GameState × List ℕ → GameTree
finish deck (s, deltas) = record {
  state = record s { action_on = none };
  deck = deck;
  phase = terminal deltas;
}

-- Everyone else has folded, or nobody else has chips.
unfoldable pub uncontested : GameState → Deck → Option GameTree
unfolding award_uncontested
uncontested s deck = do
  winner ← position_from 0 is_in s.players
  awarded ← award_uncontested s winner
  some (finish deck awarded)

abbrev pub ask : GameState → Deck → ℕ → List Bool → GameTree
ask s deck seat has_responded = record {
  state = record s { action_on = some seat };
  deck = deck;
  phase = decision seat has_responded;
}

-- The first phase of a hand whose blinds `canonical_bb` has posted.
unfoldable pub first_phase : GameState → Deck → ℕ → Option GameTree
unfolding uncontested next_active_after
first_phase s deck canonical_bb = elim (next_active_after canonical_bb s.players) [
  | none ↦ uncontested s deck
  | some first ↦ some (ask s deck first (replicate (length s.players) false))
]

abbrev mark_kinds : Option (List SeatKind) → GameState → Option GameState
mark_kinds none s = some s
mark_kinds (some kinds) s = mark_dead 0 kinds s

-- `GameTree::new` on a deck that is shuffled already.
unfoldable pub start :
    Engine → (hand_id deck_seed : ℕ) → List ℕ → (dealer : ℕ) → Option (List SeatKind) → Deck → Step
unfolding first_phase init_state post_antes post_blinds deal_hole_cards mark_dead
start engine hand_id deck_seed stacks dealer kinds deck = do
  let s0 = init_state engine.rules hand_id stacks dealer
  let anted = if ltb 0 engine.rules.ante then post_antes engine.rules s0 else (s0, [])
  (s2, blinds) ← post_blinds engine.rules anted.0
  (s3, deck', dealt) ← deal_hole_cards s2 deck
  s4 ← mark_kinds kinds s3
  tree ← first_phase s4 deck' (bb_seat s2)
  some (tree, hand_started hand_id dealer deck_seed ∷ (anted.1 ++ (blinds ++ dealt)))

module _ (rand : Generator) where
  -- `GameTree::new`
  unfoldable pub new_tree :
      Engine → (hand_id deck_seed : ℕ) → List ℕ → (dealer : ℕ) → Option (List SeatKind) → Step
  unfolding start new_deck
  new_tree engine hand_id deck_seed stacks dealer kinds =
      new_deck rand deck_seed >>= start engine hand_id deck_seed stacks dealer kinds

-- Has the seat matched the bet and responded? Seats in range are read, so nothing panics.
abbrev pub responded : List Bool → ℕ → Bool
responded has_responded seat = elim (get_elem? has_responded seat) [ none ↦ false | some b ↦ b ]

abbrev pub must_act : GameState → List Bool → ℕ → Bool
must_act s has_responded seat = elim (get_elem? s.players seat) [
  | none ↦ false
  | some p ↦
      is_active p.status && not (p.bet_this_street == s.current_bet && responded has_responded seat)
]

-- `for step in 1..=n`: the next seat round the table that must act. `rounds` are left.
unfoldable pub next_to_act : GameState → List Bool → ℕ → (rounds step : ℕ) → Option ℕ
next_to_act s has_responded from zero step = none
next_to_act s has_responded from (suc rounds) step =
    let seat = (from + step) % length s.players in
    let rest = next_to_act s has_responded from rounds (step + 1) in
    if must_act s has_responded seat then some seat else rest

-- The streets still to come.
abbrev pub next_streets : Street → List (Street × ℕ)
next_streets preflop = (flop, 3) ∷ (turn, 1) ∷ (river, 1) ∷ []
next_streets flop = (turn, 1) ∷ (river, 1) ∷ []
next_streets turn = (river, 1) ∷ []
next_streets river = []
next_streets showdown = []

-- The loop of `advance` over the streets, from a state whose bets are collected.
unfoldable pub run_streets : Engine → List (Street × ℕ) → GameState → Deck → Step
unfolding deal_remaining_board resolve_showdown begin_street deal_board_cards next_active_after
    collect_street_bets
run_streets engine [] s deck = do
  (s1, deck1, es) ← deal_remaining_board s deck
  awarded ← resolve_showdown engine.rank_7 (record s1 { street = showdown })
  some (record { state = awarded.0; deck = deck1; phase = terminal awarded.1 }, es)
run_streets engine ((street, n) ∷ streets) s deck = do
  (s1, deck1, es) ← deal_board_cards (begin_street engine.rules s street) deck n street
  let collected = collect_street_bets s1.players s1.pot
  let rest : Step = do
    (tree, fs) ←
        run_streets engine streets (record s1 { players = collected.0; pot = collected.1 }) deck1
    some (tree, es ++ fs)
  if leb 2 (active_count s1.players)
      then (elim (next_active_after s1.dealer s1.players) [
        | some first ↦ some (ask s1 deck1 first (replicate (length s1.players) false), es)
        | none ↦ rest
      ])
      else rest

-- `GameTree::advance`, after an action in the round of which `seat` acted last.
unfoldable pub advance : Engine → GameState → Deck → ℕ → List Bool → Step
unfolding uncontested next_to_act run_streets
advance engine s deck seat has_responded =
    let collected = collect_street_bets s.players s.pot in
    let over : Step =
      run_streets engine (next_streets s.street)
        (record s { players = collected.0; pot = collected.1; action_on = none }) deck in
    let betting : Step = elim (next_to_act s has_responded seat (length s.players) 1) [
      | some next ↦ some (ask s deck next has_responded, [])
      | none ↦ over
    ] in
    if players_still_in s == 1 then (do tree ← uncontested s deck; some (tree, [])) else betting

-- After aggression everyone else has to respond again.
abbrev keep_only : ℕ → ℕ → List Bool → List Bool
keep_only i seat [] = []
keep_only i seat (b ∷ bs) = (if i == seat then b else false) ∷ keep_only (i + 1) seat bs

abbrev pub mark_responded : List Bool → ℕ → Bool → Option (List Bool)
mark_responded has_responded seat was_aggression = do
  _ ← get_elem? has_responded seat
  let marked = set has_responded seat true
  some (if was_aggression then keep_only 0 seat marked else marked)

-- `GameTree::apply_action`, which panics at a terminal node.
unfoldable pub step : Engine → GameTree → Action → Step
unfolding normalize_action apply_action advance
step engine t action = elim t.phase [
  | terminal _ ↦ none
  | decision seat has_responded ↦ (do
    normalized ← normalize_action t.state seat action
    r ← apply_action t.state seat normalized
    marked ← mark_responded has_responded seat r.was_aggression
    (tree, es) ← advance engine r.state t.deck seat marked
    some (tree, r.events ++ es))
]

-- `GameTree::legal_actions`
unfoldable pub legal_actions : Engine → GameTree → Option LegalActions
unfolding compute_legal_actions
legal_actions engine t = elim t.phase [
  | terminal _ ↦ none
  | decision seat has_responded ↦ (do
    r ← get_elem? has_responded seat
    compute_legal_actions engine.rules t.state seat (not r))
]

-- `GameTree::utilities`
unfoldable pub utilities : GameTree → Option (List ℕ)
utilities t = elim t.phase [ terminal deltas ↦ some deltas | decision _ _ ↦ none ]
