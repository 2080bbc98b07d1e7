-- ===== src/Tests/Trees.antt =====
-- A step of the game tree at a concrete node: a bet of 10 on the river.
use vibe_poker.Base.{
  ◌≡◌, ℕ, ◌*◌, ◌+◌, ◌<◌, ◌≤◌, refl, some, [], ◌∷◌, true, false, arith, replicate, map, List, Option,
  none, Bool, sub32, add32,
}
use vibe_poker.Core.Card.{Card}
use vibe_poker.Game.State.{PlayerState, PlayerStatus, GameState, river, no_limit_holdem, is_active}
use vibe_poker.Game.Action.{Action}
use vibe_poker.Game.Betting.Live.{Live}
use vibe_poker.Game.Tree.{Engine, GameTree, decision, terminal, step, start, first_phase}
use vibe_poker.Game.Tree.Nodes.{IsNode, Asked, Leads}
use vibe_poker.Game.Tree.Opening.{play_from_start}
use vibe_poker.Game.Tree.Conservation.{step_conserves}
use vibe_poker.Game.Hand.{next_active_after, init_state, post_blinds, deal_hole_cards}
use vibe_poker.Game.Event.{EngineEvent}
use vibe_poker.Core.Deck.{Deck}
use vibe_poker.Game.Showdown.{award_uncontested}
use vibe_poker.Game.Hand.Seats.{IsNext, next_active_after-IsNext}
use vibe_poker.Game.Tree.Play.{play}

abbrev card : ℕ → Card
card n = record { bits = n }

abbrev player : ℕ → ℕ → PlayerState
player stack bet = record {
  stack = stack;
  hole_cards = some (card (2 * bet), card 51);
  bet_this_street = bet;
  total_committed = bet + 20;
  status = PlayerStatus.active;
}

abbrev facing_bet : GameState
facing_bet = record {
  hand_id = 1;
  street = river;
  board = card 1 ∷ card 2 ∷ card 3 ∷ card 4 ∷ card 5 ∷ [];
  players = player 90 10 ∷ player 200 5 ∷ [];
  pot = record { main = 40; side = [] };
  action_on = some 1;
  dealer = 0;
  last_aggressor = some 0;
  current_bet = 10;
  min_raise_increment = 5;
  cumulative_short_increment = 0;
  sat_out = false ∷ false ∷ [];
}

abbrev engine : Engine
engine = record { rules = no_limit_holdem 1 2 6; rank_7 = λ cards. 0 }

abbrev node : GameTree
node = record {
  state = facing_bet;
  deck = record { cards = replicate 52 (card 0); cursor = 9; seed = 0 };
  phase = decision 1 (true ∷ false ∷ []);
}

live : (stack bet : ℕ) → 0 < stack → bet ≤ 10 → Live 10 (player stack bet)
live stack bet h k = record {
  matched = k;
  stocked = λ _. h;
  owing = λ _. omega arith;
  staked = λ _. omega arith;
  dealt = λ _. (_, refl);
  outside = λ h. absurd (ground arith);
}

asked : Asked 1000 345 1 (true ∷ false ∷ []) facing_bet node.deck
asked = record {
  sound = record {
    books = record {
      bounded = omega arith;
      within = (omega arith, (omega arith, tt));
      balanced = omega arith;
      no_side = refl;
    };
    lives = (live 90 10 (omega arith) (omega arith), (live 200 5 (omega arith) (omega arith), tt));
    kept = omega arith;
    contested = omega arith;
    chips_bound = omega arith;
    bet_bound = omega arith;
    increment_bound = omega arith;
    increment_pos = omega arith;
  };
  dealable = record { enough = omega arith; fills = refl };
  answers = refl;
  player = player 200 5;
  seated = refl;
  active = refl;
}

step_conserves_example : Leads 1000 345 (step engine node Action.call)
step_conserves_example =
    step_conserves engine 1000 345 node 1 (true ∷ false ∷ []) Action.call (omega arith)
      (omega arith) (omega arith) refl asked

abbrev deck : Deck
deck = record {
  cards = map card (0 ∷ 1 ∷ 2 ∷ 3 ∷ 4 ∷ 5 ∷ 6 ∷ 7 ∷ 8 ∷ 9 ∷ 10 ∷ []);
  cursor = 0;
  seed = 0;
}

play_from_start_example :
    (tree : GameTree) × (es : List EngineEvent) × (end : GameTree) × (start engine 1 7
        (100 ∷ 1 ∷ 50 ∷ [])
        0
        none
        deck
      ≡ some (tree, es))
    × (play engine tree (Action.call ∷ Action.raise 20 ∷ Action.call ∷ []) ≡ some end)
    × IsNode 1000 151 end
play_from_start_example =
    play_from_start engine 1000 1 7 0 (100 ∷ 1 ∷ 50 ∷ []) deck
      (Action.call ∷ Action.raise 20 ∷ Action.call ∷ []) refl (omega arith) (omega arith)
      (omega arith) (omega arith) (omega arith) (omega arith) (omega arith) (omega arith)

-- Both players are all-in with their blinds: the hand ends at once, without a board.
abbrev is_over : Option (GameTree × List EngineEvent) → Bool
is_over none = false
is_over (some (t, es)) = elim t.phase [ terminal deltas ↦ true | decision seat hr ↦ false ]

blinds_all_in : is_over (start engine 1 7 (2 ∷ 1 ∷ []) 0 none deck) ≡ true
unfolding start init_state post_blinds deal_hole_cards first_phase sub32 add32 award_uncontested
    next_active_after
blinds_all_in = refl

next_active_after-IsNext_example :
    (seat : ℕ) × (next_active_after 1 facing_bet.players ≡ some seat)
    × IsNext (λ (q : PlayerState). is_active q.status) facing_bet.players 1 seat
next_active_after-IsNext_example =
    next_active_after-IsNext facing_bet.players 1 0 (player 90 10) (omega arith) refl refl
