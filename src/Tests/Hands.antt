-- ===== src/Tests/Hands.antt =====
-- Hands at concrete inputs.
use vibe_poker.Base.{
  ℕ, ◌≡◌, ◌≢◌, refl, some, none, List, [], ◌∷◌, true, false, get_elem?, arith, All, ◌*◌, add32,
  sum32, mul32, sub32, replicate, ◌+◌, ◌/◌, ◌%◌, ◌==◌, if◌then◌else◌,
}
use vibe_poker.Core.Card.{Card}
use vibe_poker.Game.State.{
  PlayerState, PlayerStatus, GameState, Pot, river, no_limit_holdem, pot_limit, total,
}
use vibe_poker.Game.Action.{Action, raise, call, is_legal}
use vibe_poker.Game.Pots.{build_showdown_pots, collect_street_bets}
use vibe_poker.Game.Showdown.Uncontested.{award_uncontested_conserves, collect_street_bets-Ledger}
use vibe_poker.Game.Pots.Conservation.{amounts, committed, amounts-build_showdown_pots}
use vibe_poker.Game.Betting.{
  Applied, apply_action, normalize_action, legal_for, can_raise, max_raise,
}
use vibe_poker.Game.Betting.Ledger.{Ledger, chips, bets, stakes, apply_action-Ledger}
use vibe_poker.Game.Betting.Raises.{IsRaisedTo, legal_raise_lem}
use vibe_poker.Game.Betting.Rule47.{IsNormal, Grows, submit-Grows}
use vibe_poker.Game.Showdown.{
  award_uncontested, resolve_showdown, left_of_dealer, contains, split_pot,
}
use vibe_poker.Game.Showdown.Share.{sum, FirstLeft}
use vibe_poker.Game.Showdown.OddChips.{split_pot_lem}
use vibe_poker.Game.Showdown.Eligible.{IsGoodPot, build_showdown_pots-IsGoodPot}
use vibe_poker.Game.Showdown.Conservation.{AreDealt, stacks, resolve_showdown_conserves}

abbrev card : ℕ → Card
card n = record { bits = n }

abbrev player : ℕ → ℕ → ℕ → PlayerStatus → PlayerState
player stack bet total status = record {
  stack = stack;
  hole_cards = some (card (2 * bet), card 51);
  bet_this_street = bet;
  total_committed = total;
  status = status;
}

-- Two all-ins of different sizes against a caller, and a player who folded with chips in.
abbrev showdown_players : List PlayerState
showdown_players =
    player 0 0 50 PlayerStatus.all_in
    ∷ player 900 0 101 PlayerStatus.active
    ∷ player 0 0 101 PlayerStatus.all_in
    ∷ player 40 0 20 PlayerStatus.folded
    ∷ []

pots_of_showdown :
    build_showdown_pots showdown_players
    ≡ (80, 0 ∷ 1 ∷ 2 ∷ []) ∷ (90, 0 ∷ 1 ∷ 2 ∷ []) ∷ (102, 1 ∷ 2 ∷ []) ∷ []
unfolding build_showdown_pots mul32 sub32
pots_of_showdown = refl

abbrev hand : List PlayerState → Pot → ℕ → List Card → GameState
hand players pot bet board = record {
  hand_id = 1;
  street = river;
  board = board;
  players = players;
  pot = pot;
  action_on = none;
  dealer = 0;
  last_aggressor = none;
  current_bet = bet;
  min_raise_increment = 2;
  cumulative_short_increment = 0;
  sat_out = false ∷ false ∷ false ∷ false ∷ [];
}

abbrev at_showdown : GameState
at_showdown =
    hand showdown_players (record { main = 272; side = [] }) 0
      (card 1 ∷ card 2 ∷ card 3 ∷ card 4 ∷ card 5 ∷ [])

amounts-build_showdown_pots_example :
    amounts (build_showdown_pots showdown_players) ≡ committed showdown_players
amounts-build_showdown_pots_example =
    amounts-build_showdown_pots showdown_players 0 (player 0 0 50 PlayerStatus.all_in) refl refl
      (omega arith) (omega arith)

-- An evaluator that finds every hand equal: the pots are split three ways and two ways.
abbrev all_tie : List Card → ℕ
all_tie cards = 7

resolve_showdown_conserves_example :
    (t : GameState) × (deltas : List ℕ) × (resolve_showdown all_tie at_showdown ≡ some (t, deltas))
    × (sum deltas ≡ committed showdown_players)
    × (stacks t.players ≡ chips showdown_players)
resolve_showdown_conserves_example =
    resolve_showdown_conserves all_tie at_showdown 0 (player 0 0 50 PlayerStatus.all_in) refl
      (omega arith) dealt refl refl (omega arith)
  where
    dealt : AreDealt showdown_players
    dealt =
        ((λ _ _. (_, refl)), ((λ _ _. (_, refl)), ((λ _ _. (_, refl)), ((λ _ _. (_, refl)), tt))))

build_showdown_pots-IsGoodPot_example :
    All (IsGoodPot showdown_players) (build_showdown_pots showdown_players)
build_showdown_pots-IsGoodPot_example = build_showdown_pots-IsGoodPot showdown_players

split_pot_lem_example :
    (odd : ℕ) × (paid : List ℕ) × (split_pot 4 6 25 (2 ∷ 1 ∷ []) (replicate 6 0) ≡ some paid)
    × FirstLeft 4 6 (2 ∷ 1 ∷ []) 0 odd
    × (get_elem? paid 1
        ≡ some (
            0 + (if contains (2 ∷ 1 ∷ []) 1 then 25 / 2 else 0) + (if 1 == odd then 25 % 2 else 0)))
split_pot_lem_example =
    split_pot_lem 4 25 2 (1 ∷ []) (replicate 6 0) 1 0 (refl, (refl, tt))
      (omega arith, (omega arith, tt)) refl

odd_chip : left_of_dealer 4 6 (2 ∷ 1 ∷ []) 6 0 ≡ some 1
unfolding left_of_dealer
odd_chip = refl

-- A bet of 10 is open; the second seat has 5 in and 200 behind.
abbrev facing_bet : List PlayerState
facing_bet = player 90 10 10 PlayerStatus.active ∷ player 200 5 5 PlayerStatus.active ∷ []

abbrev in_betting : GameState
in_betting = hand facing_bet (record { main = 0; side = [] }) 10 []

abbrev caller : PlayerState
caller = player 200 5 5 PlayerStatus.active

books : Ledger facing_bet (record { main = 0; side = [] })
books = record {
  bounded = omega arith;
  within = omega arith;
  balanced = omega arith;
  no_side = refl;
}

apply_action-Ledger_example :
    (r : Applied) × (apply_action in_betting 1 call ≡ some r)
    × Ledger r.state.players r.state.pot
    × (chips r.state.players ≡ chips facing_bet)
    × (r.state.pot ≡ in_betting.pot)
    × ((j : ℕ) → 1 ≢ j → get_elem? r.state.players j ≡ get_elem? facing_bet j)
apply_action-Ledger_example = apply_action-Ledger in_betting 1 caller call refl books

legal_raise_lem_example :
    (a : Action) × (r : Applied) × (normalize_action in_betting 1 (raise 40) ≡ some a)
    × (apply_action in_betting 1 a ≡ some r)
    × IsRaisedTo in_betting 1 40 r
legal_raise_lem_example =
    legal_raise_lem (no_limit_holdem 1 2 6) in_betting 1 caller true 40 (omega arith) (omega arith)
      (omega arith) refl (unfold is_legal legal_for can_raise max_raise add32 in refl)

submit-Grows_example :
    (b : Action) × (r : Applied) × (normalize_action in_betting 1 (raise 11) ≡ some b)
    × (apply_action in_betting 1 b ≡ some r)
    × IsNormal in_betting caller b
    × Grows in_betting r
submit-Grows_example = submit-Grows in_betting 1 caller (raise 11) (omega arith) (omega arith) refl

award_uncontested_conserves_example :
    (t : GameState) × (deltas : List ℕ) × (award_uncontested in_betting 0 ≡ some (t, deltas))
    × (get_elem? deltas 0 ≡ some (committed facing_bet))
    × (sum deltas ≡ committed facing_bet)
    × (stacks t.players ≡ chips facing_bet)
award_uncontested_conserves_example =
    award_uncontested_conserves in_betting 0 (player 90 10 10 PlayerStatus.active) books refl

collect_street_bets-Ledger_example :
    let (qs, collected) = collect_street_bets facing_bet (record { main = 0; side = [] }) in
    Ledger qs collected
    × (chips qs ≡ chips facing_bet)
    × (bets qs ≡ 0)
    × (collected.main ≡ stakes facing_bet)
collect_street_bets-Ledger_example =
    collect_street_bets-Ledger facing_bet (record { main = 0; side = [] }) books

-- Under pot limit, the big blind of an unraised pot may raise, by the flag, and to 0 at most.
abbrev limped : List PlayerState
limped = player 98 2 2 PlayerStatus.active ∷ player 98 2 2 PlayerStatus.active ∷ []

pot_limit_option :
    let l =
      legal_for
        (record (no_limit_holdem 1 2 6) { variant = pot_limit })
        (hand limped (record { main = 0; side = [] }) 2 [])
        (player 98 2 2 PlayerStatus.active)
        true in
    (l.can_raise ≡ true) × (l.min_raise ≡ 4) × (l.max_raise ≡ 0)
unfolding legal_for can_raise max_raise add32 total sum32
pot_limit_option = (refl, refl, refl)
