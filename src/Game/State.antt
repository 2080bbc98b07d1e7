-- ===== src/Game/State.antt =====
-- crates/poker-engine/src/game/state.rs and rules.rs: the state of one hand and the table's rules.
use vibe_poker.Base.{ℕ, Bool, true, false, List, Option, count_if, sum32, add32, ◌||◌}
use vibe_poker.Core.Card.{Card}

pub data Street : Type 0 where
  preflop flop turn river showdown : Street

pub data PlayerStatus : Type 0 where
  active folded all_in out : PlayerStatus

pub data SeatKind : Type 0 where
  live dead_hand : SeatKind

pub record PlayerState : Type 0 where
  pub stack : ℕ
  pub hole_cards : Option (Card × Card)
  pub bet_this_street : ℕ
  pub total_committed : ℕ
  pub status : PlayerStatus

pub record SidePot : Type 0 where
  pub amount : ℕ
  pub eligible_seats : List ℕ

pub record Pot : Type 0 where
  pub main : ℕ
  pub side : List SidePot

-- `Pot::total`
unfoldable pub total : Pot → ℕ
total p = add32 p.main (sum32 (λ s. s.amount) p.side)

pub record GameState : Type 0 where
  pub hand_id : ℕ
  pub street : Street
  pub board : List Card
  pub players : List PlayerState
  pub pot : Pot
  pub action_on : Option ℕ
  pub dealer : ℕ
  pub last_aggressor : Option ℕ
  pub current_bet : ℕ
  pub min_raise_increment : ℕ
  pub cumulative_short_increment : ℕ
  pub sat_out : List Bool

-- `==` on a status.
abbrev pub is_active : PlayerStatus → Bool
is_active active = true
is_active _ = false

abbrev pub is_all_in : PlayerStatus → Bool
is_all_in all_in = true
is_all_in _ = false

abbrev pub is_folded : PlayerStatus → Bool
is_folded folded = true
is_folded _ = false

abbrev pub is_out : PlayerStatus → Bool
is_out out = true
is_out _ = false

-- Active or all-in: the filter of `active_players` and `players_still_in`.
abbrev pub is_in : PlayerState → Bool
is_in p = is_active p.status || is_all_in p.status

abbrev pub players_still_in : GameState → ℕ
players_still_in s = count_if is_in s.players

pub data BetVariant : Type 0 where
  no_limit pot_limit fixed_limit : BetVariant

pub record BettingRules : Type 0 where
  pub variant : BetVariant
  pub small_blind : ℕ
  pub big_blind : ℕ
  pub ante : ℕ
  pub max_players : ℕ

abbrev pub no_limit_holdem : ℕ → ℕ → ℕ → BettingRules
no_limit_holdem small_blind big_blind max_players = record {
  variant = no_limit;
  small_blind = small_blind;
  big_blind = big_blind;
  ante = 0;
  max_players = max_players;
}
