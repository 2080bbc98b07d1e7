-- ===== src/Game/Event.antt =====
-- crates/poker-engine/src/game/event.rs: the events of a hand and its outcome. A sink is the list of
-- the events that it was handed (`VecSink`).
use vibe_poker.Base.{ℕ, Bool, List, Option}
use vibe_poker.Core.Card.{Card}
use vibe_poker.Game.State.{Street}
use vibe_poker.Game.Action.{Action}

-- `chip_delta : i32` is kept as its bit pattern, a number below 2 ^ 32.
pub record SeatOutcome : Type 0 where
  pub seat : ℕ
  pub hole_cards : Option (Card × Card)
  pub chip_delta : ℕ
  pub sat_out : Bool

pub record HandResult : Type 0 where
  pub hand_id : ℕ
  pub board : List Card
  pub seats : List SeatOutcome

pub data EngineEvent : Type 0 where
  hand_started : (hand_id dealer deck_seed : ℕ) → EngineEvent
  hole_cards_dealt : (seat : ℕ) → Card × Card → EngineEvent
  board_dealt : Street → List Card → EngineEvent
  action_taken : (seat : ℕ) → Action → (pot_total : ℕ) → EngineEvent
  player_all_in : (seat total_committed : ℕ) → EngineEvent
  hand_ended : (hand_id : ℕ) → HandResult → EngineEvent
