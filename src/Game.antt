-- ===== src/Game.antt =====
-- crates/poker-engine/src/game: the state of a hand, its pots, betting and showdown.
pub mod State
pub mod Action
pub mod Event
pub mod Pots
pub mod Betting
pub mod Showdown
pub mod Hand
pub mod Tree
