-- ===== src/Core.antt =====
-- crates/poker-engine/src/core and crates/poker-engine/src/abstraction: cards and preflop classes.
pub mod Card
pub mod Preflop
pub mod Deck
