-- ===== src/Net.antt =====
-- crates/poker-engine/src/net: the messages between the server and its clients.
pub mod Protocol
pub mod Names
pub mod Frame
pub mod Wire
