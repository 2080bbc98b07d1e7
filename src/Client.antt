-- ===== src/Client.antt =====
-- crates/poker-client-core/src: the client's state machine and the view that it renders.
pub mod View
pub mod Effect
pub mod Core
pub mod Projection
pub mod Inbound
pub mod Run
pub mod Prompt
pub mod Submit
pub mod Handshake
pub mod Replay
