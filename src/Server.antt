-- ===== src/Server.antt =====
-- crates/poker-server/src: connections, tables and the sessions that drive them.
pub mod Store
pub mod Table
pub mod Takeover
pub mod Round
pub mod Sink
pub mod Manager
pub mod Session
pub mod Agent
pub mod Handshake
pub mod Occupancy
pub mod Reach
pub mod Registry
pub mod Entrance
pub mod Records
