-- ===== src/Tests.antt =====
-- Tests by evaluation, and the theorems at concrete inputs that meet their hypotheses.
pub mod Cards
pub mod Hands
pub mod Registries
pub mod Servers
pub mod Sessions
pub mod Trees
