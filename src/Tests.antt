-- ===== src/Tests.antt =====
-- The theorems at concrete inputs.
pub mod Fixtures
pub mod Transfers
pub mod Peers
pub mod Screens
pub mod Guis
pub mod Threads
