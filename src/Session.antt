-- ===== src/Session.antt =====
-- One connection to a peer: include/BVTCPSession.hpp and src/BVTCPSession.cpp.
pub mod Defs
pub mod Handlers
pub mod Reads
pub mod Chat
pub mod Arrival
pub mod Files
pub mod Announce
pub mod Control
