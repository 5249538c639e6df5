-- ===== src/Manager.antt =====
-- The connection manager: include/BVTCPConnectionManager.hpp, src/BVTCPConnectionManager.cpp.
pub mod Defs
pub mod Registry
pub mod Glare
pub mod Keeps
pub mod Steps
pub mod Offers
pub mod Identity
pub mod Handshake
pub mod Established
pub mod Everyone
pub mod Asked
