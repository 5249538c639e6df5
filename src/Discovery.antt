-- ===== src/Discovery.antt =====
-- Browsing for services: src/BVDiscovery_Bonjour.cpp, include/BVDiscovery.hpp, src/bonjour_api.c.
pub mod Defs
pub mod Browse
pub mod Batches
pub mod LinkedList
pub mod Chains
