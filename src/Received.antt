-- ===== src/Received.antt =====
-- The file that a receiver assembles: include/BVReceivedFile.hpp.
pub mod Defs
pub mod Contents
