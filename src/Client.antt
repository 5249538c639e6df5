-- ===== src/Client.antt =====
-- The console client: src/BVApp_ConsoleClient.cpp, include/BVApp_ConsoleClient.hpp.
pub mod Defs
pub mod Assembly
