-- ===== src/Wire.antt =====
-- The wire format: include/BVTCPCommon.hpp, and the code of include/BVTCPSession.hpp and
-- src/BVApp_ConsoleClient.cpp that builds and parses frames.
pub mod Defs
pub mod Frame
pub mod Text
