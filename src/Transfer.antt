-- ===== src/Transfer.antt =====
-- The sending side of a file transfer: include/BVFileTransferContext.hpp.
pub mod Defs
pub mod ChunkSize
pub mod Blocks
pub mod Run
pub mod Progress
