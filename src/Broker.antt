-- ===== src/Broker.antt =====
-- The message broker and the queue between threads: include/BVBroker.hpp, src/BVBroker.cpp,
-- include/threadsafequeue.hpp.
pub mod Queue
pub mod Defs
pub mod Subscriptions
pub mod Routing
pub mod Ids
pub mod Steps
pub mod Loop
pub mod Wiring
pub mod Nodes
pub mod Linked
pub mod Fifo
