-- ===== src/Memory.antt =====
-- framework/memory: the distributed in-memory store.
pub mod Clock
pub mod Glob
pub mod Topic
pub mod PubSub
pub mod Store
pub mod Gossip
