-- ===== src/Memory.antt =====
-- src/sc/memory.
pub mod RangeCache
pub mod DeletionQueue
pub mod Arena
pub mod ArenaPool
pub mod CleanupList
