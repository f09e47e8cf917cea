-- ===== src/Ecs.antt =====
-- src/sc/ecs.
pub mod Access
pub mod Stages
pub mod Effective
pub mod Planning
pub mod Commands
pub mod Relations
pub mod Entity
pub mod FreeList
pub mod Allocator
