-- ===== src/Threading.antt =====
-- src/sc/threading.
pub mod Loop
pub mod RingQueue
pub mod FutureGroup
