-- ===== src/Performance.antt =====
-- The programs of performance/.
pub mod Concurrent
pub mod Rounds
pub mod ReadWrite
pub mod Latency
