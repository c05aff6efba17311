-- ===== src/Thread.antt =====
-- elegance/platform/thread: threads, the pool of threads and signals.
pub mod Pool
pub mod Signal
pub mod Linux
