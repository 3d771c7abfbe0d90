-- ===== src/ThreadPool.antt =====
-- components/thread_pool: the pool of worker threads.
pub mod Pool
pub mod Order
pub mod Tasks
pub mod Ending
pub mod Draining
pub mod Progress
