-- ===== src/WorkerPool.antt =====
-- native/runtime/worker_pool.cpp: the pool of worker threads, its jobs and its queues. One mutex
-- guards a pool, so that each call is one step; a wait is a step that is not enabled yet.
pub mod State
pub mod Queue
pub mod Client
pub mod Work
pub mod Invariant
pub mod Run
pub mod Settings
pub mod Guarantees
pub mod Examples
