-- ===== src/WorkerPool/Invariant.antt =====
-- The well-formed states of the pool of native/runtime/worker_pool.cpp: where each job is, what is
-- reserved, and what the readiness channel shows.
mod Maps
mod Places
mod Finish
mod Failure
mod Client
mod Stop
mod Work
mod Leave
pub use Maps.*
pub use Leave.*
pub use Work.*
pub use Stop.*
pub use Client.*
pub use Failure.*
pub use Finish.*
pub use Places.*
