-- ===== src/Worker.antt =====
-- internal/worker: what a worker does with one item, and when it retries.
pub mod Retry
pub mod ProcessItem
pub mod HttpClient
pub mod Lifecycle
pub mod Pool
