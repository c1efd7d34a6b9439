-- ===== src/Jobs.antt =====
-- The queue of background jobs: api/src/jobs.
pub mod Worker
pub mod Running
pub mod Scheduler
pub mod Enqueue
