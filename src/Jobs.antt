-- ===== src/Jobs.antt =====
-- internal/jobs: the job queue.
pub mod State
pub mod View
pub mod Tracker
pub mod Manager
