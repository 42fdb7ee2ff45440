-- ===== src/Engine.antt =====
-- The job engine (pkg/job): the table of jobs, and the controller that mirrors the cluster in it.
pub mod Table
pub mod Sync
mod SyncExamples
