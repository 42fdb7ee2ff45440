-- ===== src/Apiserver.antt =====
-- The API server (pkg/apiserver).
pub mod Status
pub mod Runs
pub mod Run
mod RunExamples
