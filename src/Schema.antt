-- ===== src/Schema.antt =====
-- The data that the components share (pkg/common/schema).
pub mod Workflow
pub mod Jobs
