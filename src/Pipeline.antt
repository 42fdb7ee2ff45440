-- ===== src/Pipeline.antt =====
-- The workflow engine (pkg/pipeline).
pub mod Topology
pub mod RunSteps
pub mod Event
pub mod Job
pub mod Runtime
pub mod Restart
pub mod Execute
pub mod Template
pub mod Params
pub mod Solve
pub mod Override
pub mod Workflow
pub mod ResultCache
mod GraphExamples
mod RunExamples
mod JobExamples
mod ParamExamples
mod WorkflowExamples
mod OverrideExamples
mod ResultCacheExamples
