-- ===== src/Domain.antt =====
-- The data of internal/domain: one child for each package of it.
pub mod Values
pub mod Queue
pub mod Workflow
pub mod Executable
pub mod Resource
pub mod Environment
pub mod Planning
pub mod Materialization
pub mod Artifacts
pub mod Execution
