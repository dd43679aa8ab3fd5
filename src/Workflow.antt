-- ===== src/Workflow.antt =====
-- packages/application/src: the persisted sagas of the provisioning orchestrator.
pub mod Stage
pub mod Step
pub mod Values
pub mod Engine
pub mod Outcome
pub mod Recovery
pub mod Transitions
pub mod Evidence
pub mod Discipline
pub mod Address
pub mod Create
pub mod Power
pub mod Resize
pub mod Snapshot
pub mod Retain
pub mod Purge
pub mod Executors
pub mod Registry
pub mod Tests
