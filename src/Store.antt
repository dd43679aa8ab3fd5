-- ===== src/Store.antt =====
-- packages/postgres-adapter/src/workflow-store.ts: the leased and fenced persistence of workflows.
pub mod Table
pub mod Rows
pub mod Lease
pub mod Writes
pub mod Inbox
pub mod Admission
pub mod Replay
pub mod Idempotence
pub mod Authorization
pub mod Fencing
pub mod Tests
pub mod ReplayTests
