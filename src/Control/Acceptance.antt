-- ===== src/Control/Acceptance.antt =====
-- packages/postgres-adapter/src/control-plane-store.ts: `acceptPowerAction`, `acceptResize`,
-- `acceptRetention`, `acceptPurge` and `releaseIpv4Lease`, one transaction each.
pub mod Records
pub mod Guards
pub mod Writes
pub mod Methods
pub mod Removals
pub mod Commands
pub mod Rules
pub mod Outcomes
pub mod Exclusion
pub mod Repeats
pub mod Purges
pub mod Quota
pub mod Leases
pub mod Readiness
pub mod Success
pub mod Tests
