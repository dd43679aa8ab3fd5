-- ===== src/Control/Projection.antt =====
-- packages/postgres-adapter/src/projection-store.ts, `PostgresProjectionStore`. Each public method is
-- one transaction; `strict` is whether an UPDATE that changes no row throws.
pub mod Events
pub mod Traces
pub mod Steps
pub mod Endings
pub mod Outcomes
pub mod Apply
pub mod Once
pub mod Agreement
pub mod Duplicates
pub mod Snapshots
pub mod Release
pub mod Tests
