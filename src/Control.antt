-- ===== src/Control.antt =====
-- packages/postgres-adapter/src: the tables of schemas `control` and `projection`, and the stores of the
-- control API and the reconciler.
pub mod Rows
pub mod Keyed
pub mod Transaction
pub mod Projection
pub mod Reconciliation
pub mod Acceptance
