-- ===== src/Domain.antt =====
-- packages/domain/src/index.ts: the rules that hold whatever the provider.
pub mod Drift
pub mod Resize
pub mod Addresses
pub mod Tests
