-- ===== src/Adapters.antt =====
-- packages/provider-adapters/src: what stands between a workflow and a provider.
pub mod PlanGate
