-- ===== src/Workflow/Recovery/Stays.antt =====
-- What the handling of a transport error leaves alone: it never advances a workflow, and never
-- reports success.
use private_cloud_control_pl.Prelude.{
  ◌≡◌, ◌≢◌, ℕ, Option, none, some, inl, inr, refl, Bool-cases, ◌+◌,
}
use private_cloud_control_pl.Contracts.Provider.{ProviderTransportError}
use private_cloud_control_pl.Workflow.Stage.{WorkflowStage}
use private_cloud_control_pl.Workflow.Step.{
  Claimed, StoreCall, Result, ok, raise, transport, bug, CompletionStatus,
}
use private_cloud_control_pl.Workflow.Step.Rules.{Returns, Returns-mono}
use private_cloud_control_pl.Workflow.Engine.{Env, Traits, progress, fail, manual_review}
use private_cloud_control_pl.Workflow.Recovery.{
  recover, handle_provider_error, retry_or_dead_letter, retry_or_refuse, jitter,
  exponential_ceiling, is_exhausted, is_unknown, retry_started, remaining_budget_ms,
}

-- The handling of a transport error stays at the claim's stage, or ends without success.
abbrev pub Stays : WorkflowStage → StoreCall → Type 0
Stays s (StoreCall.checkpoint c) = c.stage ≡ s
Stays s (StoreCall.complete c) = c.status ≢ CompletionStatus.succeeded
Stays s (StoreCall.dead_letter_workflow d) = Unit

module _ {A : Type 0} (t : Traits A) (env : Env) (wf : Claimed A) where
  retry_or_refuse-Stays :
      (error : ProviderTransportError) (n started remaining : ℕ) (j : Option ℕ)
      → Returns (Stays wf.stage) (retry_or_refuse t env wf error n started remaining j)
  unfolding retry_or_refuse progress
  retry_or_refuse-Stays error n started remaining none = tt
  retry_or_refuse-Stays error n started remaining (some j) = refl

  retry_or_dead_letter-Stays :
      (error : ProviderTransportError)
      → Returns (Stays wf.stage) (retry_or_dead_letter t env wf error)
  unfolding retry_or_dead_letter
  retry_or_dead_letter-Stays error = elim (Bool-cases (is_exhausted env wf)) [
    | inl e ↦ rw e tt
    | inr e ↦ rw e (
        retry_or_refuse-Stays error (wf.stage_attempt + 1) (retry_started env wf)
          (remaining_budget_ms env wf)
          (jitter env.random (exponential_ceiling (wf.stage_attempt + 1))))
  ]

  pub handle_provider_error-Stays :
      (error : ProviderTransportError)
      → Returns (Stays wf.stage) (handle_provider_error t env wf error)
  unfolding handle_provider_error manual_review fail
  handle_provider_error-Stays error = elim (Bool-cases (is_unknown t env wf error)) [
    | inl e ↦ rw e (λ h. cc)
    | inr e ↦ elim (Bool-cases error.retryable) [
      | inl r ↦ rw (e, r) (retry_or_dead_letter-Stays error)
      | inr r ↦ rw (e, r) (λ h. cc)
    ]
  ]

  -- A property of the calls of `execute` that holds of those that stay holds after `recover`.
  pub Returns-recover :
      (P : StoreCall → Type 0) (r : Result StoreCall)
      → ((call : StoreCall) → Stays wf.stage call → P call)
      → Returns P r
      → Returns P (recover t env wf r)
  unfolding recover
  Returns-recover P (ok call) stays h = h
  Returns-recover P (raise (transport error)) stays h =
      Returns-mono (Stays wf.stage) P (handle_provider_error t env wf error) stays
        (handle_provider_error-Stays error)
  Returns-recover P (raise (bug message)) stays h = tt
