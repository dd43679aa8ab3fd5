-- ===== src/Workflow/Address/Results.antt =====
-- Every way to end a step, and every outcome of a mutation, a poll or a transport error, is addressed
-- by the claim.
use private_cloud_control_pl.Prelude.{
  ◌+◌, ℕ, Option, none, some, String, inl, inr, refl, Bool-cases,
}
use private_cloud_control_pl.Contracts.Events.{Failure, LifecycleState, ObservedState}
use private_cloud_control_pl.Contracts.Provider.{
  ResultState, TaskState, ProviderMutationResult, GetTaskResponse, Provider, ProviderTransportError,
}
use private_cloud_control_pl.Workflow.Stage.{WorkflowStage}
use private_cloud_control_pl.Workflow.Step.{
  Claimed, StoreCall, Result, ok, raise, transport, bug, pure, get_task,
}
use private_cloud_control_pl.Workflow.Step.Rules.{Returns, Returns-bind}
use private_cloud_control_pl.Workflow.Engine.{
  Env, Traits, ProgressOptions, progress, fail, manual_review, succeed, context, is_present,
  or_else,
}
use private_cloud_control_pl.Workflow.Outcome.{
  mutation_accepted, identified, classified, handle_mutation_result, task_state_result,
  handle_task_result, poll_step, poll_reference, poll_task,
}
use private_cloud_control_pl.Workflow.Recovery.{
  is_exhausted, is_unknown, retry_started, remaining_budget_ms, jitter, exponential_ceiling,
  dead_letter, backoff, retry_or_refuse, retry_or_dead_letter, handle_provider_error, recover,
}
use private_cloud_control_pl.Workflow.Address.{IsAddressed}

module _ {A : Type 0} (t : Traits A) (env : Env) (wf : Claimed A) where
  pub progress-IsAddressed :
      (s : WorkflowStage) (o : ProgressOptions) → IsAddressed env wf (progress t env wf s o)
  unfolding progress
  progress-IsAddressed s o = (refl, refl, refl)

  pub fail-IsAddressed : (f : Failure) → IsAddressed env wf (fail t env wf f)
  unfolding fail
  fail-IsAddressed f = (refl, refl, refl)

  pub manual_review-IsAddressed : (f : Failure) → IsAddressed env wf (manual_review t env wf f)
  unfolding manual_review
  manual_review-IsAddressed f = (refl, refl, refl)

  pub succeed-IsAddressed :
      (s : LifecycleState) (resource : String) (o : Option ObservedState)
      → IsAddressed env wf (succeed t env wf s resource o)
  unfolding succeed
  succeed-IsAddressed s resource o = (refl, refl, refl)

  mutation_accepted-IsAddressed :
      (state : ResultState) (reference : Option String) (resource : String) (a b : WorkflowStage)
      → IsAddressed env wf (mutation_accepted t env state wf reference resource a b)
  unfolding mutation_accepted
  mutation_accepted-IsAddressed ResultState.accepted reference resource a b =
      elim (Bool-cases (is_present reference)) [
        | inl e ↦ rw e (progress-IsAddressed a _)
        | inr e ↦ rw e (fail-IsAddressed _)
      ]
  mutation_accepted-IsAddressed ResultState.succeeded reference resource a b =
      progress-IsAddressed b _
  mutation_accepted-IsAddressed _ reference resource a b = fail-IsAddressed _

  identified-IsAddressed :
      (state : ResultState) (reference resource : Option String) (a b : WorkflowStage)
      → IsAddressed env wf (identified t env state wf reference resource a b)
  unfolding identified
  identified-IsAddressed state reference none a b = fail-IsAddressed _
  identified-IsAddressed state reference (some r) a b = elim (Bool-cases (is_present (some r))) [
    | inl e ↦ rw e (mutation_accepted-IsAddressed state reference r a b)
    | inr e ↦ rw e (fail-IsAddressed _)
  ]

  classified-IsAddressed :
      (state : ResultState) (result : ProviderMutationResult) (a b : WorkflowStage)
      → IsAddressed env wf (classified t env state wf result a b)
  unfolding classified
  classified-IsAddressed ResultState.unknown result a b = manual_review-IsAddressed _
  classified-IsAddressed ResultState.rejected result a b = fail-IsAddressed _
  classified-IsAddressed state result a b =
      identified-IsAddressed state result.provider_task_reference
        (or_else result.provider_resource_id wf.provider_resource_id) a b

  pub handle_mutation_result-IsAddressed :
      (a b : WorkflowStage) (result : Option ProviderMutationResult)
      → IsAddressed env wf (handle_mutation_result t env wf result a b)
  unfolding handle_mutation_result
  handle_mutation_result-IsAddressed a b none = fail-IsAddressed _
  handle_mutation_result-IsAddressed a b (some r) = classified-IsAddressed r.state r a b

  task_state_result-IsAddressed :
      (state : TaskState) (response : GetTaskResponse) (s : WorkflowStage) (reference : String)
      → IsAddressed env wf (task_state_result t env state wf response s reference)
  unfolding task_state_result
  task_state_result-IsAddressed TaskState.queued response s reference =
      progress-IsAddressed wf.stage _
  task_state_result-IsAddressed TaskState.running response s reference =
      progress-IsAddressed wf.stage _
  task_state_result-IsAddressed TaskState.succeeded response s reference = progress-IsAddressed s _
  task_state_result-IsAddressed TaskState.unknown response s reference = manual_review-IsAddressed _
  task_state_result-IsAddressed _ response s reference = fail-IsAddressed _

  poll_reference-IsAddressed :
      (provider : Provider) (reference : Option String) (s : WorkflowStage)
      → Returns (IsAddressed env wf) (poll_reference t env provider wf reference s).1
  unfolding poll_reference handle_task_result
  poll_reference-IsAddressed provider none s = fail-IsAddressed _
  poll_reference-IsAddressed provider (some r) s = elim (Bool-cases (is_present (some r))) [
    | inl e ↦ rw e (
        Returns-bind (IsAddressed env wf)
          (get_task provider (context t env wf (poll_step wf.stage)) r)
          (λ response. pure (handle_task_result t env wf response s r))
          (λ response. task_state_result-IsAddressed response.state response s r))
    | inr e ↦ rw e (fail-IsAddressed _)
  ]

  pub poll_task-IsAddressed :
      (provider : Provider) (s : WorkflowStage)
      → Returns (IsAddressed env wf) (poll_task t env provider wf s).1
  unfolding poll_task
  poll_task-IsAddressed provider s =
      poll_reference-IsAddressed provider wf.provider_task_reference s

  retry_or_refuse-IsAddressed :
      (error : ProviderTransportError) (n started remaining : ℕ) (j : Option ℕ)
      → Returns (IsAddressed env wf) (retry_or_refuse t env wf error n started remaining j)
  unfolding retry_or_refuse backoff
  retry_or_refuse-IsAddressed error n started remaining none = tt
  retry_or_refuse-IsAddressed error n started remaining (some j) = progress-IsAddressed wf.stage _

  retry_or_dead_letter-IsAddressed :
      (error : ProviderTransportError)
      → Returns (IsAddressed env wf) (retry_or_dead_letter t env wf error)
  unfolding retry_or_dead_letter dead_letter
  retry_or_dead_letter-IsAddressed error = elim (Bool-cases (is_exhausted env wf)) [
    | inl e ↦ rw e (refl, refl, refl)
    | inr e ↦ rw e (
        retry_or_refuse-IsAddressed error (wf.stage_attempt + 1) (retry_started env wf)
          (remaining_budget_ms env wf)
          (jitter env.random (exponential_ceiling (wf.stage_attempt + 1))))
  ]

  handle_provider_error-IsAddressed :
      (error : ProviderTransportError)
      → Returns (IsAddressed env wf) (handle_provider_error t env wf error)
  unfolding handle_provider_error
  handle_provider_error-IsAddressed error = elim (Bool-cases (is_unknown t env wf error)) [
    | inl e ↦ rw e (manual_review-IsAddressed _)
    | inr e ↦ elim (Bool-cases error.retryable) [
      | inl again ↦ rw (e, again) (retry_or_dead_letter-IsAddressed error)
      | inr never ↦ rw (e, never) (fail-IsAddressed _)
    ]
  ]

  pub recover-IsAddressed :
      (r : Result StoreCall)
      → Returns (IsAddressed env wf) r
      → Returns (IsAddressed env wf) (recover t env wf r)
  unfolding recover
  recover-IsAddressed (ok call) h = h
  recover-IsAddressed (raise (transport e)) h = handle_provider_error-IsAddressed e
  recover-IsAddressed (raise (bug message)) h = tt
