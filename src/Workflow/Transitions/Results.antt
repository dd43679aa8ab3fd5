-- ===== src/Workflow/Transitions/Results.antt =====
-- Where the readings of a provider's answer may send a workflow.
use private_cloud_control_pl.Prelude.{
  ◌≡◌, ◌≢◌, ◌⊎◌, Option, none, some, inl, inr, refl, String, Bool-cases,
}
use private_cloud_control_pl.Contracts.Events.{Failure}
use private_cloud_control_pl.Contracts.Provider.{
  ResultState, TaskState, ProviderMutationResult, GetTaskResponse, Provider,
}
use private_cloud_control_pl.Workflow.Stage.{WorkflowStage}
use private_cloud_control_pl.Workflow.Step.{Claimed, StoreCall, CompletionStatus, pure, get_task}
use private_cloud_control_pl.Workflow.Step.Rules.{Returns, Returns-bind}
use private_cloud_control_pl.Workflow.Engine.{
  Traits, Env, progress, fail, manual_review, is_present, context, or_else,
}
use private_cloud_control_pl.Workflow.Outcome.{
  handle_mutation_result, handle_task_result, poll_task, mutation_accepted, identified, classified,
  task_state_result, poll_reference, poll_step,
}

-- A checkpoint at one of two stages, or an end without success.
abbrev pub Lands : WorkflowStage → WorkflowStage → StoreCall → Type 0
Lands a b (StoreCall.checkpoint c) = (c.stage ≡ a) ⊎ (c.stage ≡ b)
Lands a b (StoreCall.complete c) = c.status ≢ CompletionStatus.succeeded
Lands a b (StoreCall.dead_letter_workflow d) = Unit

module _ {ℓ} {A : Type ℓ} (t : Traits A) (env : Env) where
  fail-Lands : (wf : Claimed A) (f : Failure) (a b : WorkflowStage) → Lands a b (fail t env wf f)
  unfolding fail
  fail-Lands wf f a b = cc

  manual_review-Lands :
      (wf : Claimed A) (f : Failure) (a b : WorkflowStage) → Lands a b (manual_review t env wf f)
  unfolding manual_review
  manual_review-Lands wf f a b = cc

  mutation_accepted-Lands :
      (state : ResultState) (wf : Claimed A) (reference : Option String) (resource : String)
      (a b : WorkflowStage)
      → Lands a b (mutation_accepted t env state wf reference resource a b)
  unfolding mutation_accepted progress
  mutation_accepted-Lands ResultState.accepted wf reference resource a b =
      elim (Bool-cases (is_present reference)) [
        | inl e ↦ rw e (inl refl)
        | inr e ↦ rw e (fail-Lands wf _ a b)
      ]
  mutation_accepted-Lands ResultState.succeeded wf reference resource a b = inr refl
  mutation_accepted-Lands _ wf reference resource a b = fail-Lands wf _ a b

  identified-Lands :
      (state : ResultState) (wf : Claimed A) (reference resource : Option String)
      (a b : WorkflowStage)
      → Lands a b (identified t env state wf reference resource a b)
  unfolding identified
  identified-Lands state wf reference none a b = fail-Lands wf _ a b
  identified-Lands state wf reference (some r) a b = elim (Bool-cases (is_present (some r))) [
    | inl e ↦ rw e (mutation_accepted-Lands state wf reference r a b)
    | inr e ↦ rw e (fail-Lands wf _ a b)
  ]

  classified-Lands :
      (state : ResultState) (wf : Claimed A) (result : ProviderMutationResult) (a b : WorkflowStage)
      → Lands a b (classified t env state wf result a b)
  unfolding classified
  classified-Lands ResultState.unknown wf result a b = manual_review-Lands wf _ a b
  classified-Lands ResultState.rejected wf result a b = fail-Lands wf _ a b
  classified-Lands state wf result a b =
      identified-Lands state wf result.provider_task_reference
        (or_else result.provider_resource_id wf.provider_resource_id) a b

  pub handle_mutation_result-Lands :
      (wf : Claimed A) (result : Option ProviderMutationResult) (a b : WorkflowStage)
      → Lands a b (handle_mutation_result t env wf result a b)
  unfolding handle_mutation_result
  handle_mutation_result-Lands wf none a b = fail-Lands wf _ a b
  handle_mutation_result-Lands wf (some r) a b = classified-Lands r.state wf r a b

  task_state_result-Lands :
      (state : TaskState) (wf : Claimed A) (response : GetTaskResponse) (s : WorkflowStage)
      (reference : String)
      → Lands wf.stage s (task_state_result t env state wf response s reference)
  unfolding task_state_result progress
  task_state_result-Lands TaskState.queued wf response s reference = inl refl
  task_state_result-Lands TaskState.running wf response s reference = inl refl
  task_state_result-Lands TaskState.succeeded wf response s reference = inr refl
  task_state_result-Lands TaskState.unknown wf response s reference =
      manual_review-Lands wf _ wf.stage s
  task_state_result-Lands _ wf response s reference = fail-Lands wf _ wf.stage s

  handle_task_result-Lands :
      (wf : Claimed A) (response : GetTaskResponse) (s : WorkflowStage) (reference : String)
      → Lands wf.stage s (handle_task_result t env wf response s reference)
  unfolding handle_task_result
  handle_task_result-Lands wf response s reference =
      task_state_result-Lands response.state wf response s reference

  poll_reference-Lands :
      (provider : Provider) (wf : Claimed A) (reference : Option String) (s : WorkflowStage)
      → Returns (Lands wf.stage s) (poll_reference t env provider wf reference s).1
  unfolding poll_reference
  poll_reference-Lands provider wf none s = fail-Lands wf _ wf.stage s
  poll_reference-Lands provider wf (some r) s = elim (Bool-cases (is_present (some r))) [
    | inl e ↦ rw e (
        Returns-bind (Lands wf.stage s)
          (get_task provider (context t env wf (poll_step wf.stage)) r)
          (λ response. pure (handle_task_result t env wf response s r))
          (λ response. handle_task_result-Lands wf response s r))
    | inr e ↦ rw e (fail-Lands wf _ wf.stage s)
  ]

  pub poll_task-Lands :
      (provider : Provider) (wf : Claimed A) (s : WorkflowStage)
      → Returns (Lands wf.stage s) (poll_task t env provider wf s).1
  unfolding poll_task
  poll_task-Lands provider wf s = poll_reference-Lands provider wf wf.provider_task_reference s
