-- ===== src/Workflow/Outcome.antt =====
-- packages/application/src/lifecycle-workflow.ts, `LifecycleWorkflow`: how a step reads the
-- provider's answer to a mutation and to a task poll.
use private_cloud_control_pl.Prelude.{◌+◌, String, Option, none, some, if◌then◌else◌}
use private_cloud_control_pl.Contracts.Events.{FailureCategory}
use private_cloud_control_pl.Contracts.Provider.{
  ResultState, TaskState, ProviderMutationResult, GetTaskResponse, Provider,
}
use private_cloud_control_pl.Workflow.Stage.{WorkflowStage, stage_name}
use private_cloud_control_pl.Workflow.Step.{
  Claimed, TaskReference, StoreCall, Step, pure, get_task, ◌>>=◌,
}
use private_cloud_control_pl.Workflow.Engine.{
  task_poll_delay_ms, Env, Traits, failure_value, is_present, or_else, permanent, no_options,
  context, progress, fail, manual_review,
}

-- `poll-${workflow.stage}`.
abbrev pub poll_step : WorkflowStage → String
poll_step WorkflowStage.polling_create = "poll-polling_create"
poll_step WorkflowStage.polling_configuration = "poll-polling_configuration"
poll_step WorkflowStage.polling_start = "poll-polling_start"
poll_step WorkflowStage.polling_power = "poll-polling_power"
poll_step WorkflowStage.polling_resize = "poll-polling_resize"
poll_step WorkflowStage.polling_snapshot = "poll-polling_snapshot"
poll_step WorkflowStage.polling_retention = "poll-polling_retention"
poll_step WorkflowStage.polling_purge = "poll-polling_purge"
poll_step other = stage_name other

module _ {ℓ} {A : Type ℓ} (t : Traits A) (env : Env) where
  -- The part of `handleMutationResult` that follows the check of the resource identifier.
  unfoldable pub mutation_accepted :
      ResultState → Claimed A → Option String → String → WorkflowStage → WorkflowStage → StoreCall
  mutation_accepted ResultState.accepted wf reference resource accepted_stage synchronous_stage =
      if is_present reference
      then progress t env wf accepted_stage (record no_options {
        provider_resource_id = some resource;
        provider_task_reference = TaskReference.replaced reference;
      })
      else fail t env wf (
          permanent "PROVIDER_TASK_REFERENCE_MISSING"
            "The asynchronous provider response omitted its task reference.")
  mutation_accepted ResultState.succeeded wf reference resource accepted_stage synchronous_stage =
      progress t env wf synchronous_stage
        (record no_options { provider_resource_id = some resource })
  mutation_accepted _ wf reference resource accepted_stage synchronous_stage = fail t env wf (
      permanent "PROVIDER_RESULT_STATE_INVALID"
        "The provider returned an unsupported result state.")

  unfoldable pub identified :
      ResultState
      → Claimed A
      → Option String
      → Option String
      → WorkflowStage
      → WorkflowStage
      → StoreCall
  unfolding mutation_accepted
  identified state wf reference none accepted_stage synchronous_stage = fail t env wf (
      permanent "PROVIDER_RESOURCE_ID_MISSING"
        "The provider response omitted the resource identifier.")
  identified state wf reference (some resource) accepted_stage synchronous_stage =
      if is_present (some resource)
      then mutation_accepted state wf reference resource accepted_stage synchronous_stage
      else fail t env wf (
          permanent "PROVIDER_RESOURCE_ID_MISSING"
            "The provider response omitted the resource identifier.")

  unfoldable pub classified :
      ResultState → Claimed A → ProviderMutationResult → WorkflowStage → WorkflowStage → StoreCall
  unfolding identified
  classified ResultState.unknown wf result accepted_stage synchronous_stage =
      manual_review t env wf (failure_value result.failure "PROVIDER_UNKNOWN")
  classified ResultState.rejected wf result accepted_stage synchronous_stage =
      fail t env wf (failure_value result.failure "PROVIDER_REJECTED")
  classified state wf result accepted_stage synchronous_stage =
      identified state wf result.provider_task_reference
        (or_else result.provider_resource_id wf.provider_resource_id) accepted_stage
        synchronous_stage

  unfoldable pub handle_mutation_result :
      Claimed A → Option ProviderMutationResult → WorkflowStage → WorkflowStage → StoreCall
  unfolding classified
  handle_mutation_result wf none accepted_stage synchronous_stage =
      fail t env wf
        (permanent "PROVIDER_RESULT_MISSING" "The provider response omitted its result.")
  handle_mutation_result wf (some result) accepted_stage synchronous_stage =
      classified result.state wf result accepted_stage synchronous_stage

  unfoldable pub task_state_result :
      TaskState → Claimed A → GetTaskResponse → WorkflowStage → String → StoreCall
  task_state_result TaskState.queued wf response success_stage task_reference =
      progress t env wf wf.stage (record no_options {
        provider_task_reference = TaskReference.replaced (some task_reference);
        next_attempt_at = some (env.wall + task_poll_delay_ms);
      })
  task_state_result TaskState.running wf response success_stage task_reference =
      progress t env wf wf.stage (record no_options {
        provider_task_reference = TaskReference.replaced (some task_reference);
        next_attempt_at = some (env.wall + task_poll_delay_ms);
      })
  task_state_result TaskState.succeeded wf response success_stage task_reference =
      progress t env wf success_stage
        (record no_options { provider_task_reference = TaskReference.replaced none })
  task_state_result TaskState.unknown wf response success_stage task_reference =
      manual_review t env wf (record {
        category = FailureCategory.unknown_outcome;
        code = "PROVIDER_TASK_UNKNOWN";
        safe_message = "The provider no longer has an authoritative task result.";
        retry_after_milliseconds = none;
      })
  task_state_result _ wf response success_stage task_reference =
      fail t env wf (failure_value response.failure "PROVIDER_TASK_FAILED")

  unfoldable pub handle_task_result :
      Claimed A → GetTaskResponse → WorkflowStage → String → StoreCall
  unfolding task_state_result
  handle_task_result wf response success_stage task_reference =
      task_state_result response.state wf response success_stage task_reference

  unfoldable pub poll_reference :
      Provider → Claimed A → Option String → WorkflowStage → Step StoreCall
  unfolding handle_task_result
  poll_reference provider wf none success_stage = pure (
      fail t env wf (
        permanent "PROVIDER_TASK_REFERENCE_MISSING"
          "The provider task reference was not persisted."))
  poll_reference provider wf (some reference) success_stage =
      if is_present (some reference)
      then (do
        response ← get_task provider (context t env wf (poll_step wf.stage)) reference
        pure (handle_task_result wf response success_stage reference))
      else pure (
          fail t env wf (
            permanent "PROVIDER_TASK_REFERENCE_MISSING"
              "The provider task reference was not persisted."))

  unfoldable pub poll_task : Provider → Claimed A → WorkflowStage → Step StoreCall
  unfolding poll_reference
  poll_task provider wf success_stage =
      poll_reference provider wf wf.provider_task_reference success_stage
