-- ===== src/Workflow/Purge.antt =====
-- packages/application/src/purge-instance-workflow.ts.
use private_cloud_control_pl.Prelude.{
  String, Bool, false, not, Option, none, some, List, [], ◌∷◌, if◌then◌else◌,
}
use private_cloud_control_pl.Contracts.Events.{PurgeRequested, LifecycleState, PowerState}
use private_cloud_control_pl.Contracts.Provider.{InstanceObservation, Mutation, Provider}
use private_cloud_control_pl.Workflow.Stage.{WorkflowStage, WorkflowAction}
use private_cloud_control_pl.Workflow.Step.{
  Claimed, StoreCall, Step, pure, mutate, observe_instance, ◌>>=◌,
}
use private_cloud_control_pl.Workflow.Engine.{
  Env, Traits, no_options, instance_request, required_resource, progress, fail, manual_review,
  succeed, stage_invalid, for_review, is_owned,
}
use private_cloud_control_pl.Workflow.Outcome.{handle_mutation_result, poll_task}
use private_cloud_control_pl.Workflow.Recovery.{Capability}

abbrev pub purge_mutation_stages : List WorkflowStage
purge_mutation_stages = WorkflowStage.submitting_purge ∷ []

unfoldable pub purge_traits : Traits PurgeRequested
purge_traits = record {
  action = WorkflowAction.purge_instance;
  mutation_stages = purge_mutation_stages;
  provider_profile_id = λ wf. wf.command.payload.provider_profile_id;
  create_operation_id = λ wf. wf.command.payload.create_operation_id;
}

abbrev pub is_there : Option InstanceObservation → Bool
is_there none = false
is_there (some o) = o.exists

abbrev pub ownership_proven : Option InstanceObservation → Bool
ownership_proven none = false
ownership_proven (some o) = is_owned o.ownership

module _ (env : Env) (wf : Claimed PurgeRequested) where
  unfoldable pub complete_purge : String → StoreCall
  complete_purge resource = succeed purge_traits env wf LifecycleState.purged resource (
      some (record {
        exists = false;
        power_state = PowerState.unknown;
        resources = none;
        marker_match = false;
        observed_at = env.wall;
      }))

  unfoldable pub verified_ownership : String → Option InstanceObservation → StoreCall
  unfolding complete_purge is_owned
  verified_ownership resource observation =
      if not (is_there observation)
      then complete_purge resource
      else if not (ownership_proven observation)
      then manual_review purge_traits env wf (
          for_review "PURGE_OWNERSHIP_NOT_PROVEN"
            "Live provider ownership could not be proven; the purge was not attempted.")
      else progress purge_traits env wf WorkflowStage.submitting_purge no_options

  unfoldable pub observed_absence : String → Option InstanceObservation → StoreCall
  unfolding complete_purge
  observed_absence resource observation =
      if is_there observation
      then manual_review purge_traits env wf (
          for_review "PURGE_NOT_CONFIRMED"
            "The instance is still present after the purge was submitted.")
      else complete_purge resource

module _ (env : Env) (provider : Provider) (wf : Claimed PurgeRequested) where
  unfoldable pub verify_ownership : Step StoreCall
  unfolding verified_ownership required_resource purge_traits
  verify_ownership = do
    resource ← required_resource purge_traits env wf
    observation ←
        observe_instance provider (instance_request purge_traits env wf "verify-purge" resource)
    pure (verified_ownership env wf resource observation)

  unfoldable pub submit_purge : Step StoreCall
  unfolding handle_mutation_result required_resource purge_traits
  submit_purge = do
    resource ← required_resource purge_traits env wf
    result ← mutate provider (
        Mutation.purge_instance (instance_request purge_traits env wf "purge" resource)
          wf.command.payload.purge_authorization_id wf.command.payload.retention_deadline)
    pure (
        handle_mutation_result purge_traits env wf result WorkflowStage.polling_purge
          WorkflowStage.observing_purge)

  unfoldable pub observe_absence : Step StoreCall
  unfolding observed_absence required_resource purge_traits
  observe_absence = do
    resource ← required_resource purge_traits env wf
    observation ←
        observe_instance provider (instance_request purge_traits env wf "observe-purge" resource)
    pure (observed_absence env wf resource observation)

  unfoldable pub execute_purge : WorkflowStage → Step StoreCall
  unfolding verify_ownership submit_purge observe_absence poll_task purge_traits
  execute_purge WorkflowStage.accepted =
      pure (progress purge_traits env wf WorkflowStage.verifying_purge no_options)
  execute_purge WorkflowStage.verifying_purge = verify_ownership
  execute_purge WorkflowStage.submitting_purge = submit_purge
  execute_purge WorkflowStage.polling_purge =
      poll_task purge_traits env provider wf WorkflowStage.observing_purge
  execute_purge WorkflowStage.observing_purge = observe_absence
  execute_purge _ = pure (fail purge_traits env wf stage_invalid)

unfoldable pub purge_capability : Capability PurgeRequested
unfolding execute_purge purge_traits
purge_capability = record {
  traits = purge_traits;
  execute = λ env provider wf. execute_purge env provider wf wf.stage;
}
