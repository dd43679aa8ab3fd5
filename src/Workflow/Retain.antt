-- ===== src/Workflow/Retain.antt =====
-- packages/application/src/retain-instance-workflow.ts.
use private_cloud_control_pl.Prelude.{
  String, true, not, ◌&&◌, Option, none, some, List, [], ◌∷◌, if◌then◌else◌,
}
use private_cloud_control_pl.Contracts.Events.{RetentionRequested, LifecycleState, PowerState}
use private_cloud_control_pl.Contracts.Provider.{
  ObservedPowerState, InstanceObservation, Mutation, Provider,
}
use private_cloud_control_pl.Workflow.Stage.{WorkflowStage, WorkflowAction}
use private_cloud_control_pl.Workflow.Step.{
  Claimed, StoreCall, Step, pure, mutate, observe_instance, ◌>>=◌,
}
use private_cloud_control_pl.Workflow.Engine.{
  Env, Traits, no_options, instance_request, required_resource, progress, fail, manual_review,
  succeed, stage_invalid, for_review, is_owned, observed_at_or,
}
use private_cloud_control_pl.Workflow.Outcome.{handle_mutation_result, poll_task}
use private_cloud_control_pl.Workflow.Recovery.{Capability}

abbrev pub retention_mutation_stages : List WorkflowStage
retention_mutation_stages = WorkflowStage.submitting_retention ∷ []

unfoldable pub retain_traits : Traits RetentionRequested
retain_traits = record {
  action = WorkflowAction.retain_instance;
  mutation_stages = retention_mutation_stages;
  provider_profile_id = λ wf. wf.command.payload.provider_profile_id;
  create_operation_id = λ wf. wf.command.payload.create_operation_id;
}

-- The power state that is recorded: stopped, running, or unknown for any other.
unfoldable pub retained_power : ObservedPowerState → PowerState
retained_power ObservedPowerState.stopped = PowerState.stopped
retained_power ObservedPowerState.running = PowerState.running
retained_power _ = PowerState.unknown

module _ (env : Env) (wf : Claimed RetentionRequested) where
  unfoldable pub retention_unproven : StoreCall
  retention_unproven = manual_review retain_traits env wf (
      for_review "RETENTION_OBSERVATION_AMBIGUOUS"
        "The retained instance could not be observed as present and owned.")

  unfoldable pub observed_retention : String → Option InstanceObservation → StoreCall
  unfolding retention_unproven is_owned retained_power
  observed_retention resource none = retention_unproven
  observed_retention resource (some o) =
      if not (o.exists && is_owned o.ownership)
      then retention_unproven
      else succeed retain_traits env wf LifecycleState.retained resource (
          some (record {
            exists = true;
            power_state = retained_power o.power_state;
            resources = none;
            marker_match = true;
            observed_at = observed_at_or o.observed_at env.wall;
          }))

module _ (env : Env) (provider : Provider) (wf : Claimed RetentionRequested) where
  unfoldable pub submit_retention : Step StoreCall
  unfolding handle_mutation_result required_resource retain_traits
  submit_retention = do
    resource ← required_resource retain_traits env wf
    result ← mutate provider (
        Mutation.mark_instance_retained (instance_request retain_traits env wf "retain" resource)
          wf.command.payload.retention_deadline)
    pure (
        handle_mutation_result retain_traits env wf result WorkflowStage.polling_retention
          WorkflowStage.observing_retention)

  unfoldable pub observe_retention : Step StoreCall
  unfolding observed_retention required_resource retain_traits
  observe_retention = do
    resource ← required_resource retain_traits env wf
    observation ←
        observe_instance provider
          (instance_request retain_traits env wf "observe-retention" resource)
    pure (observed_retention env wf resource observation)

  unfoldable pub execute_retain : WorkflowStage → Step StoreCall
  unfolding submit_retention observe_retention poll_task retain_traits
  execute_retain WorkflowStage.accepted =
      pure (progress retain_traits env wf WorkflowStage.submitting_retention no_options)
  execute_retain WorkflowStage.submitting_retention = submit_retention
  execute_retain WorkflowStage.polling_retention =
      poll_task retain_traits env provider wf WorkflowStage.observing_retention
  execute_retain WorkflowStage.observing_retention = observe_retention
  execute_retain _ = pure (fail retain_traits env wf stage_invalid)

unfoldable pub retain_capability : Capability RetentionRequested
unfolding execute_retain retain_traits
retain_capability = record {
  traits = retain_traits;
  execute = λ env provider wf. execute_retain env provider wf wf.stage;
}
