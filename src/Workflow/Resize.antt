-- ===== src/Workflow/Resize.antt =====
-- packages/application/src/resize-instance-workflow.ts.
use private_cloud_control_pl.Prelude.{
  ℕ, ◌==◌, String, Bool, true, false, not, ◌&&◌, ◌||◌, Option, none, some, List, [], ◌∷◌,
  if◌then◌else◌,
}
use private_cloud_control_pl.Contracts.Events.{
  ResizeRequested, LifecycleState, PowerState, Resources,
}
use private_cloud_control_pl.Contracts.Provider.{
  InstanceObservation, InstanceResources, Mutation, Provider,
}
use private_cloud_control_pl.Workflow.Stage.{WorkflowStage, WorkflowAction}
use private_cloud_control_pl.Workflow.Step.{
  Claimed, StoreCall, Step, pure, mutate, observe_instance, ◌>>=◌,
}
use private_cloud_control_pl.Workflow.Engine.{
  Env, Traits, no_options, instance_request, required_resource, progress, fail, manual_review,
  succeed, stage_invalid, for_review, is_owned, observed_at_or, observed_resources,
}
use private_cloud_control_pl.Workflow.Outcome.{handle_mutation_result, poll_task}
use private_cloud_control_pl.Workflow.Recovery.{Capability}

abbrev pub resize_mutation_stages : List WorkflowStage
resize_mutation_stages = WorkflowStage.submitting_resize ∷ []

unfoldable pub resize_traits : Traits ResizeRequested
resize_traits = record {
  action = WorkflowAction.resize_instance;
  mutation_stages = resize_mutation_stages;
  provider_profile_id = λ wf. wf.command.payload.provider_profile_id;
  create_operation_id = λ wf. wf.command.payload.create_operation_id;
}

-- `Number(measured.x) === target.x`, where a missing size is NaN.
abbrev pub measures : Option ℕ → ℕ → Bool
measures none target = false
measures (some n) target = n == target

-- `disagrees`: the provider reported a CPU count, and one of the three sizes is not the target's.
unfoldable pub disagrees : Option InstanceResources → Resources → Bool
disagrees none target = false
disagrees (some r) target = elim r.cpu_count [
  | none ↦ false
  | some cpu ↦
      not (cpu == target.cpu_count)
      || not (measures r.memory_mib target.memory_mib)
      || not (measures r.disk_gib target.disk_gib)
]

module _ (env : Env) (wf : Claimed ResizeRequested) where
  unfoldable pub resize_unproven : StoreCall
  resize_unproven = manual_review resize_traits env wf (
      for_review "RESIZE_OBSERVATION_AMBIGUOUS"
        "Provider observation did not prove an owned instance after the resize.")

  unfoldable pub observed_resize : String → Option InstanceObservation → StoreCall
  unfolding resize_unproven is_owned disagrees observed_resources
  observed_resize resource none = resize_unproven
  observed_resize resource (some o) =
      if not (o.exists && is_owned o.ownership)
      then resize_unproven
      else if disagrees o.resources wf.command.payload.target_resources
      then manual_review resize_traits env wf
          (for_review "RESIZE_NOT_APPLIED" "The instance did not reach the requested sizing.")
      else succeed resize_traits env wf LifecycleState.active resource (
          some (record {
            exists = true;
            power_state = PowerState.unknown;
            resources = observed_resources o.resources;
            marker_match = true;
            observed_at = observed_at_or o.observed_at env.wall;
          }))

module _ (env : Env) (provider : Provider) (wf : Claimed ResizeRequested) where
  unfoldable pub submit_resize : Step StoreCall
  unfolding handle_mutation_result required_resource resize_traits
  submit_resize = do
    resource ← required_resource resize_traits env wf
    result ← mutate provider (
        Mutation.resize_instance (instance_request resize_traits env wf "resize" resource)
          wf.command.payload.target_resources)
    pure (
        handle_mutation_result resize_traits env wf result WorkflowStage.polling_resize
          WorkflowStage.observing_resize)

  unfoldable pub observe_resize : Step StoreCall
  unfolding observed_resize required_resource resize_traits
  observe_resize = do
    resource ← required_resource resize_traits env wf
    observation ←
        observe_instance provider (instance_request resize_traits env wf "observe-resize" resource)
    pure (observed_resize env wf resource observation)

  unfoldable pub execute_resize : WorkflowStage → Step StoreCall
  unfolding submit_resize observe_resize poll_task resize_traits
  execute_resize WorkflowStage.accepted =
      pure (progress resize_traits env wf WorkflowStage.submitting_resize no_options)
  execute_resize WorkflowStage.submitting_resize = submit_resize
  execute_resize WorkflowStage.polling_resize =
      poll_task resize_traits env provider wf WorkflowStage.observing_resize
  execute_resize WorkflowStage.observing_resize = observe_resize
  execute_resize _ = pure (fail resize_traits env wf stage_invalid)

unfoldable pub resize_capability : Capability ResizeRequested
unfolding execute_resize resize_traits
resize_capability = record {
  traits = resize_traits;
  execute = λ env provider wf. execute_resize env provider wf wf.stage;
}
