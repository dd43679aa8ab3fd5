-- ===== src/Workflow/Power.antt =====
-- packages/application/src/power-instance-workflow.ts.
use private_cloud_control_pl.Prelude.{
  String, Bool, true, false, not, ◌&&◌, Option, none, some, List, [], ◌∷◌, if◌then◌else◌,
}
use private_cloud_control_pl.Contracts.Events.{
  PowerAction, PowerRequested, LifecycleState, PowerState,
}
use private_cloud_control_pl.Contracts.Provider.{
  ObservedPowerState, InstanceObservation, InstanceRequest, Mutation, Provider,
}
use private_cloud_control_pl.Workflow.Stage.{WorkflowStage, WorkflowAction}
use private_cloud_control_pl.Workflow.Step.{
  Claimed, StoreCall, Step, pure, mutate, observe_instance, ◌>>=◌,
}
use private_cloud_control_pl.Workflow.Engine.{
  Env, Traits, no_options, instance_request, required_resource, progress, fail, manual_review,
  succeed, stage_invalid, for_review, is_owned, observed_at_or,
}
use private_cloud_control_pl.Workflow.Outcome.{handle_mutation_result, poll_task}
use private_cloud_control_pl.Workflow.Recovery.{Capability}

abbrev pub power_mutation_stages : List WorkflowStage
power_mutation_stages = WorkflowStage.submitting_power ∷ []

unfoldable pub power_traits : Traits PowerRequested
power_traits = record {
  action = WorkflowAction.power_instance;
  mutation_stages = power_mutation_stages;
  provider_profile_id = λ wf. wf.command.payload.provider_profile_id;
  create_operation_id = λ wf. wf.command.payload.create_operation_id;
}

-- `power-${action}`.
abbrev pub power_step : PowerAction → String
power_step PowerAction.start = "power-start"
power_step PowerAction.shutdown = "power-shutdown"
power_step PowerAction.stop = "power-stop"
power_step PowerAction.reboot = "power-reboot"

-- `EXPECTED_POWER_STATE`.
unfoldable pub expected_power_state : PowerAction → ObservedPowerState
expected_power_state PowerAction.start = ObservedPowerState.running
expected_power_state PowerAction.reboot = ObservedPowerState.running
expected_power_state PowerAction.shutdown = ObservedPowerState.stopped
expected_power_state PowerAction.stop = ObservedPowerState.stopped

abbrev pub same_power_state : ObservedPowerState → ObservedPowerState → Bool
same_power_state ObservedPowerState.unspecified ObservedPowerState.unspecified = true
same_power_state ObservedPowerState.running ObservedPowerState.running = true
same_power_state ObservedPowerState.stopped ObservedPowerState.stopped = true
same_power_state ObservedPowerState.suspended ObservedPowerState.suspended = true
same_power_state ObservedPowerState.unknown ObservedPowerState.unknown = true
same_power_state ObservedPowerState.unrecognized ObservedPowerState.unrecognized = true
same_power_state _ _ = false

-- The port method that `submitPower` chooses.
unfoldable pub power_mutation : PowerAction → InstanceRequest → Mutation
power_mutation PowerAction.start r = Mutation.start_instance r
power_mutation PowerAction.shutdown r = Mutation.shutdown_instance r
power_mutation PowerAction.stop r = Mutation.stop_instance r
power_mutation PowerAction.reboot r = Mutation.reboot_instance r

-- `expected === RUNNING ? 'running' : 'stopped'`.
abbrev pub reported_power : ObservedPowerState → PowerState
reported_power ObservedPowerState.running = PowerState.running
reported_power _ = PowerState.stopped

module _ (env : Env) (wf : Claimed PowerRequested) where
  unfoldable pub power_unproven : StoreCall
  power_unproven = manual_review power_traits env wf (
      for_review "POWER_OBSERVATION_AMBIGUOUS"
        "Provider observation did not prove an owned instance after the transition.")

  unfoldable pub observed_power : String → Option InstanceObservation → StoreCall
  unfolding power_unproven is_owned expected_power_state
  observed_power resource none = power_unproven
  observed_power resource (some o) =
      let expected = expected_power_state wf.command.payload.action in
      if not (o.exists && is_owned o.ownership)
      then power_unproven
      else if not (same_power_state o.power_state expected)
      then manual_review power_traits env wf (
          for_review "POWER_STATE_NOT_REACHED"
            "The instance did not reach the requested power state.")
      else succeed power_traits env wf LifecycleState.active resource (
          some (record {
            exists = true;
            power_state = reported_power expected;
            resources = none;
            marker_match = true;
            observed_at = observed_at_or o.observed_at env.wall;
          }))

module _ (env : Env) (provider : Provider) (wf : Claimed PowerRequested) where
  unfoldable pub submit_power : Step StoreCall
  unfolding handle_mutation_result required_resource power_traits power_mutation
  submit_power = do
    resource ← required_resource power_traits env wf
    result ← mutate provider (
        power_mutation wf.command.payload.action
          (instance_request power_traits env wf (power_step wf.command.payload.action) resource))
    pure (
        handle_mutation_result power_traits env wf result WorkflowStage.polling_power
          WorkflowStage.observing_power)

  unfoldable pub observe_power : Step StoreCall
  unfolding observed_power required_resource power_traits
  observe_power = do
    resource ← required_resource power_traits env wf
    observation ←
        observe_instance provider (instance_request power_traits env wf "observe-power" resource)
    pure (observed_power env wf resource observation)

  unfoldable pub execute_power : WorkflowStage → Step StoreCall
  unfolding submit_power observe_power poll_task power_traits
  execute_power WorkflowStage.accepted =
      pure (progress power_traits env wf WorkflowStage.submitting_power no_options)
  execute_power WorkflowStage.submitting_power = submit_power
  execute_power WorkflowStage.polling_power =
      poll_task power_traits env provider wf WorkflowStage.observing_power
  execute_power WorkflowStage.observing_power = observe_power
  execute_power _ = pure (fail power_traits env wf stage_invalid)

unfoldable pub power_capability : Capability PowerRequested
unfolding execute_power power_traits
power_capability = record {
  traits = power_traits;
  execute = λ env provider wf. execute_power env provider wf wf.stage;
}
