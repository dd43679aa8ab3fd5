-- ===== src/Workflow/Evidence/Executes.antt =====
-- The evidence of a creation, a power action, a resize and a retention.
use private_cloud_control_pl.Prelude.{◌≡◌, true, false}
use private_cloud_control_pl.Contracts.Events.{
  CreateRequested, PowerRequested, ResizeRequested, RetentionRequested,
}
use private_cloud_control_pl.Contracts.Provider.{Provider}
use private_cloud_control_pl.Workflow.Stage.{WorkflowStage}
use private_cloud_control_pl.Workflow.Step.{Claimed, pure, mutate}
use private_cloud_control_pl.Workflow.Step.Rules.{Returns, Returns-bind}
use private_cloud_control_pl.Workflow.Engine.{Env, required_resource, progress, fail}
use private_cloud_control_pl.Workflow.Outcome.{handle_mutation_result}
use private_cloud_control_pl.Workflow.Create.{
  is_running, create_traits, execute_create, observed_create,
}
use private_cloud_control_pl.Workflow.Power.{
  same_power_state, expected_power_state, power_traits, execute_power, observed_power,
}
use private_cloud_control_pl.Workflow.Resize.{
  disagrees, resize_traits, observed_resize, execute_resize,
}
use private_cloud_control_pl.Workflow.Retain.{retain_traits, observed_retention, execute_retain}
use private_cloud_control_pl.Workflow.Evidence.{Observed, Owned, IsSuccess}
use private_cloud_control_pl.Workflow.Evidence.Observations.{
  handle_mutation_result-Proves, mutation-Proves, poll_task-Proves, observation-supports,
  observed_create-Owned, observed_power-Owned, observed_resize-Owned, observed_retention-Owned,
}

pub execute_create-Evidence :
    (env : Env) (provider : Provider) (wf : Claimed CreateRequested) (s : WorkflowStage)
    → Returns
        (λ call.
          IsSuccess call
          → Observed create_traits env provider wf (Owned (λ o. is_running o.power_state ≡ true)))
        (execute_create env provider wf s).1
unfolding execute_create progress fail
execute_create-Evidence env provider wf WorkflowStage.accepted = λ h. absurd h
execute_create-Evidence env provider wf WorkflowStage.submitting_create =
    Returns-bind
      (λ call.
        IsSuccess call
        → Observed create_traits env provider wf (Owned (λ o. is_running o.power_state ≡ true)))
      (mutate provider _)
      (λ x. pure (
        handle_mutation_result create_traits env wf x WorkflowStage.polling_create
          WorkflowStage.configuring))
      (handle_mutation_result-Proves create_traits env provider wf
        (Observed create_traits env provider wf (Owned (λ o. is_running o.power_state ≡ true)))
        WorkflowStage.polling_create WorkflowStage.configuring)
execute_create-Evidence env provider wf WorkflowStage.polling_create =
    poll_task-Proves create_traits env provider wf
      (Observed create_traits env provider wf (Owned (λ o. is_running o.power_state ≡ true)))
      WorkflowStage.configuring
execute_create-Evidence env provider wf WorkflowStage.configuring =
    mutation-Proves create_traits env provider wf
      (Observed create_traits env provider wf (Owned (λ o. is_running o.power_state ≡ true)))
      (required_resource create_traits env wf) _ WorkflowStage.polling_configuration
      WorkflowStage.starting
execute_create-Evidence env provider wf WorkflowStage.polling_configuration =
    poll_task-Proves create_traits env provider wf
      (Observed create_traits env provider wf (Owned (λ o. is_running o.power_state ≡ true)))
      WorkflowStage.starting
execute_create-Evidence env provider wf WorkflowStage.starting =
    mutation-Proves create_traits env provider wf
      (Observed create_traits env provider wf (Owned (λ o. is_running o.power_state ≡ true)))
      (required_resource create_traits env wf) _ WorkflowStage.polling_start WorkflowStage.observing
execute_create-Evidence env provider wf WorkflowStage.polling_start =
    poll_task-Proves create_traits env provider wf
      (Observed create_traits env provider wf (Owned (λ o. is_running o.power_state ≡ true)))
      WorkflowStage.observing
execute_create-Evidence env provider wf WorkflowStage.observing =
    observation-supports create_traits env provider wf IsSuccess "observe"
      (Owned (λ o. is_running o.power_state ≡ true)) (observed_create env wf)
      (observed_create-Owned env wf)
execute_create-Evidence env provider wf _ = λ h. cc

pub execute_power-Evidence :
    (env : Env) (provider : Provider) (wf : Claimed PowerRequested) (s : WorkflowStage)
    → Returns
        (λ call.
          IsSuccess call
          → Observed power_traits env provider wf (
              Owned (λ o.
                same_power_state o.power_state (expected_power_state wf.command.payload.action)
                ≡ true)))
        (execute_power env provider wf s).1
unfolding execute_power progress fail
execute_power-Evidence env provider wf WorkflowStage.accepted = λ h. absurd h
execute_power-Evidence env provider wf WorkflowStage.submitting_power =
    mutation-Proves power_traits env provider wf
      (Observed power_traits env provider wf (
        Owned (λ o.
          same_power_state o.power_state (expected_power_state wf.command.payload.action) ≡ true)))
      (required_resource power_traits env wf) _ WorkflowStage.polling_power
      WorkflowStage.observing_power
execute_power-Evidence env provider wf WorkflowStage.polling_power =
    poll_task-Proves power_traits env provider wf
      (Observed power_traits env provider wf (
        Owned (λ o.
          same_power_state o.power_state (expected_power_state wf.command.payload.action) ≡ true)))
      WorkflowStage.observing_power
execute_power-Evidence env provider wf WorkflowStage.observing_power =
    observation-supports power_traits env provider wf IsSuccess "observe-power"
      (Owned (λ o.
        same_power_state o.power_state (expected_power_state wf.command.payload.action) ≡ true))
      (observed_power env wf) (observed_power-Owned env wf)
execute_power-Evidence env provider wf _ = λ h. cc

pub execute_resize-Evidence :
    (env : Env) (provider : Provider) (wf : Claimed ResizeRequested) (s : WorkflowStage)
    → Returns
        (λ call.
          IsSuccess call
          → Observed resize_traits env provider wf
              (Owned (λ o. disagrees o.resources wf.command.payload.target_resources ≡ false)))
        (execute_resize env provider wf s).1
unfolding execute_resize progress fail
execute_resize-Evidence env provider wf WorkflowStage.accepted = λ h. absurd h
execute_resize-Evidence env provider wf WorkflowStage.submitting_resize =
    mutation-Proves resize_traits env provider wf
      (Observed resize_traits env provider wf
        (Owned (λ o. disagrees o.resources wf.command.payload.target_resources ≡ false)))
      (required_resource resize_traits env wf) _ WorkflowStage.polling_resize
      WorkflowStage.observing_resize
execute_resize-Evidence env provider wf WorkflowStage.polling_resize =
    poll_task-Proves resize_traits env provider wf
      (Observed resize_traits env provider wf
        (Owned (λ o. disagrees o.resources wf.command.payload.target_resources ≡ false)))
      WorkflowStage.observing_resize
execute_resize-Evidence env provider wf WorkflowStage.observing_resize =
    observation-supports resize_traits env provider wf IsSuccess "observe-resize"
      (Owned (λ o. disagrees o.resources wf.command.payload.target_resources ≡ false))
      (observed_resize env wf) (observed_resize-Owned env wf)
execute_resize-Evidence env provider wf _ = λ h. cc

pub execute_retain-Evidence :
    (env : Env) (provider : Provider) (wf : Claimed RetentionRequested) (s : WorkflowStage)
    → Returns
        (λ call. IsSuccess call → Observed retain_traits env provider wf (Owned (λ o. Unit)))
        (execute_retain env provider wf s).1
unfolding execute_retain progress fail
execute_retain-Evidence env provider wf WorkflowStage.accepted = λ h. absurd h
execute_retain-Evidence env provider wf WorkflowStage.submitting_retention =
    mutation-Proves retain_traits env provider wf
      (Observed retain_traits env provider wf (Owned (λ o. Unit)))
      (required_resource retain_traits env wf) _ WorkflowStage.polling_retention
      WorkflowStage.observing_retention
execute_retain-Evidence env provider wf WorkflowStage.polling_retention =
    poll_task-Proves retain_traits env provider wf
      (Observed retain_traits env provider wf (Owned (λ o. Unit))) WorkflowStage.observing_retention
execute_retain-Evidence env provider wf WorkflowStage.observing_retention =
    observation-supports retain_traits env provider wf IsSuccess "observe-retention"
      (Owned (λ o. Unit)) (observed_retention env wf) (observed_retention-Owned env wf)
execute_retain-Evidence env provider wf _ = λ h. cc
