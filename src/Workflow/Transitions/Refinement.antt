-- ===== src/Workflow/Transitions/Refinement.antt =====
-- Every capability's step keeps to the stage table.
use private_cloud_control_pl.Prelude.{◌≡◌, inl, inr, refl}
use private_cloud_control_pl.Contracts.Events.{
  CreateRequested, PowerRequested, ResizeRequested, RetentionRequested, PurgeRequested,
}
use private_cloud_control_pl.Contracts.Provider.{Provider}
use private_cloud_control_pl.Workflow.Stage.{WorkflowStage, WorkflowAction}
use private_cloud_control_pl.Workflow.Step.{Claimed, pure, mutate}
use private_cloud_control_pl.Workflow.Step.Rules.{Returns, Returns-bind}
use private_cloud_control_pl.Workflow.Step.Shapes.{Returns-observation, Returns-listing}
use private_cloud_control_pl.Workflow.Engine.{Env, progress, fail, required_resource}
use private_cloud_control_pl.Workflow.Outcome.{handle_mutation_result}
use private_cloud_control_pl.Workflow.Transitions.{IsAllowed, IsOneOf, next_stages, final_stages}
use private_cloud_control_pl.Workflow.Create.{create_traits, observed_create, execute_create}
use private_cloud_control_pl.Workflow.Power.{power_traits, observed_power, execute_power}
use private_cloud_control_pl.Workflow.Resize.{resize_traits, observed_resize, execute_resize}
use private_cloud_control_pl.Workflow.Snapshot.{
  SnapshotAction, SnapshotPayload, workflow_action, snapshot_traits, observed_snapshot,
  execute_snapshot,
}
use private_cloud_control_pl.Workflow.Retain.{retain_traits, observed_retention, execute_retain}
use private_cloud_control_pl.Workflow.Purge.{
  purge_traits, verified_ownership, observed_absence, execute_purge,
}
use private_cloud_control_pl.Workflow.Transitions.Endings.{
  poll_task-IsAllowed, handle_mutation_result-IsAllowed, mutation-IsAllowed, Ends-IsAllowed,
  observed_create-Ends, observed_power-Ends, observed_resize-Ends, observed_snapshot-Ends,
  observed_retention-Ends, observed_absence-Ends, verified_ownership-IsAllowed,
}

pub execute_create-IsAllowed :
    (env : Env) (provider : Provider) (wf : Claimed CreateRequested) (s : WorkflowStage)
    → wf.stage ≡ s
    → Returns (IsAllowed WorkflowAction.create_instance s) (execute_create env provider wf s).1
unfolding execute_create progress fail
execute_create-IsAllowed env provider wf WorkflowStage.accepted e = inr (inl refl)
execute_create-IsAllowed env provider wf WorkflowStage.submitting_create e =
    Returns-bind (IsAllowed WorkflowAction.create_instance WorkflowStage.submitting_create)
      (mutate provider _)
      (λ x. pure (
        handle_mutation_result create_traits env wf x WorkflowStage.polling_create
          WorkflowStage.configuring))
      (handle_mutation_result-IsAllowed create_traits env provider wf WorkflowAction.create_instance
        WorkflowStage.submitting_create WorkflowStage.polling_create WorkflowStage.configuring
        (inl refl) (inr (inl refl)))
execute_create-IsAllowed env provider wf WorkflowStage.polling_create e =
    poll_task-IsAllowed create_traits env provider wf WorkflowAction.create_instance
      WorkflowStage.polling_create WorkflowStage.configuring e (inl refl)
execute_create-IsAllowed env provider wf WorkflowStage.configuring e =
    mutation-IsAllowed create_traits env provider wf WorkflowAction.create_instance
      WorkflowStage.configuring (required_resource create_traits env wf) _
      WorkflowStage.polling_configuration WorkflowStage.starting (inl refl) (inr (inl refl))
execute_create-IsAllowed env provider wf WorkflowStage.polling_configuration e =
    poll_task-IsAllowed create_traits env provider wf WorkflowAction.create_instance
      WorkflowStage.polling_configuration WorkflowStage.starting e (inl refl)
execute_create-IsAllowed env provider wf WorkflowStage.starting e =
    mutation-IsAllowed create_traits env provider wf WorkflowAction.create_instance
      WorkflowStage.starting (required_resource create_traits env wf) _ WorkflowStage.polling_start
      WorkflowStage.observing (inl refl) (inr (inl refl))
execute_create-IsAllowed env provider wf WorkflowStage.polling_start e =
    poll_task-IsAllowed create_traits env provider wf WorkflowAction.create_instance
      WorkflowStage.polling_start WorkflowStage.observing e (inl refl)
execute_create-IsAllowed env provider wf WorkflowStage.observing e =
    Returns-observation (IsAllowed WorkflowAction.create_instance WorkflowStage.observing) provider
      (required_resource create_traits env wf) _ (observed_create env wf)
      (λ r o.
        Ends-IsAllowed WorkflowAction.create_instance WorkflowStage.observing
          (observed_create env wf r o) (inl refl) (observed_create-Ends env wf r o))
execute_create-IsAllowed env provider wf _ e = inl (λ h. cc)

pub execute_power-IsAllowed :
    (env : Env) (provider : Provider) (wf : Claimed PowerRequested) (s : WorkflowStage)
    → wf.stage ≡ s
    → Returns (IsAllowed WorkflowAction.power_instance s) (execute_power env provider wf s).1
unfolding execute_power progress fail
execute_power-IsAllowed env provider wf WorkflowStage.accepted e = inr (inl refl)
execute_power-IsAllowed env provider wf WorkflowStage.submitting_power e =
    mutation-IsAllowed power_traits env provider wf WorkflowAction.power_instance
      WorkflowStage.submitting_power (required_resource power_traits env wf) _
      WorkflowStage.polling_power WorkflowStage.observing_power (inl refl) (inr (inl refl))
execute_power-IsAllowed env provider wf WorkflowStage.polling_power e =
    poll_task-IsAllowed power_traits env provider wf WorkflowAction.power_instance
      WorkflowStage.polling_power WorkflowStage.observing_power e (inl refl)
execute_power-IsAllowed env provider wf WorkflowStage.observing_power e =
    Returns-observation (IsAllowed WorkflowAction.power_instance WorkflowStage.observing_power)
      provider (required_resource power_traits env wf) _ (observed_power env wf)
      (λ r o.
        Ends-IsAllowed WorkflowAction.power_instance WorkflowStage.observing_power
          (observed_power env wf r o) (inl refl) (observed_power-Ends env wf r o))
execute_power-IsAllowed env provider wf _ e = inl (λ h. cc)

pub execute_resize-IsAllowed :
    (env : Env) (provider : Provider) (wf : Claimed ResizeRequested) (s : WorkflowStage)
    → wf.stage ≡ s
    → Returns (IsAllowed WorkflowAction.resize_instance s) (execute_resize env provider wf s).1
unfolding execute_resize progress fail
execute_resize-IsAllowed env provider wf WorkflowStage.accepted e = inr (inl refl)
execute_resize-IsAllowed env provider wf WorkflowStage.submitting_resize e =
    mutation-IsAllowed resize_traits env provider wf WorkflowAction.resize_instance
      WorkflowStage.submitting_resize (required_resource resize_traits env wf) _
      WorkflowStage.polling_resize WorkflowStage.observing_resize (inl refl) (inr (inl refl))
execute_resize-IsAllowed env provider wf WorkflowStage.polling_resize e =
    poll_task-IsAllowed resize_traits env provider wf WorkflowAction.resize_instance
      WorkflowStage.polling_resize WorkflowStage.observing_resize e (inl refl)
execute_resize-IsAllowed env provider wf WorkflowStage.observing_resize e =
    Returns-observation (IsAllowed WorkflowAction.resize_instance WorkflowStage.observing_resize)
      provider (required_resource resize_traits env wf) _ (observed_resize env wf)
      (λ r o.
        Ends-IsAllowed WorkflowAction.resize_instance WorkflowStage.observing_resize
          (observed_resize env wf r o) (inl refl) (observed_resize-Ends env wf r o))
execute_resize-IsAllowed env provider wf _ e = inl (λ h. cc)

pub execute_retain-IsAllowed :
    (env : Env) (provider : Provider) (wf : Claimed RetentionRequested) (s : WorkflowStage)
    → wf.stage ≡ s
    → Returns (IsAllowed WorkflowAction.retain_instance s) (execute_retain env provider wf s).1
unfolding execute_retain progress fail
execute_retain-IsAllowed env provider wf WorkflowStage.accepted e = inr (inl refl)
execute_retain-IsAllowed env provider wf WorkflowStage.submitting_retention e =
    mutation-IsAllowed retain_traits env provider wf WorkflowAction.retain_instance
      WorkflowStage.submitting_retention (required_resource retain_traits env wf) _
      WorkflowStage.polling_retention WorkflowStage.observing_retention (inl refl) (inr (inl refl))
execute_retain-IsAllowed env provider wf WorkflowStage.polling_retention e =
    poll_task-IsAllowed retain_traits env provider wf WorkflowAction.retain_instance
      WorkflowStage.polling_retention WorkflowStage.observing_retention e (inl refl)
execute_retain-IsAllowed env provider wf WorkflowStage.observing_retention e =
    Returns-observation (IsAllowed WorkflowAction.retain_instance WorkflowStage.observing_retention)
      provider (required_resource retain_traits env wf) _ (observed_retention env wf)
      (λ r o.
        Ends-IsAllowed WorkflowAction.retain_instance WorkflowStage.observing_retention
          (observed_retention env wf r o) (inl refl) (observed_retention-Ends env wf r o))
execute_retain-IsAllowed env provider wf _ e = inl (λ h. cc)

pub execute_purge-IsAllowed :
    (env : Env) (provider : Provider) (wf : Claimed PurgeRequested) (s : WorkflowStage)
    → wf.stage ≡ s
    → Returns (IsAllowed WorkflowAction.purge_instance s) (execute_purge env provider wf s).1
unfolding execute_purge progress fail
execute_purge-IsAllowed env provider wf WorkflowStage.accepted e = inr (inl refl)
execute_purge-IsAllowed env provider wf WorkflowStage.verifying_purge e =
    Returns-observation (IsAllowed WorkflowAction.purge_instance WorkflowStage.verifying_purge)
      provider (required_resource purge_traits env wf) _ (verified_ownership env wf)
      (verified_ownership-IsAllowed env wf)
execute_purge-IsAllowed env provider wf WorkflowStage.submitting_purge e =
    mutation-IsAllowed purge_traits env provider wf WorkflowAction.purge_instance
      WorkflowStage.submitting_purge (required_resource purge_traits env wf) _
      WorkflowStage.polling_purge WorkflowStage.observing_purge (inl refl) (inr (inl refl))
execute_purge-IsAllowed env provider wf WorkflowStage.polling_purge e =
    poll_task-IsAllowed purge_traits env provider wf WorkflowAction.purge_instance
      WorkflowStage.polling_purge WorkflowStage.observing_purge e (inl refl)
execute_purge-IsAllowed env provider wf WorkflowStage.observing_purge e =
    Returns-observation (IsAllowed WorkflowAction.purge_instance WorkflowStage.observing_purge)
      provider (required_resource purge_traits env wf) _ (observed_absence env wf)
      (λ r o.
        Ends-IsAllowed WorkflowAction.purge_instance WorkflowStage.observing_purge
          (observed_absence env wf r o) (inr (inl refl)) (observed_absence-Ends env wf r o))
execute_purge-IsAllowed env provider wf _ e = inl (λ h. cc)

snapshot_final :
    (a : SnapshotAction)
    → IsOneOf WorkflowStage.observing_snapshot (final_stages (workflow_action a))
snapshot_final SnapshotAction.create = inl refl
snapshot_final SnapshotAction.rollback = inl refl
snapshot_final SnapshotAction.delete = inl refl

snapshot_first :
    (a : SnapshotAction)
    → IsOneOf WorkflowStage.submitting_snapshot
        (next_stages (workflow_action a) WorkflowStage.accepted)
snapshot_first SnapshotAction.create = inl refl
snapshot_first SnapshotAction.rollback = inl refl
snapshot_first SnapshotAction.delete = inl refl

pub execute_snapshot-IsAllowed :
    (a : SnapshotAction) (env : Env) (provider : Provider) (wf : Claimed (SnapshotPayload a))
    (s : WorkflowStage)
    → wf.stage ≡ s
    → Returns (IsAllowed (workflow_action a) s) (execute_snapshot a env provider wf s).1
unfolding execute_snapshot progress fail
execute_snapshot-IsAllowed a env provider wf WorkflowStage.accepted e = inr (snapshot_first a)
execute_snapshot-IsAllowed a env provider wf WorkflowStage.submitting_snapshot e =
    mutation-IsAllowed (snapshot_traits a) env provider wf (workflow_action a)
      WorkflowStage.submitting_snapshot (required_resource (snapshot_traits a) env wf) _
      WorkflowStage.polling_snapshot WorkflowStage.observing_snapshot (inl refl) (inr (inl refl))
execute_snapshot-IsAllowed a env provider wf WorkflowStage.polling_snapshot e =
    poll_task-IsAllowed (snapshot_traits a) env provider wf (workflow_action a)
      WorkflowStage.polling_snapshot WorkflowStage.observing_snapshot e (inl refl)
execute_snapshot-IsAllowed a env provider wf WorkflowStage.observing_snapshot e =
    Returns-listing (IsAllowed (workflow_action a) WorkflowStage.observing_snapshot) provider
      (required_resource (snapshot_traits a) env wf) _ (observed_snapshot a env wf)
      (λ r o.
        Ends-IsAllowed (workflow_action a) WorkflowStage.observing_snapshot
          (observed_snapshot a env wf r o) (snapshot_final a) (observed_snapshot-Ends a env wf r o))
execute_snapshot-IsAllowed a env provider wf _ e = inl (λ h. cc)
