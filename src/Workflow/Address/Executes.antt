-- ===== src/Workflow/Address/Executes.antt =====
-- Every capability's step is addressed by its claim.
use private_cloud_control_pl.Prelude.{refl, Option, none, some, List, String, arith}
use private_cloud_control_pl.Contracts.Events.{
  CreateRequested, PowerRequested, ResizeRequested, RetentionRequested, PurgeRequested,
}
use private_cloud_control_pl.Contracts.Provider.{Provider, Mutation, InstanceObservation}
use private_cloud_control_pl.Workflow.Stage.{WorkflowStage}
use private_cloud_control_pl.Workflow.Step.{Claimed, Step, pure, mutate, ◌>>=◌}
use private_cloud_control_pl.Workflow.Step.Rules.{Returns, Returns-bind}
use private_cloud_control_pl.Workflow.Step.Shapes.{
  Returns-mutation, Returns-observation, Returns-listing,
}
use private_cloud_control_pl.Workflow.Engine.{
  Env, Traits, progress, fail, manual_review, succeed, required_resource,
}
use private_cloud_control_pl.Workflow.Outcome.{handle_mutation_result}
use private_cloud_control_pl.Workflow.Create.{
  create_traits, submit_create, observed_create, execute_create,
}
use private_cloud_control_pl.Workflow.Power.{power_traits, observed_power, execute_power}
use private_cloud_control_pl.Workflow.Resize.{resize_traits, observed_resize, execute_resize}
use private_cloud_control_pl.Workflow.Snapshot.{
  SnapshotAction, SnapshotPayload, snapshot_traits, observed_snapshot, execute_snapshot,
}
use private_cloud_control_pl.Workflow.Retain.{retain_traits, observed_retention, execute_retain}
use private_cloud_control_pl.Workflow.Purge.{
  purge_traits, verified_ownership, observed_absence, execute_purge,
}
use private_cloud_control_pl.Workflow.Address.{IsAddressed}
use private_cloud_control_pl.Workflow.Address.Results.{
  handle_mutation_result-IsAddressed, poll_task-IsAddressed,
}

mutation-IsAddressed :
    {A : Type 0} (t : Traits A) (env : Env) (provider : Provider) (wf : Claimed A)
    (resource : Step String) (build : String → Mutation) (a b : WorkflowStage)
    → Returns
        (IsAddressed env wf)
        (resource >>= λ r.
          mutate provider (build r) >>= λ x. pure (handle_mutation_result t env wf x a b)).1
mutation-IsAddressed t env provider wf resource build a b =
    Returns-mutation (IsAddressed env wf) provider resource build
      (λ x. handle_mutation_result t env wf x a b) (handle_mutation_result-IsAddressed t env wf a b)

observed_create-IsAddressed :
    (env : Env) (wf : Claimed CreateRequested) (r : String) (o : Option InstanceObservation)
    → IsAddressed env wf (observed_create env wf r o)
unfolding observed_create succeed manual_review fail progress
observed_create-IsAddressed env wf r none = ground arith
observed_create-IsAddressed env wf r (some o) = ground arith

pub execute_create-IsAddressed :
    (env : Env) (provider : Provider) (wf : Claimed CreateRequested) (s : WorkflowStage)
    → Returns (IsAddressed env wf) (execute_create env provider wf s).1
unfolding execute_create submit_create progress fail
execute_create-IsAddressed env provider wf WorkflowStage.accepted = (refl, refl, refl)
execute_create-IsAddressed env provider wf WorkflowStage.submitting_create =
    Returns-bind (IsAddressed env wf) (mutate provider _)
      (λ x. pure (
        handle_mutation_result create_traits env wf x WorkflowStage.polling_create
          WorkflowStage.configuring))
      (handle_mutation_result-IsAddressed create_traits env wf WorkflowStage.polling_create
        WorkflowStage.configuring)
execute_create-IsAddressed env provider wf WorkflowStage.configuring =
    mutation-IsAddressed create_traits env provider wf (required_resource create_traits env wf) _
      WorkflowStage.polling_configuration WorkflowStage.starting
execute_create-IsAddressed env provider wf WorkflowStage.starting =
    mutation-IsAddressed create_traits env provider wf (required_resource create_traits env wf) _
      WorkflowStage.polling_start WorkflowStage.observing
execute_create-IsAddressed env provider wf WorkflowStage.polling_create =
    poll_task-IsAddressed create_traits env wf provider WorkflowStage.configuring
execute_create-IsAddressed env provider wf WorkflowStage.polling_configuration =
    poll_task-IsAddressed create_traits env wf provider WorkflowStage.starting
execute_create-IsAddressed env provider wf WorkflowStage.polling_start =
    poll_task-IsAddressed create_traits env wf provider WorkflowStage.observing
execute_create-IsAddressed env provider wf WorkflowStage.observing =
    Returns-observation (IsAddressed env wf) provider (required_resource create_traits env wf) _
      (observed_create env wf) (observed_create-IsAddressed env wf)
execute_create-IsAddressed env provider wf _ = (refl, refl, refl)

observed_power-IsAddressed :
    (env : Env) (wf : Claimed PowerRequested) (r : String) (o : Option InstanceObservation)
    → IsAddressed env wf (observed_power env wf r o)
unfolding observed_power succeed manual_review fail progress
observed_power-IsAddressed env wf r none = ground arith
observed_power-IsAddressed env wf r (some o) = ground arith

pub execute_power-IsAddressed :
    (env : Env) (provider : Provider) (wf : Claimed PowerRequested) (s : WorkflowStage)
    → Returns (IsAddressed env wf) (execute_power env provider wf s).1
unfolding execute_power progress fail
execute_power-IsAddressed env provider wf WorkflowStage.accepted = (refl, refl, refl)
execute_power-IsAddressed env provider wf WorkflowStage.submitting_power =
    mutation-IsAddressed power_traits env provider wf (required_resource power_traits env wf) _
      WorkflowStage.polling_power WorkflowStage.observing_power
execute_power-IsAddressed env provider wf WorkflowStage.polling_power =
    poll_task-IsAddressed power_traits env wf provider WorkflowStage.observing_power
execute_power-IsAddressed env provider wf WorkflowStage.observing_power =
    Returns-observation (IsAddressed env wf) provider (required_resource power_traits env wf) _
      (observed_power env wf) (observed_power-IsAddressed env wf)
execute_power-IsAddressed env provider wf _ = (refl, refl, refl)

observed_resize-IsAddressed :
    (env : Env) (wf : Claimed ResizeRequested) (r : String) (o : Option InstanceObservation)
    → IsAddressed env wf (observed_resize env wf r o)
unfolding observed_resize succeed manual_review fail progress
observed_resize-IsAddressed env wf r none = ground arith
observed_resize-IsAddressed env wf r (some o) = ground arith

pub execute_resize-IsAddressed :
    (env : Env) (provider : Provider) (wf : Claimed ResizeRequested) (s : WorkflowStage)
    → Returns (IsAddressed env wf) (execute_resize env provider wf s).1
unfolding execute_resize progress fail
execute_resize-IsAddressed env provider wf WorkflowStage.accepted = (refl, refl, refl)
execute_resize-IsAddressed env provider wf WorkflowStage.submitting_resize =
    mutation-IsAddressed resize_traits env provider wf (required_resource resize_traits env wf) _
      WorkflowStage.polling_resize WorkflowStage.observing_resize
execute_resize-IsAddressed env provider wf WorkflowStage.polling_resize =
    poll_task-IsAddressed resize_traits env wf provider WorkflowStage.observing_resize
execute_resize-IsAddressed env provider wf WorkflowStage.observing_resize =
    Returns-observation (IsAddressed env wf) provider (required_resource resize_traits env wf) _
      (observed_resize env wf) (observed_resize-IsAddressed env wf)
execute_resize-IsAddressed env provider wf _ = (refl, refl, refl)

observed_retention-IsAddressed :
    (env : Env) (wf : Claimed RetentionRequested) (r : String) (o : Option InstanceObservation)
    → IsAddressed env wf (observed_retention env wf r o)
unfolding observed_retention succeed manual_review fail progress
observed_retention-IsAddressed env wf r none = ground arith
observed_retention-IsAddressed env wf r (some o) = ground arith

pub execute_retain-IsAddressed :
    (env : Env) (provider : Provider) (wf : Claimed RetentionRequested) (s : WorkflowStage)
    → Returns (IsAddressed env wf) (execute_retain env provider wf s).1
unfolding execute_retain progress fail
execute_retain-IsAddressed env provider wf WorkflowStage.accepted = (refl, refl, refl)
execute_retain-IsAddressed env provider wf WorkflowStage.submitting_retention =
    mutation-IsAddressed retain_traits env provider wf (required_resource retain_traits env wf) _
      WorkflowStage.polling_retention WorkflowStage.observing_retention
execute_retain-IsAddressed env provider wf WorkflowStage.polling_retention =
    poll_task-IsAddressed retain_traits env wf provider WorkflowStage.observing_retention
execute_retain-IsAddressed env provider wf WorkflowStage.observing_retention =
    Returns-observation (IsAddressed env wf) provider (required_resource retain_traits env wf) _
      (observed_retention env wf) (observed_retention-IsAddressed env wf)
execute_retain-IsAddressed env provider wf _ = (refl, refl, refl)

observed_absence-IsAddressed :
    (env : Env) (wf : Claimed PurgeRequested) (r : String) (o : Option InstanceObservation)
    → IsAddressed env wf (observed_absence env wf r o)
unfolding observed_absence succeed manual_review fail progress
observed_absence-IsAddressed env wf r none = ground arith
observed_absence-IsAddressed env wf r (some o) = ground arith

verified_ownership-IsAddressed :
    (env : Env) (wf : Claimed PurgeRequested) (r : String) (o : Option InstanceObservation)
    → IsAddressed env wf (verified_ownership env wf r o)
unfolding verified_ownership succeed manual_review fail progress
verified_ownership-IsAddressed env wf r none = ground arith
verified_ownership-IsAddressed env wf r (some o) = ground arith

pub execute_purge-IsAddressed :
    (env : Env) (provider : Provider) (wf : Claimed PurgeRequested) (s : WorkflowStage)
    → Returns (IsAddressed env wf) (execute_purge env provider wf s).1
unfolding execute_purge progress fail
execute_purge-IsAddressed env provider wf WorkflowStage.accepted = (refl, refl, refl)
execute_purge-IsAddressed env provider wf WorkflowStage.verifying_purge =
    Returns-observation (IsAddressed env wf) provider (required_resource purge_traits env wf) _
      (verified_ownership env wf) (verified_ownership-IsAddressed env wf)
execute_purge-IsAddressed env provider wf WorkflowStage.submitting_purge =
    mutation-IsAddressed purge_traits env provider wf (required_resource purge_traits env wf) _
      WorkflowStage.polling_purge WorkflowStage.observing_purge
execute_purge-IsAddressed env provider wf WorkflowStage.polling_purge =
    poll_task-IsAddressed purge_traits env wf provider WorkflowStage.observing_purge
execute_purge-IsAddressed env provider wf WorkflowStage.observing_purge =
    Returns-observation (IsAddressed env wf) provider (required_resource purge_traits env wf) _
      (observed_absence env wf) (observed_absence-IsAddressed env wf)
execute_purge-IsAddressed env provider wf _ = (refl, refl, refl)

observed_snapshot-IsAddressed :
    (a : SnapshotAction) (env : Env) (wf : Claimed (SnapshotPayload a)) (r : String)
    (names : List String)
    → IsAddressed env wf (observed_snapshot a env wf r names)
unfolding observed_snapshot succeed manual_review fail
observed_snapshot-IsAddressed a env wf r names = ground arith

pub execute_snapshot-IsAddressed :
    (a : SnapshotAction) (env : Env) (provider : Provider) (wf : Claimed (SnapshotPayload a))
    (s : WorkflowStage)
    → Returns (IsAddressed env wf) (execute_snapshot a env provider wf s).1
unfolding execute_snapshot progress fail
execute_snapshot-IsAddressed a env provider wf WorkflowStage.accepted = (refl, refl, refl)
execute_snapshot-IsAddressed a env provider wf WorkflowStage.submitting_snapshot =
    mutation-IsAddressed (snapshot_traits a) env provider wf
      (required_resource (snapshot_traits a) env wf) _ WorkflowStage.polling_snapshot
      WorkflowStage.observing_snapshot
execute_snapshot-IsAddressed a env provider wf WorkflowStage.polling_snapshot =
    poll_task-IsAddressed (snapshot_traits a) env wf provider WorkflowStage.observing_snapshot
execute_snapshot-IsAddressed a env provider wf WorkflowStage.observing_snapshot =
    Returns-listing (IsAddressed env wf) provider (required_resource (snapshot_traits a) env wf) _
      (observed_snapshot a env wf) (observed_snapshot-IsAddressed a env wf)
execute_snapshot-IsAddressed a env provider wf _ = (refl, refl, refl)
