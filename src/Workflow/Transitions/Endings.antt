-- ===== src/Workflow/Transitions/Endings.antt =====
-- What the stage table allows a mutation, a poll and an end of a step.
use private_cloud_control_pl.Prelude.{◌≡◌, ◌⊎◌, Option, none, some, List, inl, inr, arith, String}
use private_cloud_control_pl.Contracts.Events.{
  CreateRequested, PowerRequested, ResizeRequested, RetentionRequested, PurgeRequested,
}
use private_cloud_control_pl.Contracts.Provider.{
  Provider, InstanceObservation, Mutation, ProviderMutationResult,
}
use private_cloud_control_pl.Workflow.Stage.{WorkflowStage, WorkflowAction}
use private_cloud_control_pl.Workflow.Step.{Claimed, StoreCall, Step, pure, mutate, ◌>>=◌}
use private_cloud_control_pl.Workflow.Step.Rules.{Returns, Returns-mono}
use private_cloud_control_pl.Workflow.Step.Shapes.{Returns-mutation}
use private_cloud_control_pl.Workflow.Engine.{Env, Traits, progress, manual_review, succeed}
use private_cloud_control_pl.Workflow.Outcome.{handle_mutation_result, poll_task}
use private_cloud_control_pl.Workflow.Transitions.{IsAllowed, IsOneOf, next_stages, final_stages}
use private_cloud_control_pl.Workflow.Transitions.Results.{
  Lands, handle_mutation_result-Lands, poll_task-Lands,
}
use private_cloud_control_pl.Workflow.Create.{observed_create}
use private_cloud_control_pl.Workflow.Power.{observed_power}
use private_cloud_control_pl.Workflow.Resize.{observed_resize}
use private_cloud_control_pl.Workflow.Snapshot.{SnapshotAction, SnapshotPayload, observed_snapshot}
use private_cloud_control_pl.Workflow.Retain.{observed_retention}
use private_cloud_control_pl.Workflow.Purge.{verified_ownership, observed_absence}

Lands-IsAllowed :
    (action : WorkflowAction) (s a b : WorkflowStage) (call : StoreCall)
    → (a ≡ s) ⊎ IsOneOf a (next_stages action s)
    → (b ≡ s) ⊎ IsOneOf b (next_stages action s)
    → Lands a b call
    → IsAllowed action s call
Lands-IsAllowed action s a b (StoreCall.checkpoint c) ha hb (inl e) = rw e ha
Lands-IsAllowed action s a b (StoreCall.checkpoint c) ha hb (inr e) = rw e hb
Lands-IsAllowed action s a b (StoreCall.complete c) ha hb h = inl h
Lands-IsAllowed action s a b (StoreCall.dead_letter_workflow d) ha hb h = tt

module _ {A : Type 0} (t : Traits A) (env : Env) (provider : Provider) (wf : Claimed A)
    (action : WorkflowAction) (s : WorkflowStage) where
  pub poll_task-IsAllowed :
      (b : WorkflowStage)
      → wf.stage ≡ s
      → IsOneOf b (next_stages action s)
      → Returns (IsAllowed action s) (poll_task t env provider wf b).1
  poll_task-IsAllowed b e h =
      Returns-mono (Lands wf.stage b) (IsAllowed action s) (poll_task t env provider wf b).1
        (λ call. Lands-IsAllowed action s wf.stage b call (inl e) (inr h))
        (poll_task-Lands t env provider wf b)

  pub handle_mutation_result-IsAllowed :
      (a b : WorkflowStage)
      → IsOneOf a (next_stages action s)
      → IsOneOf b (next_stages action s)
      → (result : Option ProviderMutationResult)
      → IsAllowed action s (handle_mutation_result t env wf result a b)
  handle_mutation_result-IsAllowed a b ha hb result =
      Lands-IsAllowed action s a b (handle_mutation_result t env wf result a b) (inr ha) (inr hb)
        (handle_mutation_result-Lands t env wf result a b)

  pub mutation-IsAllowed :
      (resource : Step String) (build : String → Mutation) (a b : WorkflowStage)
      → IsOneOf a (next_stages action s)
      → IsOneOf b (next_stages action s)
      → Returns
          (IsAllowed action s)
          (resource >>= λ r.
            mutate provider (build r) >>= λ x. pure (handle_mutation_result t env wf x a b)).1
  mutation-IsAllowed resource build a b ha hb =
      Returns-mutation (IsAllowed action s) provider resource build
        (λ x. handle_mutation_result t env wf x a b) (handle_mutation_result-IsAllowed a b ha hb)

-- An end of any kind is allowed at a final stage.
abbrev Ends : StoreCall → Type 0
Ends (StoreCall.checkpoint c) = ⊥
Ends (StoreCall.complete c) = Unit
Ends (StoreCall.dead_letter_workflow d) = Unit

pub Ends-IsAllowed :
    (action : WorkflowAction) (s : WorkflowStage) (call : StoreCall)
    → IsOneOf s (final_stages action)
    → Ends call
    → IsAllowed action s call
Ends-IsAllowed action s (StoreCall.checkpoint c) h e = absurd e
Ends-IsAllowed action s (StoreCall.complete c) h e = inr h
Ends-IsAllowed action s (StoreCall.dead_letter_workflow d) h e = tt

pub observed_create-Ends :
    (env : Env) (wf : Claimed CreateRequested) (r : String) (o : Option InstanceObservation)
    → Ends (observed_create env wf r o)
unfolding observed_create succeed manual_review
observed_create-Ends env wf r none = tt
observed_create-Ends env wf r (some o) = ground arith

pub observed_power-Ends :
    (env : Env) (wf : Claimed PowerRequested) (r : String) (o : Option InstanceObservation)
    → Ends (observed_power env wf r o)
unfolding observed_power succeed manual_review
observed_power-Ends env wf r none = tt
observed_power-Ends env wf r (some o) = ground arith

pub observed_resize-Ends :
    (env : Env) (wf : Claimed ResizeRequested) (r : String) (o : Option InstanceObservation)
    → Ends (observed_resize env wf r o)
unfolding observed_resize succeed manual_review
observed_resize-Ends env wf r none = tt
observed_resize-Ends env wf r (some o) = ground arith

pub observed_snapshot-Ends :
    (a : SnapshotAction) (env : Env) (wf : Claimed (SnapshotPayload a)) (r : String)
    (names : List String)
    → Ends (observed_snapshot a env wf r names)
unfolding observed_snapshot succeed manual_review
observed_snapshot-Ends a env wf r names = ground arith

pub observed_retention-Ends :
    (env : Env) (wf : Claimed RetentionRequested) (r : String) (o : Option InstanceObservation)
    → Ends (observed_retention env wf r o)
unfolding observed_retention succeed manual_review
observed_retention-Ends env wf r none = tt
observed_retention-Ends env wf r (some o) = ground arith

pub observed_absence-Ends :
    (env : Env) (wf : Claimed PurgeRequested) (r : String) (o : Option InstanceObservation)
    → Ends (observed_absence env wf r o)
unfolding observed_absence succeed manual_review
observed_absence-Ends env wf r o = ground arith

pub verified_ownership-IsAllowed :
    (env : Env) (wf : Claimed PurgeRequested) (r : String) (o : Option InstanceObservation)
    → IsAllowed WorkflowAction.purge_instance WorkflowStage.verifying_purge
        (verified_ownership env wf r o)
unfolding verified_ownership succeed manual_review progress
verified_ownership-IsAllowed env wf r o = ground arith
