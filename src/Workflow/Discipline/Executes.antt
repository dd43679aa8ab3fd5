-- ===== src/Workflow/Discipline/Executes.antt =====
-- Every `execute` is disciplined.
use private_cloud_control_pl.Prelude.{
  ◌≡◌, List, [], ◌∷◌, true, Option, none, some, String, refl, arith, inl, inr, Bool-cases,
}
use private_cloud_control_pl.Contracts.Events.{
  CreateRequested, PowerRequested, ResizeRequested, RetentionRequested, PurgeRequested,
}
use private_cloud_control_pl.Contracts.Provider.{
  Provider, ProviderCall, Mutation, Answer, InstanceRequest, InstanceObservation,
  ProviderMutationResult,
}
use private_cloud_control_pl.Workflow.Stage.{WorkflowStage}
use private_cloud_control_pl.Workflow.Step.{
  Claimed, Result, ok, raise, transport, Step, StoreCall, pure, mutate, observe_instance,
  list_snapshots, of_answer, bind_result, ◌>>=◌,
}
use private_cloud_control_pl.Workflow.Engine.{
  Env, Traits, includes, required_resource, context, is_present,
}
use private_cloud_control_pl.Workflow.Outcome.{
  poll_task, poll_reference, poll_step, handle_task_result,
}
use private_cloud_control_pl.Workflow.Create.{create_traits, execute_create}
use private_cloud_control_pl.Workflow.Power.{power_traits, execute_power}
use private_cloud_control_pl.Workflow.Resize.{resize_traits, execute_resize}
use private_cloud_control_pl.Workflow.Snapshot.{
  SnapshotAction, SnapshotPayload, snapshot_traits, execute_snapshot,
}
use private_cloud_control_pl.Workflow.Retain.{retain_traits, execute_retain}
use private_cloud_control_pl.Workflow.Purge.{purge_traits, execute_purge}
use private_cloud_control_pl.Workflow.Discipline.{IsDisciplined}

module _ (provider : Provider) (stages : List WorkflowStage) (s : WorkflowStage) where
  mutate-IsDisciplined :
      (m : Mutation) (read : Option ProviderMutationResult → StoreCall)
      → includes stages s ≡ true
      → IsDisciplined provider stages s (mutate provider m >>= λ x. pure (read x))
  mutate-IsDisciplined m read here = go (provider.mutate m) refl
    where
      go :
          (a : Answer (Option ProviderMutationResult))
          → provider.mutate m ≡ a
          → IsDisciplined provider stages s
              (bind_result (ProviderCall.mutation m ∷ []) (of_answer a) (λ x. pure (read x)))
      go (Answer.answered x) h = (here, λ e k. cc)
      go (Answer.failed e) h = (here, λ d k. cc)

  mutation-IsDisciplined :
      (resource : Step String) (build : String → Mutation)
      (read : Option ProviderMutationResult → StoreCall)
      → resource.0 ≡ []
      → includes stages s ≡ true
      → IsDisciplined provider stages s
          (resource >>= λ r. mutate provider (build r) >>= λ x. pure (read x))
  mutation-IsDisciplined ([], ok r) build read free here = mutate-IsDisciplined (build r) read here
  mutation-IsDisciplined ([], raise e) build read free here = tt
  mutation-IsDisciplined (c ∷ cs, result) build read free here = cc

  -- A call that reads is made at any stage.
  read-IsDisciplined {ℓ} :
      {X : Type ℓ} (c : ProviderCall) (a : Answer X) (read : X → StoreCall)
      → ((r : Result StoreCall) → IsDisciplined provider stages s (c ∷ [], r))
      → IsDisciplined provider stages s (bind_result (c ∷ []) (of_answer a) (λ x. pure (read x)))
  read-IsDisciplined c (Answer.answered x) read h = h (ok (read x))
  read-IsDisciplined c (Answer.failed e) read h = h (raise (transport e))

  observation-IsDisciplined :
      (resource : Step String) (build : String → InstanceRequest)
      (read : String → Option InstanceObservation → StoreCall)
      → resource.0 ≡ []
      → IsDisciplined provider stages s
          (resource >>= λ r. observe_instance provider (build r) >>= λ x. pure (read r x))
  observation-IsDisciplined ([], ok r) build read free =
      read-IsDisciplined (ProviderCall.observe_instance (build r))
        (provider.observe_instance (build r)) (read r) (λ _. tt)
  observation-IsDisciplined ([], raise e) build read free = tt
  observation-IsDisciplined (c ∷ cs, result) build read free = cc

  listing-IsDisciplined :
      (resource : Step String) (build : String → InstanceRequest)
      (read : String → List String → StoreCall)
      → resource.0 ≡ []
      → IsDisciplined provider stages s
          (resource >>= λ r. list_snapshots provider (build r) >>= λ x. pure (read r x))
  listing-IsDisciplined ([], ok r) build read free =
      read-IsDisciplined (ProviderCall.list_snapshots (build r)) (provider.list_snapshots (build r))
        (read r) (λ _. tt)
  listing-IsDisciplined ([], raise e) build read free = tt
  listing-IsDisciplined (c ∷ cs, result) build read free = cc

module _ {A : Type 0} (t : Traits A) (env : Env) (provider : Provider) (wf : Claimed A)
    (stages : List WorkflowStage) (s : WorkflowStage) where
  required_resource_free : (required_resource t env wf).0 ≡ []
  unfolding required_resource
  required_resource_free = ground arith

  poll_reference-IsDisciplined :
      (reference : Option String) (b : WorkflowStage)
      → IsDisciplined provider stages s (poll_reference t env provider wf reference b)
  unfolding poll_reference
  poll_reference-IsDisciplined none b = tt
  poll_reference-IsDisciplined (some r) b = elim (Bool-cases (is_present (some r))) [
    | inl e ↦ rw e (
        read-IsDisciplined provider stages s
          (ProviderCall.get_task (context t env wf (poll_step wf.stage)) r)
          (provider.get_task (context t env wf (poll_step wf.stage)) r)
          (λ response. handle_task_result t env wf response b r) (λ _. tt))
    | inr e ↦ rw e tt
  ]

  poll_task-IsDisciplined :
      (b : WorkflowStage) → IsDisciplined provider stages s (poll_task t env provider wf b)
  unfolding poll_task
  poll_task-IsDisciplined b = poll_reference-IsDisciplined wf.provider_task_reference b

pub execute_create-IsDisciplined :
    (env : Env) (provider : Provider) (wf : Claimed CreateRequested) (s : WorkflowStage)
    → IsDisciplined provider create_traits.mutation_stages s (execute_create env provider wf s)
unfolding execute_create create_traits includes
execute_create-IsDisciplined env provider wf WorkflowStage.accepted = tt
execute_create-IsDisciplined env provider wf WorkflowStage.submitting_create =
    mutate-IsDisciplined provider create_traits.mutation_stages WorkflowStage.submitting_create _ _
      refl
execute_create-IsDisciplined env provider wf WorkflowStage.polling_create =
    poll_task-IsDisciplined create_traits env provider wf create_traits.mutation_stages
      WorkflowStage.polling_create WorkflowStage.configuring
execute_create-IsDisciplined env provider wf WorkflowStage.configuring =
    mutation-IsDisciplined provider create_traits.mutation_stages WorkflowStage.configuring
      (required_resource create_traits env wf) _ _
      (required_resource_free create_traits env provider wf create_traits.mutation_stages
        WorkflowStage.configuring)
      refl
execute_create-IsDisciplined env provider wf WorkflowStage.polling_configuration =
    poll_task-IsDisciplined create_traits env provider wf create_traits.mutation_stages
      WorkflowStage.polling_configuration WorkflowStage.starting
execute_create-IsDisciplined env provider wf WorkflowStage.starting =
    mutation-IsDisciplined provider create_traits.mutation_stages WorkflowStage.starting
      (required_resource create_traits env wf) _ _
      (required_resource_free create_traits env provider wf create_traits.mutation_stages
        WorkflowStage.starting)
      refl
execute_create-IsDisciplined env provider wf WorkflowStage.polling_start =
    poll_task-IsDisciplined create_traits env provider wf create_traits.mutation_stages
      WorkflowStage.polling_start WorkflowStage.observing
execute_create-IsDisciplined env provider wf WorkflowStage.observing =
    observation-IsDisciplined provider create_traits.mutation_stages WorkflowStage.observing
      (required_resource create_traits env wf) _ _
      (required_resource_free create_traits env provider wf create_traits.mutation_stages
        WorkflowStage.observing)
execute_create-IsDisciplined env provider wf _ = tt

pub execute_power-IsDisciplined :
    (env : Env) (provider : Provider) (wf : Claimed PowerRequested) (s : WorkflowStage)
    → IsDisciplined provider power_traits.mutation_stages s (execute_power env provider wf s)
unfolding execute_power power_traits includes
execute_power-IsDisciplined env provider wf WorkflowStage.accepted = tt
execute_power-IsDisciplined env provider wf WorkflowStage.submitting_power =
    mutation-IsDisciplined provider power_traits.mutation_stages WorkflowStage.submitting_power
      (required_resource power_traits env wf) _ _
      (required_resource_free power_traits env provider wf power_traits.mutation_stages
        WorkflowStage.submitting_power)
      refl
execute_power-IsDisciplined env provider wf WorkflowStage.polling_power =
    poll_task-IsDisciplined power_traits env provider wf power_traits.mutation_stages
      WorkflowStage.polling_power WorkflowStage.observing_power
execute_power-IsDisciplined env provider wf WorkflowStage.observing_power =
    observation-IsDisciplined provider power_traits.mutation_stages WorkflowStage.observing_power
      (required_resource power_traits env wf) _ _
      (required_resource_free power_traits env provider wf power_traits.mutation_stages
        WorkflowStage.observing_power)
execute_power-IsDisciplined env provider wf _ = tt

pub execute_resize-IsDisciplined :
    (env : Env) (provider : Provider) (wf : Claimed ResizeRequested) (s : WorkflowStage)
    → IsDisciplined provider resize_traits.mutation_stages s (execute_resize env provider wf s)
unfolding execute_resize resize_traits includes
execute_resize-IsDisciplined env provider wf WorkflowStage.accepted = tt
execute_resize-IsDisciplined env provider wf WorkflowStage.submitting_resize =
    mutation-IsDisciplined provider resize_traits.mutation_stages WorkflowStage.submitting_resize
      (required_resource resize_traits env wf) _ _
      (required_resource_free resize_traits env provider wf resize_traits.mutation_stages
        WorkflowStage.submitting_resize)
      refl
execute_resize-IsDisciplined env provider wf WorkflowStage.polling_resize =
    poll_task-IsDisciplined resize_traits env provider wf resize_traits.mutation_stages
      WorkflowStage.polling_resize WorkflowStage.observing_resize
execute_resize-IsDisciplined env provider wf WorkflowStage.observing_resize =
    observation-IsDisciplined provider resize_traits.mutation_stages WorkflowStage.observing_resize
      (required_resource resize_traits env wf) _ _
      (required_resource_free resize_traits env provider wf resize_traits.mutation_stages
        WorkflowStage.observing_resize)
execute_resize-IsDisciplined env provider wf _ = tt

pub execute_retain-IsDisciplined :
    (env : Env) (provider : Provider) (wf : Claimed RetentionRequested) (s : WorkflowStage)
    → IsDisciplined provider retain_traits.mutation_stages s (execute_retain env provider wf s)
unfolding execute_retain retain_traits includes
execute_retain-IsDisciplined env provider wf WorkflowStage.accepted = tt
execute_retain-IsDisciplined env provider wf WorkflowStage.submitting_retention =
    mutation-IsDisciplined provider retain_traits.mutation_stages WorkflowStage.submitting_retention
      (required_resource retain_traits env wf) _ _
      (required_resource_free retain_traits env provider wf retain_traits.mutation_stages
        WorkflowStage.submitting_retention)
      refl
execute_retain-IsDisciplined env provider wf WorkflowStage.polling_retention =
    poll_task-IsDisciplined retain_traits env provider wf retain_traits.mutation_stages
      WorkflowStage.polling_retention WorkflowStage.observing_retention
execute_retain-IsDisciplined env provider wf WorkflowStage.observing_retention =
    observation-IsDisciplined provider retain_traits.mutation_stages
      WorkflowStage.observing_retention (required_resource retain_traits env wf) _ _
      (required_resource_free retain_traits env provider wf retain_traits.mutation_stages
        WorkflowStage.observing_retention)
execute_retain-IsDisciplined env provider wf _ = tt

pub execute_purge-IsDisciplined :
    (env : Env) (provider : Provider) (wf : Claimed PurgeRequested) (s : WorkflowStage)
    → IsDisciplined provider purge_traits.mutation_stages s (execute_purge env provider wf s)
unfolding execute_purge purge_traits includes
execute_purge-IsDisciplined env provider wf WorkflowStage.accepted = tt
execute_purge-IsDisciplined env provider wf WorkflowStage.verifying_purge =
    observation-IsDisciplined provider purge_traits.mutation_stages WorkflowStage.verifying_purge
      (required_resource purge_traits env wf) _ _
      (required_resource_free purge_traits env provider wf purge_traits.mutation_stages
        WorkflowStage.verifying_purge)
execute_purge-IsDisciplined env provider wf WorkflowStage.submitting_purge =
    mutation-IsDisciplined provider purge_traits.mutation_stages WorkflowStage.submitting_purge
      (required_resource purge_traits env wf) _ _
      (required_resource_free purge_traits env provider wf purge_traits.mutation_stages
        WorkflowStage.submitting_purge)
      refl
execute_purge-IsDisciplined env provider wf WorkflowStage.polling_purge =
    poll_task-IsDisciplined purge_traits env provider wf purge_traits.mutation_stages
      WorkflowStage.polling_purge WorkflowStage.observing_purge
execute_purge-IsDisciplined env provider wf WorkflowStage.observing_purge =
    observation-IsDisciplined provider purge_traits.mutation_stages WorkflowStage.observing_purge
      (required_resource purge_traits env wf) _ _
      (required_resource_free purge_traits env provider wf purge_traits.mutation_stages
        WorkflowStage.observing_purge)
execute_purge-IsDisciplined env provider wf _ = tt

pub execute_snapshot-IsDisciplined :
    (a : SnapshotAction) (env : Env) (provider : Provider) (wf : Claimed (SnapshotPayload a))
    (s : WorkflowStage)
    → IsDisciplined provider
        (snapshot_traits a).mutation_stages
        s
        (execute_snapshot a env provider wf s)
unfolding execute_snapshot snapshot_traits includes
execute_snapshot-IsDisciplined a env provider wf WorkflowStage.accepted = tt
execute_snapshot-IsDisciplined a env provider wf WorkflowStage.submitting_snapshot =
    mutation-IsDisciplined provider (snapshot_traits a).mutation_stages
      WorkflowStage.submitting_snapshot (required_resource (snapshot_traits a) env wf) _ _
      (required_resource_free (snapshot_traits a) env provider wf
        (snapshot_traits a).mutation_stages WorkflowStage.submitting_snapshot)
      refl
execute_snapshot-IsDisciplined a env provider wf WorkflowStage.polling_snapshot =
    poll_task-IsDisciplined (snapshot_traits a) env provider wf (snapshot_traits a).mutation_stages
      WorkflowStage.polling_snapshot WorkflowStage.observing_snapshot
execute_snapshot-IsDisciplined a env provider wf WorkflowStage.observing_snapshot =
    listing-IsDisciplined provider (snapshot_traits a).mutation_stages
      WorkflowStage.observing_snapshot (required_resource (snapshot_traits a) env wf) _ _
      (required_resource_free (snapshot_traits a) env provider wf
        (snapshot_traits a).mutation_stages WorkflowStage.observing_snapshot)
execute_snapshot-IsDisciplined a env provider wf _ = tt
