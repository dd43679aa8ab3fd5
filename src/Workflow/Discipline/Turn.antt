-- ===== src/Workflow/Discipline/Turn.antt =====
-- One turn of a worker: its provider calls, and the mutation whose answer is lost.
use private_cloud_control_pl.Prelude.{
  ◌≡◌, ◌≢◌, List, [], ◌∷◌, true, false, inl, inr, refl, Bool-cases, subst,
}
use private_cloud_control_pl.Contracts.Provider.{
  Provider, ProviderCall, ProviderTransportError, TransportErrorCode, Mutation, Answer,
}
use private_cloud_control_pl.Workflow.Stage.{WorkflowStage, action_eq}
use private_cloud_control_pl.Workflow.Step.{Claimed, Result, ok, raise, transport, Step, StoreCall}
use private_cloud_control_pl.Workflow.Engine.{
  Env, Traits, includes, is_protocol_error, manual_review,
}
use private_cloud_control_pl.Workflow.Recovery.{
  recover, run_claimed, handle_provider_error, unknown_outcome,
}
use private_cloud_control_pl.Workflow.Create.{create_capability}
use private_cloud_control_pl.Workflow.Power.{power_capability}
use private_cloud_control_pl.Workflow.Resize.{resize_capability}
use private_cloud_control_pl.Workflow.Snapshot.{snapshot_capability}
use private_cloud_control_pl.Workflow.Retain.{retain_capability}
use private_cloud_control_pl.Workflow.Purge.{purge_capability}
use private_cloud_control_pl.Workflow.Executors.{Executor, Payload, executor}
use private_cloud_control_pl.Workflow.Discipline.{IsDisciplined, CallsWithin}
use private_cloud_control_pl.Workflow.Discipline.Executes.{
  execute_create-IsDisciplined, execute_power-IsDisciplined, execute_resize-IsDisciplined,
  execute_retain-IsDisciplined, execute_purge-IsDisciplined, execute_snapshot-IsDisciplined,
}

execute-IsDisciplined :
    (x : Executor) (env : Env) (provider : Provider) (wf : Claimed (Payload x))
    → IsDisciplined provider
        (executor x).traits.mutation_stages
        wf.stage
        ((executor x).execute env provider wf)
unfolding executor create_capability power_capability resize_capability snapshot_capability
    retain_capability purge_capability
execute-IsDisciplined Executor.create env p wf = execute_create-IsDisciplined env p wf wf.stage
execute-IsDisciplined Executor.power env p wf = execute_power-IsDisciplined env p wf wf.stage
execute-IsDisciplined Executor.resize env p wf = execute_resize-IsDisciplined env p wf wf.stage
execute-IsDisciplined Executor.retain env p wf = execute_retain-IsDisciplined env p wf wf.stage
execute-IsDisciplined Executor.purge env p wf = execute_purge-IsDisciplined env p wf wf.stage
execute-IsDisciplined (Executor.snapshot a) env p wf =
    execute_snapshot-IsDisciplined a env p wf wf.stage

IsDisciplined-CallsWithin :
    (p : Provider) (stages : List WorkflowStage) (s : WorkflowStage) (calls : List ProviderCall)
    (r : Result StoreCall)
    → IsDisciplined p stages s (calls, r)
    → CallsWithin stages s calls
IsDisciplined-CallsWithin p stages s [] r h = tt
IsDisciplined-CallsWithin p stages s (ProviderCall.mutation m ∷ []) r h = h.0
IsDisciplined-CallsWithin p stages s (ProviderCall.get_task c k ∷ []) r h = tt
IsDisciplined-CallsWithin p stages s (ProviderCall.observe_instance k ∷ []) r h = tt
IsDisciplined-CallsWithin p stages s (ProviderCall.list_snapshots k ∷ []) r h = tt
IsDisciplined-CallsWithin p stages s (ProviderCall.mutation m ∷ d ∷ rest) r h = h
IsDisciplined-CallsWithin p stages s (ProviderCall.get_task c k ∷ d ∷ rest) r h = h
IsDisciplined-CallsWithin p stages s (ProviderCall.observe_instance k ∷ d ∷ rest) r h = h
IsDisciplined-CallsWithin p stages s (ProviderCall.list_snapshots k ∷ d ∷ rest) r h = h

-- A turn calls the provider at most once, and changes provider state only at a mutation stage of
-- its capability.
pub run_claimed-CallsWithin :
    (x : Executor) (env : Env) (provider : Provider) (wf : Claimed (Payload x))
    → CallsWithin
        (executor x).traits.mutation_stages
        wf.stage
        (run_claimed (executor x) env provider wf).0
unfolding run_claimed
run_claimed-CallsWithin x env provider wf =
    elim (Bool-cases (action_eq wf.action (executor x).traits.action)) [
      | inl same ↦ rw same (
          IsDisciplined-CallsWithin provider (executor x).traits.mutation_stages wf.stage
            ((executor x).execute env provider wf).0 ((executor x).execute env provider wf).1
            (execute-IsDisciplined x env provider wf))
      | inr other ↦ rw other tt
    ]

-- What the step at one lost mutation comes to, before and after the `catch`.
lost_IsDisciplined :
    (p : Provider) (stages : List WorkflowStage) (s : WorkflowStage) (step : Step StoreCall)
    (m : Mutation) (e : ProviderTransportError)
    → IsDisciplined p stages s step
    → step.0 ≡ ProviderCall.mutation m ∷ []
    → p.mutate m ≡ Answer.failed e
    → (includes stages s ≡ true) × (step.1 ≡ raise (transport e))
lost_IsDisciplined p stages s (calls, r) m e d called lost =
    let (here, fails) = subst (λ c. IsDisciplined p stages s (c, r)) called d in
    (here, fails e lost)

recover_lost :
    {A : Type 0} (t : Traits A) (env : Env) (wf : Claimed A) (e : ProviderTransportError)
    → includes t.mutation_stages wf.stage ≡ true
    → is_protocol_error e.code ≡ false
    → recover t env wf (raise (transport e)) ≡ ok (manual_review t env wf (unknown_outcome e))
unfolding recover handle_provider_error
recover_lost t env wf e here code = rw (here, code)

-- Where a turn has sent a mutation and its transport failed with anything but a protocol error, the
-- turn ends the workflow in manual review with the outcome recorded as unknown. It is not retried,
-- even where the error says that it is retryable.
pub run_claimed_lost :
    (x : Executor) (env : Env) (provider : Provider) (wf : Claimed (Payload x)) (m : Mutation)
    (e : ProviderTransportError)
    → (run_claimed (executor x) env provider wf).0 ≡ ProviderCall.mutation m ∷ []
    → provider.mutate m ≡ Answer.failed e
    → e.code ≢ TransportErrorCode.protocol_error
    → (run_claimed (executor x) env provider wf).1
      ≡ ok (manual_review (executor x).traits env wf (unknown_outcome e))
unfolding run_claimed
run_claimed_lost x env provider wf m e called lost code =
    elim (Bool-cases (action_eq wf.action (executor x).traits.action)) [
      | inl same ↦
          let (here, raised) =
            lost_IsDisciplined provider (executor x).traits.mutation_stages wf.stage
              ((executor x).execute env provider wf) m e (execute-IsDisciplined x env provider wf)
              (rw same at called) lost in
          rw (same, raised)
            (recover_lost (executor x).traits env wf e here (not_protocol e.code code))
      | inr other ↦ cc (rw other at called)
    ]
  where
    not_protocol :
        (c : TransportErrorCode)
        → c ≢ TransportErrorCode.protocol_error
        → is_protocol_error c ≡ false
    not_protocol TransportErrorCode.protocol_error n = absurd (n refl)
    not_protocol TransportErrorCode.aborted n = refl
    not_protocol _ n = refl
