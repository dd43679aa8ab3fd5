-- ===== src/Workflow/Evidence/Turn.antt =====
-- One turn of a worker: success, and the submission of a purge, rest on evidence.
use private_cloud_control_pl.Prelude.{◌≡◌, ◌≢◌, inl, inr, refl, Bool-cases}
use private_cloud_control_pl.Contracts.Provider.{Provider}
use private_cloud_control_pl.Workflow.Stage.{WorkflowStage, action_eq}
use private_cloud_control_pl.Workflow.Step.{Claimed, StoreCall, ok}
use private_cloud_control_pl.Workflow.Step.Rules.{Returns, Returns-ok}
use private_cloud_control_pl.Workflow.Engine.{Env}
use private_cloud_control_pl.Workflow.Recovery.{run_claimed}
use private_cloud_control_pl.Workflow.Recovery.Stays.{Stays, Returns-recover}
use private_cloud_control_pl.Workflow.Create.{create_capability}
use private_cloud_control_pl.Workflow.Power.{power_capability}
use private_cloud_control_pl.Workflow.Resize.{resize_capability}
use private_cloud_control_pl.Workflow.Snapshot.{snapshot_capability}
use private_cloud_control_pl.Workflow.Retain.{retain_capability}
use private_cloud_control_pl.Workflow.Purge.{purge_capability, purge_traits}
use private_cloud_control_pl.Workflow.Executors.{Executor, Payload, executor}
use private_cloud_control_pl.Workflow.Evidence.{
  Evidence, Observed, Owned, IsSuccess, IsPurgeSubmission,
}
use private_cloud_control_pl.Workflow.Evidence.Executes.{
  execute_create-Evidence, execute_power-Evidence, execute_resize-Evidence, execute_retain-Evidence,
}
use private_cloud_control_pl.Workflow.Evidence.Removals.{
  execute_purge-Evidence, execute_snapshot-Evidence, execute_purge-IsPurgeSubmission,
}

Stays-IsSuccess : (s : WorkflowStage) (call : StoreCall) → Stays s call → ¬ IsSuccess call
Stays-IsSuccess s (StoreCall.checkpoint c) l h = h
Stays-IsSuccess s (StoreCall.complete c) l h = l h
Stays-IsSuccess s (StoreCall.dead_letter_workflow d) l h = h

execute-Evidence :
    (x : Executor) (env : Env) (provider : Provider) (wf : Claimed (Payload x))
    → Returns
        (λ call. IsSuccess call → Evidence env provider x wf)
        ((executor x).execute env provider wf).1
unfolding executor create_capability power_capability resize_capability snapshot_capability
    retain_capability purge_capability
execute-Evidence Executor.create env p wf = execute_create-Evidence env p wf wf.stage
execute-Evidence Executor.power env p wf = execute_power-Evidence env p wf wf.stage
execute-Evidence Executor.resize env p wf = execute_resize-Evidence env p wf wf.stage
execute-Evidence Executor.retain env p wf = execute_retain-Evidence env p wf wf.stage
execute-Evidence Executor.purge env p wf = execute_purge-Evidence env p wf wf.stage
execute-Evidence (Executor.snapshot a) env p wf = execute_snapshot-Evidence a env p wf wf.stage

turn-Evidence :
    (x : Executor) (env : Env) (provider : Provider) (wf : Claimed (Payload x))
    → Returns
        (λ call. IsSuccess call → Evidence env provider x wf)
        (run_claimed (executor x) env provider wf).1
unfolding run_claimed
turn-Evidence x env provider wf =
    elim (Bool-cases (action_eq wf.action (executor x).traits.action)) [
      | inl same ↦ rw same (
          Returns-recover (executor x).traits env wf
            (λ call. IsSuccess call → Evidence env provider x wf)
            ((executor x).execute env provider wf).1
            (λ call l h. absurd (Stays-IsSuccess wf.stage call l h))
            (execute-Evidence x env provider wf))
      | inr other ↦ rw other tt
    ]

-- A turn that reports success has seen the evidence for it: the provider observed the persisted
-- resource under the claim's ownership markers, owned and running for a creation, in the requested
-- power state for a power action, with no size that differs for a resize, owned for a retention,
-- and absent for a purge; or it listed the created snapshot, or no longer the deleted one.
pub run_claimed-Evidence :
    (x : Executor) (env : Env) (provider : Provider) (wf : Claimed (Payload x)) (call : StoreCall)
    → (run_claimed (executor x) env provider wf).1 ≡ ok call
    → IsSuccess call
    → Evidence env provider x wf
run_claimed-Evidence x env provider wf call returned =
    Returns-ok (λ made. IsSuccess made → Evidence env provider x wf)
      (run_claimed (executor x) env provider wf).1 call returned (turn-Evidence x env provider wf)

Stays-IsPurgeSubmission :
    (s : WorkflowStage) (call : StoreCall)
    → s ≢ WorkflowStage.submitting_purge
    → Stays s call
    → ¬ IsPurgeSubmission call
Stays-IsPurgeSubmission s (StoreCall.checkpoint c) n l h = n (cc)
Stays-IsPurgeSubmission s (StoreCall.complete c) n l h = h
Stays-IsPurgeSubmission s (StoreCall.dead_letter_workflow d) n l h = h

turn-IsPurgeSubmission :
    (env : Env) (provider : Provider) (wf : Claimed (Payload Executor.purge))
    → wf.stage ≢ WorkflowStage.submitting_purge
    → Returns
        (λ call.
          IsPurgeSubmission call
          → (wf.stage ≡ WorkflowStage.verifying_purge)
            × Observed purge_traits env provider wf (Owned (λ o. Unit)))
        (run_claimed purge_capability env provider wf).1
unfolding run_claimed purge_capability
turn-IsPurgeSubmission env provider wf n =
    elim (Bool-cases (action_eq wf.action purge_traits.action)) [
      | inl same ↦ rw same (
          Returns-recover purge_traits env wf
            (λ call.
              IsPurgeSubmission call
              → (wf.stage ≡ WorkflowStage.verifying_purge)
                × Observed purge_traits env provider wf (Owned (λ o. Unit)))
            (purge_capability.execute env provider wf).1
            (λ call l h. absurd (Stays-IsPurgeSubmission wf.stage call n l h))
            (execute_purge-IsPurgeSubmission env provider wf wf.stage refl n))
      | inr other ↦ rw other tt
    ]

-- The purge workflow enters `submitting_purge`, the only stage that destroys, from `verifying_purge`
-- alone, and only after the provider has shown the persisted resource present, with complete and
-- matching ownership markers.
pub run_claimed-IsPurgeSubmission :
    (env : Env) (provider : Provider) (wf : Claimed (Payload Executor.purge)) (call : StoreCall)
    → wf.stage ≢ WorkflowStage.submitting_purge
    → (run_claimed purge_capability env provider wf).1 ≡ ok call
    → IsPurgeSubmission call
    → (wf.stage ≡ WorkflowStage.verifying_purge)
      × Observed purge_traits env provider wf (Owned (λ o. Unit))
run_claimed-IsPurgeSubmission env provider wf call n returned =
    Returns-ok
      (λ made.
        IsPurgeSubmission made
        → (wf.stage ≡ WorkflowStage.verifying_purge)
          × Observed purge_traits env provider wf (Owned (λ o. Unit)))
      (run_claimed purge_capability env provider wf).1 call returned
      (turn-IsPurgeSubmission env provider wf n)
