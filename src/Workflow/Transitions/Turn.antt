-- ===== src/Workflow/Transitions/Turn.antt =====
-- packages/application/src: one turn of a worker, against the stage table.
use private_cloud_control_pl.Prelude.{◌≡◌, ◌<◌, ◌⊎◌, inl, inr, refl, Bool-cases}
use private_cloud_control_pl.Contracts.Provider.{Provider}
use private_cloud_control_pl.Workflow.Stage.{
  WorkflowStage, WorkflowAction, PersistedStage, stage_progress_percent, action_eq,
}
use private_cloud_control_pl.Workflow.Step.{Claimed, Checkpoint, StoreCall, ok}
use private_cloud_control_pl.Workflow.Step.Rules.{Returns, Returns-ok}
use private_cloud_control_pl.Workflow.Engine.{Env}
use private_cloud_control_pl.Workflow.Recovery.{run_claimed}
use private_cloud_control_pl.Workflow.Recovery.Stays.{Stays, Returns-recover}
use private_cloud_control_pl.Workflow.Executors.{Executor, Payload, executor_action, executor}
use private_cloud_control_pl.Workflow.Create.{create_capability}
use private_cloud_control_pl.Workflow.Power.{power_capability}
use private_cloud_control_pl.Workflow.Resize.{resize_capability}
use private_cloud_control_pl.Workflow.Snapshot.{snapshot_capability}
use private_cloud_control_pl.Workflow.Retain.{retain_capability}
use private_cloud_control_pl.Workflow.Purge.{purge_capability}
use private_cloud_control_pl.Workflow.Transitions.{IsAllowed, next_stages-progress}
use private_cloud_control_pl.Workflow.Transitions.Refinement.{
  execute_create-IsAllowed, execute_power-IsAllowed, execute_resize-IsAllowed,
  execute_snapshot-IsAllowed, execute_retain-IsAllowed, execute_purge-IsAllowed,
}

Stays-IsAllowed :
    (action : WorkflowAction) (s : WorkflowStage) (call : StoreCall)
    → Stays s call
    → IsAllowed action s call
Stays-IsAllowed action s (StoreCall.checkpoint c) h = inl h
Stays-IsAllowed action s (StoreCall.complete c) h = inl h
Stays-IsAllowed action s (StoreCall.dead_letter_workflow d) h = tt

execute-IsAllowed :
    (x : Executor) (env : Env) (provider : Provider) (wf : Claimed (Payload x))
    → Returns (IsAllowed (executor_action x) wf.stage) ((executor x).execute env provider wf).1
unfolding executor create_capability power_capability resize_capability snapshot_capability
    retain_capability purge_capability
execute-IsAllowed Executor.create env p wf = execute_create-IsAllowed env p wf wf.stage refl
execute-IsAllowed Executor.power env p wf = execute_power-IsAllowed env p wf wf.stage refl
execute-IsAllowed Executor.resize env p wf = execute_resize-IsAllowed env p wf wf.stage refl
execute-IsAllowed Executor.retain env p wf = execute_retain-IsAllowed env p wf wf.stage refl
execute-IsAllowed Executor.purge env p wf = execute_purge-IsAllowed env p wf wf.stage refl
execute-IsAllowed (Executor.snapshot a) env p wf =
    execute_snapshot-IsAllowed a env p wf wf.stage refl

run_claimed-Returns :
    (x : Executor) (env : Env) (provider : Provider) (wf : Claimed (Payload x))
    → Returns (IsAllowed (executor_action x) wf.stage) (run_claimed (executor x) env provider wf).1
unfolding run_claimed
run_claimed-Returns x env provider wf =
    elim (Bool-cases (action_eq wf.action (executor x).traits.action)) [
      | inl same ↦ rw same (
          Returns-recover (executor x).traits env wf (IsAllowed (executor_action x) wf.stage)
            ((executor x).execute env provider wf).1 (Stays-IsAllowed (executor_action x) wf.stage)
            (execute-IsAllowed x env provider wf))
      | inr other ↦ rw other tt
    ]

-- One turn on a claimed workflow, of any executor and against any provider, that asks the store for a
-- call asks for a checkpoint at the same stage or at one that the stage table lists next, or reports
-- success at a final stage of its action, or ends the workflow without success.
pub run_claimed-IsAllowed :
    (x : Executor) (env : Env) (provider : Provider) (wf : Claimed (Payload x)) (call : StoreCall)
    → (run_claimed (executor x) env provider wf).1 ≡ ok call
    → IsAllowed (executor_action x) wf.stage call
run_claimed-IsAllowed x env provider wf call returned =
    Returns-ok (IsAllowed (executor_action x) wf.stage) (run_claimed (executor x) env provider wf).1
      call returned (run_claimed-Returns x env provider wf)

-- A checkpoint that a turn asks for is at the stage of its claim, or at one that the table of progress
-- percentages ranks strictly higher.
pub run_claimed-stage_progress :
    (x : Executor) (env : Env) (provider : Provider) (wf : Claimed (Payload x)) (c : Checkpoint)
    → (run_claimed (executor x) env provider wf).1 ≡ ok (StoreCall.checkpoint c)
    → (c.stage ≡ wf.stage)
      ⊎ (stage_progress_percent (PersistedStage.active wf.stage)
          < stage_progress_percent (PersistedStage.active c.stage))
run_claimed-stage_progress x env provider wf c returned =
    elim (run_claimed-IsAllowed x env provider wf (StoreCall.checkpoint c) returned) [
      | inl same ↦ inl same
      | inr next ↦ inr (next_stages-progress (executor_action x) wf.stage c.stage next)
    ]
