-- ===== src/Workflow/Address/Turn.antt =====
-- One turn of a worker writes under its own claim.
use private_cloud_control_pl.Prelude.{◌≡◌, inl, inr, Bool-cases}
use private_cloud_control_pl.Contracts.Provider.{Provider}
use private_cloud_control_pl.Workflow.Stage.{action_eq}
use private_cloud_control_pl.Workflow.Step.{Claimed, StoreCall, ok}
use private_cloud_control_pl.Workflow.Step.Rules.{Returns, Returns-ok}
use private_cloud_control_pl.Workflow.Engine.{Env}
use private_cloud_control_pl.Workflow.Recovery.{run_claimed}
use private_cloud_control_pl.Workflow.Create.{create_capability}
use private_cloud_control_pl.Workflow.Power.{power_capability}
use private_cloud_control_pl.Workflow.Resize.{resize_capability}
use private_cloud_control_pl.Workflow.Snapshot.{snapshot_capability}
use private_cloud_control_pl.Workflow.Retain.{retain_capability}
use private_cloud_control_pl.Workflow.Purge.{purge_capability}
use private_cloud_control_pl.Workflow.Executors.{Executor, Payload, executor}
use private_cloud_control_pl.Workflow.Address.{IsAddressed}
use private_cloud_control_pl.Workflow.Address.Results.{recover-IsAddressed}
use private_cloud_control_pl.Workflow.Address.Executes.{
  execute_create-IsAddressed, execute_power-IsAddressed, execute_resize-IsAddressed,
  execute_retain-IsAddressed, execute_purge-IsAddressed, execute_snapshot-IsAddressed,
}

execute-IsAddressed :
    (x : Executor) (env : Env) (provider : Provider) (wf : Claimed (Payload x))
    → Returns (IsAddressed env wf) ((executor x).execute env provider wf).1
unfolding executor create_capability power_capability resize_capability snapshot_capability
    retain_capability purge_capability
execute-IsAddressed Executor.create env p wf = execute_create-IsAddressed env p wf wf.stage
execute-IsAddressed Executor.power env p wf = execute_power-IsAddressed env p wf wf.stage
execute-IsAddressed Executor.resize env p wf = execute_resize-IsAddressed env p wf wf.stage
execute-IsAddressed Executor.retain env p wf = execute_retain-IsAddressed env p wf wf.stage
execute-IsAddressed Executor.purge env p wf = execute_purge-IsAddressed env p wf wf.stage
execute-IsAddressed (Executor.snapshot a) env p wf =
    execute_snapshot-IsAddressed a env p wf wf.stage

turn-IsAddressed :
    (x : Executor) (env : Env) (provider : Provider) (wf : Claimed (Payload x))
    → Returns (IsAddressed env wf) (run_claimed (executor x) env provider wf).1
unfolding run_claimed
turn-IsAddressed x env provider wf =
    elim (Bool-cases (action_eq wf.action (executor x).traits.action)) [
      | inl same ↦ rw same (
          recover-IsAddressed (executor x).traits env wf ((executor x).execute env provider wf).1
            (execute-IsAddressed x env provider wf))
      | inr other ↦ rw other tt
    ]

-- The write that a turn asks for is made for the claimed operation, by the worker of the turn, and
-- under the fencing token of the claim, whatever the stage, the provider's answers and the errors.
pub run_claimed-IsAddressed :
    (x : Executor) (env : Env) (provider : Provider) (wf : Claimed (Payload x)) (call : StoreCall)
    → (run_claimed (executor x) env provider wf).1 ≡ ok call
    → IsAddressed env wf call
run_claimed-IsAddressed x env provider wf call returned =
    Returns-ok (IsAddressed env wf) (run_claimed (executor x) env provider wf).1 call returned
      (turn-IsAddressed x env provider wf)
