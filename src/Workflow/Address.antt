-- ===== src/Workflow/Address.antt =====
-- Under whose claim a write is made: the operation, the worker and the fencing token of a store call.
pub mod Results
pub mod Executes
pub mod Turn
use private_cloud_control_pl.Prelude.{◌≡◌, ℕ, String}
use private_cloud_control_pl.Workflow.Step.{Claimed, StoreCall}
use private_cloud_control_pl.Workflow.Engine.{Env}

abbrev pub call_operation : StoreCall → ℕ
call_operation (StoreCall.checkpoint c) = c.operation_id
call_operation (StoreCall.complete c) = c.operation_id
call_operation (StoreCall.dead_letter_workflow d) = d.operation_id

abbrev pub call_worker : StoreCall → String
call_worker (StoreCall.checkpoint c) = c.worker_id
call_worker (StoreCall.complete c) = c.worker_id
call_worker (StoreCall.dead_letter_workflow d) = d.worker_id

abbrev pub call_token : StoreCall → ℕ
call_token (StoreCall.checkpoint c) = c.fencing_token
call_token (StoreCall.complete c) = c.fencing_token
call_token (StoreCall.dead_letter_workflow d) = d.fencing_token

-- The call is made for the claimed operation, by the worker of the turn, under the claim's token.
abbrev pub IsAddressed {ℓ} : {A : Type ℓ} → Env → Claimed A → StoreCall → Type 0
IsAddressed env wf call =
    (call_operation call ≡ wf.command.envelope.operation_id)
    × (call_worker call ≡ env.worker_id)
    × (call_token call ≡ wf.fencing_token)
