-- ===== src/Store/Rows.antt =====
-- packages/postgres-adapter/src/workflow-store.ts: the rows of the tables of schema `workflow` that
-- a turn reads and writes.
use private_cloud_control_pl.Prelude.{ℕ, String, Bool, Option, List}
use private_cloud_control_pl.Contracts.Events.{
  EventEnvelope, FailureCategory, Failure, WorkflowEvent,
}
use private_cloud_control_pl.Workflow.Stage.{PersistedStage, WorkflowAction}
use private_cloud_control_pl.Workflow.Step.{Command}

pub data WorkflowStatus : Type 0 where
  running retry_wait succeeded failed manual_review : WorkflowStatus

pub record LastError : Type 0 where
  pub category : String
  pub code : String

-- A row of `workflow.workflows`.
pub record WorkflowRow {ℓ} (A : Type ℓ) : Type ℓ where
  pub operation_id : ℕ
  pub event_id : ℕ
  pub project_id : ℕ
  pub instance_id : ℕ
  pub action : WorkflowAction
  pub command : Command A
  pub status : WorkflowStatus
  pub stage : PersistedStage
  pub attempt : ℕ
  pub stage_attempt : ℕ
  pub retry_started_at : Option ℕ
  pub replay_generation : ℕ
  pub trace_context : ℕ
  pub fencing_token : ℕ
  pub provider_resource_id : Option String
  pub provider_task_reference : Option String
  pub next_attempt_at : ℕ
  pub failure : Option Failure
  pub last_error : Option LastError
  pub created_at : ℕ
  pub updated_at : ℕ
  pub completed_at : Option ℕ

-- A row of `workflow.instance_leases`.
pub record LeaseRow : Type 0 where
  pub instance_id : ℕ
  pub owner_id : String
  pub fencing_token : ℕ
  pub leased_until : ℕ
  pub updated_at : ℕ

-- `MessageDeliveryIdentity`.
pub record Delivery : Type 0 where
  pub topic : String
  pub partition : ℕ
  pub offset : ℕ
  pub outbox_id : ℕ
  pub replay_generation : ℕ

-- A row of `workflow.command_receipts`; this consumer is the only one.
pub record ReceiptRow : Type 0 where
  pub event_id : ℕ
  pub delivery : Delivery
  pub payload_hash : ℕ
  pub received_at : ℕ
  pub completed_at : Option ℕ

-- `open`, `replay_requested` and `replayed`.
pub data DeadLetterStatus : Type 0 where
  still_open replay_requested replayed : DeadLetterStatus

-- A row of `workflow.dead_letters`. `original_action` is what `workflowActionForSchema` makes of its
-- `original_schema_name`.
pub record DeadLetterRow {ℓ} (A : Type ℓ) : Type ℓ where
  pub original_event_id : ℕ
  pub dead_letter_event_id : ℕ
  pub aggregate_id : ℕ
  pub project_id : ℕ
  pub operation_id : ℕ
  pub original_action : Option WorkflowAction
  pub original_payload : Command A
  pub failure_category : FailureCategory
  pub failure_code : String
  pub safe_message : String
  pub attempts : ℕ
  pub replay_allowed : Bool
  pub replay_generation : ℕ
  pub status : DeadLetterStatus
  pub dead_lettered_at : ℕ
  pub last_replay_at : Option ℕ

pub data AuditOutcome : Type 0 where
  accepted succeeded rejected failed : AuditOutcome

-- A row of `audit.entries`.
pub record AuditRow : Type 0 where
  pub id : ℕ
  pub project_id : ℕ
  pub action : String
  pub target_id : ℕ
  pub outcome : AuditOutcome
  pub operation_id : ℕ
  pub occurred_at : ℕ

-- `ProvisioningReplayRequestedV1`.
pub record ReplayRequest : Type 0 where
  pub envelope : EventEnvelope
  pub replay_request_id : ℕ
  pub original_event_id : ℕ

pub data ReplayStatus : Type 0 where
  authorized rejected completed : ReplayStatus

-- A row of `workflow.replay_requests`.
pub record ReplayRequestRow : Type 0 where
  pub replay_request_id : ℕ
  pub request_event_id : ℕ
  pub original_event_id : ℕ
  pub replay_generation : Option ℕ
  pub status : ReplayStatus
  pub request_payload : ReplayRequest
  pub authorized_command_hash : Option ℕ
  pub authorized_outbox_id : Option ℕ
  pub requested_at : ℕ
  pub decided_at : ℕ
  pub completed_at : Option ℕ

-- A row of `workflow.poison_records`.
pub record PoisonRow : Type 0 where
  pub delivery : Delivery
  pub payload_hash : ℕ
  pub failure_code : String
  pub safe_message : String
  pub quarantined_at : ℕ

-- `ProvisioningReplayResolvedV1`.
pub record ReplayResolved : Type 0 where
  pub replay_request_id : ℕ
  pub original_event_id : ℕ
  pub outcome : ReplayStatus
  pub replay_generation : ℕ
  pub resolved_at : ℕ

-- The event of a row of `workflow.outbox`. An audit fact may refer to a reason. A replayed command has its outbox id and its generation.
pub data OutboxRow {ℓ} (A : Type ℓ) : Type ℓ where
  provisioning_event : WorkflowEvent → OutboxRow A
  dead_lettered : DeadLetterRow A → OutboxRow A
  audit_recorded : AuditRow → Option ℕ → OutboxRow A
  replay_resolved : ReplayResolved → OutboxRow A
  replayed_command : ℕ → ℕ → Command A → OutboxRow A

pub record Database {ℓ} (A : Type ℓ) : Type ℓ where
  pub workflows : List (WorkflowRow A)
  pub leases : List LeaseRow
  pub receipts : List ReceiptRow
  pub dead_letters : List (DeadLetterRow A)
  pub replay_requests : List ReplayRequestRow
  pub poison_records : List PoisonRow
  pub audit : List AuditRow
  pub outbox : List (OutboxRow A)
