-- ===== src/Control/Projection/Events.antt =====
-- packages/contracts/src/generated/events.ts: the events as the projection reads them from the topic.
use private_cloud_control_pl.Prelude.{ℕ, String, Bool, Option}
use private_cloud_control_pl.Contracts.Events.{EventEnvelope, Failure, ObservedState}

-- `WorkflowProgressedV1`; the operation state is one of its four texts.
pub record Progressed : Type 0 where
  pub stage : String
  pub attempt : ℕ
  pub operation_state : String
  pub provider_task_reference : Option String

-- `InstanceMutationCompletedV1`.
pub record Completed : Type 0 where
  pub action : String
  pub lifecycle_state : String
  pub observed : Option ObservedState

pub data Compensation : Type 0 where
  not_required pending succeeded failed unsafe : Compensation

-- `InstanceMutationFailedV1`.
pub record Failed : Type 0 where
  pub failure : Failure
  pub compensation_state : Compensation

-- `ProvisioningReplayResolvedV1`; the outcome is `completed` or `rejected`.
pub record Resolved : Type 0 where
  pub replay_request_id : ℕ
  pub original_event_id : ℕ
  pub outcome : String
  pub resolved_at : ℕ

-- The schema name of a workflow event with its data; any other name is `unsupported`.
pub data WorkflowPayload : Type 0 where
  progressed : Progressed → WorkflowPayload
  completed : Completed → WorkflowPayload
  failed : Failed → WorkflowPayload
  resolved : Resolved → WorkflowPayload
  unsupported : String → WorkflowPayload

pub record WorkflowMessage : Type 0 where
  pub envelope : EventEnvelope
  pub traceparent : Option String
  pub payload : WorkflowPayload

-- `ProvisioningDeadLetteredV1`.
pub record DeadLettered : Type 0 where
  pub envelope : EventEnvelope
  pub original_event_id : ℕ
  pub original_schema_name : String
  pub original_schema_version : ℕ
  pub failure : Failure
  pub attempts : ℕ
  pub replay_allowed : Bool
  pub dead_lettered_at : ℕ

-- `DriftDetectedV1`, with a classification that may be missing.
pub record DriftMessage : Type 0 where
  pub envelope : EventEnvelope
  pub classification : Option String
