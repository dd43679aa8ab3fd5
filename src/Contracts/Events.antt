-- ===== src/Contracts/Events.antt =====
-- packages/contracts/src/generated/events.ts: the command and event envelopes of the workflow.
use private_cloud_control_pl.Prelude.{ℕ, String, Bool, Option, List}
use private_cloud_control_pl.Workflow.Stage.{WorkflowStage, WorkflowAction}

-- `Failure.category`.
pub data FailureCategory : Type 0 where
  validation authorization conflict transient permanent : FailureCategory
  unknown_outcome compensation_failure manual_review : FailureCategory

pub record Failure : Type 0 where
  pub category : FailureCategory
  pub code : String
  pub safe_message : String
  pub retry_after_milliseconds : Option ℕ

pub record Resources : Type 0 where
  pub cpu_count : ℕ
  pub memory_mib : ℕ
  pub disk_gib : ℕ

pub record Ipv4Configuration : Type 0 where
  pub address : String
  pub prefix_length : ℕ
  pub gateway : String
  pub dns_servers : List String

pub record CreateRequested : Type 0 where
  pub image_id : String
  pub flavor_id : String
  pub network_id : String
  pub provider_profile_id : String
  pub hostname : String
  pub resources : Resources
  pub ipv4 : Ipv4Configuration
  pub ssh_public_keys : List String

-- `PowerAction`.
pub data PowerAction : Type 0 where
  start shutdown stop reboot : PowerAction

pub record PowerRequested : Type 0 where
  pub action : PowerAction
  pub provider_profile_id : String
  pub create_operation_id : ℕ

pub record ResizeRequested : Type 0 where
  pub flavor_id : String
  pub target_resources : Resources
  pub provider_profile_id : String
  pub create_operation_id : ℕ

pub record SnapshotCreateRequested : Type 0 where
  pub snapshot_id : ℕ
  pub name : String
  pub description : Option String
  pub provider_profile_id : String
  pub create_operation_id : ℕ

-- `SnapshotRollbackRequestedV1` and `SnapshotDeleteRequestedV1` have the same fields.
pub record SnapshotTargetRequested : Type 0 where
  pub snapshot_id : ℕ
  pub provider_profile_id : String
  pub create_operation_id : ℕ
  pub provider_snapshot_reference : String

pub record RetentionRequested : Type 0 where
  pub retention_deadline : ℕ
  pub provider_profile_id : String
  pub create_operation_id : ℕ

pub record PurgeRequested : Type 0 where
  pub purge_authorization_id : ℕ
  pub retention_deadline : ℕ
  pub reason_reference : String
  pub provider_profile_id : String
  pub create_operation_id : ℕ

-- The envelope fields that every event and command carries.
pub record EventEnvelope : Type 0 where
  pub event_id : ℕ
  pub aggregate_id : ℕ
  pub project_id : ℕ
  pub operation_id : ℕ
  pub correlation_id : ℕ
  pub causation_id : ℕ
  pub occurred_at : ℕ
  pub trace_context : ℕ
  pub partition_key : String

pub data OperationState : Type 0 where
  running retry_wait : OperationState

pub data CompensationState : Type 0 where
  not_required unsafe : CompensationState

pub data LifecycleState : Type 0 where
  active retained purged : LifecycleState

pub data PowerState : Type 0 where
  running stopped suspended unknown : PowerState

-- `none` in the sizes is the NaN that `Number(undefined)` gives.
pub record ObservedResources : Type 0 where
  pub cpu_count : ℕ
  pub memory_mib : Option ℕ
  pub disk_gib : Option ℕ

pub record ObservedState : Type 0 where
  pub exists : Bool
  pub power_state : PowerState
  pub resources : Option ObservedResources
  pub marker_match : Bool
  pub observed_at : ℕ

pub record WorkflowProgressed : Type 0 where
  pub stage : WorkflowStage
  pub attempt : ℕ
  pub operation_state : OperationState
  pub provider_task_reference : Option String
  pub next_action_at : Option ℕ

pub record MutationCompleted : Type 0 where
  pub action : WorkflowAction
  pub lifecycle_state : LifecycleState
  pub provider_resource_id : String
  pub evidence_id : ℕ
  pub observed : Option ObservedState

pub record MutationFailed : Type 0 where
  pub action : WorkflowAction
  pub failure : Failure
  pub compensation_state : CompensationState

-- The schema name and the payload of an event that the workflow emits.
pub data EventData : Type 0 where
  progressed : WorkflowProgressed → EventData
  completed : MutationCompleted → EventData
  failed : MutationFailed → EventData

pub record WorkflowEvent : Type 0 where
  pub envelope : EventEnvelope
  pub payload : EventData
