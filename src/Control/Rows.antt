-- ===== src/Control/Rows.antt =====
-- packages/postgres-adapter/src/database.ts: rows of schemas `control` and `projection`, and the
-- documents in them. `request` stands for what a tenant asked for and no event changes.
use private_cloud_control_pl.Prelude.{ℕ, String, Bool, Option, List}
use private_cloud_control_pl.Contracts.Events.{
  EventEnvelope, FailureCategory, PowerState, Resources,
}
use private_cloud_control_pl.Store.Rows.{Delivery}

-- A row of `control.instances`.
pub record InstanceRow : Type 0 where
  pub id : ℕ
  pub project_id : ℕ
  pub provider_profile_id : String
  pub flavor_id : String
  pub request : ℕ
  pub desired : Resources
  pub desired_power_state : String
  pub lifecycle_state : String
  pub active_operation_id : Option ℕ
  pub create_operation_id : Option ℕ
  pub retention_deadline : Option ℕ
  pub purge_eligible : Bool
  pub drift : String
  pub last_reconciled_at : Option ℕ
  pub observed_exists : Option Bool
  pub observed_power_state : Option PowerState
  pub observed_cpu_count : Option ℕ
  pub observed_memory_mib : Option ℕ
  pub observed_disk_gib : Option ℕ
  pub observed_marker_match : Option Bool
  pub observed_at : Option ℕ
  pub updated_at : ℕ

-- A row of `control.operations`.
pub record OperationRow : Type 0 where
  pub id : ℕ
  pub request : ℕ
  pub state : String
  pub stage : String
  pub progress_percent : ℕ
  pub started_at : Option ℕ
  pub updated_at : ℕ
  pub completed_at : Option ℕ
  pub error_category : Option FailureCategory
  pub error_code : Option String
  pub error_message : Option String
  pub manual_review_required : Bool

-- A row of `control.snapshots`.
pub record SnapshotRow : Type 0 where
  pub id : ℕ
  pub project_id : ℕ
  pub instance_id : ℕ
  pub name : String
  pub description : Option String
  pub state : String
  pub created_at : ℕ
  pub updated_at : ℕ

-- A row of `control.replay_requests`.
pub record ReplayRow : Type 0 where
  pub id : ℕ
  pub original_event_id : ℕ
  pub request : ℕ
  pub status : String
  pub updated_at : ℕ

-- `ObservedInstanceState`.
pub record ObservedInstanceState : Type 0 where
  pub exists : Bool
  pub power_state : PowerState
  pub cpu_count : Option ℕ
  pub memory_mib : Option ℕ
  pub disk_gib : Option ℕ
  pub marker_match : Bool
  pub observed_at : ℕ

pub record InstanceView : Type 0 where
  pub id : ℕ
  pub request : ℕ
  pub lifecycle_state : String
  pub observed : Option ObservedInstanceState
  pub active_operation_id : Option ℕ
  pub drift : String
  pub last_reconciled_at : Option ℕ
  pub retention_deadline : Option ℕ
  pub purge_eligible : Bool
  pub updated_at : ℕ

pub record OperationView : Type 0 where
  pub id : ℕ
  pub request : ℕ
  pub target_type : String
  pub target_id : ℕ
  pub state : String
  pub stage : String
  pub progress_percent : ℕ
  pub started_at : Option ℕ
  pub updated_at : ℕ
  pub completed_at : Option ℕ
  pub error_category : Option FailureCategory
  pub error_code : Option String
  pub error_message : Option String
  pub manual_review_required : Bool

pub record SnapshotView : Type 0 where
  pub id : ℕ
  pub instance_id : ℕ
  pub name : String
  pub description : Option String
  pub state : String
  pub created_at : ℕ
  pub updated_at : ℕ

pub record DeadLetterView : Type 0 where
  pub event_id : ℕ
  pub schema_name : String
  pub schema_version : ℕ
  pub aggregate_id : ℕ
  pub project_id : ℕ
  pub operation_id : ℕ
  pub category : FailureCategory
  pub safe_message : String
  pub attempts : ℕ
  pub dead_lettered_at : ℕ
  pub replay_allowed : Bool
  pub last_replay_at : Option ℕ

-- A row of `projection.instances`.
pub record InstanceDocument : Type 0 where
  pub instance_id : ℕ
  pub document : InstanceView
  pub updated_at : ℕ

-- A row of `projection.operations`, with its administrative columns.
pub record OperationDocument : Type 0 where
  pub operation_id : ℕ
  pub document : OperationView
  pub updated_at : ℕ
  pub correlation_id : Option ℕ
  pub causation_id : Option ℕ
  pub trace_id : Option String
  pub retry_count : ℕ
  pub checkpoint : Option String
  pub dead_letter_event_id : Option ℕ
  pub provider_task_reference : Option String

-- A row of `projection.snapshots`.
pub record SnapshotDocument : Type 0 where
  pub snapshot_id : ℕ
  pub document : SnapshotView
  pub updated_at : ℕ

-- A row of `projection.dead_letters`.
pub record DeadLetterDocument : Type 0 where
  pub original_event_id : ℕ
  pub project_id : ℕ
  pub operation_id : ℕ
  pub aggregate_id : ℕ
  pub document : DeadLetterView
  pub trace_context : ℕ
  pub updated_at : ℕ

-- A row of `projection.event_receipts`.
pub record EventReceipt : Type 0 where
  pub event_id : ℕ
  pub consumer_name : String
  pub delivery : Delivery
  pub received_at : ℕ

-- A row of `projection.poison_records`.
pub record PoisonDocument : Type 0 where
  pub id : ℕ
  pub consumer_name : String
  pub delivery : Delivery
  pub payload_hash : String
  pub failure_code : String
  pub safe_message : String
  pub quarantined_at : ℕ

-- A row of `control.outbox` that reports a drift.
pub record DriftReport : Type 0 where
  pub envelope : EventEnvelope
  pub classification : String
  pub dangerous : Bool
  pub evidence_id : ℕ

pub record ControlDatabase : Type 0 where
  pub instances : List InstanceRow
  pub operations : List OperationRow
  pub snapshots : List SnapshotRow
  pub replay_requests : List ReplayRow
  pub instance_documents : List InstanceDocument
  pub operation_documents : List OperationDocument
  pub snapshot_documents : List SnapshotDocument
  pub dead_letters : List DeadLetterDocument
  pub receipts : List EventReceipt
  pub poison_records : List PoisonDocument
  pub outbox : List DriftReport
