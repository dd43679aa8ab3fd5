-- ===== src/Control/Projection/Tests.antt =====
-- One instance with a snapshot that its operation creates.
use private_cloud_control_pl.Prelude.{
  ◌≡◌, true, false, Option, none, some, [], ◌∷◌, refl, sym, ap, ◌∙◌, arith, inl, inr, Bool-cases,
  ◌==◌,
}
use private_cloud_control_pl.Contracts.Events.{EventEnvelope, FailureCategory, Resources}
use private_cloud_control_pl.Store.Rows.{Delivery}
use private_cloud_control_pl.Store.Table.{find_row, update_rows}
use private_cloud_control_pl.Control.Rows.{
  InstanceRow, InstanceView, InstanceDocument, OperationRow, OperationView, OperationDocument,
  SnapshotRow, SnapshotView, ControlDatabase,
}
use private_cloud_control_pl.Control.Transaction.{Tried, done}
use private_cloud_control_pl.Control.Projection.Events.{
  Completed, Failed, Compensation, WorkflowPayload, WorkflowMessage,
}
use private_cloud_control_pl.Control.Projection.Endings.{apply_completed, apply_failed}
use private_cloud_control_pl.Control.Projection.Apply.{Applied, apply_event, apply_workflow_event}
use private_cloud_control_pl.Control.Projection.Agreement.{OperationsAgree}
use private_cloud_control_pl.Control.Projection.Agreement.Kept.{
  apply_workflow_event-OperationsAgree,
}
use private_cloud_control_pl.Control.Projection.Duplicates.{apply_workflow_event-duplicate}
use private_cloud_control_pl.Control.Projection.Snapshots.{
  IsSettled, apply_completed-IsSettled, apply_failed-snapshots,
}
use private_cloud_control_pl.Control.Projection.Release.{
  InstancesNamed, IsReleased, IsUntouched, apply_event-IsReleased, apply_event-IsUntouched,
}

abbrev sizes : Resources
sizes = record { cpu_count = 2; memory_mib = 2048; disk_gib = 20 }

abbrev instance : InstanceRow
instance = record {
  id = 7;
  project_id = 1;
  provider_profile_id = "lab";
  flavor_id = "small";
  request = 0;
  desired = sizes;
  desired_power_state = "running";
  lifecycle_state = "provisioning";
  active_operation_id = some 3;
  create_operation_id = some 2;
  retention_deadline = none;
  purge_eligible = false;
  drift = "none";
  last_reconciled_at = none;
  observed_exists = none;
  observed_power_state = none;
  observed_cpu_count = none;
  observed_memory_mib = none;
  observed_disk_gib = none;
  observed_marker_match = none;
  observed_at = none;
  updated_at = 0;
}

abbrev instance_view : InstanceView
instance_view = record {
  id = 7;
  request = 0;
  lifecycle_state = "provisioning";
  observed = none;
  active_operation_id = some 3;
  drift = "none";
  last_reconciled_at = none;
  retention_deadline = none;
  purge_eligible = false;
  updated_at = 0;
}

abbrev operation : OperationRow
operation = record {
  id = 3;
  request = 0;
  state = "queued";
  stage = "accepted";
  progress_percent = 0;
  started_at = none;
  updated_at = 0;
  completed_at = none;
  error_category = none;
  error_code = none;
  error_message = none;
  manual_review_required = false;
}

abbrev operation_view : OperationView
operation_view = record {
  id = 3;
  request = 0;
  target_type = "snapshot";
  target_id = 9;
  state = "queued";
  stage = "accepted";
  progress_percent = 0;
  started_at = none;
  updated_at = 0;
  completed_at = none;
  error_category = none;
  error_code = none;
  error_message = none;
  manual_review_required = false;
}

abbrev operation_document : OperationDocument
operation_document = record {
  operation_id = 3;
  document = operation_view;
  updated_at = 0;
  correlation_id = none;
  causation_id = none;
  trace_id = none;
  retry_count = 0;
  checkpoint = none;
  dead_letter_event_id = none;
  provider_task_reference = none;
}

abbrev snapshot : SnapshotRow
snapshot = record {
  id = 9;
  project_id = 1;
  instance_id = 7;
  name = "before-upgrade";
  description = none;
  state = "creating";
  created_at = 0;
  updated_at = 0;
}

abbrev snapshot_view : SnapshotView
snapshot_view = record {
  id = 9;
  instance_id = 7;
  name = "before-upgrade";
  description = none;
  state = "creating";
  created_at = 0;
  updated_at = 0;
}

abbrev instance_document : InstanceDocument
instance_document = record { instance_id = 7; document = instance_view; updated_at = 0 }

abbrev db : ControlDatabase
db = record {
  instances = instance ∷ [];
  operations = operation ∷ [];
  snapshots = snapshot ∷ [];
  replay_requests = [];
  instance_documents = instance_document ∷ [];
  operation_documents = operation_document ∷ [];
  snapshot_documents = record { snapshot_id = 9; document = snapshot_view; updated_at = 0 } ∷ [];
  dead_letters = [];
  receipts = [];
  poison_records = [];
  outbox = [];
}

abbrev envelope : EventEnvelope
envelope = record {
  event_id = 11;
  aggregate_id = 7;
  project_id = 1;
  operation_id = 3;
  correlation_id = 12;
  causation_id = 13;
  occurred_at = 100;
  trace_context = 0;
  partition_key = "7";
}

abbrev delivery : Delivery
delivery = record {
  topic = "provisioning.events.v1";
  partition = 0;
  offset = 5;
  outbox_id = 1;
  replay_generation = 0;
}

abbrev completion : Completed
completion = record { action = "create_snapshot"; lifecycle_state = "active"; observed = none }

abbrev failure : Failed
failure = record {
  failure = record {
    category = FailureCategory.unknown_outcome;
    code = "PROVIDER_UNKNOWN_OUTCOME";
    safe_message = "The outcome is not known.";
    retry_after_milliseconds = none;
  };
  compensation_state = Compensation.not_required;
}

abbrev message : WorkflowPayload → WorkflowMessage
message payload = record { envelope = envelope; traceparent = none; payload = payload }

-- The database that a transaction leaves.
left_by : Tried ControlDatabase → ControlDatabase
left_by (done d) = d
left_by _ = db

left_by_method : Tried (Applied × ControlDatabase) → ControlDatabase
left_by_method (done (_, d)) = d
left_by_method _ = db

db-OperationsAgree : OperationsAgree db
unfolding find_row
db-OperationsAgree id = elim (Bool-cases (3 == id)) [
  | inl here ↦ rw here (
    ground arith,
    record {
      state = refl;
      stage = refl;
      progress_percent = refl;
      started_at = refl;
      completed_at = refl;
      error_category = refl;
      error_code = refl;
      error_message = refl;
      manual_review_required = refl;
    },
  )
  | inr other ↦ rw other tt
]

db-InstancesNamed : InstancesNamed db
unfolding find_row
db-InstancesNamed id d h = elim (Bool-cases (7 == id)) [
  | inl here ↦
      let found : Option.some instance_document ≡ Option.some d = rw here at h in
      let same : instance_document ≡ d = cc in
      let key : 7 ≡ id = ground arith in
      ap (λ (x : InstanceDocument). x.document.id) (sym same) ∙ key
  | inr other ↦ let off : Option.none ≡ Option.some d = rw other at h in cc
]

abbrev completed_message : WorkflowMessage
completed_message = message (WorkflowPayload.completed completion)

abbrev failed_message : WorkflowMessage
failed_message = message (WorkflowPayload.failed failure)

apply_workflow_event-OperationsAgree_example :
    OperationsAgree (left_by_method (apply_workflow_event true completed_message delivery 101 db))
unfolding left_by_method apply_workflow_event find_row update_rows
apply_workflow_event-OperationsAgree_example =
    apply_workflow_event-OperationsAgree true completed_message delivery 101 db _ Applied.applied
      db-OperationsAgree refl

apply_workflow_event-duplicate_example :
    apply_workflow_event true failed_message delivery 102
      (left_by_method (apply_workflow_event true completed_message delivery 101 db))
    ≡ done (
      Applied.duplicate,
      left_by_method (apply_workflow_event true completed_message delivery 101 db),
    )
unfolding left_by_method apply_workflow_event find_row update_rows
apply_workflow_event-duplicate_example =
    apply_workflow_event-duplicate true delivery delivery 101 102 db _ Applied.applied
      completed_message failed_message refl refl refl

apply_completed-IsSettled_example :
    IsSettled "create_snapshot" 100 9
      (left_by (apply_completed true completed_message completion db))
unfolding left_by apply_completed find_row update_rows
apply_completed-IsSettled_example =
    apply_completed-IsSettled true completed_message completion db _ operation_document refl refl
      refl

apply_failed-snapshots_example :
    ((left_by (apply_failed true failed_message failure db)).snapshots ≡ db.snapshots)
    × ((left_by (apply_failed true failed_message failure db)).snapshot_documents
        ≡ db.snapshot_documents)
unfolding left_by apply_failed find_row update_rows
apply_failed-snapshots_example = apply_failed-snapshots true failed_message failure db _ refl

apply_event-IsReleased_example :
    IsReleased "manual_review" 7
      (left_by (apply_event true failed_message (WorkflowPayload.failed failure) db))
unfolding left_by apply_event find_row update_rows
apply_event-IsReleased_example =
    apply_event-IsReleased true failed_message (WorkflowPayload.failed failure) db _ "manual_review"
      db-InstancesNamed refl refl

apply_event-IsUntouched_example :
    IsUntouched 8 db (left_by (apply_event true failed_message (WorkflowPayload.failed failure) db))
unfolding left_by apply_event find_row update_rows
apply_event-IsUntouched_example =
    apply_event-IsUntouched true failed_message (WorkflowPayload.failed failure) db _ 8
      db-InstancesNamed (ground arith) refl
