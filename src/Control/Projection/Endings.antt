-- ===== src/Control/Projection/Endings.antt =====
-- packages/postgres-adapter/src/projection-store.ts: what a terminal event and a replay decision change.
use private_cloud_control_pl.Prelude.{
  ℕ, ◌==◌, String, str_eq, Bool, true, false, not, ◌&&◌, ◌||◌, Option, none, some, List, [], ◌∷◌,
  any, if◌then◌else◌,
}
use private_cloud_control_pl.Contracts.Events.{
  FailureCategory, Failure, PowerState, ObservedState, ObservedResources,
}
use private_cloud_control_pl.Workflow.Stage.{PersistedStage, TerminalStage, stage_progress_percent}
use private_cloud_control_pl.Store.Table.{find_row, update_rows}
use private_cloud_control_pl.Control.Rows.{
  InstanceRow, OperationRow, SnapshotRow, ReplayRow, ObservedInstanceState, InstanceView,
  OperationView, SnapshotView, ControlDatabase,
}
use private_cloud_control_pl.Control.Transaction.{
  TransactionError, Tried, done, threw, ◌>>=◌, or_throw, update_or_throw,
}
use private_cloud_control_pl.Control.Projection.Events.{
  Completed, Compensation, Failed, Resolved, WorkflowMessage,
}
use private_cloud_control_pl.Control.Projection.Steps.{
  instance_is, operation_is, snapshot_is, instance_document_is, operation_document_is,
  snapshot_document_is, dead_letter_is, Recovery, write_documents,
}

-- `DELETE … WHERE p`.
unfoldable pub delete_rows {ℓ} : {R : Type ℓ} → (R → Bool) → List R → List R
delete_rows p [] = []
delete_rows p (r ∷ rows) = let rest = delete_rows p rows in if p r then rest else r ∷ rest

abbrev pub cpu_of : Option ObservedResources → Option ℕ
cpu_of none = none
cpu_of (some r) = some r.cpu_count

abbrev pub memory_of : Option ObservedResources → Option ℕ
memory_of none = none
memory_of (some r) = r.memory_mib

abbrev pub disk_of : Option ObservedResources → Option ℕ
disk_of none = none
disk_of (some r) = r.disk_gib

-- `observedFromEvent`.
abbrev pub observed_from_event : Option ObservedState → ℕ → ObservedInstanceState
observed_from_event none fallback_observed_at = record {
  exists = true;
  power_state = PowerState.unknown;
  cpu_count = none;
  memory_mib = none;
  disk_gib = none;
  marker_match = true;
  observed_at = fallback_observed_at;
}
observed_from_event (some o) fallback_observed_at = record {
  exists = o.exists;
  power_state = o.power_state;
  cpu_count = cpu_of o.resources;
  memory_mib = memory_of o.resources;
  disk_gib = disk_of o.resources;
  marker_match = o.marker_match;
  observed_at = o.observed_at;
}

abbrev pub completed_operation : ℕ → OperationView → OperationView
completed_operation at operation = record operation {
  state = "succeeded";
  stage = "completed";
  progress_percent = stage_progress_percent (PersistedStage.terminal TerminalStage.completed);
  updated_at = at;
  completed_at = some at;
  error_category = none;
  error_code = none;
  error_message = none;
  manual_review_required = false;
}

abbrev pub completed_operation_row : ℕ → OperationRow → OperationRow
completed_operation_row at row = record row {
  state = "succeeded";
  stage = "completed";
  progress_percent = stage_progress_percent (PersistedStage.terminal TerminalStage.completed);
  updated_at = at;
  completed_at = some at;
  error_category = none;
  error_code = none;
  error_message = none;
  manual_review_required = false;
}

abbrev pub completed_instance_row : ℕ → String → ObservedInstanceState → InstanceRow → InstanceRow
completed_instance_row at lifecycle_state observed row = record row {
  lifecycle_state = lifecycle_state;
  active_operation_id = none;
  updated_at = at;
  observed_exists = some observed.exists;
  observed_power_state = some observed.power_state;
  observed_cpu_count = observed.cpu_count;
  observed_memory_mib = observed.memory_mib;
  observed_disk_gib = observed.disk_gib;
  observed_marker_match = some observed.marker_match;
  observed_at = some observed.observed_at;
  drift = "none";
  last_reconciled_at = some at;
}

-- What the first UPDATE of `applyCompleted` makes of the instances.
abbrev pub completed_rows : WorkflowMessage → Completed → ControlDatabase → List InstanceRow
completed_rows event completed db =
    update_rows (instance_is event.envelope.aggregate_id)
      (completed_instance_row event.envelope.occurred_at completed.lifecycle_state
        (observed_from_event completed.observed event.envelope.occurred_at))
      db.instances

abbrev pub completed_instance :
    WorkflowMessage → Completed → InstanceRow → InstanceView → InstanceView
completed_instance event completed row instance = record instance {
  lifecycle_state = completed.lifecycle_state;
  observed = some (observed_from_event completed.observed event.envelope.occurred_at);
  active_operation_id = none;
  drift = "none";
  last_reconciled_at = some event.envelope.occurred_at;
  retention_deadline = row.retention_deadline;
  purge_eligible = row.purge_eligible;
  updated_at = event.envelope.occurred_at;
}

abbrev pub snapshot_document : ℕ → SnapshotRow → SnapshotView
snapshot_document at row = record {
  id = row.id;
  instance_id = row.instance_id;
  name = row.name;
  description = row.description;
  state = "available";
  created_at = row.created_at;
  updated_at = at;
}

-- `settleSnapshot` after a create or a rollback, from the row that it returns on.
abbrev pub settled :
    ℕ → ℕ → List SnapshotRow → ControlDatabase → Option SnapshotRow → ControlDatabase
settled at snapshot_id rows db none = record db { snapshots = rows }
settled at snapshot_id rows db (some row) = record db {
  snapshots = rows;
  snapshot_documents =
      update_rows (snapshot_document_is snapshot_id)
        (λ r. record r { document = snapshot_document at row; updated_at = at })
        db.snapshot_documents;
}

-- `settleSnapshot`.
unfoldable pub settle_snapshot : String → OperationView → ℕ → ControlDatabase → ControlDatabase
unfolding delete_rows
settle_snapshot action operation at db =
    let rows =
      update_rows (snapshot_is operation.target_id)
        (λ r. record r { state = "available"; updated_at = at }) db.snapshots in
    if not (str_eq operation.target_type "snapshot")
    then db
    else if str_eq action "delete_snapshot"
    then record db {
      snapshot_documents =
          delete_rows (snapshot_document_is operation.target_id) db.snapshot_documents;
      snapshots = delete_rows (snapshot_is operation.target_id) db.snapshots;
    }
    else settled at operation.target_id rows db (find_row (snapshot_is operation.target_id) rows)

-- The three signals that ask for a human.
abbrev pub needs_review : Failed → Bool
needs_review failed = asks failed.failure.category || is_unsafe failed.compensation_state
  where
    asks : FailureCategory → Bool
    asks FailureCategory.unknown_outcome = true
    asks FailureCategory.manual_review = true
    asks _ = false

    is_unsafe : Compensation → Bool
    is_unsafe Compensation.unsafe = true
    is_unsafe _ = false

abbrev pub terminal_state : Bool → String
terminal_state manual = if manual then "manual_review" else "failed"

abbrev pub failed_instance : ℕ → Bool → InstanceView → InstanceView
failed_instance at manual instance = record instance {
  lifecycle_state = terminal_state manual;
  active_operation_id = none;
  updated_at = at;
}

abbrev pub failed_operation : ℕ → Bool → Failure → OperationView → OperationView
failed_operation at manual failure operation = record operation {
  state = terminal_state manual;
  stage = terminal_state manual;
  updated_at = at;
  completed_at = some at;
  error_category = some failure.category;
  error_code = some failure.code;
  error_message = some failure.safe_message;
  manual_review_required = manual;
}

abbrev pub failed_operation_row : ℕ → Bool → Failure → OperationRow → OperationRow
failed_operation_row at manual failure row = record row {
  state = terminal_state manual;
  stage = terminal_state manual;
  updated_at = at;
  completed_at = some at;
  error_category = some failure.category;
  error_code = some failure.code;
  error_message = some failure.safe_message;
  manual_review_required = manual;
}

abbrev pub failed_instance_row : ℕ → Bool → InstanceRow → InstanceRow
failed_instance_row at manual row = record row {
  lifecycle_state = terminal_state manual;
  active_operation_id = none;
  updated_at = at;
}

-- A terminal event leaves no task in flight.
abbrev pub ended : String → Recovery
ended stage = record { checkpoint = stage; retry_count = none; provider_task_reference = none }

module _ (strict : Bool) where
  -- `applyCompleted`. The row that its first UPDATE returns is read from the updated table.
  unfoldable pub apply_completed :
      WorkflowMessage → Completed → ControlDatabase → Tried ControlDatabase
  unfolding settle_snapshot
  apply_completed event completed db = do
    instance ←
        or_throw (find_row (instance_document_is event.envelope.aggregate_id) db.instance_documents)
    operation ←
        or_throw
          (find_row (operation_document_is event.envelope.operation_id) db.operation_documents)
    instance_row ←
        or_throw
          (find_row (instance_is event.envelope.aggregate_id) (completed_rows event completed db))
    operations ←
        update_or_throw strict (operation_is event.envelope.operation_id)
          (completed_operation_row event.envelope.occurred_at) db.operations
    write_documents strict event (completed_instance event completed instance_row instance.document)
        (completed_operation event.envelope.occurred_at operation.document) (ended "completed")
        (settle_snapshot completed.action operation.document event.envelope.occurred_at
          (record db { instances = completed_rows event completed db; operations = operations }))

  -- `applyFailed`.
  unfoldable pub apply_failed : WorkflowMessage → Failed → ControlDatabase → Tried ControlDatabase
  apply_failed event failed db = do
    instance ←
        or_throw (find_row (instance_document_is event.envelope.aggregate_id) db.instance_documents)
    operation ←
        or_throw
          (find_row (operation_document_is event.envelope.operation_id) db.operation_documents)
    instances ←
        update_or_throw strict (instance_is event.envelope.aggregate_id)
          (failed_instance_row event.envelope.occurred_at (needs_review failed)) db.instances
    operations ←
        update_or_throw strict (operation_is event.envelope.operation_id)
          (failed_operation_row event.envelope.occurred_at (needs_review failed) failed.failure)
          db.operations
    write_documents strict event
        (failed_instance event.envelope.occurred_at (needs_review failed) instance.document)
        (failed_operation event.envelope.occurred_at (needs_review failed) failed.failure
          operation.document)
        (ended (terminal_state (needs_review failed)))
        (record db { instances = instances; operations = operations })

  abbrev pub is_owned_replay : Resolved → ReplayRow → Bool
  is_owned_replay resolved row =
      row.id == resolved.replay_request_id && row.original_event_id == resolved.original_event_id

  -- What `applyReplayResolved` does to the dead letter of a completed replay.
  abbrev pub close_dead_letter : Resolved → ControlDatabase → Tried ControlDatabase
  close_dead_letter resolved db = do
    row ← or_throw (find_row (dead_letter_is resolved.original_event_id) db.dead_letters)
    letters ←
        update_or_throw strict (dead_letter_is resolved.original_event_id)
          (λ r. record r {
            document = record row.document {
              replay_allowed = false;
              last_replay_at = some resolved.resolved_at;
            };
            updated_at = resolved.resolved_at;
          })
          db.dead_letters
    done (record db { dead_letters = letters })

  -- `applyReplayResolved`.
  unfoldable pub apply_replay_resolved : Resolved → ControlDatabase → Tried ControlDatabase
  apply_replay_resolved resolved db =
      let decided = record db {
        replay_requests =
            update_rows (is_owned_replay resolved)
              (λ r. record r { status = resolved.outcome; updated_at = resolved.resolved_at })
              db.replay_requests;
      } in
      if not (any (is_owned_replay resolved) db.replay_requests)
      then threw
          (TransactionError.refused "Replay resolution does not match an owned replay request.")
      else if not (str_eq resolved.outcome "completed")
      then done decided
      else close_dead_letter resolved decided
