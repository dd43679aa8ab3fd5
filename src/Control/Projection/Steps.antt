-- ===== src/Control/Projection/Steps.antt =====
-- packages/postgres-adapter/src/projection-store.ts: what each kind of workflow event changes.
use private_cloud_control_pl.Prelude.{
  ℕ, ◌-◌, String, str_eq, Bool, ◌||◌, Option, none, some, nullish, if◌then◌else◌,
}
use private_cloud_control_pl.Workflow.Stage.{
  PersistedStage, TerminalStage, stage_progress_percent, to_workflow_stage,
}
use private_cloud_control_pl.Store.Table.{find_row}
use private_cloud_control_pl.Control.Keyed.{keyed}
use private_cloud_control_pl.Control.Rows.{
  InstanceRow, OperationRow, SnapshotRow, InstanceView, OperationView, InstanceDocument,
  OperationDocument, SnapshotDocument, DeadLetterDocument, ControlDatabase,
}
use private_cloud_control_pl.Control.Transaction.{Tried, done, ◌>>=◌, or_throw, update_or_throw}
use private_cloud_control_pl.Control.Projection.Events.{Progressed, WorkflowMessage}
use private_cloud_control_pl.Control.Projection.Traces.{trace_id_of}

-- The keys of the tables.
abbrev pub instance_is : ℕ → InstanceRow → Bool
instance_is = keyed (λ (r : InstanceRow). r.id)

abbrev pub operation_is : ℕ → OperationRow → Bool
operation_is = keyed (λ (r : OperationRow). r.id)

abbrev pub snapshot_is : ℕ → SnapshotRow → Bool
snapshot_is = keyed (λ (r : SnapshotRow). r.id)

abbrev pub instance_document_is : ℕ → InstanceDocument → Bool
instance_document_is = keyed (λ (r : InstanceDocument). r.instance_id)

abbrev pub operation_document_is : ℕ → OperationDocument → Bool
operation_document_is = keyed (λ (r : OperationDocument). r.operation_id)

abbrev pub snapshot_document_is : ℕ → SnapshotDocument → Bool
snapshot_document_is = keyed (λ (r : SnapshotDocument). r.snapshot_id)

abbrev pub dead_letter_is : ℕ → DeadLetterDocument → Bool
dead_letter_is = keyed (λ (r : DeadLetterDocument). r.original_event_id)

-- The columns of `OperationRecovery` that not every event writes.
pub record Recovery : Type 0 where
  pub checkpoint : String
  pub retry_count : Option ℕ
  pub provider_task_reference : Option String

abbrev pub recovered :
    WorkflowMessage → OperationView → Recovery → OperationDocument → OperationDocument
recovered event view recovery row = record row {
  document = view;
  updated_at = event.envelope.occurred_at;
  correlation_id = some event.envelope.correlation_id;
  causation_id = some event.envelope.causation_id;
  trace_id = trace_id_of event.traceparent;
  checkpoint = some recovery.checkpoint;
  retry_count = nullish recovery.retry_count row.retry_count;
  provider_task_reference = recovery.provider_task_reference;
}

abbrev pub redrawn : InstanceView → ℕ → InstanceDocument → InstanceDocument
redrawn view at row = record row { document = view; updated_at = at }

abbrev pub is_terminal_name : String → Bool
is_terminal_name stage =
    str_eq stage "completed" || str_eq stage "failed" || str_eq stage "manual_review"

-- `STAGE_PROGRESS_PERCENT[stage] ?? current`.
unfoldable pub progress_or : String → ℕ → ℕ
progress_or stage current = elim (to_workflow_stage stage) [
  | some s ↦ stage_progress_percent (PersistedStage.active s)
  | none ↦
      if is_terminal_name stage
      then stage_progress_percent (PersistedStage.terminal TerminalStage.completed)
      else current
]

abbrev pub progressed_operation : WorkflowMessage → Progressed → OperationView → OperationView
progressed_operation event progress operation = record operation {
  state = progress.operation_state;
  stage = progress.stage;
  progress_percent = progress_or progress.stage operation.progress_percent;
  started_at = some (nullish operation.started_at event.envelope.occurred_at);
  updated_at = event.envelope.occurred_at;
}

abbrev pub progressed_instance : ℕ → InstanceView → InstanceView
progressed_instance at instance = record instance {
  lifecycle_state = "provisioning";
  updated_at = at;
}

abbrev pub progressed_row :
    WorkflowMessage → Progressed → OperationView → OperationRow → OperationRow
progressed_row event progress operation row = record row {
  state = progress.operation_state;
  stage = progress.stage;
  progress_percent = progress_or progress.stage operation.progress_percent;
  started_at = some (nullish operation.started_at event.envelope.occurred_at);
  updated_at = event.envelope.occurred_at;
}

abbrev pub provisioning_row : ℕ → InstanceRow → InstanceRow
provisioning_row at row = record row { lifecycle_state = "provisioning"; updated_at = at }

abbrev pub progress_recovery : Progressed → Recovery
progress_recovery progress = record {
  checkpoint = progress.stage;
  retry_count = some (progress.attempt - 1);
  provider_task_reference = progress.provider_task_reference;
}

module _ (strict : Bool) where
  -- `writeDocuments`.
  abbrev pub write_documents :
      WorkflowMessage
      → InstanceView
      → OperationView
      → Recovery
      → ControlDatabase
      → Tried ControlDatabase
  write_documents event instance operation recovery db = do
    instances ←
        update_or_throw strict (instance_document_is instance.id)
          (redrawn instance event.envelope.occurred_at) db.instance_documents
    operations ←
        update_or_throw strict (operation_document_is operation.id)
          (recovered event operation recovery) db.operation_documents
    done (record db { instance_documents = instances; operation_documents = operations })

  -- `applyProgress`.
  unfoldable pub apply_progress :
      WorkflowMessage → Progressed → ControlDatabase → Tried ControlDatabase
  apply_progress event progress db = do
    operation_row ←
        or_throw
          (find_row (operation_document_is event.envelope.operation_id) db.operation_documents)
    instance_row ←
        or_throw (find_row (instance_document_is event.envelope.aggregate_id) db.instance_documents)
    operations ←
        update_or_throw strict (operation_is event.envelope.operation_id)
          (progressed_row event progress operation_row.document) db.operations
    instances ←
        update_or_throw strict (instance_is event.envelope.aggregate_id)
          (provisioning_row event.envelope.occurred_at) db.instances
    write_documents event (progressed_instance event.envelope.occurred_at instance_row.document)
        (progressed_operation event progress operation_row.document) (progress_recovery progress)
        (record db { operations = operations; instances = instances })
