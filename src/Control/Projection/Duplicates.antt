-- ===== src/Control/Projection/Duplicates.antt =====
-- packages/postgres-adapter/src/projection-store.ts: a message that is delivered again.
use private_cloud_control_pl.Prelude.{
  ◌≡◌, ℕ, String, str_eq, Bool, not, ◌||◌, Option, none, some, any, refl, inl, inr, Bool-cases,
}
use private_cloud_control_pl.Store.Rows.{Delivery}
use private_cloud_control_pl.Store.Table.{find_row, update_rows}
use private_cloud_control_pl.Control.Rows.{InstanceDocument, ControlDatabase}
use private_cloud_control_pl.Control.Transaction.{done, Ensures}
use private_cloud_control_pl.Control.Projection.Events.{
  WorkflowPayload, WorkflowMessage, DeadLettered, DriftMessage,
}
use private_cloud_control_pl.Control.Projection.Steps.{instance_document_is, operation_is}
use private_cloud_control_pl.Control.Projection.Endings.{completed_rows, completed_operation_row}
use private_cloud_control_pl.Control.Projection.Outcomes.{
  apply_progress-Ensures, apply_failed-Ensures, apply_completed-Ensures,
  apply_replay_resolved-Ensures,
}
use private_cloud_control_pl.Control.Projection.Apply.{
  Applied, event_consumer_name, dlq_consumer_name, drift_consumer_name, apply_event,
  project_dead_letter, write_drift, apply_workflow_event, apply_dead_letter_event,
  apply_drift_event,
}
use private_cloud_control_pl.Control.Projection.Once.{once-duplicate}
use private_cloud_control_pl.Control.Projection.Agreement.Kept.{settle_snapshot-tables}

abbrev KeepsReceipts : ControlDatabase → ControlDatabase → Type 0
KeepsReceipts db after = after.receipts ≡ db.receipts

apply_event-receipts :
    (strict : Bool) (event : WorkflowMessage) (payload : WorkflowPayload) (db : ControlDatabase)
    → Ensures (KeepsReceipts db) (apply_event strict event payload db)
unfolding apply_event
apply_event-receipts strict event (WorkflowPayload.progressed p) db =
    apply_progress-Ensures (KeepsReceipts db) strict event db p λ i o there found. refl
apply_event-receipts strict event (WorkflowPayload.failed f) db =
    apply_failed-Ensures (KeepsReceipts db) strict event db f λ i o there found. refl
apply_event-receipts strict event (WorkflowPayload.completed c) db =
    apply_completed-Ensures (KeepsReceipts db) strict event db c λ i o row there found held.
      (settle_snapshot-tables c.action o.document event.envelope.occurred_at (record db {
        instances = completed_rows event c db;
        operations =
            update_rows (operation_is event.envelope.operation_id)
              (completed_operation_row event.envelope.occurred_at) db.operations;
      })).4
apply_event-receipts strict event (WorkflowPayload.resolved r) db =
    apply_replay_resolved-Ensures (KeepsReceipts db) strict r db refl (λ letters. refl)
apply_event-receipts strict event (WorkflowPayload.unsupported name) db = tt

write_drift-receipts :
    (strict : Bool) (event : DriftMessage) (db : ControlDatabase) (c : Option String)
    (row : Option InstanceDocument)
    → Ensures (KeepsReceipts db) (write_drift strict event db c row)
write_drift-receipts strict event db none row = refl
write_drift-receipts strict event db (some c) none = refl
write_drift-receipts strict event db (some c) (some row) = elim (Bool-cases (str_eq c "")) [
  | inl blank ↦ rw blank refl
  | inr named ↦
      elim (Bool-cases (
        not strict
        || any (instance_document_is event.envelope.aggregate_id) db.instance_documents)) [
          | inl there ↦ rw (named, there) refl
          | inr missing ↦ rw (named, missing) tt
        ]
]

module _ (strict : Bool) (delivery second : Delivery) (now later : ℕ) (db after : ControlDatabase)
    (result : Applied) where
  -- Once a workflow event was applied or found to be a duplicate, a message with its identifier and its
  -- replay generation, at any later moment and with any other content, changes nothing.
  pub apply_workflow_event-duplicate :
      (event again : WorkflowMessage)
      → again.envelope.event_id ≡ event.envelope.event_id
      → second.replay_generation ≡ delivery.replay_generation
      → apply_workflow_event strict event delivery now db ≡ done (result, after)
      → apply_workflow_event strict again second later after ≡ done (Applied.duplicate, after)
  unfolding apply_workflow_event
  apply_workflow_event-duplicate event again id same e = rw id (
      once-duplicate (apply_event strict event event.payload)
        (apply_event strict again again.payload) db after result event_consumer_name
        event.envelope.event_id delivery second now later
        (apply_event-receipts strict event event.payload) same e)

  -- So it is for dead letters.
  pub apply_dead_letter_event-duplicate :
      (event again : DeadLettered)
      → again.envelope.event_id ≡ event.envelope.event_id
      → second.replay_generation ≡ delivery.replay_generation
      → apply_dead_letter_event event delivery now db ≡ done (result, after)
      → apply_dead_letter_event again second later after ≡ done (Applied.duplicate, after)
  unfolding apply_dead_letter_event
  apply_dead_letter_event-duplicate event again id same e = rw id (
      once-duplicate (project_dead_letter event) (project_dead_letter again) db after result
        dlq_consumer_name event.envelope.event_id delivery second now later (λ d. refl) same e)

  -- And for drift findings.
  pub apply_drift_event-duplicate :
      (event again : DriftMessage)
      → again.envelope.event_id ≡ event.envelope.event_id
      → second.replay_generation ≡ delivery.replay_generation
      → apply_drift_event strict event delivery now db ≡ done (result, after)
      → apply_drift_event strict again second later after ≡ done (Applied.duplicate, after)
  unfolding apply_drift_event
  apply_drift_event-duplicate event again id same e = rw id (
      once-duplicate
        (λ d.
          write_drift strict event d event.classification
            (find_row (instance_document_is event.envelope.aggregate_id) d.instance_documents))
        (λ d.
          write_drift strict again d again.classification
            (find_row (instance_document_is again.envelope.aggregate_id) d.instance_documents))
        db after result drift_consumer_name event.envelope.event_id delivery second now later
        (λ d. write_drift-receipts strict event d event.classification _) same e)
