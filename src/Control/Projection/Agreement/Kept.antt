-- ===== src/Control/Projection/Agreement/Kept.antt =====
-- packages/postgres-adapter/src/projection-store.ts: every workflow event keeps the operations and their
-- documents the same.
use private_cloud_control_pl.Prelude.{◌≡◌, ℕ, String, Bool, refl, arith}
use private_cloud_control_pl.Store.Table.{update_rows}
use private_cloud_control_pl.Control.Rows.{OperationView, ControlDatabase}
use private_cloud_control_pl.Control.Transaction.{done, Ensures}
use private_cloud_control_pl.Control.Projection.Events.{
  Progressed, Completed, Failed, WorkflowPayload, WorkflowMessage,
}
use private_cloud_control_pl.Control.Projection.Steps.{
  operation_is, progressed_operation, apply_progress, progressed_row, progress_recovery,
}
use private_cloud_control_pl.Control.Projection.Endings.{
  apply_completed, apply_failed, settle_snapshot, needs_review, terminal_state, completed_operation,
  completed_operation_row, failed_operation, failed_operation_row, completed_rows, ended,
}
use private_cloud_control_pl.Control.Projection.Outcomes.{
  apply_progress-Ensures, apply_failed-Ensures, apply_completed-Ensures,
  apply_replay_resolved-Ensures,
}
use private_cloud_control_pl.Control.Projection.Apply.{
  Applied, event_consumer_name, insert_event_receipt, apply_event, apply_workflow_event,
}
use private_cloud_control_pl.Control.Projection.Once.{once-Ensures}
use private_cloud_control_pl.Store.Rows.{Delivery}
use private_cloud_control_pl.Control.Projection.Agreement.{OperationsAgree, update-AllFaithful}

apply_progress-OperationsAgree :
    (strict : Bool) (event : WorkflowMessage) (progress : Progressed) (db : ControlDatabase)
    → OperationsAgree db
    → Ensures OperationsAgree (apply_progress strict event progress db)
apply_progress-OperationsAgree strict event progress db agree =
    apply_progress-Ensures OperationsAgree strict event db progress λ i o there found.
      update-AllFaithful event (progress_recovery progress) event.envelope.operation_id
        (progressed_row event progress o.document) (progressed_operation event progress o.document)
        db.operations db.operation_documents o found (λ r. refl) (λ e. e)
        (λ r same. record {
          state = refl;
          stage = refl;
          progress_percent = refl;
          started_at = refl;
          completed_at = same.completed_at;
          error_category = same.error_category;
          error_code = same.error_code;
          error_message = same.error_message;
          manual_review_required = same.manual_review_required;
        })
        agree

apply_failed-OperationsAgree :
    (strict : Bool) (event : WorkflowMessage) (failed : Failed) (db : ControlDatabase)
    → OperationsAgree db
    → Ensures OperationsAgree (apply_failed strict event failed db)
apply_failed-OperationsAgree strict event failed db agree =
    apply_failed-Ensures OperationsAgree strict event db failed λ i o there found.
      update-AllFaithful event (ended (terminal_state (needs_review failed)))
        event.envelope.operation_id
        (failed_operation_row event.envelope.occurred_at (needs_review failed) failed.failure)
        (failed_operation event.envelope.occurred_at (needs_review failed) failed.failure
          o.document)
        db.operations db.operation_documents o found (λ r. refl) (λ e. e)
        (λ r same. record {
          state = refl;
          stage = refl;
          progress_percent = same.progress_percent;
          started_at = same.started_at;
          completed_at = refl;
          error_category = refl;
          error_code = refl;
          error_message = refl;
          manual_review_required = refl;
        })
        agree

-- Snapshots are settled beside the operations.
pub settle_snapshot-tables :
    (action : String) (operation : OperationView) (at : ℕ) (db : ControlDatabase)
    → ((settle_snapshot action operation at db).operations ≡ db.operations)
      × ((settle_snapshot action operation at db).operation_documents ≡ db.operation_documents)
      × ((settle_snapshot action operation at db).instances ≡ db.instances)
      × ((settle_snapshot action operation at db).instance_documents ≡ db.instance_documents)
      × ((settle_snapshot action operation at db).receipts ≡ db.receipts)
unfolding settle_snapshot
settle_snapshot-tables action operation at db = ground arith

apply_completed-OperationsAgree :
    (strict : Bool) (event : WorkflowMessage) (completed : Completed) (db : ControlDatabase)
    → OperationsAgree db
    → Ensures OperationsAgree (apply_completed strict event completed db)
apply_completed-OperationsAgree strict event completed db agree =
    apply_completed-Ensures OperationsAgree strict event db completed λ i o row there found held.
      let (operations, documents, _, _, _) =
        settle_snapshot-tables completed.action o.document event.envelope.occurred_at (record db {
          instances = completed_rows event completed db;
          operations =
              update_rows (operation_is event.envelope.operation_id)
                (completed_operation_row event.envelope.occurred_at) db.operations;
        }) in
      rw (operations, documents)
        (update-AllFaithful event (ended "completed") event.envelope.operation_id
          (completed_operation_row event.envelope.occurred_at)
          (completed_operation event.envelope.occurred_at o.document) db.operations
          db.operation_documents o found (λ r. refl) (λ e. e)
          (λ r same. record {
            state = refl;
            stage = refl;
            progress_percent = refl;
            started_at = same.started_at;
            completed_at = refl;
            error_category = refl;
            error_code = refl;
            error_message = refl;
            manual_review_required = refl;
          })
          agree)

apply_event-OperationsAgree :
    (strict : Bool) (event : WorkflowMessage) (payload : WorkflowPayload) (db : ControlDatabase)
    → OperationsAgree db
    → Ensures OperationsAgree (apply_event strict event payload db)
unfolding apply_event
apply_event-OperationsAgree strict event (WorkflowPayload.progressed p) db agree =
    apply_progress-OperationsAgree strict event p db agree
apply_event-OperationsAgree strict event (WorkflowPayload.completed c) db agree =
    apply_completed-OperationsAgree strict event c db agree
apply_event-OperationsAgree strict event (WorkflowPayload.failed f) db agree =
    apply_failed-OperationsAgree strict event f db agree
apply_event-OperationsAgree strict event (WorkflowPayload.resolved r) db agree =
    apply_replay_resolved-Ensures OperationsAgree strict r db agree (λ letters. agree)
apply_event-OperationsAgree strict event (WorkflowPayload.unsupported name) db agree = tt

-- Where every operation's document says what its row says, it does so after any workflow event that is
-- applied or found to be a duplicate, whichever instance and operation the event is about.
pub apply_workflow_event-OperationsAgree :
    (strict : Bool) (event : WorkflowMessage) (delivery : Delivery) (now : ℕ)
    (db after : ControlDatabase) (result : Applied)
    → OperationsAgree db
    → apply_workflow_event strict event delivery now db ≡ done (result, after)
    → OperationsAgree after
unfolding apply_workflow_event
apply_workflow_event-OperationsAgree strict event delivery now db after result agree e =
    once-Ensures OperationsAgree (apply_event strict event event.payload) db
      (insert_event_receipt event_consumer_name event.envelope.event_id delivery now db.receipts)
      agree
      (λ receipts.
        apply_event-OperationsAgree strict event event.payload (record db { receipts = receipts })
          agree)
      after result e
