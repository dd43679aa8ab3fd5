-- ===== src/Control/Projection/Apply.antt =====
-- packages/postgres-adapter/src/projection-store.ts: the public methods, one transaction each. The
-- moment of the process's clock and fresh identifiers are arguments.
use private_cloud_control_pl.Prelude.{
  ℕ, ◌==◌, String, str_eq, Bool, true, false, ◌&&◌, Option, none, some, List, ◌∷◌, any,
  if◌then◌else◌,
}
use private_cloud_control_pl.Store.Rows.{Delivery}
use private_cloud_control_pl.Store.Table.{find_row, update_rows}
use private_cloud_control_pl.Control.Rows.{
  InstanceView, DeadLetterView, InstanceDocument, DeadLetterDocument, EventReceipt, PoisonDocument,
  ControlDatabase,
}
use private_cloud_control_pl.Control.Transaction.{
  TransactionError, Tried, done, threw, ◌>>=◌, update_or_throw,
}
use private_cloud_control_pl.Control.Projection.Events.{
  WorkflowPayload, WorkflowMessage, DeadLettered, DriftMessage,
}
use private_cloud_control_pl.Control.Projection.Steps.{
  instance_document_is, operation_document_is, dead_letter_is, apply_progress,
}
use private_cloud_control_pl.Control.Projection.Endings.{
  apply_completed, apply_failed, apply_replay_resolved,
}

abbrev pub event_consumer_name : String
event_consumer_name = "control-api.provisioning-events.v1"

abbrev pub dlq_consumer_name : String
dlq_consumer_name = "control-api.provisioning-dlq.v1"

abbrev pub drift_consumer_name : String
drift_consumer_name = "control-api.reconciliation-events.v1"

pub data Applied : Type 0 where
  applied duplicate : Applied

-- `applyEvent`.
unfoldable pub apply_event :
    Bool → WorkflowMessage → WorkflowPayload → ControlDatabase → Tried ControlDatabase
unfolding apply_progress apply_completed apply_failed apply_replay_resolved
apply_event strict event (WorkflowPayload.progressed p) db = apply_progress strict event p db
apply_event strict event (WorkflowPayload.completed c) db = apply_completed strict event c db
apply_event strict event (WorkflowPayload.failed f) db = apply_failed strict event f db
apply_event strict event (WorkflowPayload.resolved r) db = apply_replay_resolved strict r db
apply_event strict event (WorkflowPayload.unsupported name) db =
    threw (TransactionError.refused "Unsupported workflow event.")

-- The unique key of `projection.event_receipts`.
abbrev pub is_receipt : String → ℕ → ℕ → EventReceipt → Bool
is_receipt consumer_name event_id replay_generation receipt =
    str_eq receipt.consumer_name consumer_name
    && receipt.event_id == event_id
    && receipt.delivery.replay_generation == replay_generation

-- `insertReceipt`: whether a receipt was inserted, and the receipts.
unfoldable pub insert_event_receipt :
    String → ℕ → Delivery → ℕ → List EventReceipt → Bool × List EventReceipt
insert_event_receipt consumer_name event_id delivery now receipts =
    if any (is_receipt consumer_name event_id delivery.replay_generation) receipts
    then (false, receipts)
    else (
      true,
      record {
        event_id = event_id;
        consumer_name = consumer_name;
        delivery = delivery;
        received_at = now;
      }
          ∷ receipts,
    )

abbrev pub as_applied : Tried ControlDatabase → Tried (Applied × ControlDatabase)
as_applied (done after) = done (Applied.applied, after)
as_applied (threw e) = threw e

-- A method's transaction: the receipt, then the change if the receipt is new.
abbrev pub once :
    (ControlDatabase → Tried ControlDatabase)
    → ControlDatabase
    → Bool × List EventReceipt
    → Tried (Applied × ControlDatabase)
once change db (false, receipts) = done (Applied.duplicate, db)
once change db (true, receipts) = as_applied (change (record db { receipts = receipts }))

-- `applyWorkflowEvent`.
unfoldable pub apply_workflow_event :
    Bool → WorkflowMessage → Delivery → ℕ → ControlDatabase → Tried (Applied × ControlDatabase)
unfolding insert_event_receipt apply_event
apply_workflow_event strict event delivery now db =
    once (apply_event strict event event.payload) db
      (insert_event_receipt event_consumer_name event.envelope.event_id delivery now db.receipts)

abbrev pub dead_letter_document : DeadLettered → DeadLetterView
dead_letter_document event = record {
  event_id = event.original_event_id;
  schema_name = event.original_schema_name;
  schema_version = event.original_schema_version;
  aggregate_id = event.envelope.aggregate_id;
  project_id = event.envelope.project_id;
  operation_id = event.envelope.operation_id;
  category = event.failure.category;
  safe_message = event.failure.safe_message;
  attempts = event.attempts;
  dead_lettered_at = event.dead_lettered_at;
  replay_allowed = event.replay_allowed;
  last_replay_at = none;
}

abbrev pub dead_letter_row : DeadLettered → DeadLetterDocument
dead_letter_row event = record {
  original_event_id = event.original_event_id;
  project_id = event.envelope.project_id;
  operation_id = event.envelope.operation_id;
  aggregate_id = event.envelope.aggregate_id;
  document = dead_letter_document event;
  trace_context = event.envelope.trace_context;
  updated_at = event.envelope.occurred_at;
}

-- `INSERT … ON CONFLICT (original_event_id) DO UPDATE`.
abbrev pub upsert_dead_letter :
    DeadLetterDocument → List DeadLetterDocument → List DeadLetterDocument
upsert_dead_letter row rows =
    if any (dead_letter_is row.original_event_id) rows
    then update_rows (dead_letter_is row.original_event_id) (λ _. row) rows
    else row ∷ rows

-- What `applyDeadLetterEvent` changes after its receipt.
abbrev pub project_dead_letter : DeadLettered → ControlDatabase → Tried ControlDatabase
project_dead_letter event db = done (record db {
  dead_letters = upsert_dead_letter (dead_letter_row event) db.dead_letters;
  operation_documents =
      update_rows (operation_document_is event.envelope.operation_id)
        (λ r. record r { dead_letter_event_id = some event.original_event_id })
        db.operation_documents;
})

-- `applyDeadLetterEvent`.
unfoldable pub apply_dead_letter_event :
    DeadLettered → Delivery → ℕ → ControlDatabase → Tried (Applied × ControlDatabase)
unfolding insert_event_receipt
apply_dead_letter_event event delivery now db =
    once (project_dead_letter event) db
      (insert_event_receipt dlq_consumer_name event.envelope.event_id delivery now db.receipts)

abbrev pub drifted : String → ℕ → InstanceView → InstanceView
drifted classification at document = record document {
  drift = classification;
  last_reconciled_at = some at;
  updated_at = at;
}

-- What `applyDriftEvent` changes after its receipt, from the classification and the row found.
abbrev pub write_drift :
    Bool
    → DriftMessage
    → ControlDatabase
    → Option String
    → Option InstanceDocument
    → Tried ControlDatabase
write_drift strict event db none row = done db
write_drift strict event db (some classification) none = done db
write_drift strict event db (some classification) (some row) =
    if str_eq classification "" then done db else do
      documents ←
          update_or_throw strict (instance_document_is event.envelope.aggregate_id)
            (λ r. record r {
              document = drifted classification event.envelope.occurred_at row.document;
              updated_at = event.envelope.occurred_at;
            })
            db.instance_documents
      done (record db { instance_documents = documents })

-- `applyDriftEvent`.
unfoldable pub apply_drift_event :
    Bool → DriftMessage → Delivery → ℕ → ControlDatabase → Tried (Applied × ControlDatabase)
unfolding insert_event_receipt
apply_drift_event strict event delivery now db =
    once
      (λ d.
        write_drift strict event d event.classification
          (find_row (instance_document_is event.envelope.aggregate_id) d.instance_documents))
      db (insert_event_receipt drift_consumer_name event.envelope.event_id delivery now db.receipts)

-- The input of `quarantineRecord`.
pub record Poison : Type 0 where
  pub delivery : Delivery
  pub event_id : Option ℕ
  pub payload_hash : String
  pub failure_code : String
  pub safe_message : String

abbrev pub quarantine_consumer : Delivery → String
quarantine_consumer delivery =
    if str_eq delivery.topic "provisioning.dlq.v1" then dlq_consumer_name else event_consumer_name

-- The unique key of `projection.poison_records`.
abbrev pub is_poison : String → Delivery → PoisonDocument → Bool
is_poison consumer_name delivery row =
    str_eq row.consumer_name consumer_name
    && str_eq row.delivery.topic delivery.topic
    && row.delivery.partition == delivery.partition
    && row.delivery.offset == delivery.offset

abbrev pub receipts_of_poison : Poison → ℕ → List EventReceipt → List EventReceipt
receipts_of_poison input now receipts = elim input.event_id [
  | none ↦ receipts
  | some event_id ↦
      (insert_event_receipt (quarantine_consumer input.delivery) event_id input.delivery now
        receipts).1
]

pub data Quarantined : Type 0 where
  quarantined duplicate : Quarantined

-- `quarantineRecord`.
unfoldable pub quarantine_event : Poison → ℕ → ℕ → ControlDatabase → Quarantined × ControlDatabase
unfolding insert_event_receipt
quarantine_event input fresh now db =
    let consumer_name = quarantine_consumer input.delivery in
    let row : PoisonDocument = record {
      id = fresh;
      consumer_name = consumer_name;
      delivery = input.delivery;
      payload_hash = input.payload_hash;
      failure_code = input.failure_code;
      safe_message = input.safe_message;
      quarantined_at = now;
    } in
    let receipts = receipts_of_poison input now db.receipts in
    if any (is_poison consumer_name input.delivery) db.poison_records
    then (Quarantined.duplicate, record db { receipts = receipts })
    else (
      Quarantined.quarantined,
      record db { receipts = receipts; poison_records = row ∷ db.poison_records },
    )
