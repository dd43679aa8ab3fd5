-- ===== src/Control/Projection/Outcomes.antt =====
-- packages/postgres-adapter/src/projection-store.ts: the database that an applied event leaves, in one
-- piece, and the rules that prove a statement of it.
use private_cloud_control_pl.Prelude.{
  ◌≡◌, str_eq, Bool, not, ◌||◌, some, List, any, inl, inr, Bool-cases, Option-cases,
}
use private_cloud_control_pl.Store.Table.{find_row, update_rows}
use private_cloud_control_pl.Control.Rows.{
  InstanceRow, InstanceView, OperationView, InstanceDocument, OperationDocument, DeadLetterDocument,
  ControlDatabase,
}
use private_cloud_control_pl.Control.Transaction.{Ensures}
use private_cloud_control_pl.Control.Projection.Events.{
  Progressed, Completed, Failed, Resolved, WorkflowMessage,
}
use private_cloud_control_pl.Control.Projection.Steps.{
  instance_is, operation_is, instance_document_is, operation_document_is, Recovery, redrawn,
  recovered, write_documents, progressed_row, provisioning_row, progress_recovery,
  progressed_instance, progressed_operation, apply_progress, dead_letter_is,
}
use private_cloud_control_pl.Control.Projection.Endings.{
  needs_review, terminal_state, completed_rows, completed_operation_row, completed_instance,
  completed_operation, settle_snapshot, ended, failed_instance_row, failed_operation_row,
  failed_instance, failed_operation, apply_completed, apply_failed, is_owned_replay,
  apply_replay_resolved,
}

-- What `writeDocuments` makes of a database.
abbrev pub documented :
    WorkflowMessage → InstanceView → OperationView → Recovery → ControlDatabase → ControlDatabase
documented event instance operation recovery db = record db {
  instance_documents =
      update_rows (instance_document_is instance.id) (redrawn instance event.envelope.occurred_at)
        db.instance_documents;
  operation_documents =
      update_rows (operation_document_is operation.id) (recovered event operation recovery)
        db.operation_documents;
}

abbrev pub progressed_database :
    WorkflowMessage → Progressed → InstanceView → OperationView → ControlDatabase → ControlDatabase
progressed_database event progress instance operation db =
    documented event (progressed_instance event.envelope.occurred_at instance)
      (progressed_operation event progress operation) (progress_recovery progress)
      (record db {
        operations =
            update_rows (operation_is event.envelope.operation_id)
              (progressed_row event progress operation) db.operations;
        instances =
            update_rows (instance_is event.envelope.aggregate_id)
              (provisioning_row event.envelope.occurred_at) db.instances;
      })

abbrev pub completed_database :
    WorkflowMessage
    → Completed
    → InstanceRow
    → InstanceView
    → OperationView
    → ControlDatabase
    → ControlDatabase
completed_database event completed row instance operation db =
    documented event (completed_instance event completed row instance)
      (completed_operation event.envelope.occurred_at operation) (ended "completed")
      (settle_snapshot completed.action operation event.envelope.occurred_at (record db {
        instances = completed_rows event completed db;
        operations =
            update_rows (operation_is event.envelope.operation_id)
              (completed_operation_row event.envelope.occurred_at) db.operations;
      }))

abbrev pub failed_database :
    WorkflowMessage → Failed → InstanceView → OperationView → ControlDatabase → ControlDatabase
failed_database event failed instance operation db =
    documented event (failed_instance event.envelope.occurred_at (needs_review failed) instance)
      (failed_operation event.envelope.occurred_at (needs_review failed) failed.failure operation)
      (ended (terminal_state (needs_review failed)))
      (record db {
        instances =
            update_rows (instance_is event.envelope.aggregate_id)
              (failed_instance_row event.envelope.occurred_at (needs_review failed)) db.instances;
        operations =
            update_rows (operation_is event.envelope.operation_id)
              (failed_operation_row event.envelope.occurred_at (needs_review failed) failed.failure)
              db.operations;
      })

-- The documents that the event finds.
abbrev pub InstanceFound : WorkflowMessage → ControlDatabase → InstanceDocument → Type 0
InstanceFound event db d =
    find_row (instance_document_is event.envelope.aggregate_id) db.instance_documents ≡ some d

abbrev pub OperationFound : WorkflowMessage → ControlDatabase → OperationDocument → Type 0
OperationFound event db d =
    find_row (operation_document_is event.envelope.operation_id) db.operation_documents ≡ some d

module _ (P : ControlDatabase → Type 0) (strict : Bool) (event : WorkflowMessage) where
  write_documents-Ensures :
      (instance : InstanceView) (operation : OperationView) (recovery : Recovery)
      (db : ControlDatabase)
      → P (documented event instance operation recovery db)
      → Ensures P (write_documents strict event instance operation recovery db)
  write_documents-Ensures instance operation recovery db h =
      elim (Bool-cases
        (not strict || any (instance_document_is instance.id) db.instance_documents)) [
          | inr missing ↦ rw missing tt
          | inl there ↦
              elim (Bool-cases
                (not strict || any (operation_document_is operation.id) db.operation_documents)) [
                  | inr missing ↦ rw (there, missing) tt
                  | inl found ↦ rw (there, found) h
                ]
        ]

  module _ (db : ControlDatabase) where
    pub apply_progress-Ensures :
        (progress : Progressed)
        → ((i : InstanceDocument) (o : OperationDocument)
            → InstanceFound event db i
            → OperationFound event db o
            → P (progressed_database event progress i.document o.document db))
        → Ensures P (apply_progress strict event progress db)
    unfolding apply_progress
    apply_progress-Ensures progress h =
        elim (Option-cases
          (find_row (operation_document_is event.envelope.operation_id) db.operation_documents)) [
            | inl lost ↦ rw lost tt
            | inr (o, found) ↦
                elim (Option-cases (
                  find_row (instance_document_is event.envelope.aggregate_id)
                    db.instance_documents)) [
                      | inl lost ↦ rw (found, lost) tt
                      | inr (i, there) ↦
                          elim (Bool-cases (
                            not strict
                            || any (operation_is event.envelope.operation_id) db.operations)) [
                              | inr missing ↦ rw (found, there, missing) tt
                              | inl kept ↦
                                  elim (Bool-cases (
                                    not strict
                                    || any (instance_is event.envelope.aggregate_id)
                                        db.instances)) [
                                          | inr missing ↦ rw (found, there, kept, missing) tt
                                          | inl held ↦
                                              rw (found, there, kept, held)
                                                (write_documents-Ensures
                                                  (progressed_instance event.envelope.occurred_at
                                                    i.document)
                                                  (progressed_operation event progress o.document)
                                                  (progress_recovery progress) _
                                                  (h i o there found))
                                        ]
                            ]
                    ]
          ]

    pub apply_failed-Ensures :
        (failed : Failed)
        → ((i : InstanceDocument) (o : OperationDocument)
            → InstanceFound event db i
            → OperationFound event db o
            → P (failed_database event failed i.document o.document db))
        → Ensures P (apply_failed strict event failed db)
    unfolding apply_failed
    apply_failed-Ensures failed h =
        elim (Option-cases
          (find_row (instance_document_is event.envelope.aggregate_id) db.instance_documents)) [
            | inl lost ↦ rw lost tt
            | inr (i, there) ↦
                elim (Option-cases (
                  find_row (operation_document_is event.envelope.operation_id)
                    db.operation_documents)) [
                      | inl lost ↦ rw (there, lost) tt
                      | inr (o, found) ↦
                          elim (Bool-cases (
                            not strict
                            || any (instance_is event.envelope.aggregate_id) db.instances)) [
                              | inr missing ↦ rw (there, found, missing) tt
                              | inl held ↦
                                  elim (Bool-cases (
                                    not strict
                                    || any (operation_is event.envelope.operation_id)
                                        db.operations)) [
                                          | inr missing ↦ rw (there, found, held, missing) tt
                                          | inl kept ↦
                                              rw (there, found, held, kept)
                                                (write_documents-Ensures
                                                  (failed_instance event.envelope.occurred_at
                                                    (needs_review failed) i.document)
                                                  (failed_operation event.envelope.occurred_at
                                                    (needs_review failed) failed.failure o.document)
                                                  (ended (terminal_state (needs_review failed))) _
                                                  (h i o there found))
                                        ]
                            ]
                    ]
          ]

    pub apply_completed-Ensures :
        (completed : Completed)
        → ((i : InstanceDocument) (o : OperationDocument) (row : InstanceRow)
            → InstanceFound event db i
            → OperationFound event db o
            → find_row (instance_is event.envelope.aggregate_id) (completed_rows event completed db)
              ≡ some row
            → P (completed_database event completed row i.document o.document db))
        → Ensures P (apply_completed strict event completed db)
    unfolding apply_completed
    apply_completed-Ensures completed h =
        elim (Option-cases
          (find_row (instance_document_is event.envelope.aggregate_id) db.instance_documents)) [
            | inl lost ↦ rw lost tt
            | inr (i, there) ↦
                elim (Option-cases (
                  find_row (operation_document_is event.envelope.operation_id)
                    db.operation_documents)) [
                      | inl lost ↦ rw (there, lost) tt
                      | inr (o, found) ↦
                          elim (Option-cases (
                            find_row (instance_is event.envelope.aggregate_id)
                              (completed_rows event completed db))) [
                                | inl lost ↦ rw (there, found, lost) tt
                                | inr (row, held) ↦
                                    elim (Bool-cases (
                                      not strict
                                      || any (operation_is event.envelope.operation_id)
                                          db.operations)) [
                                            | inr missing ↦ rw (there, found, held, missing) tt
                                            | inl kept ↦
                                                rw (there, found, held, kept)
                                                  (write_documents-Ensures
                                                    (completed_instance event completed row
                                                      i.document)
                                                    (completed_operation event.envelope.occurred_at
                                                      o.document)
                                                    (ended "completed") _
                                                    (h i o row there found held))
                                          ]
                              ]
                    ]
          ]

-- What a replay decision leaves: the request's row, and a dead letter's if the replay completed.
abbrev pub decided_database : Bool → Resolved → ControlDatabase → ControlDatabase
decided_database strict resolved db = record db {
  replay_requests =
      update_rows (is_owned_replay strict resolved)
        (λ r. record r { status = resolved.outcome; updated_at = resolved.resolved_at })
        db.replay_requests;
}

module _ (P : ControlDatabase → Type 0) (strict : Bool) (resolved : Resolved)
    (db : ControlDatabase) where
  pub apply_replay_resolved-Ensures :
      P (decided_database strict resolved db)
      → ((letters : List DeadLetterDocument)
          → P (record (decided_database strict resolved db) { dead_letters = letters }))
      → Ensures P (apply_replay_resolved strict resolved db)
  unfolding apply_replay_resolved
  apply_replay_resolved-Ensures rejected closed =
      elim (Bool-cases (any (is_owned_replay strict resolved) db.replay_requests)) [
        | inr unowned ↦ rw unowned tt
        | inl owned ↦ elim (Bool-cases (str_eq resolved.outcome "completed")) [
          | inr other ↦ rw (owned, other) rejected
          | inl completed ↦
              elim (Option-cases
                (find_row (dead_letter_is resolved.original_event_id) db.dead_letters)) [
                  | inl lost ↦ rw (owned, completed, lost) tt
                  | inr (letter, found) ↦
                      elim (Bool-cases (
                        not strict
                        || any (dead_letter_is resolved.original_event_id) db.dead_letters)) [
                          | inr missing ↦ rw (owned, completed, found, missing) tt
                          | inl kept ↦ rw (owned, completed, found, kept) (closed _)
                        ]
                ]
        ]
      ]
