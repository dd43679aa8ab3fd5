-- ===== src/Control/Projection/Snapshots.antt =====
-- packages/postgres-adapter/src/projection-store.ts: the snapshot that an operation acts on.
use private_cloud_control_pl.Prelude.{
  ◌≡◌, ℕ, String, str_eq, str_eq_iff, Bool, Option, none, some, List, [], ◌∷◌, refl, subst, inl,
  inr, Bool-cases, if◌then◌else◌,
}
use mathlib.Core.Option
use private_cloud_control_pl.Store.Table.{find_row, update_rows}
use private_cloud_control_pl.Control.Keyed.{find-update_same}
use private_cloud_control_pl.Control.Rows.{
  SnapshotRow, SnapshotDocument, OperationView, OperationDocument, ControlDatabase,
}
use private_cloud_control_pl.Control.Transaction.{done, Ensures-done}
use private_cloud_control_pl.Control.Projection.Events.{Completed, Failed, WorkflowMessage}
use private_cloud_control_pl.Control.Projection.Steps.{
  snapshot_is, snapshot_document_is, operation_is,
}
use private_cloud_control_pl.Control.Projection.Endings.{
  delete_rows, snapshot_document, settled, settle_snapshot, completed_rows, completed_operation_row,
  apply_completed, apply_failed,
}
use private_cloud_control_pl.Control.Projection.Outcomes.{
  OperationFound, apply_completed-Ensures, apply_failed-Ensures,
}

find-delete {ℓ} :
    {R : Type ℓ} (p : R → Bool) (rows : List R) → find_row p (delete_rows p rows) ≡ none
unfolding find_row delete_rows
find-delete p [] = refl
find-delete p (r ∷ rows) = elim (Bool-cases (p r)) [
  | inl here ↦ rw here (find-delete p rows)
  | inr other ↦ rw (other, other) (find-delete p rows)
]

-- The document of a snapshot is drawn from its row.
abbrev pub IsDrawn : ℕ → SnapshotRow → Option SnapshotDocument → Type 0
IsDrawn at row none = Unit
IsDrawn at row (some d) = d.document ≡ snapshot_document at row

abbrev pub IsUsable : ℕ → Option SnapshotRow → Option SnapshotDocument → Type 0
IsUsable at none document = Unit
IsUsable at (some row) document = (row.state ≡ "available") × IsDrawn at row document

abbrev pub IsGone : Option SnapshotRow → Option SnapshotDocument → Type 0
IsGone row document = (row ≡ none) × (document ≡ none)

-- What a completed action makes of the snapshot that its operation names.
abbrev pub IsSettled : String → ℕ → ℕ → ControlDatabase → Type 0
IsSettled action at snapshot_id db =
    if str_eq action "delete_snapshot"
    then IsGone (find_row (snapshot_is snapshot_id) db.snapshots)
        (find_row (snapshot_document_is snapshot_id) db.snapshot_documents)
    else IsUsable at (find_row (snapshot_is snapshot_id) db.snapshots)
        (find_row (snapshot_document_is snapshot_id) db.snapshot_documents)

abbrev available : ℕ → SnapshotRow → SnapshotRow
available at row = record row { state = "available"; updated_at = at }

settled-IsUsable :
    (at snapshot_id : ℕ) (db : ControlDatabase) (row : Option SnapshotRow)
    → find_row
        (snapshot_is snapshot_id)
        (update_rows (snapshot_is snapshot_id) (available at) db.snapshots)
      ≡ Option.map (available at) row
    → IsUsable at
        (find_row
          (snapshot_is snapshot_id)
          (settled at snapshot_id
            (update_rows (snapshot_is snapshot_id) (available at) db.snapshots)
            db
            (Option.map (available at) row)).snapshots)
        (find_row
          (snapshot_document_is snapshot_id)
          (settled at snapshot_id
            (update_rows (snapshot_is snapshot_id) (available at) db.snapshots)
            db
            (Option.map (available at) row)).snapshot_documents)
settled-IsUsable at snapshot_id db none e = rw e tt
settled-IsUsable at snapshot_id db (some row) e = rw e (refl, drawn)
  where
    redrawn : SnapshotDocument → SnapshotDocument
    redrawn r = record r { document = snapshot_document at (available at row); updated_at = at }

    by_document :
        (o : Option SnapshotDocument) → IsDrawn at (available at row) (Option.map redrawn o)
    by_document none = tt
    by_document (some d) = refl

    drawn : IsDrawn at (available at row) (
        find_row
          (snapshot_document_is snapshot_id)
          (update_rows (snapshot_document_is snapshot_id) redrawn db.snapshot_documents))
    drawn =
        rw
          (find-update_same (λ (r : SnapshotDocument). r.snapshot_id) snapshot_id redrawn
            db.snapshot_documents (λ r. refl))
          (by_document (find_row (snapshot_document_is snapshot_id) db.snapshot_documents))

settle_snapshot-IsSettled :
    (action : String) (operation : OperationView) (at : ℕ) (db : ControlDatabase)
    → operation.target_type ≡ "snapshot"
    → IsSettled action at operation.target_id (settle_snapshot action operation at db)
unfolding settle_snapshot
settle_snapshot-IsSettled action operation at db kind =
    let snapshot = (str_eq_iff operation.target_type "snapshot").1 kind in
    elim (Bool-cases (str_eq action "delete_snapshot")) [
      | inl deletes ↦
          rw (snapshot, deletes)
            (
              find-delete (snapshot_is operation.target_id) db.snapshots,
              find-delete (snapshot_document_is operation.target_id) db.snapshot_documents,
            )
      | inr keeps ↦
          let found =
            find-update_same (λ (r : SnapshotRow). r.id) operation.target_id (available at)
              db.snapshots (λ r. refl) in
          rw (snapshot, keeps, found)
            (settled-IsUsable at operation.target_id db
              (find_row (snapshot_is operation.target_id) db.snapshots) found)
    ]

-- After a completed event whose operation targets a snapshot, a deletion has left neither a row nor a
-- document of it; after any other action a row that is there is available, and its document is drawn
-- from it.
pub apply_completed-IsSettled :
    (strict : Bool) (event : WorkflowMessage) (completed : Completed) (db after : ControlDatabase)
    (operation : OperationDocument)
    → OperationFound event db operation
    → operation.document.target_type ≡ "snapshot"
    → apply_completed strict event completed db ≡ done after
    → IsSettled completed.action event.envelope.occurred_at operation.document.target_id after
apply_completed-IsSettled strict event completed db after operation found kind =
    Ensures-done
      (IsSettled completed.action event.envelope.occurred_at operation.document.target_id)
      (apply_completed strict event completed db) after
      (apply_completed-Ensures
        (IsSettled completed.action event.envelope.occurred_at operation.document.target_id) strict
        event db completed
        λ i o row there again held.
          let same : operation ≡ o = cc in
          subst
            (λ (d : OperationDocument).
              IsSettled completed.action event.envelope.occurred_at operation.document.target_id (
                settle_snapshot completed.action d.document event.envelope.occurred_at (record db {
                  instances = completed_rows event completed db;
                  operations =
                      update_rows (operation_is event.envelope.operation_id)
                        (completed_operation_row event.envelope.occurred_at) db.operations;
                })))
            same
            (settle_snapshot-IsSettled completed.action operation.document
              event.envelope.occurred_at _ kind))

-- A failed event leaves every snapshot as it was, also the one that its operation was to create.
pub apply_failed-snapshots :
    (strict : Bool) (event : WorkflowMessage) (failed : Failed) (db after : ControlDatabase)
    → apply_failed strict event failed db ≡ done after
    → (after.snapshots ≡ db.snapshots) × (after.snapshot_documents ≡ db.snapshot_documents)
apply_failed-snapshots strict event failed db after =
    Ensures-done
      (λ d. (d.snapshots ≡ db.snapshots) × (d.snapshot_documents ≡ db.snapshot_documents))
      (apply_failed strict event failed db) after
      (apply_failed-Ensures
        (λ d. (d.snapshots ≡ db.snapshots) × (d.snapshot_documents ≡ db.snapshot_documents)) strict
        event db failed λ i o there found. (refl, refl))
