-- ===== src/Control/Projection/Agreement.antt =====
-- packages/postgres-adapter/src/projection-store.ts: the operation that a client reads is the one that
-- the control API holds.
pub mod Kept
use private_cloud_control_pl.Prelude.{
  ◌≡◌, ◌≢◌, ℕ, ◌-◌, ◌==◌, String, Bool, true, false, Option, none, some, List, nullish, refl, sym,
  ◌∙◌, ap, subst, inl, inr, Bool-cases, arith,
}
use mathlib.Core.Option
use private_cloud_control_pl.Store.Table.{find_row, update_rows}
use private_cloud_control_pl.Control.Keyed.{keyed, find-update_same, find-update_other}
use private_cloud_control_pl.Control.Rows.{
  OperationRow, OperationView, OperationDocument, ControlDatabase,
}
use private_cloud_control_pl.Control.Transaction.{
  Tried, done, threw, ◌>>=◌, or_throw, update_or_throw, Ensures, Ensures-or_throw, Ensures-update,
}
use private_cloud_control_pl.Control.Projection.Events.{
  Progressed, Completed, Failed, Resolved, WorkflowMessage,
}
use private_cloud_control_pl.Control.Projection.Steps.{
  operation_is, operation_document_is, instance_document_is, Recovery, recovered,
  progressed_operation, apply_progress,
}

-- The columns of a row and the fields of a document that say the same.
pub record SameOperation (row : OperationRow) (view : OperationView) : Type 0 where
  pub state : view.state ≡ row.state
  pub stage : view.stage ≡ row.stage
  pub progress_percent : view.progress_percent ≡ row.progress_percent
  pub started_at : view.started_at ≡ row.started_at
  pub completed_at : view.completed_at ≡ row.completed_at
  pub error_category : view.error_category ≡ row.error_category
  pub error_code : view.error_code ≡ row.error_code
  pub error_message : view.error_message ≡ row.error_message
  pub manual_review_required : view.manual_review_required ≡ row.manual_review_required

abbrev pub SameIfThere : Option OperationRow → OperationView → Type 0
SameIfThere none view = Unit
SameIfThere (some row) view = SameOperation row view

-- A document stands under its own identifier, and says what the row of the operation says.
abbrev pub IsFaithful : ℕ → Option OperationRow → Option OperationDocument → Type 0
IsFaithful id row none = Unit
IsFaithful id row (some d) = (d.document.id ≡ id) × SameIfThere row d.document

abbrev pub AllFaithful : List OperationRow → List OperationDocument → Type 0
AllFaithful rows documents =
    (id : ℕ)
    → IsFaithful id (find_row (operation_is id) rows)
        (find_row (operation_document_is id) documents)

abbrev pub OperationsAgree : ControlDatabase → Type 0
OperationsAgree db = AllFaithful db.operations db.operation_documents

-- A change of an operation's row and document that keeps them the same keeps all of them the same.
module _ (event : WorkflowMessage) (recovery : Recovery) (target : ℕ)
    (f : OperationRow → OperationRow) (view : OperationView) (rows : List OperationRow)
    (documents : List OperationDocument) where
  pub update-AllFaithful :
      (d : OperationDocument)
      → find_row (operation_document_is target) documents ≡ some d
      → ((r : OperationRow) → (f r).id ≡ r.id)
      → (d.document.id ≡ target → view.id ≡ target)
      → ((r : OperationRow) → SameOperation r d.document → SameOperation (f r) view)
      → AllFaithful rows documents
      → AllFaithful
          (update_rows (operation_is target) f rows)
          (update_rows (operation_document_is view.id) (recovered event view recovery) documents)
  update-AllFaithful d found keep same_id same faithful =
      let here : (d.document.id ≡ target)
          × SameIfThere (find_row (operation_is target) rows) d.document =
        subst (IsFaithful target (find_row (operation_is target) rows)) found (faithful target) in
      let names : view.id ≡ target = same_id here.0 in
      subst
        (λ k.
          AllFaithful (update_rows (operation_is target) f rows)
            (update_rows (operation_document_is k) (recovered event view recovery) documents))
        (sym names)
        (λ id. elim (Bool-cases (target == id)) [
          | inl equal ↦
              subst
                (λ k.
                  IsFaithful k
                    (find_row (operation_is k) (update_rows (operation_is target) f rows))
                    (find_row (operation_document_is k) (
                      update_rows (operation_document_is target) (recovered event view recovery)
                        documents)))
                (equal_keys id equal)
                (rw
                  (
                    find-update_same (λ (r : OperationRow). r.id) target f rows keep,
                    find-update_same (λ (r : OperationDocument). r.operation_id) target
                        (recovered event view recovery) documents (λ r. refl),
                    found,
                  )
                  (names, moved (find_row (operation_is target) rows) here.1))
          | inr differs ↦
              rw
                (
                  find-update_other (λ (r : OperationRow). r.id) id target f rows keep
                      (apart id differs),
                  find-update_other (λ (r : OperationDocument). r.operation_id) id target
                      (recovered event view recovery) documents (λ r. refl) (apart id differs),
                )
                (faithful id)
        ])
    where
      moved :
          (row : Option OperationRow)
          → SameIfThere row d.document
          → SameIfThere (Option.map f row) view
      moved none h = tt
      moved (some r) h = same r h

      equal_keys : (id : ℕ) → (target == id) ≡ true → target ≡ id
      equal_keys id e = ground arith

      apart : (id : ℕ) → (target == id) ≡ false → target ≢ id
      apart id e = ground arith
