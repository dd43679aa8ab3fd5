-- ===== src/Control/Projection/Release.antt =====
-- packages/postgres-adapter/src/projection-store.ts: what a workflow event makes of its instance, and of
-- the others.
use private_cloud_control_pl.Prelude.{
  ◌≡◌, ◌≢◌, ℕ, String, Bool, Option, none, some, List, refl, sym, subst,
}
use mathlib.Core.Option
use private_cloud_control_pl.Store.Table.{find_row, update_rows}
use private_cloud_control_pl.Control.Keyed.{find-update_same, find-update_other}
use private_cloud_control_pl.Control.Rows.{
  InstanceRow, InstanceView, InstanceDocument, ControlDatabase,
}
use private_cloud_control_pl.Control.Transaction.{done, Ensures, Ensures-done}
use private_cloud_control_pl.Control.Projection.Events.{
  Completed, Failed, WorkflowPayload, WorkflowMessage,
}
use private_cloud_control_pl.Control.Projection.Steps.{
  instance_is, instance_document_is, operation_is, redrawn, provisioning_row, progressed_instance,
}
use private_cloud_control_pl.Control.Projection.Endings.{
  needs_review, terminal_state, completed_rows, completed_operation_row, completed_instance,
  completed_instance_row, observed_from_event, failed_instance, failed_instance_row,
}
use private_cloud_control_pl.Control.Projection.Outcomes.{
  apply_progress-Ensures, apply_completed-Ensures, apply_failed-Ensures,
  apply_replay_resolved-Ensures,
}
use private_cloud_control_pl.Control.Projection.Apply.{apply_event}
use private_cloud_control_pl.Control.Projection.Agreement.Kept.{settle_snapshot-tables}

-- Every document of an instance stands under its own identifier.
abbrev pub InstancesNamed : ControlDatabase → Type 0
InstancesNamed db =
    (id : ℕ) (d : InstanceDocument)
    → find_row (instance_document_is id) db.instance_documents ≡ some d
    → d.document.id ≡ id

-- An instance's row and document after an event: the lifecycle state that both show, and whether the
-- operation was released.
abbrev pub RowShows : String → Option InstanceRow → Type 0
RowShows state none = Unit
RowShows state (some r) = (r.lifecycle_state ≡ state) × (r.active_operation_id ≡ none)

abbrev pub DocumentShows : String → Option InstanceDocument → Type 0
DocumentShows state none = ⊥
DocumentShows state (some d) =
    (d.document.lifecycle_state ≡ state) × (d.document.active_operation_id ≡ none)

abbrev pub IsReleased : String → ℕ → ControlDatabase → Type 0
IsReleased state id db =
    RowShows state (find_row (instance_is id) db.instances)
    × DocumentShows state (find_row (instance_document_is id) db.instance_documents)

module _ (target : ℕ) (f : InstanceRow → InstanceRow) (view : InstanceView) (at : ℕ)
    (db : ControlDatabase) where
  -- What the two updates of an instance make of the rows that are found.
  abbrev pub after_rows : List InstanceRow
  after_rows = update_rows (instance_is target) f db.instances

  abbrev pub after_documents : List InstanceDocument
  after_documents =
      update_rows (instance_document_is view.id) (redrawn view at) db.instance_documents

  released :
      (state : String) (d : InstanceDocument)
      → ((r : InstanceRow) → (f r).id ≡ r.id)
      → view.id ≡ target
      → find_row (instance_document_is target) db.instance_documents ≡ some d
      → ((r : InstanceRow) → ((f r).lifecycle_state ≡ state) × ((f r).active_operation_id ≡ none))
      → (view.lifecycle_state ≡ state) × (view.active_operation_id ≡ none)
      → RowShows state (find_row (instance_is target) after_rows)
        × DocumentShows state (find_row (instance_document_is target) after_documents)
  released state d keep named found row document = (
    rw (find-update_same (λ (r : InstanceRow). r.id) target f db.instances keep)
        (by_row (find_row (instance_is target) db.instances)),
    subst
        (λ k. DocumentShows state (
          find_row (instance_document_is target)
            (update_rows (instance_document_is k) (redrawn view at) db.instance_documents)))
        (sym named)
        (rw
          (
            find-update_same (λ (r : InstanceDocument). r.instance_id) target (redrawn view at)
                db.instance_documents (λ r. refl),
            found,
          )
          document),
  )
    where
      by_row : (o : Option InstanceRow) → RowShows state (Option.map f o)
      by_row none = tt
      by_row (some r) = row r

  untouched :
      (id : ℕ)
      → ((r : InstanceRow) → (f r).id ≡ r.id)
      → view.id ≡ target
      → target ≢ id
      → (find_row (instance_is id) after_rows ≡ find_row (instance_is id) db.instances)
        × (find_row (instance_document_is id) after_documents
            ≡ find_row (instance_document_is id) db.instance_documents)
  untouched id keep named apart = (
    find-update_other (λ (r : InstanceRow). r.id) id target f db.instances keep apart,
    subst
        (λ k.
          find_row (instance_document_is id)
            (update_rows (instance_document_is k) (redrawn view at) db.instance_documents)
          ≡ find_row (instance_document_is id) db.instance_documents)
        (sym named)
        (find-update_other (λ (r : InstanceDocument). r.instance_id) id target (redrawn view at)
          db.instance_documents (λ r. refl) apart),
  )

-- The lifecycle state that a terminal event announces.
abbrev pub announced : WorkflowPayload → Option String
announced (WorkflowPayload.completed c) = some c.lifecycle_state
announced (WorkflowPayload.failed f) = some (terminal_state (needs_review f))
announced _ = none

module _ (strict : Bool) (event : WorkflowMessage) (db : ControlDatabase)
    (named : InstancesNamed db) where
  completed_IsReleased :
      (c : Completed)
      → Ensures
          (IsReleased c.lifecycle_state event.envelope.aggregate_id)
          (apply_event strict event (WorkflowPayload.completed c) db)
  unfolding apply_event
  completed_IsReleased c =
      apply_completed-Ensures (IsReleased c.lifecycle_state event.envelope.aggregate_id) strict
        event db c
        λ i o row there found held.
          let (_, _, instances, documents, _) =
            settle_snapshot-tables c.action o.document event.envelope.occurred_at (record db {
              instances = completed_rows event c db;
              operations =
                  update_rows (operation_is event.envelope.operation_id)
                    (completed_operation_row event.envelope.occurred_at) db.operations;
            }) in
          rw (instances, documents)
            (released event.envelope.aggregate_id
              (completed_instance_row event.envelope.occurred_at c.lifecycle_state
                (observed_from_event c.observed event.envelope.occurred_at))
              (completed_instance event c row i.document) event.envelope.occurred_at db
              c.lifecycle_state i (λ r. refl) (named event.envelope.aggregate_id i there) there
              (λ r. (refl, refl)) (refl, refl))

  failed_IsReleased :
      (f : Failed)
      → Ensures
          (IsReleased (terminal_state (needs_review f)) event.envelope.aggregate_id)
          (apply_event strict event (WorkflowPayload.failed f) db)
  unfolding apply_event
  failed_IsReleased f =
      apply_failed-Ensures
        (IsReleased (terminal_state (needs_review f)) event.envelope.aggregate_id) strict event db f
        λ i o there found.
          released event.envelope.aggregate_id
            (failed_instance_row event.envelope.occurred_at (needs_review f))
            (failed_instance event.envelope.occurred_at (needs_review f) i.document)
            event.envelope.occurred_at db (terminal_state (needs_review f)) i (λ r. refl)
            (named event.envelope.aggregate_id i there) there (λ r. (refl, refl)) (refl, refl)

-- A terminal event that is applied leaves its instance with the lifecycle state that it announces and
-- with no active operation, in the document and in the row if there is one; a failure announces review
-- where its category is an unknown outcome or a review or its compensation is unsafe.
pub apply_event-IsReleased :
    (strict : Bool) (event : WorkflowMessage) (payload : WorkflowPayload)
    (db after : ControlDatabase) (state : String)
    → InstancesNamed db
    → announced payload ≡ some state
    → apply_event strict event payload db ≡ done after
    → IsReleased state event.envelope.aggregate_id after
apply_event-IsReleased strict event (WorkflowPayload.completed c) db after state named says e =
    let same : c.lifecycle_state ≡ state = cc in
    subst (λ s. IsReleased s event.envelope.aggregate_id after) same
      (Ensures-done (IsReleased c.lifecycle_state event.envelope.aggregate_id)
        (apply_event strict event (WorkflowPayload.completed c) db) after
        (completed_IsReleased strict event db named c) e)
apply_event-IsReleased strict event (WorkflowPayload.failed f) db after state named says e =
    let same : terminal_state (needs_review f) ≡ state = cc in
    subst (λ s. IsReleased s event.envelope.aggregate_id after) same
      (Ensures-done (IsReleased (terminal_state (needs_review f)) event.envelope.aggregate_id)
        (apply_event strict event (WorkflowPayload.failed f) db) after
        (failed_IsReleased strict event db named f) e)
apply_event-IsReleased strict event (WorkflowPayload.progressed p) db after state named says e = cc
apply_event-IsReleased strict event (WorkflowPayload.resolved r) db after state named says e = cc
apply_event-IsReleased strict event (WorkflowPayload.unsupported n) db after state named says e = cc

-- What an event about another instance leaves of an instance.
abbrev pub IsUntouched : ℕ → ControlDatabase → ControlDatabase → Type 0
IsUntouched id db after =
    (find_row (instance_is id) after.instances ≡ find_row (instance_is id) db.instances)
    × (find_row (instance_document_is id) after.instance_documents
        ≡ find_row (instance_document_is id) db.instance_documents)

module _ (strict : Bool) (event : WorkflowMessage) (db : ControlDatabase)
    (named : InstancesNamed db) (id : ℕ) (apart : event.envelope.aggregate_id ≢ id) where
  others_stay :
      (payload : WorkflowPayload)
      → Ensures (IsUntouched id db) (apply_event strict event payload db)
  unfolding apply_event
  others_stay (WorkflowPayload.progressed p) =
      apply_progress-Ensures (IsUntouched id db) strict event db p λ i o there found.
        untouched event.envelope.aggregate_id (provisioning_row event.envelope.occurred_at)
          (progressed_instance event.envelope.occurred_at i.document) event.envelope.occurred_at db
          id (λ r. refl) (named event.envelope.aggregate_id i there) apart
  others_stay (WorkflowPayload.completed c) =
      apply_completed-Ensures (IsUntouched id db) strict event db c λ i o row there found held.
        let (_, _, instances, documents, _) =
          settle_snapshot-tables c.action o.document event.envelope.occurred_at (record db {
            instances = completed_rows event c db;
            operations =
                update_rows (operation_is event.envelope.operation_id)
                  (completed_operation_row event.envelope.occurred_at) db.operations;
          }) in
        rw (instances, documents)
          (untouched event.envelope.aggregate_id
            (completed_instance_row event.envelope.occurred_at c.lifecycle_state
              (observed_from_event c.observed event.envelope.occurred_at))
            (completed_instance event c row i.document) event.envelope.occurred_at db id (λ r. refl)
            (named event.envelope.aggregate_id i there) apart)
  others_stay (WorkflowPayload.failed f) =
      apply_failed-Ensures (IsUntouched id db) strict event db f λ i o there found.
        untouched event.envelope.aggregate_id
          (failed_instance_row event.envelope.occurred_at (needs_review f))
          (failed_instance event.envelope.occurred_at (needs_review f) i.document)
          event.envelope.occurred_at db id (λ r. refl) (named event.envelope.aggregate_id i there)
          apart
  others_stay (WorkflowPayload.resolved r) =
      apply_replay_resolved-Ensures (IsUntouched id db) strict r db (refl, refl)
        (λ letters. (refl, refl))
  others_stay (WorkflowPayload.unsupported name) = tt

-- A workflow event changes neither the row nor the document of any instance but its own.
pub apply_event-IsUntouched :
    (strict : Bool) (event : WorkflowMessage) (payload : WorkflowPayload)
    (db after : ControlDatabase) (id : ℕ)
    → InstancesNamed db
    → event.envelope.aggregate_id ≢ id
    → apply_event strict event payload db ≡ done after
    → IsUntouched id db after
apply_event-IsUntouched strict event payload db after id named apart =
    Ensures-done (IsUntouched id db) (apply_event strict event payload db) after
      (others_stay strict event db named id apart payload)
