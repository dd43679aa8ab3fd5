-- ===== src/Store/Idempotence.antt =====
-- A command that was admitted is not admitted again: a second delivery of its generation is a
-- duplicate.
use private_cloud_control_pl.Prelude.{
  ◌≡◌, ◌≢◌, ℕ, ◌==◌, ==_iff, Bool, true, false, Option, none, some, List, ◌∷◌, any, inl, inr, refl,
  sym, ap, ◌∙◌, subst, arith, Bool-cases,
}
use private_cloud_control_pl.Workflow.Stage.{WorkflowAction}
use private_cloud_control_pl.Workflow.Step.{Command, ok}
use private_cloud_control_pl.Store.Table.{find_row}
use private_cloud_control_pl.Store.Rows.{WorkflowRow, Delivery, ReceiptRow, ReplayRequest, Database}
use private_cloud_control_pl.Store.Lease.{find_workflow}
use private_cloud_control_pl.Store.Inbox.{
  accepted, duplicate, of_receipt_key, insert_receipt, or_unchanged, inherited_resource, new_row,
}
use private_cloud_control_pl.Store.Admission.{
  LifecycleCommand, with_action, inserted_original, original_receipt, admit_unless_known,
  admit_original_delivery, admit_authorized_replay, admit_command,
}
use private_cloud_control_pl.Store.Replay.{admit_command-Reopened, admitted_workflows}

==_refl : (a : ℕ) → (a == a) ≡ true
==_refl a = ground arith

==_zero : (a : ℕ) → a ≢ 0 → (a == 0) ≡ false
==_zero a n = ground arith

module _ {A : Type 0} (hash : Command A → ℕ) (input : LifecycleCommand A) (delivery : Delivery)
    (now : ℕ) (db after : Database A) where
  -- An admission has a row for the operation.
  abbrev Known : Type 0
  Known =
      (row : WorkflowRow A) × (find_workflow input.command.envelope.operation_id after.workflows
        ≡ some row)

  inserted_action-Known :
      (receipts : List ReceiptRow) (action : Option WorkflowAction)
      → with_action action (λ a. ok (
        accepted,
        record db {
          receipts = receipts;
          workflows =
              new_row a input.command delivery
                (inherited_resource a input.command.envelope.aggregate_id db.workflows)
                now
              ∷ db.workflows;
        },
      ))
        ≡ ok (accepted, after)
      → Known
  unfolding find_row
  inserted_action-Known receipts none h = cc
  inserted_action-Known receipts (some a) h =
      let row =
        new_row a input.command delivery
          (inherited_resource a input.command.envelope.aggregate_id db.workflows) now in
      let rows : row ∷ db.workflows ≡ after.workflows = ap admitted_workflows h in
      (
        row,
        subst (λ l. find_workflow input.command.envelope.operation_id l ≡ some row) rows
            (rw (==_refl input.command.envelope.operation_id) refl),
      )

  inserted_original-Known :
      (receipts : Option (List ReceiptRow))
      → inserted_original hash input delivery now db receipts ≡ ok (accepted, after)
      → Known
  inserted_original-Known none h = cc
  inserted_original-Known (some receipts) h = inserted_action-Known receipts input.schema_action h

  admit_unless_known-Known :
      (found : Option (WorkflowRow A))
      → admit_unless_known hash input delivery now db found ≡ ok (accepted, after)
      → Known
  admit_unless_known-Known (some row) h = cc
  admit_unless_known-Known none h =
      inserted_original-Known (original_receipt hash input delivery none now db) h

  abbrev receipt_row : ReceiptRow
  receipt_row = record {
    event_id = input.command.envelope.event_id;
    delivery = delivery;
    payload_hash = hash input.command;
    received_at = now;
    completed_at = none;
  }

  -- A receipt that is inserted is found, with its hash.
  inserted_receipt :
      (g : ℕ)
      → g ≡ delivery.replay_generation
      → original_receipt hash input delivery none now db ≡ some after.receipts
      → (r : ReceiptRow) × (find_row
            (of_receipt_key input.command.envelope.event_id g)
            after.receipts
          ≡ some r)
        × (r.payload_hash ≡ hash input.command)
  unfolding insert_receipt find_row
  inserted_receipt g same h =
      let event = input.command.envelope.event_id in
      let key = delivery.replay_generation in
      elim (Bool-cases (any (of_receipt_key event key) db.receipts)) [
        | inl e ↦ cc (rw e at h)
        | inr e ↦
            let made : some (receipt_row ∷ db.receipts) ≡ some after.receipts = rw e at h in
            let rows : receipt_row ∷ db.receipts ≡ after.receipts = cc in
            (
              receipt_row,
              subst (λ l. find_row (of_receipt_key event g) l ≡ some receipt_row) rows
                  (rw (same, ==_refl event, ==_refl key) refl),
              refl,
            )
      ]

module _ {A : Type 0} (strict : Bool) (valid_request : ReplayRequest → Bool) (hash : Command A → ℕ)
    (input : LifecycleCommand A) where
  -- The second delivery of a command is a duplicate, and leaves the workflows as they were.
  abbrev pub IsDuplicate : Delivery → ℕ → Database A → Type 0
  IsDuplicate again later after =
      (result : Database A) × (admit_command strict valid_request hash input again later after
        ≡ ok (duplicate, result))
      × (result.workflows ≡ after.workflows)

  known_again :
      (again : Delivery) (later : ℕ) (after : Database A)
      → again.replay_generation ≡ 0
      → ((row : WorkflowRow A) × (find_workflow input.command.envelope.operation_id after.workflows
            ≡ some row))
      → IsDuplicate again later after
  unfolding admit_command admit_original_delivery
  known_again again later after zero_generation (row, found) = (
    record after {
      receipts =
          or_unchanged after.receipts (original_receipt hash input again (some later) later after);
    },
    rw (zero_generation, found) refl,
    refl,
  )

  received_again :
      (again : Delivery) (later : ℕ) (after : Database A)
      → again.replay_generation ≢ 0
      → ((r : ReceiptRow) × (find_row
              (of_receipt_key input.command.envelope.event_id again.replay_generation)
              after.receipts
            ≡ some r)
          × (r.payload_hash ≡ hash input.command))
      → IsDuplicate again later after
  unfolding admit_command admit_authorized_replay
  received_again again later after n (r, found, same) = (
    after,
    rw (==_zero again.replay_generation n, found, same, ==_refl (hash input.command)) refl,
    refl,
  )

  -- Where a delivery of a command was accepted, original or replayed, a second delivery of the same
  -- generation is a duplicate, and leaves the workflows as they were.
  pub admit_command-IsDuplicate :
      (delivery again : Delivery) (now later : ℕ) (db after : Database A)
      → again.replay_generation ≡ delivery.replay_generation
      → admit_command strict valid_request hash input delivery now db ≡ ok (accepted, after)
      → IsDuplicate again later after
  unfolding admit_command
  admit_command-IsDuplicate delivery again now later db after same h =
      elim (Bool-cases (delivery.replay_generation == 0)) [
        | inl original ↦
            known_again again later after (same ∙ (==_iff delivery.replay_generation 0).0 original)
              (admit_unless_known-Known hash input delivery now db after
                (find_workflow input.command.envelope.operation_id db.workflows)
                (unfold admit_original_delivery in (rw original at h)))
        | inr replay ↦
            received_again again later after
              (λ e. absurd (not_zero delivery.replay_generation replay (sym same ∙ e)))
              (inserted_receipt hash input delivery now db after again.replay_generation same
                (admit_command-Reopened strict valid_request hash input delivery now db after
                  (not_zero delivery.replay_generation replay) h).receipt)
      ]
    where
      not_zero : (g : ℕ) → (g == 0) ≡ false → g ≢ 0
      not_zero g e z = ground arith
