-- ===== src/Store/Fencing/Arrivals.antt =====
-- What the admission of a command leaves of the fence: the leases, and the instance of every operation
-- that is known.
use private_cloud_control_pl.Prelude.{
  ◌≡◌, ℕ, ◌==◌, ◌||◌, ◌&&◌, not, any, Bool, true, Option, none, some, List, ◌∷◌, inl, inr, refl,
  ◌∙◌, subst, arith, Bool-cases,
}
use private_cloud_control_pl.Workflow.Stage.{WorkflowAction}
use private_cloud_control_pl.Workflow.Step.{Command, Result, ok, raise}
use private_cloud_control_pl.Store.Table.{find_row}
use private_cloud_control_pl.Store.Rows.{
  WorkflowRow, Delivery, ReceiptRow, ReplayRequest, ReplayRequestRow, Database,
}
use private_cloud_control_pl.Store.Lease.{of_operation, find_workflow}
use private_cloud_control_pl.Store.Inbox.{
  CommandRejectionCode, of_receipt_key, authorizes, of_replay, inherited_resource, new_row,
  restarted_row,
}
use private_cloud_control_pl.Store.Admission.{
  LifecycleCommand, with_action, inserted_original, original_receipt, admit_unless_known,
  admit_original_delivery, reject_replay, conflicts, of_requested_replay, of_authorized_request,
  restarted, action_to_insert, reopen, received_replay, authorized_replay, checked_replay,
  replay_unless_received, admit_authorized_replay, admit_command,
}
use private_cloud_control_pl.Store.Fencing.{row_instance, instance_of}
use private_cloud_control_pl.Store.Fencing.Holder.{edited-instance_of}

module _ {A : Type 0} where
  -- The leases stay, and so does the instance of every operation that had one.
  abbrev pub IsFenced : Database A → Database A → Type 0
  IsFenced db after =
      (after.leases ≡ db.leases)
      × ((operation i : ℕ)
          → instance_of operation db ≡ some i
          → instance_of operation after ≡ some i)

  -- The same of a result that carries a database.
  abbrev pub Fenced : {R : Type 0} → Database A → Result (R × Database A) → Type 0
  Fenced db (ok (answer, after)) = IsFenced db after
  Fenced db (raise e) = Unit

  pub Fenced-ok :
      {R : Type 0} (db after : Database A) (result : Result (R × Database A)) (answer : R)
      → Fenced db result
      → result ≡ ok (answer, after)
      → IsFenced db after
  Fenced-ok db after result answer h e = subst (Fenced db) e h

  -- A workflow that is inserted for an operation without one.
  inserted-instance_of :
      (row : WorkflowRow A) (rows : List (WorkflowRow A)) (operation i : ℕ)
      → find_workflow row.operation_id rows ≡ none
      → row_instance (find_workflow operation rows) ≡ some i
      → row_instance (find_workflow operation (row ∷ rows)) ≡ some i
  unfolding find_row
  inserted-instance_of row rows operation i absent known =
      elim (Bool-cases (row.operation_id == operation)) [
        | inr other ↦ rw other known
        | inl here ↦
            let same : row.operation_id ≡ operation = equal row.operation_id operation here in
            let none_there : find_workflow operation rows ≡ none =
              subst (λ n. find_workflow n rows ≡ none) same absent in
            cc
      ]
    where
      equal : (a b : ℕ) → (a == b) ≡ true → a ≡ b
      equal a b h = ground arith

module _ {A : Type 0} (hash : Command A → ℕ) (input : LifecycleCommand A) (delivery : Delivery)
    (now : ℕ) (db : Database A) where
  inserted_original-Fenced :
      (o : Option (List ReceiptRow))
      → find_workflow input.command.envelope.operation_id db.workflows ≡ none
      → Fenced db (inserted_original hash input delivery now db o)
  inserted_original-Fenced none absent = (refl, λ operation i h. h)
  inserted_original-Fenced (some receipts) absent = by_action input.schema_action
    where
      by_action :
          (o : Option WorkflowAction)
          → Fenced db (
              inserted_original hash
                (record input { schema_action = o })
                delivery
                now
                db
                (some receipts))
      by_action none = tt
      by_action (some action) = (
        refl,
        λ operation i h.
            inserted-instance_of
              (new_row action input.command delivery
                (inherited_resource action input.command.envelope.aggregate_id db.workflows) now)
              db.workflows operation i absent h,
      )

  original-Fenced :
      (o : Option (WorkflowRow A))
      → find_workflow input.command.envelope.operation_id db.workflows ≡ o
      → Fenced db (admit_unless_known hash input delivery now db o)
  original-Fenced (some row) found = (refl, λ operation i h. h)
  original-Fenced none absent =
      inserted_original-Fenced (original_receipt hash input delivery none now db) absent

-- A replayed delivery, in the order of its tests.
module _ {A : Type 0} (strict : Bool) (valid_request : ReplayRequest → Bool) (hash : Command A → ℕ)
    (input : LifecycleCommand A) (delivery : Delivery) (now : ℕ) (db : Database A) where
  rejected-Fenced :
      (code : CommandRejectionCode)
      → Fenced db (reject_replay delivery (hash input.command) now code db)
  unfolding reject_replay
  rejected-Fenced code = (refl, λ operation i h. h)

  restarted-instance_of :
      (action : WorkflowAction) (workflow : Option (WorkflowRow A)) (operation i : ℕ)
      → find_workflow input.command.envelope.operation_id db.workflows ≡ workflow
      → instance_of operation db ≡ some i
      → row_instance (
          find_workflow operation
            (restarted input.command delivery now action db.workflows workflow))
        ≡ some i
  restarted-instance_of action none operation i absent known =
      inserted-instance_of (new_row action input.command delivery none now) db.workflows operation i
        absent known
  restarted-instance_of action (some row) operation i found known =
      edited-instance_of operation (of_operation input.command.envelope.operation_id)
        (restarted_row input.command delivery now) db.workflows
        (record { operation = λ r. refl; instance_kept = λ r. refl })
      ∙ known

  received-Fenced :
      (authorization : ReplayRequestRow) (workflow : Option (WorkflowRow A))
      (receipts : Option (List ReceiptRow))
      → find_workflow input.command.envelope.operation_id db.workflows ≡ workflow
      → Fenced db (
          received_replay strict valid_request hash input delivery now db authorization workflow
            receipts)
  received-Fenced authorization workflow none found = (refl, λ operation i h. h)
  received-Fenced authorization workflow (some receipts) found =
      by_action (action_to_insert workflow input.schema_action)
    where
      changed : Bool
      changed =
          not strict
          || (any (of_requested_replay input.command delivery) db.dead_letters
              && any (of_authorized_request authorization.replay_request_id) db.replay_requests)

      by_action :
          (o : Option WorkflowAction)
          → Fenced db (
              with_action o (
                reopen strict valid_request hash input delivery now db authorization workflow
                  receipts))
      by_action none = tt
      by_action (some action) = elim (Bool-cases changed) [
        | inl holds ↦
            rw holds (refl, λ operation i. restarted-instance_of action workflow operation i found)
        | inr fails ↦ rw fails tt
      ]

  authorized-Fenced :
      (authorization : ReplayRequestRow) (workflow : Option (WorkflowRow A))
      → find_workflow input.command.envelope.operation_id db.workflows ≡ workflow
      → Fenced db
          (authorized_replay strict valid_request hash input delivery now db authorization workflow)
  authorized-Fenced authorization workflow found =
      elim (Bool-cases (conflicts input.command delivery workflow)) [
        | inl holds ↦ rw holds (rejected-Fenced CommandRejectionCode.replay_command_state_conflict)
        | inr fails ↦ rw fails (
            received-Fenced authorization workflow
              (original_receipt hash input delivery none now db) found)
      ]

  checked-Fenced :
      (o : Option ReplayRequestRow)
      → Fenced db (checked_replay strict valid_request hash input delivery now db o)
  checked-Fenced none = rejected-Fenced CommandRejectionCode.replay_command_unauthorized
  checked-Fenced (some authorization) =
      elim (Bool-cases (authorizes (hash input.command) delivery authorization)) [
        | inr fails ↦ rw fails (rejected-Fenced CommandRejectionCode.replay_command_unauthorized)
        | inl granted ↦ elim (Bool-cases (valid_request authorization.request_payload)) [
          | inr bad ↦ rw (granted, bad) tt
          | inl good ↦
              rw (granted, good)
                (authorized-Fenced authorization
                  (find_workflow input.command.envelope.operation_id db.workflows) refl)
        ]
      ]

  replayed-Fenced :
      (o : Option ReceiptRow)
      → Fenced db (replay_unless_received strict valid_request hash input delivery now db o)
  replayed-Fenced none = checked-Fenced (
      find_row (of_replay input.command.envelope.event_id delivery.replay_generation)
        db.replay_requests)
  replayed-Fenced (some receipt) = elim (Bool-cases (receipt.payload_hash == hash input.command)) [
    | inl same ↦ rw same (refl, λ operation i h. h)
    | inr other ↦ rw other (rejected-Fenced CommandRejectionCode.replay_command_identity_conflict)
  ]

  pub admit_command-Fenced :
      Fenced db (admit_command strict valid_request hash input delivery now db)
  unfolding admit_command admit_original_delivery admit_authorized_replay
  admit_command-Fenced = elim (Bool-cases (delivery.replay_generation == 0)) [
    | inl original ↦ rw original (
        original-Fenced hash input delivery now db
          (find_workflow input.command.envelope.operation_id db.workflows) refl)
    | inr replay ↦ rw replay (
        replayed-Fenced (
          find_row (of_receipt_key input.command.envelope.event_id delivery.replay_generation)
            db.receipts))
  ]
