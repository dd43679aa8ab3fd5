-- ===== src/Store/Replay.antt =====
-- Admission happens once for each generation of a command, and a replay only under its authorization.
use private_cloud_control_pl.Prelude.{
  ◌≡◌, ◌≢◌, ℕ, ◌+◌, ◌==◌, Bool, true, false, not, ◌&&◌, ◌||◌, Option, none, some, List, [], any,
  inl, inr, refl, ap, arith, Bool-cases,
}
use private_cloud_control_pl.Workflow.Stage.{WorkflowAction}
use private_cloud_control_pl.Workflow.Step.{Command, ok, raise}
use private_cloud_control_pl.Store.Table.{find_row}
use private_cloud_control_pl.Store.Rows.{
  WorkflowStatus, WorkflowRow, Delivery, ReceiptRow, ReplayRequest, ReplayRequestRow, Database,
}
use private_cloud_control_pl.Store.Lease.{find_workflow}
use private_cloud_control_pl.Store.Inbox.{
  CommandRejectionCode, accepted, of_receipt_key, authorizes, of_replay, is_failed,
}
use private_cloud_control_pl.Store.Admission.{
  LifecycleCommand, Admission, with_action, original_receipt, reject_replay, conflicts,
  of_requested_replay, of_authorized_request, action_to_insert, reopen, received_replay,
  checked_replay, replay_unless_received, admit_authorized_replay, admit_command,
}

-- The workflow of a replayed command: absent, or failed on the same event one generation before.
abbrev pub IsReopenable {ℓ} : {A : Type ℓ} → Command A → Delivery → Option (WorkflowRow A) → Type 0
IsReopenable command delivery none = Unit
IsReopenable command delivery (some row) =
    (row.event_id ≡ command.envelope.event_id)
    × (row.status ≡ WorkflowStatus.failed)
    × (delivery.replay_generation ≡ row.replay_generation + 1)

-- The three tests of `is_conflicting`, on plain values.
conflict_facts :
    (status : WorkflowStatus) (event expected generation current : ℕ)
    → (not (event == expected) || not (is_failed status) || not (generation == current + 1)) ≡ false
    → (event ≡ expected) × (status ≡ WorkflowStatus.failed) × (generation ≡ current + 1)
conflict_facts status event expected generation current h = ground arith

-- The receipts after an admission that returns.
abbrev pub admitted_receipts {ℓ} : {A : Type ℓ} → Admission A → List ReceiptRow
admitted_receipts (ok (outcome, db)) = db.receipts
admitted_receipts (raise e) = []

abbrev pub admitted_workflows {ℓ} : {A : Type ℓ} → Admission A → List (WorkflowRow A)
admitted_workflows (ok (outcome, db)) = db.workflows
admitted_workflows (raise e) = []

module _ {A : Type 0} where
  conflicts-IsReopenable :
      (command : Command A) (delivery : Delivery) (o : Option (WorkflowRow A))
      → conflicts command delivery o ≡ false
      → IsReopenable command delivery o
  conflicts-IsReopenable command delivery none h = tt
  conflicts-IsReopenable command delivery (some row) h =
      conflict_facts row.status row.event_id command.envelope.event_id delivery.replay_generation
        row.replay_generation h

  -- What an accepted replay was accepted on.
  pub record Reopened (hash : Command A → ℕ) (input : LifecycleCommand A) (delivery : Delivery)
      (now : ℕ) (db after : Database A) : Type 0 where
    pub authorization : ReplayRequestRow
    pub recorded :
        find_row
          (of_replay input.command.envelope.event_id delivery.replay_generation)
          db.replay_requests
        ≡ some authorization
    pub authorized : authorizes (hash input.command) delivery authorization ≡ true
    pub reopenable :
        IsReopenable input.command delivery
          (find_workflow input.command.envelope.operation_id db.workflows)
    pub receipt : original_receipt hash input delivery none now db ≡ some after.receipts

  reject_replay-accepted :
      (delivery : Delivery) (h now : ℕ) (code : CommandRejectionCode) (db after : Database A)
      → reject_replay delivery h now code db ≢ ok (accepted, after)
  unfolding reject_replay
  reject_replay-accepted delivery h now code db after e = cc

module _ {A : Type 0} (strict : Bool) (valid_request : ReplayRequest → Bool) (hash : Command A → ℕ)
    (input : LifecycleCommand A) (delivery : Delivery) (now : ℕ) (db after : Database A) where
  reopen-receipts :
      (a : ReplayRequestRow) (o : Option (WorkflowRow A)) (receipts : List ReceiptRow)
      (action : Option WorkflowAction)
      → with_action action (reopen strict valid_request hash input delivery now db a o receipts)
        ≡ ok (accepted, after)
      → receipts ≡ after.receipts
  reopen-receipts a o receipts none h = cc
  reopen-receipts a o receipts (some action) h =
      elim (Bool-cases (
        not strict
        || (any (of_requested_replay input.command delivery) db.dead_letters
            && any (of_authorized_request a.replay_request_id) db.replay_requests))) [
              | inl e ↦ ap admitted_receipts (rw e at h)
              | inr e ↦ cc (rw e at h)
            ]

  received_replay-receipts :
      (a : ReplayRequestRow) (o : Option (WorkflowRow A)) (receipts : Option (List ReceiptRow))
      → received_replay strict valid_request hash input delivery now db a o receipts
        ≡ ok (accepted, after)
      → receipts ≡ some after.receipts
  received_replay-receipts a o none h = cc
  received_replay-receipts a o (some receipts) h =
      ap some (reopen-receipts a o receipts (action_to_insert o input.schema_action) h)

  checked_replay-Reopened :
      (found : Option ReplayRequestRow)
      → find_row
          (of_replay input.command.envelope.event_id delivery.replay_generation)
          db.replay_requests
        ≡ found
      → checked_replay strict valid_request hash input delivery now db found ≡ ok (accepted, after)
      → Reopened hash input delivery now db after
  checked_replay-Reopened none f h = absurd (
      reject_replay-accepted delivery (hash input.command) now
        CommandRejectionCode.replay_command_unauthorized db after h)
  checked_replay-Reopened (some a) f h =
      elim (Bool-cases (authorizes (hash input.command) delivery a)) [
        | inr e ↦ absurd (
            reject_replay-accepted delivery (hash input.command) now
              CommandRejectionCode.replay_command_unauthorized db after (rw e at h))
        | inl e ↦ elim (Bool-cases (valid_request a.request_payload)) [
          | inr invalid ↦ cc (rw (e, invalid) at h)
          | inl valid ↦
              elim (Bool-cases (
                conflicts input.command delivery
                  (find_workflow input.command.envelope.operation_id db.workflows))) [
                    | inl clash ↦ absurd (
                        reject_replay-accepted delivery (hash input.command) now
                          CommandRejectionCode.replay_command_state_conflict db after
                          (rw (e, valid, clash) at h))
                    | inr free ↦ record {
                      authorization = a;
                      recorded = f;
                      authorized = e;
                      reopenable =
                          conflicts-IsReopenable input.command delivery
                            (find_workflow input.command.envelope.operation_id db.workflows) free;
                      receipt =
                          received_replay-receipts a
                            (find_workflow input.command.envelope.operation_id db.workflows)
                            (original_receipt hash input delivery none now db)
                            (rw (e, valid, free) at h);
                    }
                  ]
        ]
      ]

  replay_unless_received-Reopened :
      (found : Option ReceiptRow)
      → replay_unless_received strict valid_request hash input delivery now db found
        ≡ ok (accepted, after)
      → Reopened hash input delivery now db after
  replay_unless_received-Reopened none h =
      checked_replay-Reopened
        (find_row (of_replay input.command.envelope.event_id delivery.replay_generation)
          db.replay_requests)
        refl h
  replay_unless_received-Reopened (some receipt) h =
      elim (Bool-cases (receipt.payload_hash == hash input.command)) [
        | inl e ↦ cc (rw e at h)
        | inr e ↦ absurd (
            reject_replay-accepted delivery (hash input.command) now
              CommandRejectionCode.replay_command_identity_conflict db after (rw e at h))
      ]

  -- A replayed command is accepted only under a recorded authorization of its generation whose
  -- status, command hash and outbox identity all match, and only where the workflow of its operation
  -- is absent, or failed on the same event exactly one generation before.
  pub admit_command-Reopened :
      delivery.replay_generation ≢ 0
      → admit_command strict valid_request hash input delivery now db ≡ ok (accepted, after)
      → Reopened hash input delivery now db after
  unfolding admit_command admit_authorized_replay
  admit_command-Reopened n h =
      replay_unless_received-Reopened
        (find_row (of_receipt_key input.command.envelope.event_id delivery.replay_generation)
          db.receipts)
        (rw (original_no delivery.replay_generation n) at h)
    where
      original_no : (g : ℕ) → g ≢ 0 → (g == 0) ≡ false
      original_no g m = ground arith
