-- ===== src/Store/Admission.antt =====
-- packages/postgres-adapter/src/workflow-store.ts: `admitCommand`, which records a delivery and makes
-- a workflow of its command, or reopens one under an authorized replay.
use private_cloud_control_pl.Prelude.{
  ℕ, ◌+◌, ◌==◌, Bool, false, not, ◌&&◌, ◌||◌, Option, none, some, List, ◌∷◌, any, if◌then◌else◌,
}
use private_cloud_control_pl.Workflow.Stage.{WorkflowAction}
use private_cloud_control_pl.Workflow.Step.{Command, Result, ok, raise, bug}
use private_cloud_control_pl.Store.Table.{find_row, update_rows}
use private_cloud_control_pl.Store.Rows.{
  WorkflowRow, Delivery, ReceiptRow, DeadLetterStatus, DeadLetterRow, ReplayRequest, ReplayStatus,
  ReplayRequestRow, ReplayResolved, OutboxRow, Database,
}
use private_cloud_control_pl.Store.Lease.{of_operation, find_workflow}
use private_cloud_control_pl.Store.Inbox.{
  CommandRejectionCode, rejection_text, rejection_message, CommandAdmission, accepted, duplicate,
  rejected, of_receipt_key, insert_receipt, or_unchanged, is_failed, is_authorized,
  is_replay_requested, authorizes, of_replay, insert_poison, inherited_resource, new_row,
  restarted_row,
}

-- `LifecycleCommand`, with the action that `workflowActionForSchema` gives for its schema.
pub record LifecycleCommand {ℓ} (A : Type ℓ) : Type ℓ where
  pub command : Command A
  pub schema_action : Option WorkflowAction

abbrev pub Admission {ℓ} : Type ℓ → Type ℓ
Admission A = Result (CommandAdmission × Database A)

-- `workflowActionOf`.
abbrev pub with_action {ℓ} :
    {A : Type ℓ} → Option WorkflowAction → (WorkflowAction → Admission A) → Admission A
with_action none f = raise (bug "No workflow action is registered for this command schema.")
with_action (some action) f = f action

-- `canonicalSha256` and the validator of stored requests are parameters.
module _ {ℓ} {A : Type ℓ} (hash : Command A → ℕ) where
  abbrev pub inserted_original :
      LifecycleCommand A → Delivery → ℕ → Database A → Option (List ReceiptRow) → Admission A
  inserted_original input delivery now db none = ok (duplicate, db)
  inserted_original input delivery now db (some receipts) =
      with_action input.schema_action (λ action. ok (
        accepted,
        record db {
          receipts = receipts;
          workflows =
              new_row action input.command delivery
                (inherited_resource action input.command.envelope.aggregate_id db.workflows) now
              ∷ db.workflows;
        },
      ))

  abbrev pub original_receipt :
      LifecycleCommand A → Delivery → Option ℕ → ℕ → Database A → Option (List ReceiptRow)
  original_receipt input delivery completed now db =
      insert_receipt input.command.envelope.event_id delivery (hash input.command) completed now
        db.receipts

  abbrev pub admit_unless_known :
      LifecycleCommand A → Delivery → ℕ → Database A → Option (WorkflowRow A) → Admission A
  admit_unless_known input delivery now db (some existing) = ok (
    duplicate,
    record db {
      receipts = or_unchanged db.receipts (original_receipt input delivery (some now) now db);
    },
  )
  admit_unless_known input delivery now db none =
      inserted_original input delivery now db (original_receipt input delivery none now db)

  unfoldable pub admit_original_delivery :
      LifecycleCommand A → Delivery → ℕ → Database A → Admission A
  unfolding insert_receipt
  admit_original_delivery input delivery now db =
      admit_unless_known input delivery now db
        (find_workflow input.command.envelope.operation_id db.workflows)

abbrev pub of_authorized_request : ℕ → ReplayRequestRow → Bool
of_authorized_request id row = row.replay_request_id == id && is_authorized row.status

abbrev pub completed_request : ℕ → ReplayRequestRow → ReplayRequestRow
completed_request now row = record row { status = ReplayStatus.completed; completed_at = some now }

abbrev pub replay_resolution : ReplayRequest → ReplayStatus → ℕ → ℕ → ReplayResolved
replay_resolution request outcome generation now = record {
  replay_request_id = request.replay_request_id;
  original_event_id = request.original_event_id;
  outcome = outcome;
  replay_generation = generation;
  resolved_at = now;
}

module _ {ℓ} {A : Type ℓ} where
  -- `rejectReplayCommand`.
  unfoldable pub reject_replay : Delivery → ℕ → ℕ → CommandRejectionCode → Database A → Admission A
  unfolding insert_poison
  reject_replay delivery payload_hash now code db = ok (
    rejected code,
    record db {
      poison_records =
          insert_poison delivery payload_hash (rejection_text code) (rejection_message code) now
            db.poison_records;
    },
  )

  -- The workflow is not in a state that the replay may reopen.
  abbrev pub is_conflicting : Command A → Delivery → WorkflowRow A → Bool
  is_conflicting command delivery row =
      not (row.event_id == command.envelope.event_id)
      || not (is_failed row.status)
      || not (delivery.replay_generation == row.replay_generation + 1)

  abbrev pub conflicts : Command A → Delivery → Option (WorkflowRow A) → Bool
  conflicts command delivery none = false
  conflicts command delivery (some row) = is_conflicting command delivery row

  abbrev pub of_requested_replay : Command A → Delivery → DeadLetterRow A → Bool
  of_requested_replay command delivery row =
      row.original_event_id == command.envelope.event_id
      && is_replay_requested row.status
      && row.replay_generation == delivery.replay_generation

  abbrev pub replayed_letter : ℕ → DeadLetterRow A → DeadLetterRow A
  replayed_letter now row = record row {
    status = DeadLetterStatus.replayed;
    last_replay_at = some now;
  }

  -- The rows of the workflow once it starts again, or for the first time.
  abbrev pub restarted :
      Command A
      → Delivery
      → ℕ
      → WorkflowAction
      → List (WorkflowRow A)
      → Option (WorkflowRow A)
      → List (WorkflowRow A)
  restarted command delivery now action rows none = new_row action command delivery none now ∷ rows
  restarted command delivery now action rows (some row) =
      update_rows (of_operation command.envelope.operation_id) (restarted_row command delivery now)
        rows

  -- `workflowActionOf` is read only where a row is inserted.
  abbrev pub action_to_insert :
      Option (WorkflowRow A) → Option WorkflowAction → Option WorkflowAction
  action_to_insert none schema_action = schema_action
  action_to_insert (some row) schema_action = some row.action

module _ {ℓ} {A : Type ℓ} (strict : Bool) (valid_request : ReplayRequest → Bool)
    (hash : Command A → ℕ) where
  abbrev pub reopen :
      LifecycleCommand A
      → Delivery
      → ℕ
      → Database A
      → ReplayRequestRow
      → Option (WorkflowRow A)
      → List ReceiptRow
      → WorkflowAction
      → Admission A
  reopen input delivery now db authorization workflow receipts action =
      if not strict
        || (any (of_requested_replay input.command delivery) db.dead_letters
            && any (of_authorized_request authorization.replay_request_id) db.replay_requests)
      then ok (
        accepted,
        record db {
          receipts = receipts;
          workflows = restarted input.command delivery now action db.workflows workflow;
          dead_letters =
              update_rows (of_requested_replay input.command delivery) (replayed_letter now)
                db.dead_letters;
          replay_requests =
              update_rows (of_authorized_request authorization.replay_request_id)
                (completed_request now) db.replay_requests;
          outbox =
              OutboxRow.replay_resolved (
                replay_resolution authorization.request_payload ReplayStatus.completed
                  delivery.replay_generation now)
              ∷ db.outbox;
        },
      )
      else raise (bug "No row was changed.")

  abbrev pub received_replay :
      LifecycleCommand A
      → Delivery
      → ℕ
      → Database A
      → ReplayRequestRow
      → Option (WorkflowRow A)
      → Option (List ReceiptRow)
      → Admission A
  received_replay input delivery now db authorization workflow none = ok (duplicate, db)
  received_replay input delivery now db authorization workflow (some receipts) =
      with_action (action_to_insert workflow input.schema_action)
        (reopen input delivery now db authorization workflow receipts)

  abbrev pub authorized_replay :
      LifecycleCommand A
      → Delivery
      → ℕ
      → Database A
      → ReplayRequestRow
      → Option (WorkflowRow A)
      → Admission A
  authorized_replay input delivery now db authorization workflow =
      if conflicts input.command delivery workflow
      then reject_replay delivery (hash input.command) now
          CommandRejectionCode.replay_command_state_conflict db
      else received_replay input delivery now db authorization workflow
          (original_receipt hash input delivery none now db)

  abbrev pub checked_replay :
      LifecycleCommand A → Delivery → ℕ → Database A → Option ReplayRequestRow → Admission A
  checked_replay input delivery now db none =
      reject_replay delivery (hash input.command) now
        CommandRejectionCode.replay_command_unauthorized db
  checked_replay input delivery now db (some authorization) =
      if authorizes (hash input.command) delivery authorization
      then if valid_request authorization.request_payload
        then authorized_replay input delivery now db authorization
            (find_workflow input.command.envelope.operation_id db.workflows)
        else raise (bug "Stored replay authorization payload is invalid.")
      else reject_replay delivery (hash input.command) now
          CommandRejectionCode.replay_command_unauthorized db

  abbrev pub replay_unless_received :
      LifecycleCommand A → Delivery → ℕ → Database A → Option ReceiptRow → Admission A
  replay_unless_received input delivery now db (some receipt) =
      if receipt.payload_hash == hash input.command
      then ok (duplicate, db)
      else reject_replay delivery (hash input.command) now
          CommandRejectionCode.replay_command_identity_conflict db
  replay_unless_received input delivery now db none = checked_replay input delivery now db (
      find_row (of_replay input.command.envelope.event_id delivery.replay_generation)
        db.replay_requests)

  unfoldable pub admit_authorized_replay :
      LifecycleCommand A → Delivery → ℕ → Database A → Admission A
  unfolding reject_replay insert_receipt
  admit_authorized_replay input delivery now db = replay_unless_received input delivery now db (
      find_row (of_receipt_key input.command.envelope.event_id delivery.replay_generation)
        db.receipts)

  unfoldable pub admit_command : LifecycleCommand A → Delivery → ℕ → Database A → Admission A
  unfolding admit_original_delivery admit_authorized_replay
  admit_command input delivery now db =
      if delivery.replay_generation == 0
      then admit_original_delivery hash input delivery now db
      else admit_authorized_replay input delivery now db
