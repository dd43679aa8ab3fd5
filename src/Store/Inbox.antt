-- ===== src/Store/Inbox.antt =====
-- packages/postgres-adapter/src/workflow-store.ts: `admitCommand` and its two admissions, with
-- `insertCommandReceipt` and `rejectReplayCommand`.
use private_cloud_control_pl.Prelude.{
  ℕ, ◌==◌, String, str_eq, Bool, true, false, ◌&&◌, Option, none, some, List, [], ◌∷◌, any, leb,
  if◌then◌else◌,
}
use private_cloud_control_pl.Workflow.Stage.{WorkflowStage, WorkflowAction, PersistedStage}
use private_cloud_control_pl.Workflow.Step.{Command}
use private_cloud_control_pl.Store.Rows.{
  WorkflowStatus, WorkflowRow, Delivery, ReceiptRow, DeadLetterStatus, ReplayStatus,
  ReplayRequestRow, PoisonRow,
}

-- `CommandRejectionCode`.
pub data CommandRejectionCode : Type 0 where
  replay_command_identity_conflict replay_command_unauthorized : CommandRejectionCode
  replay_command_state_conflict : CommandRejectionCode

abbrev pub rejection_text : CommandRejectionCode → String
rejection_text CommandRejectionCode.replay_command_identity_conflict =
    "REPLAY_COMMAND_IDENTITY_CONFLICT"
rejection_text CommandRejectionCode.replay_command_unauthorized = "REPLAY_COMMAND_UNAUTHORIZED"
rejection_text CommandRejectionCode.replay_command_state_conflict = "REPLAY_COMMAND_STATE_CONFLICT"

-- `REPLAY_REJECTION_MESSAGES`.
abbrev pub rejection_message : CommandRejectionCode → String
rejection_message CommandRejectionCode.replay_command_identity_conflict =
    "A receipt for this replay generation already exists with a different canonical payload."
rejection_message CommandRejectionCode.replay_command_unauthorized =
    "The replay command did not match a durable replay authorization."
rejection_message CommandRejectionCode.replay_command_state_conflict =
    "The replay was authorized, but its target workflow is no longer in a reopenable state."

-- `CommandAdmission`.
pub data CommandAdmission : Type 0 where
  accepted duplicate : CommandAdmission
  rejected : CommandRejectionCode → CommandAdmission

abbrev pub of_receipt_key : ℕ → ℕ → ReceiptRow → Bool
of_receipt_key event generation receipt =
    receipt.event_id == event && receipt.delivery.replay_generation == generation

-- `insertCommandReceipt`: `none` where the receipt is there already.
unfoldable pub insert_receipt :
    ℕ → Delivery → ℕ → Option ℕ → ℕ → List ReceiptRow → Option (List ReceiptRow)
insert_receipt event delivery hash completed now receipts =
    if any (of_receipt_key event delivery.replay_generation) receipts
    then none
    else some (
        record {
          event_id = event;
          delivery = delivery;
          payload_hash = hash;
          received_at = now;
          completed_at = completed;
        }
        ∷ receipts)

abbrev pub or_unchanged : List ReceiptRow → Option (List ReceiptRow) → List ReceiptRow
or_unchanged receipts none = receipts
or_unchanged receipts (some more) = more

abbrev pub is_create : WorkflowAction → Bool
is_create WorkflowAction.create_instance = true
is_create _ = false

abbrev pub has_resource : Option String → Bool
has_resource none = false
has_resource (some resource) = true

abbrev pub is_failed : WorkflowStatus → Bool
is_failed WorkflowStatus.failed = true
is_failed _ = false

abbrev pub is_authorized : ReplayStatus → Bool
is_authorized ReplayStatus.authorized = true
is_authorized _ = false

abbrev pub is_replay_requested : DeadLetterStatus → Bool
is_replay_requested DeadLetterStatus.replay_requested = true
is_replay_requested _ = false

abbrev pub same_number : Option ℕ → ℕ → Bool
same_number none n = false
same_number (some m) n = m == n

-- `authorization?.status === 'authorized'` and the two identities.
abbrev pub authorizes : ℕ → Delivery → ReplayRequestRow → Bool
authorizes hash delivery row =
    is_authorized row.status
    && same_number row.authorized_command_hash hash
    && same_number row.authorized_outbox_id delivery.outbox_id

abbrev pub of_replay : ℕ → ℕ → ReplayRequestRow → Bool
of_replay event generation row =
    row.original_event_id == event && same_number row.replay_generation generation

abbrev pub of_coordinates : Delivery → PoisonRow → Bool
of_coordinates d row =
    row.delivery.offset == d.offset
    && row.delivery.partition == d.partition
    && str_eq row.delivery.topic d.topic

-- A quarantine row by hash and coordinates, unless the coordinates have one.
unfoldable pub insert_poison : Delivery → ℕ → String → String → ℕ → List PoisonRow → List PoisonRow
insert_poison delivery hash code message now rows =
    if any (of_coordinates delivery) rows
    then rows
    else record {
      delivery = delivery;
      payload_hash = hash;
      failure_code = code;
      safe_message = message;
      quarantined_at = now;
    }
      ∷ rows

module _ {ℓ} {A : Type ℓ} where
  -- `WHERE instance_id = … AND provider_resource_id IS NOT NULL ORDER BY created_at LIMIT 1`.
  abbrev pub has_known_resource : ℕ → WorkflowRow A → Bool
  has_known_resource instance row =
      row.instance_id == instance && has_resource row.provider_resource_id

  abbrev pub older : WorkflowRow A → Option (WorkflowRow A) → WorkflowRow A
  older row none = row
  older row (some other) = if leb row.created_at other.created_at then row else other

  unfoldable pub first_known : ℕ → List (WorkflowRow A) → Option (WorkflowRow A)
  first_known instance [] = none
  first_known instance (row ∷ rows) =
      let rest = first_known instance rows in
      if has_known_resource instance row then some (older row rest) else rest

  abbrev pub resource_of : Option (WorkflowRow A) → Option String
  resource_of none = none
  resource_of (some row) = row.provider_resource_id

  abbrev pub inherited_resource : WorkflowAction → ℕ → List (WorkflowRow A) → Option String
  inherited_resource action instance rows =
      if is_create action then none else resource_of (first_known instance rows)

  -- The row that an admission inserts.
  abbrev pub new_row : WorkflowAction → Command A → Delivery → Option String → ℕ → WorkflowRow A
  new_row action command delivery resource now = record {
    operation_id = command.envelope.operation_id;
    event_id = command.envelope.event_id;
    project_id = command.envelope.project_id;
    instance_id = command.envelope.aggregate_id;
    action = action;
    command = command;
    status = WorkflowStatus.running;
    stage = PersistedStage.active WorkflowStage.accepted;
    attempt = 0;
    stage_attempt = 0;
    retry_started_at = none;
    replay_generation = delivery.replay_generation;
    trace_context = command.envelope.trace_context;
    fencing_token = 0;
    provider_resource_id = resource;
    provider_task_reference = none;
    next_attempt_at = now;
    failure = none;
    last_error = none;
    created_at = now;
    updated_at = now;
    completed_at = none;
  }

  abbrev pub restarted_row : Command A → Delivery → ℕ → WorkflowRow A → WorkflowRow A
  restarted_row command delivery now row = record row {
    command = command;
    status = WorkflowStatus.running;
    stage = PersistedStage.active WorkflowStage.accepted;
    attempt = 0;
    stage_attempt = 0;
    retry_started_at = none;
    replay_generation = delivery.replay_generation;
    trace_context = command.envelope.trace_context;
    provider_resource_id = none;
    provider_task_reference = none;
    next_attempt_at = now;
    failure = none;
    last_error = none;
    updated_at = now;
    completed_at = none;
  }
