-- ===== src/Store/Authorization.antt =====
-- packages/postgres-adapter/src/workflow-store.ts: `admitReplayRequest`, `deadLetterCommand` and
-- `quarantineRecord`, which put a dead letter aside and authorize its replay.
pub mod Granted
use private_cloud_control_pl.Prelude.{
  ℕ, ◌+◌, ◌==◌, String, Bool, true, false, not, ◌&&◌, ◌||◌, Option, none, some, List, [], ◌∷◌, any,
  if◌then◌else◌,
}
use private_cloud_control_pl.Contracts.Events.{FailureCategory, EventEnvelope}
use private_cloud_control_pl.Workflow.Stage.{WorkflowAction}
use private_cloud_control_pl.Workflow.Step.{Command, Result, ok, raise, bug}
use private_cloud_control_pl.Store.Table.{find_row, update_rows}
use private_cloud_control_pl.Store.Rows.{
  Delivery, ReceiptRow, DeadLetterStatus, DeadLetterRow, AuditOutcome, ReplayRequest, ReplayStatus,
  ReplayRequestRow, OutboxRow, Database,
}
use private_cloud_control_pl.Store.Writes.{service_audit, of_event, write_dead_letter}
use private_cloud_control_pl.Store.Inbox.{insert_receipt, insert_poison, of_coordinates}
use private_cloud_control_pl.Store.Admission.{LifecycleCommand, replay_resolution}

-- `'accepted' | 'duplicate' | 'rejected'`.
pub data ReplayDecision : Type 0 where
  accepted duplicate rejected : ReplayDecision

-- Fresh UUIDs: of the outbox row of the replayed command, and of the audit entry.
pub record ReplayIds : Type 0 where
  pub outbox_id : ℕ
  pub audit_id : ℕ

abbrev pub is_open : DeadLetterStatus → Bool
is_open DeadLetterStatus.still_open = true
is_open _ = false

-- `persistReplayRequest`.
abbrev pub authorized_request : ReplayRequest → ℕ → ℕ → ℕ → ℕ → ReplayRequestRow
authorized_request request generation command_hash outbox_id now = record {
  replay_request_id = request.replay_request_id;
  request_event_id = request.envelope.event_id;
  original_event_id = request.original_event_id;
  replay_generation = some generation;
  status = ReplayStatus.authorized;
  request_payload = request;
  authorized_command_hash = some command_hash;
  authorized_outbox_id = some outbox_id;
  requested_at = request.envelope.occurred_at;
  decided_at = now;
  completed_at = none;
}

abbrev pub rejected_request : ReplayRequest → ℕ → ReplayRequestRow
rejected_request request now = record {
  replay_request_id = request.replay_request_id;
  request_event_id = request.envelope.event_id;
  original_event_id = request.original_event_id;
  replay_generation = none;
  status = ReplayStatus.rejected;
  request_payload = request;
  authorized_command_hash = none;
  authorized_outbox_id = none;
  requested_at = request.envelope.occurred_at;
  decided_at = now;
  completed_at = some now;
}

-- The unique keys of `workflow.replay_requests`: each identifier, and the generation of an event where
-- there is one.
abbrev pub same_generation : Option ℕ → Option ℕ → Bool
same_generation (some g) (some h) = g == h
same_generation _ _ = false

abbrev pub is_key_conflict : ReplayRequestRow → ReplayRequestRow → Bool
is_key_conflict new stored =
    stored.replay_request_id == new.replay_request_id
    || stored.request_event_id == new.request_event_id
    || (stored.original_event_id == new.original_event_id
        && same_generation stored.replay_generation new.replay_generation)

module _ {ℓ} {A : Type ℓ} where
  abbrev pub letter_generation : Option (DeadLetterRow A) → ℕ
  letter_generation none = 0
  letter_generation (some letter) = letter.replay_generation

  -- The command that is replayed: the original, under the request's correlation and trace.
  abbrev pub replayed_command : ReplayRequest → ℕ → Command A → Command A
  replayed_command request now original = record original {
    envelope = record original.envelope {
      correlation_id = request.envelope.correlation_id;
      causation_id = request.envelope.event_id;
      occurred_at = now;
      trace_context = request.envelope.trace_context;
    };
  }

  abbrev pub of_open_event : ℕ → DeadLetterRow A → Bool
  of_open_event event row = row.original_event_id == event && is_open row.status

  abbrev pub requested_letter : ℕ → ℕ → DeadLetterRow A → DeadLetterRow A
  requested_letter generation now row = record row {
    replay_generation = generation;
    status = DeadLetterStatus.replay_requested;
    last_replay_at = some now;
  }

  unfoldable pub reject_request :
      ReplayIds → ReplayRequest → ℕ → Database A → Option (DeadLetterRow A) → Database A
  reject_request ids request now db letter =
      let audit =
        service_audit ids.audit_id request.envelope "replay_dead_letter" AuditOutcome.rejected
          now in
      record db {
        replay_requests = rejected_request request now ∷ db.replay_requests;
        audit = audit ∷ db.audit;
        outbox =
            OutboxRow.audit_recorded audit (some request.replay_request_id)
            ∷ OutboxRow.replay_resolved
                (replay_resolution request ReplayStatus.rejected (letter_generation letter) now)
            ∷ db.outbox;
      }

  unfoldable pub authorize_request :
      ReplayIds → ReplayRequest → ℕ → ℕ → ℕ → Command A → Database A → Database A
  authorize_request ids request generation command_hash now original db =
      let audit =
        service_audit ids.audit_id request.envelope "replay_dead_letter" AuditOutcome.accepted
          now in
      record db {
        replay_requests =
            authorized_request request generation command_hash ids.outbox_id now
            ∷ db.replay_requests;
        dead_letters =
            update_rows (of_open_event original.envelope.event_id) (requested_letter generation now)
              db.dead_letters;
        audit = audit ∷ db.audit;
        outbox =
            OutboxRow.audit_recorded audit (some request.replay_request_id)
            ∷ OutboxRow.replayed_command ids.outbox_id generation
                (replayed_command request now original)
            ∷ db.outbox;
      }

  abbrev pub may_replay :
      (WorkflowAction → Command A → Bool) → DeadLetterRow A → Option WorkflowAction → Bool
  may_replay valid letter none = false
  may_replay valid letter (some action) =
      letter.replay_allowed && is_open letter.status && valid action letter.original_payload

module _ {ℓ} {A : Type ℓ} (strict : Bool) (valid : WorkflowAction → Command A → Bool)
    (hash : Command A → ℕ) (request_hash : ReplayRequest → ℕ) where
  abbrev pub Decision : Type ℓ
  Decision = Result (ReplayDecision × Database A)

  -- The INSERT of a replay request ends the transaction where it breaks a unique key.
  abbrev pub unless_stored : ReplayRequestRow → Database A → ReplayDecision × Database A → Decision
  unless_stored row db result =
      if any (is_key_conflict row) db.replay_requests
      then raise (bug "A replay request with this key is stored.")
      else ok result

  abbrev pub authorized_or_throw :
      ReplayIds → ReplayRequest → ℕ → Database A → DeadLetterRow A → Decision
  authorized_or_throw ids request now db letter =
      let original = letter.original_payload in
      if not strict || any (of_open_event original.envelope.event_id) db.dead_letters
      then unless_stored
          (authorized_request request (letter.replay_generation + 1)
            (hash (replayed_command request now original)) ids.outbox_id now)
          db
          (
            accepted,
            authorize_request ids request (letter.replay_generation + 1)
                (hash (replayed_command request now original)) now original db,
          )
      else raise (bug "No row was changed.")

  abbrev pub decide :
      ReplayIds → ReplayRequest → ℕ → Database A → Option (DeadLetterRow A) → Decision
  decide ids request now db none =
      unless_stored (rejected_request request now) db
        (rejected, reject_request ids request now db none)
  decide ids request now db (some letter) =
      if may_replay valid letter letter.original_action
      then authorized_or_throw ids request now db letter
      else unless_stored (rejected_request request now) db
          (rejected, reject_request ids request now db (some letter))

  abbrev pub decide_once :
      ReplayIds → ReplayRequest → ℕ → Database A → Option (List ReceiptRow) → Decision
  decide_once ids request now db none = ok (duplicate, db)
  decide_once ids request now db (some receipts) =
      decide ids request now (record db { receipts = receipts })
        (find_row (of_event request.original_event_id) db.dead_letters)

  unfoldable pub admit_replay_request :
      ReplayIds → ReplayRequest → Delivery → ℕ → Database A → Decision
  unfolding reject_request authorize_request insert_receipt
  admit_replay_request ids request delivery now db = decide_once ids request now db (
      insert_receipt request.envelope.event_id delivery (request_hash request) (some now) now
        db.receipts)

pub data Quarantine : Type 0 where
  quarantined duplicate : Quarantine

pub data LetterOutcome : Type 0 where
  dead_lettered duplicate : LetterOutcome

-- The arguments of `deadLetterCommand` but for the event and its delivery.
pub record LetterInput : Type 0 where
  pub attempts : ℕ
  pub failure_code : String
  pub safe_message : String
  pub replay_allowed : Bool

module _ {ℓ} {A : Type ℓ} where
  unfoldable pub quarantine_record :
      Delivery → ℕ → String → String → ℕ → Database A → Quarantine × Database A
  unfolding insert_poison
  quarantine_record delivery payload_hash code message now db = (
    if any (of_coordinates delivery) db.poison_records
        then Quarantine.duplicate
        else Quarantine.quarantined,
    record db {
      poison_records = insert_poison delivery payload_hash code message now db.poison_records;
    },
  )

  abbrev pub command_letter : LifecycleCommand A → Delivery → LetterInput → ℕ → ℕ → DeadLetterRow A
  command_letter input delivery letter dead_letter_event_id now = record {
    original_event_id = input.command.envelope.event_id;
    dead_letter_event_id = dead_letter_event_id;
    aggregate_id = input.command.envelope.aggregate_id;
    project_id = input.command.envelope.project_id;
    operation_id = input.command.envelope.operation_id;
    original_action = input.schema_action;
    original_payload = input.command;
    failure_category = FailureCategory.permanent;
    failure_code = letter.failure_code;
    safe_message = letter.safe_message;
    attempts = letter.attempts;
    replay_allowed = letter.replay_allowed;
    replay_generation = delivery.replay_generation;
    status = DeadLetterStatus.still_open;
    dead_lettered_at = now;
    last_replay_at = none;
  }

  abbrev pub letter_once :
      DeadLetterRow A
      → ℕ
      → EventEnvelope
      → ℕ
      → Database A
      → Option (List ReceiptRow)
      → LetterOutcome × Database A
  letter_once letter audit_id cause now db none = (LetterOutcome.duplicate, db)
  letter_once letter audit_id cause now db (some receipts) =
      let audit = service_audit audit_id cause "dead_letter_command" AuditOutcome.failed now in
      (
        LetterOutcome.dead_lettered,
        record db {
          receipts = receipts;
          dead_letters = write_dead_letter letter db.dead_letters;
          audit = audit ∷ db.audit;
          outbox = OutboxRow.audit_recorded audit none ∷ OutboxRow.dead_lettered letter ∷ db.outbox;
        },
      )

  unfoldable pub dead_letter_command :
      (Command A → ℕ)
      → LifecycleCommand A
      → Delivery
      → LetterInput
      → ℕ
      → ℕ
      → ℕ
      → Database A
      → LetterOutcome × Database A
  unfolding write_dead_letter insert_receipt
  dead_letter_command hash input delivery letter dead_letter_event_id audit_id now db =
      letter_once (command_letter input delivery letter dead_letter_event_id now) audit_id
        input.command.envelope now db
        (insert_receipt input.command.envelope.event_id delivery (hash input.command) (some now) now
          db.receipts)
