-- ===== src/Store/Writes.antt =====
-- packages/postgres-adapter/src/workflow-store.ts: `checkpoint`, `complete`, `deadLetterWorkflow` and
-- the rows that they append. A transaction that throws leaves the database as it was.
use private_cloud_control_pl.Prelude.{
  ℕ, ◌==◌, String, Bool, true, not, ◌&&◌, ◌||◌, Option, none, some, List, ◌∷◌, any, if◌then◌else◌,
}
use private_cloud_control_pl.Contracts.Events.{Failure, EventEnvelope, EventData}
use private_cloud_control_pl.Workflow.Stage.{
  WorkflowAction, TerminalStage, PersistedStage, action_name,
}
use private_cloud_control_pl.Workflow.Step.{
  Command, Retry, TaskReference, Checkpoint, CompletionStatus, Completion, DeadLetter, StoreCall,
  Result, ok, raise, bug,
}
use private_cloud_control_pl.Workflow.Engine.{is_present}
use private_cloud_control_pl.Store.Table.{update_rows}
use private_cloud_control_pl.Store.Rows.{
  WorkflowStatus, LastError, WorkflowRow, ReceiptRow, DeadLetterStatus, DeadLetterRow, AuditOutcome,
  AuditRow, OutboxRow, Database,
}
use private_cloud_control_pl.Store.Lease.{assert_lease, release_lease}

-- Fresh UUIDs: of the audit entry and of the dead-letter event.
pub record Fresh : Type 0 where
  pub audit_id : ℕ
  pub dead_letter_event_id : ℕ

abbrev pub moment_or : Option ℕ → ℕ → ℕ
moment_or none now = now
moment_or (some at) now = at

abbrev pub checkpoint_status : Option ℕ → WorkflowStatus
checkpoint_status none = WorkflowStatus.running
checkpoint_status (some at) = WorkflowStatus.retry_wait

abbrev pub written_reference : TaskReference → Option String → Option String
written_reference TaskReference.unchanged current = current
written_reference (TaskReference.replaced reference) current = reference

abbrev pub retry_attempt : Option Retry → ℕ
retry_attempt none = 0
retry_attempt (some r) = r.attempt

abbrev pub retry_start : Option Retry → Option ℕ
retry_start none = none
retry_start (some r) = some r.started_at

abbrev pub retry_error : Option Retry → Option LastError
retry_error none = none
retry_error (some r) = some (record { category = r.error_category; code = r.error_code })

abbrev pub final_status : CompletionStatus → WorkflowStatus
final_status CompletionStatus.succeeded = WorkflowStatus.succeeded
final_status CompletionStatus.failed = WorkflowStatus.failed
final_status CompletionStatus.manual_review = WorkflowStatus.manual_review

abbrev pub final_stage : CompletionStatus → TerminalStage
final_stage CompletionStatus.succeeded = TerminalStage.completed
final_stage CompletionStatus.failed = TerminalStage.failed
final_stage CompletionStatus.manual_review = TerminalStage.manual_review

abbrev pub audit_outcome : CompletionStatus → AuditOutcome
audit_outcome CompletionStatus.succeeded = AuditOutcome.succeeded
audit_outcome _ = AuditOutcome.failed

abbrev pub failure_of : EventData → Option Failure
failure_of (EventData.failed data_failed) = some data_failed.failure
failure_of _ = none

-- `writeServiceAudit`.
abbrev pub service_audit : ℕ → EventEnvelope → String → AuditOutcome → ℕ → AuditRow
service_audit id cause action outcome now = record {
  id = id;
  project_id = cause.project_id;
  action = action;
  target_id = cause.aggregate_id;
  outcome = outcome;
  operation_id = cause.operation_id;
  occurred_at = now;
}

module _ {ℓ} {A : Type ℓ} where
  -- The `WHERE` of every write: the operation, under the token of the claim.
  abbrev pub of_claim : ℕ → ℕ → WorkflowRow A → Bool
  of_claim operation token row = row.operation_id == operation && row.fencing_token == token

  abbrev pub checkpointed : Checkpoint → ℕ → WorkflowRow A → WorkflowRow A
  checkpointed input now row = record row {
    status = checkpoint_status input.next_attempt_at;
    stage = PersistedStage.active input.stage;
    provider_resource_id =
        if is_present input.provider_resource_id
        then input.provider_resource_id
        else row.provider_resource_id;
    provider_task_reference =
        written_reference input.provider_task_reference row.provider_task_reference;
    next_attempt_at = moment_or input.next_attempt_at now;
    stage_attempt = retry_attempt input.retry;
    retry_started_at = retry_start input.retry;
    last_error = retry_error input.retry;
    trace_context = input.event.envelope.trace_context;
    updated_at = now;
  }

  abbrev pub completed_row : Completion → ℕ → WorkflowRow A → WorkflowRow A
  completed_row input now row = record row {
    status = final_status input.status;
    stage = PersistedStage.terminal (final_stage input.status);
    next_attempt_at = now;
    failure = failure_of input.event.payload;
    trace_context = input.event.envelope.trace_context;
    completed_at = some now;
    updated_at = now;
  }

  abbrev pub dead_lettered_row : DeadLetter → Failure → ℕ → WorkflowRow A → WorkflowRow A
  dead_lettered_row input failure now row = record row {
    status = WorkflowStatus.failed;
    stage = PersistedStage.terminal TerminalStage.failed;
    stage_attempt = input.attempts;
    next_attempt_at = now;
    failure = some failure;
    last_error =
        some (record { category = input.last_error_category; code = input.last_error_code });
    trace_context = input.event.envelope.trace_context;
    completed_at = some now;
    updated_at = now;
  }

  abbrev pub of_receipt : WorkflowRow A → ReceiptRow → Bool
  of_receipt row receipt =
      receipt.event_id == row.event_id
      && receipt.delivery.replay_generation == row.replay_generation

  -- The receipt of the command is consumed when its workflow ends.
  abbrev pub consumed : ℕ → WorkflowRow A → List ReceiptRow → List ReceiptRow
  consumed now row receipts =
      update_rows (of_receipt row) (λ r. record r { completed_at = some now }) receipts

  -- `writeDeadLetter`: the row is inserted, or the row of the event is opened again.
  abbrev pub of_event : ℕ → DeadLetterRow A → Bool
  of_event event row = row.original_event_id == event

  abbrev pub reopened : DeadLetterRow A → DeadLetterRow A → DeadLetterRow A
  reopened input row = record row {
    dead_letter_event_id = input.dead_letter_event_id;
    failure_category = input.failure_category;
    failure_code = input.failure_code;
    safe_message = input.safe_message;
    attempts = input.attempts;
    replay_allowed = input.replay_allowed;
    replay_generation = input.replay_generation;
    status = DeadLetterStatus.still_open;
    dead_lettered_at = input.dead_lettered_at;
  }

  unfoldable pub write_dead_letter :
      DeadLetterRow A → List (DeadLetterRow A) → List (DeadLetterRow A)
  write_dead_letter input rows =
      if any (of_event input.original_event_id) rows
      then update_rows (of_event input.original_event_id) (reopened input) rows
      else input ∷ rows

  abbrev pub exhausted_letter : Fresh → DeadLetter → Failure → WorkflowRow A → ℕ → DeadLetterRow A
  exhausted_letter fresh input failure row now = record {
    original_event_id = row.command.envelope.event_id;
    dead_letter_event_id = fresh.dead_letter_event_id;
    aggregate_id = row.command.envelope.aggregate_id;
    project_id = row.command.envelope.project_id;
    operation_id = row.command.envelope.operation_id;
    original_action = some row.action;
    original_payload = row.command;
    failure_category = failure.category;
    failure_code = input.failure_code;
    safe_message = input.safe_message;
    attempts = input.attempts;
    replay_allowed = true;
    replay_generation = row.replay_generation;
    status = DeadLetterStatus.still_open;
    dead_lettered_at = now;
    last_replay_at = none;
  }

  -- `executeTakeFirstOrThrow` after an `UPDATE`: whether the query builder throws where no row was
  -- changed is `strict`, and a parameter.
  abbrev pub required_update : Bool → Bool → Database A → Result (Database A)
  required_update strict changed db =
      if not strict || changed then ok db else raise (bug "No row was changed.")

module _ {ℓ} {A : Type ℓ} (strict : Bool) where
  abbrev pub write_checkpoint :
      Checkpoint → ℕ → Database A → Result (WorkflowRow A) → Result (Database A)
  write_checkpoint input now db (raise e) = raise e
  write_checkpoint input now db (ok row) =
      required_update strict (any (of_claim input.operation_id input.fencing_token) db.workflows)
        (record db {
          workflows =
              update_rows (of_claim input.operation_id input.fencing_token) (checkpointed input now)
                db.workflows;
          leases = release_lease row.instance_id input.worker_id input.fencing_token now db.leases;
          outbox = OutboxRow.provisioning_event input.event ∷ db.outbox;
        })

  unfoldable pub store_checkpoint : Checkpoint → ℕ → Database A → Result (Database A)
  unfolding assert_lease release_lease
  store_checkpoint input now db =
      write_checkpoint input now db
        (assert_lease input.operation_id input.worker_id input.fencing_token now db)

  abbrev pub write_completion :
      Fresh → Completion → ℕ → Database A → Result (WorkflowRow A) → Result (Database A)
  write_completion fresh input now db (raise e) = raise e
  write_completion fresh input now db (ok row) =
      let audit =
        service_audit fresh.audit_id input.event.envelope (action_name row.action)
          (audit_outcome input.status) now in
      required_update strict
        (any (of_claim input.operation_id input.fencing_token) db.workflows
          && any (of_receipt row) db.receipts)
        (record db {
          workflows =
              update_rows (of_claim input.operation_id input.fencing_token)
                (completed_row input now) db.workflows;
          receipts = consumed now row db.receipts;
          leases = release_lease row.instance_id input.worker_id input.fencing_token now db.leases;
          audit = audit ∷ db.audit;
          outbox =
              OutboxRow.audit_recorded audit none
              ∷ OutboxRow.provisioning_event input.event
              ∷ db.outbox;
        })

  unfoldable pub store_complete : Fresh → Completion → ℕ → Database A → Result (Database A)
  unfolding assert_lease release_lease
  store_complete fresh input now db =
      write_completion fresh input now db
        (assert_lease input.operation_id input.worker_id input.fencing_token now db)

module _ {ℓ} {A : Type ℓ} (strict : Bool) (valid : WorkflowAction → Command A → Bool) where
  abbrev pub write_exhausted :
      Fresh → DeadLetter → ℕ → Database A → WorkflowRow A → Option Failure → Result (Database A)
  write_exhausted fresh input now db row none = raise (bug "The event has no failure.")
  write_exhausted fresh input now db row (some failure) =
      let letter = exhausted_letter fresh input failure row now in
      let audit =
        service_audit fresh.audit_id input.event.envelope "provisioning_retry_exhausted"
          AuditOutcome.failed now in
      required_update strict
        (any (of_claim input.operation_id input.fencing_token) db.workflows
          && any (of_receipt row) db.receipts)
        (record db {
          workflows =
              update_rows (of_claim input.operation_id input.fencing_token)
                (dead_lettered_row input failure now) db.workflows;
          receipts = consumed now row db.receipts;
          dead_letters = write_dead_letter letter db.dead_letters;
          leases = release_lease row.instance_id input.worker_id input.fencing_token now db.leases;
          audit = audit ∷ db.audit;
          outbox =
              OutboxRow.audit_recorded audit none
              ∷ OutboxRow.dead_lettered letter
              ∷ OutboxRow.provisioning_event input.event
              ∷ db.outbox;
        })

  abbrev pub write_dead_letter_workflow :
      Fresh → DeadLetter → ℕ → Database A → Result (WorkflowRow A) → Result (Database A)
  write_dead_letter_workflow fresh input now db (raise e) = raise e
  write_dead_letter_workflow fresh input now db (ok row) =
      if valid row.action row.command
      then write_exhausted fresh input now db row (failure_of input.event.payload)
      else raise (bug "Cannot dead-letter an invalid persisted workflow command.")

  unfoldable pub store_dead_letter_workflow :
      Fresh → DeadLetter → ℕ → Database A → Result (Database A)
  unfolding assert_lease release_lease write_dead_letter
  store_dead_letter_workflow fresh input now db =
      write_dead_letter_workflow fresh input now db
        (assert_lease input.operation_id input.worker_id input.fencing_token now db)

  -- The write that a turn asks for.
  unfoldable pub write : Fresh → StoreCall → ℕ → Database A → Result (Database A)
  unfolding store_checkpoint store_complete store_dead_letter_workflow
  write fresh (StoreCall.checkpoint input) now db = store_checkpoint strict input now db
  write fresh (StoreCall.complete input) now db = store_complete strict fresh input now db
  write fresh (StoreCall.dead_letter_workflow input) now db =
      store_dead_letter_workflow fresh input now db
