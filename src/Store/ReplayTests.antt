-- ===== src/Store/ReplayTests.antt =====
-- A store with one exhausted workflow, whose command is replayed under an authorization.
use private_cloud_control_pl.Prelude.{◌≡◌, refl, ℕ, ◌+◌, Bool, true, none, some, [], ◌∷◌}
use private_cloud_control_pl.Contracts.Events.{FailureCategory, PowerAction, PowerRequested}
use private_cloud_control_pl.Workflow.Stage.{WorkflowAction, PersistedStage, TerminalStage}
use private_cloud_control_pl.Workflow.Step.{Command, Result, ok, raise}
use private_cloud_control_pl.Store.Table.{find_row, update_rows}
use private_cloud_control_pl.Store.Rows.{
  WorkflowStatus, WorkflowRow, Delivery, DeadLetterStatus, DeadLetterRow, ReplayRequest, Database,
}
use private_cloud_control_pl.Store.Inbox.{accepted, insert_receipt, new_row}
use private_cloud_control_pl.Store.Admission.{
  LifecycleCommand, admit_command, admit_authorized_replay,
}
use private_cloud_control_pl.Store.Replay.{Reopened, admit_command-Reopened}
use private_cloud_control_pl.Store.Idempotence.{IsDuplicate, admit_command-IsDuplicate}
use private_cloud_control_pl.Store.Authorization.{
  ReplayDecision, ReplayIds, admit_replay_request, authorize_request, replayed_command,
}
use private_cloud_control_pl.Store.Authorization.Granted.{Granted, admit_replay_request-Granted}

abbrev start_command : Command PowerRequested
start_command = record {
  envelope = record {
    event_id = 70;
    aggregate_id = 7;
    project_id = 1;
    operation_id = 700;
    correlation_id = 71;
    causation_id = 72;
    occurred_at = 1000;
    trace_context = 5;
    partition_key = "7";
  };
  payload = record {
    action = PowerAction.start;
    provider_profile_id = "profile-1";
    create_operation_id = 600;
  };
}

abbrev delivery_of : ℕ → ℕ → Delivery
delivery_of outbox_id generation = record {
  topic = "provisioning.commands.v1";
  partition = 0;
  offset = outbox_id;
  outbox_id = outbox_id;
  replay_generation = generation;
}

abbrev failed_row : WorkflowRow PowerRequested
failed_row =
    record (new_row WorkflowAction.power_instance start_command (delivery_of 10 0) (some "vm-7")
      1000) { status = WorkflowStatus.failed; stage = PersistedStage.terminal TerminalStage.failed }

abbrev exhausted : DeadLetterRow PowerRequested
exhausted = record {
  original_event_id = 70;
  dead_letter_event_id = 901;
  aggregate_id = 7;
  project_id = 1;
  operation_id = 700;
  original_action = some WorkflowAction.power_instance;
  original_payload = start_command;
  failure_category = FailureCategory.transient;
  failure_code = "WORKFLOW_RETRY_EXHAUSTED";
  safe_message = "The provider remained unavailable.";
  attempts = 8;
  replay_allowed = true;
  replay_generation = 0;
  status = DeadLetterStatus.still_open;
  dead_lettered_at = 2000;
  last_replay_at = none;
}

abbrev empty_store : Database PowerRequested
empty_store = record {
  workflows = [];
  leases = [];
  receipts = [];
  dead_letters = [];
  replay_requests = [];
  poison_records = [];
  audit = [];
  outbox = [];
}

abbrev exhausted_store : Database PowerRequested
exhausted_store = record empty_store { workflows = failed_row ∷ []; dead_letters = exhausted ∷ [] }

abbrev request_70 : ReplayRequest
request_70 = record {
  envelope = record start_command.envelope {
    event_id = 90;
    correlation_id = 91;
    occurred_at = 3000;
  };
  replay_request_id = 33;
  original_event_id = 70;
}

abbrev hash_of : Command PowerRequested → ℕ
hash_of command = command.envelope.occurred_at + command.envelope.correlation_id

abbrev request_hash_of : ReplayRequest → ℕ
request_hash_of request = request.replay_request_id

abbrev all_valid : WorkflowAction → Command PowerRequested → Bool
all_valid action command = true

abbrev all_requests : ReplayRequest → Bool
all_requests request = true

abbrev new_ids : ReplayIds
new_ids = record { outbox_id = 500; audit_id = 501 }

-- The database after a decision or an admission that returned.
abbrev after_of {ℓ} : {A B : Type ℓ} → Database A → Result (B × Database A) → Database A
after_of db (ok (outcome, after)) = after
after_of db (raise e) = db

abbrev granted_store : Database PowerRequested
granted_store = after_of exhausted_store (
    admit_replay_request true all_valid hash_of request_hash_of new_ids request_70
      (delivery_of 20 0) 3100 exhausted_store)

granted :
    admit_replay_request true all_valid hash_of request_hash_of new_ids request_70
      (delivery_of 20 0)
      3100
      exhausted_store
    ≡ ok (ReplayDecision.accepted, granted_store)
unfolding admit_replay_request insert_receipt find_row
granted = refl

admit_replay_request-Granted_example :
    Granted hash_of new_ids request_70 3100 exhausted_store granted_store
admit_replay_request-Granted_example =
    admit_replay_request-Granted true all_valid hash_of request_hash_of new_ids request_70 3100
      (delivery_of 20 0) exhausted_store granted_store granted

-- The published command comes back under its outbox identity.
abbrev replayed_input : LifecycleCommand PowerRequested
replayed_input = record {
  command = replayed_command request_70 3100 start_command;
  schema_action = some WorkflowAction.power_instance;
}

abbrev reopened_store : Database PowerRequested
reopened_store =
    after_of granted_store (
      admit_command true all_requests hash_of replayed_input (delivery_of 500 1) 3200 granted_store)

reopened :
    admit_command true all_requests hash_of replayed_input (delivery_of 500 1) 3200 granted_store
    ≡ ok (accepted, reopened_store)
unfolding admit_command admit_authorized_replay admit_replay_request insert_receipt find_row
    update_rows authorize_request
reopened = refl

admit_command-Reopened_example :
    Reopened hash_of replayed_input (delivery_of 500 1) 3200 granted_store reopened_store
admit_command-Reopened_example =
    admit_command-Reopened true all_requests hash_of replayed_input (delivery_of 500 1) 3200
      granted_store reopened_store (λ e. cc) reopened

admit_command-IsDuplicate_example :
    IsDuplicate true all_requests hash_of replayed_input (delivery_of 500 1) 3300 reopened_store
admit_command-IsDuplicate_example =
    admit_command-IsDuplicate true all_requests hash_of replayed_input (delivery_of 500 1)
      (delivery_of 500 1) 3200 3300 granted_store reopened_store refl reopened
