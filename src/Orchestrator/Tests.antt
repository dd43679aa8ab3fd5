-- ===== src/Orchestrator/Tests.antt =====
-- A turn on a store with a power workflow and a purge.
use private_cloud_control_pl.Prelude.{◌≡◌, ◌≢◌, ℕ, Bool, true, refl, none, some, [], ◌∷◌, arith}
use private_cloud_control_pl.Contracts.Events.{PowerRequested}
use private_cloud_control_pl.Workflow.Stage.{
  WorkflowStage, WorkflowAction, PersistedStage, action_eq,
}
use private_cloud_control_pl.Workflow.Step.{Command, Claimed, ok, raise}
use private_cloud_control_pl.Workflow.Engine.{succeed}
use private_cloud_control_pl.Workflow.Recovery.{run_claimed}
use private_cloud_control_pl.Workflow.Power.{power_capability}
use private_cloud_control_pl.Workflow.Executors.{Executor, executor, CommandData, payload_of}
use private_cloud_control_pl.Workflow.Tests.{env_now, lossy, start_at, started, start_succeeds}
use private_cloud_control_pl.Store.Table.{find_row, update_rows}
use private_cloud_control_pl.Store.Rows.{
  WorkflowStatus, WorkflowRow, Delivery, ReceiptRow, ReplayRequest, Database,
}
use private_cloud_control_pl.Store.Lease.{
  of_operation, claim_at, claimed_row, claim_next, claim_ready, ready_workflow, upsert_lease, taken,
}
use private_cloud_control_pl.Store.Writes.{write}
use private_cloud_control_pl.Store.Fencing.{done, claims, admits}
use private_cloud_control_pl.Store.Inbox.{accepted, insert_receipt}
use private_cloud_control_pl.Store.Admission.{
  LifecycleCommand, Admission, admit_command, admit_original_delivery,
}
use private_cloud_control_pl.Store.Tests.{start_row, lease_a, fresh_ids}
use private_cloud_control_pl.Orchestrator.{Outcome, run_one}
use private_cloud_control_pl.Orchestrator.Turns.{run_claimed_superseded}

-- A row of an instance, at the start of an action.
abbrev row_of : ℕ → ℕ → WorkflowAction → CommandData → WorkflowRow CommandData
row_of operation_id instance_id action data_of = record {
  operation_id = operation_id;
  event_id = 70;
  project_id = 1;
  instance_id = instance_id;
  action = action;
  command = record {
    envelope = record start_row.command.envelope {
      operation_id = operation_id;
      aggregate_id = instance_id;
    };
    payload = data_of;
  };
  status = WorkflowStatus.running;
  stage = PersistedStage.active WorkflowStage.observing_power;
  attempt = 4;
  stage_attempt = 0;
  retry_started_at = none;
  replay_generation = 0;
  trace_context = 5;
  fencing_token = 4;
  provider_resource_id = some "vm-7";
  provider_task_reference = none;
  next_attempt_at = 1500;
  failure = none;
  last_error = none;
  created_at = 1000;
  updated_at = 1400;
  completed_at = none;
}

abbrev power_row : WorkflowRow CommandData
power_row =
    row_of 700 7 WorkflowAction.power_instance (CommandData.power_data start_row.command.payload)

abbrev purge_row : WorkflowRow CommandData
purge_row = row_of 800 8 WorkflowAction.purge_instance (
    CommandData.purge_data (record {
      purge_authorization_id = 44;
      retention_deadline = 900;
      reason_reference = "44";
      provider_profile_id = "profile-1";
      create_operation_id = 600;
    }))

abbrev mixed_store : Database CommandData
mixed_store = record {
  workflows = purge_row ∷ power_row ∷ [];
  leases = lease_a ∷ [];
  receipts = [];
  dead_letters = [];
  replay_requests = [];
  poison_records = [];
  audit = [];
  outbox = [];
}

abbrev any_valid : WorkflowAction → Command CommandData → Bool
any_valid action command = true

abbrev power_start : Claimed PowerRequested
power_start = start_at WorkflowStage.observing_power

abbrev delivery : Delivery
delivery = record {
  topic = "provisioning.commands.v1";
  partition = 0;
  offset = 12;
  outbox_id = 12;
  replay_generation = 0;
}

abbrev receipt : ReceiptRow
receipt = record {
  event_id = 70;
  delivery = delivery;
  payload_hash = 70;
  received_at = 1000;
  completed_at = none;
}

-- A turn of the power executor on the mixed store leaves the purge as it is.
abbrev turn : Outcome CommandData
turn =
    run_one true Executor.power any_valid env_now lossy
      (record { claimed_at = 2000; written_at = 2500; fresh = fresh_ids }) 30
      (record mixed_store { receipts = receipt ∷ [] })

turn_advances : turn.result ≡ ok true
unfolding run_one claim_next claim_ready ready_workflow upsert_lease find_row update_rows action_eq
    write run_claimed executor power_capability succeed
turn_advances = refl

turn_leaves_purge : find_row (of_operation 800) turn.database.workflows ≡ some purge_row
unfolding run_one claim_next claim_ready ready_workflow upsert_lease find_row update_rows action_eq
    write run_claimed executor power_capability succeed
turn_leaves_purge = refl

-- What worker a still holds under token 3, where the lease has token 4 by now.
abbrev claim_a : Claimed CommandData
claim_a = record {
  action = WorkflowAction.power_instance;
  command = record {
    envelope = power_start.command.envelope;
    payload = CommandData.power_data power_start.command.payload;
  };
  trace_context = 5;
  stage = WorkflowStage.observing_power;
  attempt = 1;
  stage_attempt = 0;
  retry_started_at = none;
  fencing_token = 3;
  provider_resource_id = some "vm-7";
  provider_task_reference = some "task-7";
}

-- Worker b claims once the lease of the instance has expired.
abbrev claimed_store : Database CommandData
claimed_store = record mixed_store {
  workflows = purge_row ∷ claimed_row 5 2000 power_row ∷ [];
  leases = taken "worker-b" 30 2000 lease_a ∷ [];
}

claimed_by_b :
    claim_next any_valid "worker-b" 30 WorkflowAction.power_instance 2000 mixed_store
    ≡ ok (
      some (claim_at (claimed_row 5 2000 power_row) WorkflowStage.observing_power),
      claimed_store,
    )
unfolding claim_next claim_ready ready_workflow upsert_lease find_row update_rows action_eq
claimed_by_b = refl

-- The purge of another instance arrives after that.
abbrev purge_input : LifecycleCommand CommandData
purge_input = record {
  command = record {
    envelope = record start_row.command.envelope {
      event_id = 90;
      operation_id = 900;
      aggregate_id = 9;
    };
    payload = purge_row.command.payload;
  };
  schema_action = some WorkflowAction.purge_instance;
}

abbrev hash_of : Command CommandData → ℕ
hash_of command = command.envelope.event_id

abbrev any_request : ReplayRequest → Bool
any_request request = true

abbrev database_of : Admission CommandData → Database CommandData
database_of (ok (admission, after)) = after
database_of (raise e) = claimed_store

abbrev arrived_store : Database CommandData
arrived_store =
    database_of (admit_command true any_request hash_of purge_input delivery 2100 claimed_store)

arrived :
    admit_command true any_request hash_of purge_input delivery 2100 claimed_store
    ≡ ok (accepted, arrived_store)
unfolding admit_command admit_original_delivery insert_receipt find_row
arrived = refl

run_claimed_superseded_example :
    write true any_valid fresh_ids started 2500 arrived_store ≢ ok mixed_store
unfolding find_row payload_of
run_claimed_superseded_example =
    run_claimed_superseded true Executor.power any_valid env_now lossy claim_a power_start started
      fresh_ids 2500 7 mixed_store arrived_store mixed_store refl start_succeeds refl (omega arith)
      (claims "worker-b" 30 WorkflowAction.power_instance 2000
        (some (claim_at (claimed_row 5 2000 power_row) WorkflowStage.observing_power)) mixed_store
        claimed_store arrived_store claimed_by_b
        (admits any_request hash_of purge_input delivery 2100 accepted claimed_store arrived_store
          arrived_store arrived done))
