-- ===== src/Store/Tests.antt =====
-- A store with one power workflow, on which the theorems about leases are applied.
use private_cloud_control_pl.Prelude.{
  ◌≡◌, ◌≢◌, refl, ℕ, String, Bool, true, none, some, [], ◌∷◌, arith,
}
use private_cloud_control_pl.Contracts.Events.{
  EventEnvelope, PowerAction, PowerRequested, WorkflowEvent, EventData, OperationState,
}
use private_cloud_control_pl.Workflow.Stage.{
  WorkflowStage, WorkflowAction, PersistedStage, action_eq,
}
use private_cloud_control_pl.Workflow.Step.{
  Command, Claimed, TaskReference, Checkpoint, StoreCall, ok,
}
use private_cloud_control_pl.Store.Table.{find_row, update_rows}
use private_cloud_control_pl.Store.Rows.{WorkflowStatus, WorkflowRow, LeaseRow, OutboxRow, Database}
use private_cloud_control_pl.Store.Lease.{
  claim_at, claimed_row, claim_next, claim_ready, ready_workflow, upsert_lease, taken, assert_lease,
  released, release_lease,
}
use private_cloud_control_pl.Store.Writes.{Fresh, checkpointed, store_checkpoint, write}
use private_cloud_control_pl.Store.Fencing.{done, claims}
use private_cloud_control_pl.Store.Fencing.Exclusion.{
  NewClaim, claim_next-NewClaim, write_superseded,
}
use private_cloud_control_pl.Store.Fencing.Isolation.{Isolated, write-Isolated}

abbrev envelope_7 : EventEnvelope
envelope_7 = record {
  event_id = 70;
  aggregate_id = 7;
  project_id = 1;
  operation_id = 700;
  correlation_id = 71;
  causation_id = 72;
  occurred_at = 1000;
  trace_context = 5;
  partition_key = "7";
}

abbrev pub start_row : WorkflowRow PowerRequested
start_row = record {
  operation_id = 700;
  event_id = 70;
  project_id = 1;
  instance_id = 7;
  action = WorkflowAction.power_instance;
  command = record {
    envelope = envelope_7;
    payload = record {
      action = PowerAction.start;
      provider_profile_id = "profile-1";
      create_operation_id = 600;
    };
  };
  status = WorkflowStatus.running;
  stage = PersistedStage.active WorkflowStage.observing_power;
  attempt = 4;
  stage_attempt = 0;
  retry_started_at = none;
  replay_generation = 0;
  trace_context = 5;
  fencing_token = 4;
  provider_resource_id = some "vm-7";
  provider_task_reference = none;
  next_attempt_at = 1500;
  failure = none;
  last_error = none;
  created_at = 1000;
  updated_at = 1400;
  completed_at = none;
}

abbrev pub lease_a : LeaseRow
lease_a = record {
  instance_id = 7;
  owner_id = "worker-a";
  fencing_token = 4;
  leased_until = 1800;
  updated_at = 1400;
}

abbrev pub store_7 : Database PowerRequested
store_7 = record {
  workflows = start_row ∷ [];
  leases = lease_a ∷ [];
  receipts = [];
  dead_letters = [];
  replay_requests = [];
  poison_records = [];
  audit = [];
  outbox = [];
}

abbrev pub all_valid : WorkflowAction → Command PowerRequested → Bool
all_valid action command = true

-- Worker b claims at 2000, after the lease of worker a has expired.
abbrev pub claim_b : Claimed PowerRequested
claim_b = claim_at (claimed_row 5 2000 start_row) WorkflowStage.observing_power

abbrev pub store_b : Database PowerRequested
store_b = record store_7 {
  workflows = claimed_row 5 2000 start_row ∷ [];
  leases = taken "worker-b" 30 2000 lease_a ∷ [];
}

pub claimed_by_b :
    claim_next all_valid "worker-b" 30 WorkflowAction.power_instance 2000 store_7
    ≡ ok (some claim_b, store_b)
unfolding claim_next claim_ready ready_workflow upsert_lease find_row update_rows action_eq
claimed_by_b = refl

abbrev progressed_event : WorkflowEvent
progressed_event = record {
  envelope = envelope_7;
  payload = EventData.progressed (record {
    stage = WorkflowStage.observing_power;
    attempt = 4;
    operation_state = OperationState.running;
    provider_task_reference = none;
    next_action_at = none;
  });
}

abbrev checkpoint_b : Checkpoint
checkpoint_b = record {
  operation_id = 700;
  worker_id = "worker-b";
  fencing_token = 5;
  stage = WorkflowStage.observing_power;
  provider_resource_id = none;
  provider_task_reference = TaskReference.unchanged;
  next_attempt_at = none;
  retry = none;
  event = progressed_event;
}

abbrev write_with : String → ℕ → StoreCall
write_with worker token =
    StoreCall.checkpoint (record checkpoint_b { worker_id = worker; fencing_token = token })

abbrev pub fresh_ids : Fresh
fresh_ids = record { audit_id = 900; dead_letter_event_id = 901 }

claim_next-NewClaim_example : NewClaim "worker-b" 2000 claim_b store_7 store_b
claim_next-NewClaim_example =
    claim_next-NewClaim all_valid "worker-b" 30 WorkflowAction.power_instance 2000 claim_b store_7
      store_b claimed_by_b

-- Worker a, which held token 3 once, cannot write after b has claimed.
write_superseded_example :
    write true all_valid fresh_ids (write_with "worker-a" 3) 2500 store_b ≢ ok store_7
unfolding find_row
write_superseded_example =
    write_superseded true all_valid fresh_ids (write_with "worker-a" 3) 2500 7 store_7 store_b
      store_7 refl (omega arith)
      (claims "worker-b" 30 WorkflowAction.power_instance 2000 (some claim_b) store_7 store_b
        store_b claimed_by_b done)

abbrev written_by_b : Database PowerRequested
written_by_b = record store_b {
  workflows = checkpointed checkpoint_b 2500 (claimed_row 5 2000 start_row) ∷ [];
  leases = released 2500 (taken "worker-b" 30 2000 lease_a) ∷ [];
  outbox = OutboxRow.provisioning_event progressed_event ∷ [];
}

write_by_b :
    write true all_valid fresh_ids (StoreCall.checkpoint checkpoint_b) 2500 store_b
    ≡ ok written_by_b
unfolding write store_checkpoint assert_lease release_lease find_row update_rows
write_by_b = refl

write-Isolated_example : Isolated (StoreCall.checkpoint checkpoint_b) 2500 store_b written_by_b
write-Isolated_example =
    write-Isolated true all_valid fresh_ids (StoreCall.checkpoint checkpoint_b) 2500 store_b
      written_by_b write_by_b
