-- ===== src/Control/Reconciliation/Tests.antt =====
-- Instances that were never reconciled, with and without a resource at the provider.
use private_cloud_control_pl.Prelude.{
  ◌≡◌, ◌≤◌, ℕ, zero, suc, String, Bool, false, none, some, List, [], ◌∷◌, length, All, refl, arith,
  decimal, contains, ◌++◌,
}
use private_cloud_control_pl.Contracts.Events.{EventEnvelope}
use private_cloud_control_pl.Contracts.Provider.{ObservedPowerState}
use private_cloud_control_pl.Workflow.Stage.{PersistedStage, TerminalStage, WorkflowAction}
use private_cloud_control_pl.Store.Rows.{WorkflowRow, WorkflowStatus}
use private_cloud_control_pl.Control.Rows.{InstanceRow, ControlDatabase}
use private_cloud_control_pl.Control.Reconciliation.{
  candidates_of, limit_rows, select_rows, claim_stale_instances, record_observation,
}
use private_cloud_control_pl.Control.Reconciliation.Worker.{Response, Moment, sweep, batch_size}
use private_cloud_control_pl.Control.Reconciliation.Intent.{Reports, sweep-Reports}
use private_cloud_control_pl.Control.Reconciliation.Claims.{
  is_among, claim_stale_instances-IsOf, claim_stale_instances-apart,
}
use private_cloud_control_pl.Control.Reconciliation.Origins.{IsOf}
use private_cloud_control_pl.Control.Reconciliation.Starvation.{waiting, sweeps, sweeps-starved}
use private_cloud_control_pl.Store.Table.{update_rows}

abbrev instance : ℕ → String → InstanceRow
instance id lifecycle_state = record {
  id = id;
  project_id = 1;
  provider_profile_id = "lab";
  flavor_id = "small";
  request = 0;
  desired = record { cpu_count = 2; memory_mib = 2048; disk_gib = 20 };
  desired_power_state = "running";
  lifecycle_state = lifecycle_state;
  active_operation_id = none;
  create_operation_id = some 2;
  retention_deadline = none;
  purge_eligible = false;
  drift = "none";
  last_reconciled_at = none;
  observed_exists = none;
  observed_power_state = none;
  observed_cpu_count = none;
  observed_memory_mib = none;
  observed_disk_gib = none;
  observed_marker_match = none;
  observed_at = none;
  updated_at = 0;
}

abbrev with_instances : List InstanceRow → ControlDatabase
with_instances rows = record {
  instances = rows;
  operations = [];
  snapshots = [];
  replay_requests = [];
  instance_documents = [];
  operation_documents = [];
  snapshot_documents = [];
  dead_letters = [];
  receipts = [];
  poison_records = [];
  outbox = [];
}

abbrev envelope : EventEnvelope
envelope = record {
  event_id = 11;
  aggregate_id = 7;
  project_id = 1;
  operation_id = 2;
  correlation_id = 12;
  causation_id = 13;
  occurred_at = 100;
  trace_context = 0;
  partition_key = "7";
}

-- The workflow that created instance 7.
abbrev creation : WorkflowRow ℕ
creation = record {
  operation_id = 2;
  event_id = 11;
  project_id = 1;
  instance_id = 7;
  action = WorkflowAction.create_instance;
  command = record { envelope = envelope; payload = 0 };
  status = WorkflowStatus.succeeded;
  stage = PersistedStage.terminal TerminalStage.completed;
  attempt = 1;
  stage_attempt = 0;
  retry_started_at = none;
  replay_generation = 0;
  trace_context = 0;
  fencing_token = 1;
  provider_resource_id = some "910001";
  provider_task_reference = none;
  next_attempt_at = 0;
  failure = none;
  last_error = none;
  created_at = 10;
  updated_at = 20;
  completed_at = some 20;
}

abbrev workflows : List (WorkflowRow ℕ)
workflows = creation ∷ []

abbrev unlocked : ℕ → Bool
unlocked id = false

abbrev db : ControlDatabase
db = with_instances (instance 6 "failed" ∷ instance 7 "active" ∷ [])

-- The instance is gone at the provider.
abbrev moment : Moment
moment = record {
  response = Response.answered (
      some record {
        exists = false;
        power_state = ObservedPowerState.stopped;
        resources = none;
        ownership = none;
        observed_at = none;
      });
  observed_at = 1000;
  fresh = record { event_id = 30; evidence_id = 31; trace_context = 0; updated_at = 1001 };
  stopping = false;
}

finds_missing : length (sweep decimal workflows unlocked 900 (λ round. moment) db).outbox ≡ 1
unfolding sweep claim_stale_instances record_observation update_rows contains
finds_missing = refl

sweep-Reports_example : Reports db (sweep decimal workflows unlocked 900 (λ round. moment) db)
sweep-Reports_example = sweep-Reports decimal workflows unlocked 900 (λ round. moment) db

claim_stale_instances-IsOf_example :
    All
      (IsOf workflows unlocked 600 db.instances)
      (claim_stale_instances workflows unlocked 25 600 900 db).0
    × (length (claim_stale_instances workflows unlocked 25 600 900 db).0 ≤ 25)
claim_stale_instances-IsOf_example = claim_stale_instances-IsOf workflows unlocked 25 600 900 db

claim_stale_instances-apart_example :
    All
      (λ c. is_among (claim_stale_instances workflows unlocked 25 600 900 db).0 c ≡ false)
      (claim_stale_instances workflows unlocked 25 700 1000
        (claim_stale_instances workflows unlocked 25 600 900 db).1).0
claim_stale_instances-apart_example =
    claim_stale_instances-apart workflows workflows unlocked unlocked 25 25 600 700 900 1000 db
      (omega arith)

-- Creations that failed before the provider gave a resource.
abbrev failures : ℕ → List InstanceRow
failures zero = []
failures (suc n) = instance (suc n) "failed" ∷ failures n

-- Twenty-five of them stand before instance 40, which has a resource and which no sweep reaches.
abbrev starved : ControlDatabase
starved = with_instances (failures 25 ++ instance 40 "active" ∷ [])

abbrev creation_of_40 : List (WorkflowRow ℕ)
creation_of_40 = record creation { instance_id = 40 } ∷ []

starved_waiting : batch_size ≤ length (waiting unlocked starved.instances)
unfolding select_rows contains
starved_waiting = omega arith

starved_lost :
    candidates_of creation_of_40 (limit_rows batch_size (waiting unlocked starved.instances)) ≡ []
unfolding candidates_of limit_rows select_rows contains
starved_lost = refl

sweeps-starved_example :
    sweeps decimal creation_of_40 unlocked (λ n. 900) (λ n round. moment) 3 starved ≡ starved
sweeps-starved_example =
    sweeps-starved decimal creation_of_40 unlocked (λ n. 900) (λ n round. moment) starved
      starved_waiting starved_lost 3
