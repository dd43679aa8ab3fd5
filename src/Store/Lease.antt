-- ===== src/Store/Lease.antt =====
-- packages/postgres-adapter/src/workflow-store.ts: `claimNext`, `readyWorkflow`, `assertLease` and
-- `releaseLease`. A transaction is one step, so that no row is locked by another.
use private_cloud_control_pl.Prelude.{
  ℕ, ◌+◌, ◌*◌, String, str_eq, Bool, true, false, not, ◌&&◌, ◌||◌, Option, none, some, List, [],
  ◌∷◌, ltb, leb, ◌==◌, if◌then◌else◌,
}
use private_cloud_control_pl.Workflow.Stage.{
  WorkflowStage, WorkflowAction, PersistedStage, action_eq,
}
use private_cloud_control_pl.Workflow.Step.{Command, Claimed, Result, ok, raise, bug}
use private_cloud_control_pl.Workflow.Engine.{is_present}
use private_cloud_control_pl.Store.Table.{find_row, update_rows}
use private_cloud_control_pl.Store.Rows.{WorkflowStatus, WorkflowRow, LeaseRow, Database}

abbrev pub minimum_lease_seconds : ℕ
minimum_lease_seconds = 5

abbrev pub maximum_lease_seconds : ℕ
maximum_lease_seconds = 300

abbrev pub of_instance : ℕ → LeaseRow → Bool
of_instance instance lease = lease.instance_id == instance

abbrev pub find_lease : ℕ → List LeaseRow → Option LeaseRow
find_lease instance leases = find_row (of_instance instance) leases

-- `leased_until <= now() OR owner_id = worker`.
abbrev pub may_take : String → ℕ → LeaseRow → Bool
may_take worker now lease = leb lease.leased_until now || str_eq lease.owner_id worker

abbrev pub may_lease : String → ℕ → Option LeaseRow → Bool
may_lease worker now none = true
may_lease worker now (some lease) = may_take worker now lease

abbrev pub lease_end : ℕ → ℕ → ℕ
lease_end now seconds = now + seconds * 1000

abbrev pub taken : String → ℕ → ℕ → LeaseRow → LeaseRow
taken worker seconds now lease = record lease {
  owner_id = worker;
  fencing_token = lease.fencing_token + 1;
  leased_until = lease_end now seconds;
  updated_at = now;
}

-- `INSERT INTO workflow.instance_leases … ON CONFLICT DO UPDATE … WHERE … RETURNING fencing_token`.
abbrev pub upsert_found :
    String → ℕ → ℕ → ℕ → List LeaseRow → Option LeaseRow → Option (ℕ × List LeaseRow)
upsert_found worker seconds now instance leases none = some (
  1,
  record {
    instance_id = instance;
    owner_id = worker;
    fencing_token = 1;
    leased_until = lease_end now seconds;
    updated_at = now;
  }
      ∷ leases,
)
upsert_found worker seconds now instance leases (some lease) =
    if may_take worker now lease
    then some (
      lease.fencing_token + 1,
      update_rows (of_instance instance) (taken worker seconds now) leases,
    )
    else none

unfoldable pub upsert_lease : String → ℕ → ℕ → ℕ → List LeaseRow → Option (ℕ × List LeaseRow)
upsert_lease worker seconds now instance leases =
    upsert_found worker seconds now instance leases (find_lease instance leases)

-- `releaseLease`.
abbrev pub holds : ℕ → String → ℕ → LeaseRow → Bool
holds instance worker token lease =
    lease.instance_id == instance && str_eq lease.owner_id worker && lease.fencing_token == token

abbrev pub released : ℕ → LeaseRow → LeaseRow
released now lease = record lease { leased_until = now; updated_at = now }

unfoldable pub release_lease : ℕ → String → ℕ → ℕ → List LeaseRow → List LeaseRow
release_lease instance worker token now leases =
    update_rows (holds instance worker token) (released now) leases

abbrev pub is_live_status : WorkflowStatus → Bool
is_live_status WorkflowStatus.running = true
is_live_status WorkflowStatus.retry_wait = true
is_live_status _ = false

abbrev pub kept_text : Option String → Option String
kept_text text = if is_present text then text else none

-- What `assertLease` asks of the lease.
abbrev pub is_current : String → ℕ → ℕ → LeaseRow → Bool
is_current worker token now lease =
    str_eq lease.owner_id worker && lease.fencing_token == token && ltb now lease.leased_until

module _ {ℓ} {A : Type ℓ} where
  abbrev pub of_operation : ℕ → WorkflowRow A → Bool
  of_operation operation row = row.operation_id == operation

  abbrev pub find_workflow : ℕ → List (WorkflowRow A) → Option (WorkflowRow A)
  find_workflow operation rows = find_row (of_operation operation) rows

  -- The `WHERE` of `readyWorkflow`.
  abbrev pub is_ready : String → ℕ → WorkflowAction → List LeaseRow → WorkflowRow A → Bool
  is_ready worker now action leases row =
      action_eq row.action action
      && is_live_status row.status
      && leb row.next_attempt_at now
      && may_lease worker now (find_lease row.instance_id leases)

  -- `ORDER BY w.next_attempt_at, w.created_at`.
  abbrev pub is_before : WorkflowRow A → WorkflowRow A → Bool
  is_before a b =
      ltb a.next_attempt_at b.next_attempt_at
      || (a.next_attempt_at == b.next_attempt_at && leb a.created_at b.created_at)

  abbrev pub earlier : WorkflowRow A → Option (WorkflowRow A) → WorkflowRow A
  earlier row none = row
  earlier row (some other) = if is_before row other then row else other

  unfoldable pub ready_workflow :
      String → ℕ → WorkflowAction → List LeaseRow → List (WorkflowRow A) → Option (WorkflowRow A)
  ready_workflow worker now action leases [] = none
  ready_workflow worker now action leases (row ∷ rows) =
      let rest = ready_workflow worker now action leases rows in
      if is_ready worker now action leases row then some (earlier row rest) else rest

  abbrev pub claimed_row : ℕ → ℕ → WorkflowRow A → WorkflowRow A
  claimed_row token now row = record row {
    status = WorkflowStatus.running;
    attempt = row.attempt + 1;
    fencing_token = token;
    updated_at = now;
  }

  -- The claim that is handed over, where the stage of the row is one that can run.
  abbrev pub claim_at : WorkflowRow A → WorkflowStage → Claimed A
  claim_at row stage = record {
    action = row.action;
    command = row.command;
    trace_context = row.trace_context;
    stage = stage;
    attempt = row.attempt;
    stage_attempt = row.stage_attempt;
    retry_started_at = row.retry_started_at;
    fencing_token = row.fencing_token;
    provider_resource_id = kept_text row.provider_resource_id;
    provider_task_reference = kept_text row.provider_task_reference;
  }

  abbrev pub claim_of : WorkflowRow A → PersistedStage → Result (Claimed A)
  claim_of row (PersistedStage.active stage) = ok (claim_at row stage)
  claim_of row (PersistedStage.terminal stage) =
      raise (bug "The persisted stage is not a workflow stage of this deployment.")

  abbrev pub handed_over :
      Database A → Result (Claimed A) → Result (Option (Claimed A) × Database A)
  handed_over db (ok claim) = ok (some claim, db)
  handed_over db (raise e) = raise e

-- `claimNext` is refused without a worker or with a lease that is too short or too long.
abbrev pub is_claim_request : String → ℕ → Bool
is_claim_request worker seconds =
    not (str_eq worker "") && leb minimum_lease_seconds seconds && leb seconds maximum_lease_seconds

-- `lifecycleCommand`: the contract validators are generated, and a parameter here.
module _ {ℓ} {A : Type ℓ} (valid : WorkflowAction → Command A → Bool) where
  abbrev pub claimed_with :
      ℕ
      → Database A
      → WorkflowRow A
      → Option (ℕ × List LeaseRow)
      → Result (Option (Claimed A) × Database A)
  claimed_with now db row none = ok (none, db)
  claimed_with now db row (some (token, leases)) =
      let claimed = claimed_row token now row in
      let after = record db {
        leases = leases;
        workflows =
            update_rows (of_operation row.operation_id) (claimed_row token now) db.workflows;
      } in
      if valid claimed.action claimed.command
      then handed_over after (claim_of claimed claimed.stage)
      else raise (bug "The persisted workflow command is not supported by this deployment.")

  unfoldable pub claim_ready :
      String
      → ℕ
      → ℕ
      → Database A
      → Option (WorkflowRow A)
      → Result (Option (Claimed A) × Database A)
  unfolding upsert_lease
  claim_ready worker seconds now db none = ok (none, db)
  claim_ready worker seconds now db (some row) =
      claimed_with now db row (upsert_lease worker seconds now row.instance_id db.leases)

  unfoldable pub claim_next :
      String → ℕ → WorkflowAction → ℕ → Database A → Result (Option (Claimed A) × Database A)
  unfolding claim_ready ready_workflow
  claim_next worker seconds action now db =
      if is_claim_request worker seconds
      then claim_ready worker seconds now db
          (ready_workflow worker now action db.leases db.workflows)
      else raise (bug "A worker ID and a lease between 5 and 300 seconds are required.")

module _ {ℓ} {A : Type ℓ} where
  abbrev pub fenced_out : Result (WorkflowRow A)
  fenced_out = raise (bug "Workflow lease is missing, expired, or fenced.")

  abbrev pub with_lease : String → ℕ → ℕ → WorkflowRow A → Option LeaseRow → Result (WorkflowRow A)
  with_lease worker token now row none = fenced_out
  with_lease worker token now row (some lease) =
      if is_current worker token now lease then ok row else fenced_out

  abbrev pub with_workflow :
      String → ℕ → ℕ → List LeaseRow → Option (WorkflowRow A) → Result (WorkflowRow A)
  with_workflow worker token now leases none = raise (bug "Workflow fencing token is stale.")
  with_workflow worker token now leases (some row) =
      if row.fencing_token == token
      then with_lease worker token now row (find_lease row.instance_id leases)
      else raise (bug "Workflow fencing token is stale.")

  unfoldable pub assert_lease : ℕ → String → ℕ → ℕ → Database A → Result (WorkflowRow A)
  assert_lease operation worker token now db =
      with_workflow worker token now db.leases (find_workflow operation db.workflows)
