-- ===== src/Orchestrator.antt =====
-- packages/application/src/lifecycle-workflow.ts, `runOne`, over the store of
-- packages/postgres-adapter/src/workflow-store.ts: claim, one provider call at most, one write.
pub mod Turns
pub mod Tests
use private_cloud_control_pl.Prelude.{
  ℕ, Bool, true, false, Option, none, some, List, [], if◌then◌else◌,
}
use private_cloud_control_pl.Contracts.Provider.{Provider, ProviderCall}
use private_cloud_control_pl.Workflow.Stage.{WorkflowAction, action_eq}
use private_cloud_control_pl.Workflow.Step.{
  Command, Claimed, StoreCall, Result, ok, raise, bug, Step,
}
use private_cloud_control_pl.Workflow.Engine.{Env}
use private_cloud_control_pl.Workflow.Recovery.{run_claimed}
use private_cloud_control_pl.Workflow.Executors.{
  Executor, Payload, executor, executor_action, CommandData, payload_of,
}
use private_cloud_control_pl.Store.Rows.{Database}
use private_cloud_control_pl.Store.Lease.{claim_next}
use private_cloud_control_pl.Store.Writes.{Fresh, write}

-- What a turn leaves behind: its provider calls, whether it advanced a workflow or threw, and the
-- database.
pub record Outcome {ℓ} (A : Type ℓ) : Type ℓ where
  pub calls : List ProviderCall
  pub result : Result Bool
  pub database : Database A

-- The moments of the two transactions, and the identifiers that the second one draws.
pub record Times : Type 0 where
  pub claimed_at : ℕ
  pub written_at : ℕ
  pub fresh : Fresh

module _ {ℓ} {A : Type ℓ} where
  -- A transaction that throws leaves the database as it was.
  abbrev pub committed : List ProviderCall → Database A → Result (Database A) → Outcome A
  committed calls db (ok after) = record { calls = calls; result = ok true; database = after }
  committed calls db (raise e) = record { calls = calls; result = raise e; database = db }

-- The claim as the executor reads it; `none` where its data is not of the executor's capability.
abbrev pub with_payload {ℓ} : {A : Type ℓ} → Claimed CommandData → Option A → Option (Claimed A)
with_payload claim none = none
with_payload claim (some payload) = some record {
  action = claim.action;
  command = record { envelope = claim.command.envelope; payload = payload };
  trace_context = claim.trace_context;
  stage = claim.stage;
  attempt = claim.attempt;
  stage_attempt = claim.stage_attempt;
  retry_started_at = claim.retry_started_at;
  fencing_token = claim.fencing_token;
  provider_resource_id = claim.provider_resource_id;
  provider_task_reference = claim.provider_task_reference;
}

abbrev pub narrowed : (x : Executor) → Claimed CommandData → Option (Claimed (Payload x))
narrowed x claim = with_payload claim (payload_of x claim.command.payload)

-- The store holds the workflows of every action. The validators of stored commands admit no data of
-- another capability under an action, so that a claim that is handed over is narrowed.
module _ (strict : Bool) (x : Executor) (valid : WorkflowAction → Command CommandData → Bool)
    (env : Env) (provider : Provider) (times : Times) where
  abbrev pub finished : Database CommandData → Step StoreCall → Outcome CommandData
  finished db (calls, ok call) =
      committed calls db (write strict valid times.fresh call times.written_at db)
  finished db (calls, raise e) = record { calls = calls; result = raise e; database = db }

  abbrev pub refused : Database CommandData → Outcome CommandData
  refused db = record {
    calls = [];
    result = raise (bug "The claimed workflow has another action.");
    database = db;
  }

  abbrev pub executed : Database CommandData → Option (Claimed (Payload x)) → Outcome CommandData
  executed db none = refused db
  executed db (some claim) = finished db (run_claimed (executor x) env provider claim)

  abbrev pub after_claim :
      Database CommandData
      → Result (Option (Claimed CommandData) × Database CommandData)
      → Outcome CommandData
  after_claim db (raise e) = record { calls = []; result = raise e; database = db }
  after_claim db (ok (none, after)) = record { calls = []; result = ok false; database = after }
  after_claim db (ok (some claim, after)) =
      if action_eq claim.action (executor_action x)
      then executed after (narrowed x claim)
      else refused after

  unfoldable pub run_one : ℕ → Database CommandData → Outcome CommandData
  unfolding payload_of
  run_one lease_seconds db =
      after_claim db
        (claim_next valid env.worker_id lease_seconds (executor_action x) times.claimed_at db)
