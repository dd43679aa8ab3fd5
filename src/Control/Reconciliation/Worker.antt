-- ===== src/Control/Reconciliation/Worker.antt =====
-- apps/reconciler/src/app/reconciliation-worker.ts, `ReconciliationWorker`. The provider answers one
-- observation for a candidate, or throws; logs and spans are left out.
use private_cloud_control_pl.Prelude.{
  ℕ, suc, ◌-◌, ◌*◌, String, str_eq, Bool, false, Option, none, some, List, [], ◌∷◌, if◌then◌else◌,
}
use private_cloud_control_pl.Contracts.Events.{PowerState}
use private_cloud_control_pl.Contracts.Provider.{InstanceObservation, InstanceResources}
use private_cloud_control_pl.Workflow.Create.{observed_power_state, ownership_matches}
use private_cloud_control_pl.Store.Rows.{WorkflowRow}
use private_cloud_control_pl.Domain.Drift.{
  DesiredPower, DesiredSnapshot, ObservedSnapshot, classify_drift,
}
use private_cloud_control_pl.Control.Rows.{ControlDatabase}
use private_cloud_control_pl.Control.Reconciliation.{
  ReconciliationCandidate, ReconciliationOutcome, Identifiers, claim_stale_instances,
  record_observation,
}

-- `STALE_AFTER_MS` and `BATCH_SIZE`.
abbrev pub stale_after_ms : ℕ
stale_after_ms = 5 * 60 * 1000

abbrev pub batch_size : ℕ
batch_size = 25

-- An answer of `observeInstance`, or its error.
pub data Response : Type 0 where
  answered : Option InstanceObservation → Response
  failed : Response

abbrev pub observed_existence : Option InstanceObservation → Bool
observed_existence none = false
observed_existence (some o) = o.exists

-- `powerStateName`; a missing observation has no state.
abbrev pub power_state_name : Option InstanceObservation → PowerState
power_state_name none = PowerState.unknown
power_state_name (some o) = observed_power_state o.power_state

abbrev pub observed_match : Option InstanceObservation → Bool
observed_match none = false
observed_match (some o) = ownership_matches o

abbrev pub resources_of : Option InstanceObservation → Option InstanceResources
resources_of none = none
resources_of (some o) = o.resources

-- The sizes, which are read only where the number of CPUs is there. `Number(undefined)` is NaN: as
-- memory it differs from every size, so another number than the desired one stands for it; as disk it
-- is not smaller than any, and is left out.
abbrev pub sizes_of : ℕ → Option InstanceResources → Option ℕ × Option ℕ × Option ℕ
sizes_of desired_memory none = (none, none, none)
sizes_of desired_memory (some r) = elim r.cpu_count [
  | none ↦ (none, none, none)
  | some cpu ↦ (some cpu, some (number r.memory_mib), r.disk_gib)
]
  where
    number : Option ℕ → ℕ
    number none = suc desired_memory
    number (some n) = n

abbrev pub reading_of : ReconciliationCandidate → Option InstanceObservation → ObservedSnapshot
reading_of candidate observation =
    let sizes = sizes_of candidate.desired_memory_mib (resources_of observation) in
    record {
      exists = observed_existence observation;
      power_state = power_state_name observation;
      marker_match = observed_match observation;
      cpu_count = sizes.0;
      memory_mib = sizes.1;
      disk_gib = sizes.2;
    }

-- The column holds one of the three texts.
abbrev pub desired_power : String → DesiredPower
desired_power text =
    if str_eq text "running"
    then DesiredPower.running
    else if str_eq text "stopped"
    then DesiredPower.stopped
    else DesiredPower.unchanged

abbrev pub desired_snapshot : ReconciliationCandidate → DesiredSnapshot
desired_snapshot candidate = record {
  lifecycle_state = candidate.lifecycle_state;
  power_state = desired_power candidate.desired_power_state;
  cpu_count = candidate.desired_cpu_count;
  memory_mib = candidate.desired_memory_mib;
  disk_gib = candidate.desired_disk_gib;
}

unfoldable pub outcome_of :
    ReconciliationCandidate → Option InstanceObservation → ℕ → ReconciliationOutcome
unfolding classify_drift observed_power_state
outcome_of candidate observation observed_at =
    let observed = reading_of candidate observation in
    let finding = classify_drift (desired_snapshot candidate) observed in
    record {
      instance_id = candidate.instance_id;
      project_id = candidate.project_id;
      drift = finding.classification;
      dangerous = finding.dangerous;
      exists = observed.exists;
      power_state = observed.power_state;
      marker_match = observed.marker_match;
      observed_at = observed_at;
    }

-- What an observation reads from outside.
pub record Moment : Type 0 where
  pub response : Response
  pub observed_at : ℕ
  pub fresh : Identifiers
  pub stopping : Bool

module _ (text : ℕ → String) where
  abbrev pub record_response :
      ReconciliationCandidate → Moment → ControlDatabase → Response → ControlDatabase
  record_response candidate moment db Response.failed = db
  record_response candidate moment db (Response.answered observation) =
      record_observation text (outcome_of candidate observation moment.observed_at) moment.fresh db

  -- `reconcile`: a failure is swallowed.
  unfoldable pub reconcile : ReconciliationCandidate → Moment → ControlDatabase → ControlDatabase
  unfolding outcome_of
  reconcile candidate moment db = record_response candidate moment db moment.response

  -- The loop of `sweep`; each round has its moment.
  unfoldable pub reconcile_all :
      (ℕ → Moment) → ℕ → List ReconciliationCandidate → ControlDatabase → ControlDatabase
  unfolding reconcile
  reconcile_all moments round [] db = db
  reconcile_all moments round (candidate ∷ candidates) db =
      let rest =
        reconcile_all moments (suc round) candidates (reconcile candidate (moments round) db) in
      if (moments round).stopping then db else rest

  -- `sweep`, from the claim on.
  unfoldable pub sweep {ℓ} :
      {A : Type ℓ}
      → List (WorkflowRow A)
      → (ℕ → Bool)
      → ℕ
      → (ℕ → Moment)
      → ControlDatabase
      → ControlDatabase
  unfolding reconcile_all
  sweep workflows locked now moments db =
      let (candidates, claimed) =
        claim_stale_instances workflows locked batch_size (now - stale_after_ms) now db in
      reconcile_all moments 0 candidates claimed
