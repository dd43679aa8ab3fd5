-- ===== src/Control/Reconciliation.antt =====
-- packages/postgres-adapter/src/reconciliation-store.ts, `PostgresReconciliationStore`. `locked` tells
-- which rows another transaction holds, and `SKIP LOCKED` leaves out.
pub mod Worker
pub mod Taken
pub mod Origins
pub mod Claims
pub mod Starvation
pub mod Intent
pub mod Tests
use private_cloud_control_pl.Prelude.{
  ℕ, zero, suc, ◌==◌, String, str_eq, Bool, true, false, not, ◌&&◌, ◌||◌, Option, none, some, List,
  [], ◌∷◌, ◌++◌, map, any, leb, contains, if◌then◌else◌,
}
use private_cloud_control_pl.Contracts.Events.{EventEnvelope, PowerState}
use private_cloud_control_pl.Domain.Drift.{DriftClassification}
use private_cloud_control_pl.Store.Rows.{WorkflowRow}
use private_cloud_control_pl.Store.Table.{update_rows}
use private_cloud_control_pl.Control.Rows.{InstanceRow, DriftReport, ControlDatabase}
use private_cloud_control_pl.Control.Projection.Steps.{instance_is}

-- `ReconciliationCandidate`.
pub record ReconciliationCandidate : Type 0 where
  pub instance_id : ℕ
  pub project_id : ℕ
  pub provider_profile_id : String
  pub create_operation_id : ℕ
  pub provider_resource_id : String
  pub lifecycle_state : String
  pub desired_power_state : String
  pub desired_cpu_count : ℕ
  pub desired_memory_mib : ℕ
  pub desired_disk_gib : ℕ

-- `ReconciliationOutcome`.
pub record ReconciliationOutcome : Type 0 where
  pub instance_id : ℕ
  pub project_id : ℕ
  pub drift : DriftClassification
  pub dangerous : Bool
  pub exists : Bool
  pub power_state : PowerState
  pub marker_match : Bool
  pub observed_at : ℕ

-- The earlier of a resource that was found and the one of a later row, if it is as early.
abbrev pub earliest_of : ℕ × String → Option (ℕ × String) → Option (ℕ × String)
earliest_of first none = some first
earliest_of first (some other) = if leb first.0 other.0 then some first else some other

module _ {ℓ} {A : Type ℓ} where
  -- The subquery's `ORDER BY w.created_at LIMIT 1`.
  unfoldable pub earliest_resource : ℕ → List (WorkflowRow A) → Option (ℕ × String)
  earliest_resource id [] = none
  earliest_resource id (w ∷ rows) =
      let rest = earliest_resource id rows in
      if w.instance_id == id
      then elim w.provider_resource_id [
        | none ↦ rest
        | some resource ↦ earliest_of (w.created_at, resource) rest
      ]
      else rest

  abbrev pub provider_resource : List (WorkflowRow A) → InstanceRow → Option String
  provider_resource workflows row = elim (earliest_resource row.id workflows) [
    | none ↦ none
    | some found ↦ some found.1
  ]

abbrev pub is_stale : ℕ → Option ℕ → Bool
is_stale stale_after none = true
is_stale stale_after (some at) = leb at stale_after

-- The `WHERE` clause, of a row that is not skipped.
abbrev pub is_eligible : (ℕ → Bool) → ℕ → InstanceRow → Bool
is_eligible locked stale_after row =
    not (contains ("purged" ∷ "pending" ∷ []) row.lifecycle_state)
    && is_stale stale_after row.last_reconciled_at
    && not (locked row.id)

abbrev pub was_never_reconciled : InstanceRow → Bool
was_never_reconciled row = elim row.last_reconciled_at [ none ↦ true | some _ ↦ false ]

unfoldable pub select_rows : (InstanceRow → Bool) → List InstanceRow → List InstanceRow
select_rows p [] = []
select_rows p (r ∷ rows) = let rest = select_rows p rows in if p r then r ∷ rest else rest

-- Not after, by the time of the last reconciliation.
abbrev pub no_later : InstanceRow → InstanceRow → Bool
no_later a b = elim a.last_reconciled_at [
  | none ↦ true
  | some at ↦ elim b.last_reconciled_at [ none ↦ false | some other ↦ leb at other ]
]

unfoldable pub insert_row : InstanceRow → List InstanceRow → List InstanceRow
insert_row a [] = a ∷ []
insert_row a (b ∷ rows) =
    let rest = insert_row a rows in if no_later a b then a ∷ b ∷ rows else b ∷ rest

-- `ORDER BY last_reconciled_at NULLS FIRST`; equals stay in the order of the table.
unfoldable pub order_rows : List InstanceRow → List InstanceRow
unfolding insert_row
order_rows [] = []
order_rows (r ∷ rows) = insert_row r (order_rows rows)

-- `LIMIT`.
unfoldable pub limit_rows : ℕ → List InstanceRow → List InstanceRow
limit_rows zero rows = []
limit_rows (suc n) [] = []
limit_rows (suc n) (r ∷ rows) = r ∷ limit_rows n rows

-- What the rows give the worker; `none` where they lack a resource or a create operation, or have an
-- empty one.
abbrev pub candidate_of : Option String → InstanceRow → Option ReconciliationCandidate
candidate_of none row = none
candidate_of (some resource) row = elim row.create_operation_id [
  | none ↦ none
  | some create_operation_id ↦
      if str_eq resource ""
      then none
      else some record {
        instance_id = row.id;
        project_id = row.project_id;
        provider_profile_id = row.provider_profile_id;
        create_operation_id = create_operation_id;
        provider_resource_id = resource;
        lifecycle_state = row.lifecycle_state;
        desired_power_state = row.desired_power_state;
        desired_cpu_count = row.desired.cpu_count;
        desired_memory_mib = row.desired.memory_mib;
        desired_disk_gib = row.desired.disk_gib;
      }
]

abbrev pub with_candidate :
    Option ReconciliationCandidate → List ReconciliationCandidate → List ReconciliationCandidate
with_candidate none candidates = candidates
with_candidate (some c) candidates = c ∷ candidates

-- The rows of a sweep.
unfoldable pub selected : (ℕ → Bool) → ℕ → ℕ → List InstanceRow → List InstanceRow
unfolding select_rows order_rows limit_rows
selected locked limit stale_after rows =
    limit_rows limit (order_rows (select_rows (is_eligible locked stale_after) rows))

abbrev pub is_claimed : List ReconciliationCandidate → InstanceRow → Bool
is_claimed candidates row =
    any (λ (c : ReconciliationCandidate). row.id == c.instance_id) candidates

abbrev pub stamped : ℕ → InstanceRow → InstanceRow
stamped now row = record row { last_reconciled_at = some now }

module _ {ℓ} {A : Type ℓ} (workflows : List (WorkflowRow A)) where
  -- `rows.filter(…)` and the final `map`.
  unfoldable pub candidates_of : List InstanceRow → List ReconciliationCandidate
  unfolding earliest_resource
  candidates_of [] = []
  candidates_of (row ∷ rows) =
      with_candidate (candidate_of (provider_resource workflows row) row) (candidates_of rows)

  -- `claimStaleInstances`.
  unfoldable pub claim_stale_instances :
      (ℕ → Bool) → ℕ → ℕ → ℕ → ControlDatabase → List ReconciliationCandidate × ControlDatabase
  unfolding candidates_of selected
  claim_stale_instances locked limit stale_after now db =
      let claimed = candidates_of (selected locked limit stale_after db.instances) in
      (
        claimed,
        record db { instances = update_rows (is_claimed claimed) (stamped now) db.instances },
      )

unfoldable pub drift_name : DriftClassification → String
drift_name DriftClassification.none_found = "none"
drift_name DriftClassification.missing_resource = "missing_resource"
drift_name DriftClassification.identity_mismatch = "identity_mismatch"
drift_name DriftClassification.stale_task = "stale_task"
drift_name DriftClassification.late_success = "late_success"
drift_name DriftClassification.power_drift = "power_drift"
drift_name DriftClassification.network_drift = "network_drift"
drift_name DriftClassification.ambiguous = "ambiguous"

-- What `randomUUID`, `generatedTraceparent` and the clock give to one observation.
pub record Identifiers : Type 0 where
  pub event_id : ℕ
  pub evidence_id : ℕ
  pub trace_context : ℕ
  pub updated_at : ℕ

abbrev pub observed_row : ReconciliationOutcome → Identifiers → InstanceRow → InstanceRow
observed_row outcome fresh row = record row {
  drift = drift_name outcome.drift;
  observed_exists = some outcome.exists;
  observed_power_state = some outcome.power_state;
  observed_marker_match = some outcome.marker_match;
  observed_at = some outcome.observed_at;
  last_reconciled_at = some outcome.observed_at;
  updated_at = fresh.updated_at;
}

-- The partition key is the instance's identifier.
abbrev pub drift_report : (ℕ → String) → ReconciliationOutcome → Identifiers → DriftReport
drift_report text outcome fresh = record {
  envelope = record {
    event_id = fresh.event_id;
    aggregate_id = outcome.instance_id;
    project_id = outcome.project_id;
    operation_id = fresh.event_id;
    correlation_id = fresh.event_id;
    causation_id = fresh.event_id;
    occurred_at = outcome.observed_at;
    trace_context = fresh.trace_context;
    partition_key = text outcome.instance_id;
  };
  classification = drift_name outcome.drift;
  dangerous = outcome.dangerous;
  evidence_id = fresh.evidence_id;
}

-- `recordObservation`. `text` spells an identifier.
unfoldable pub record_observation :
    (ℕ → String) → ReconciliationOutcome → Identifiers → ControlDatabase → ControlDatabase
unfolding drift_name
record_observation text outcome fresh db =
    let observed = record db {
      instances =
          update_rows (instance_is outcome.instance_id) (observed_row outcome fresh) db.instances;
    } in
    if str_eq (drift_name outcome.drift) "none"
    then observed
    else record observed { outbox = drift_report text outcome fresh ∷ db.outbox }
