-- ===== src/Control/Reconciliation/Intent.antt =====
-- packages/postgres-adapter/src/reconciliation-store.ts and
-- apps/reconciler/src/app/reconciliation-worker.ts: what a sweep leaves alone.
use private_cloud_control_pl.Prelude.{
  ◌≡◌, ◌≢◌, ℕ, suc, ◌-◌, String, str_eq, str_eq_iff, Bool, List, [], ◌∷◌, ◌++◌, refl, sym, ◌∙◌, ap,
  inl, inr, Bool-cases, All, All-append,
}
use mathlib.Core.List.{append_assoc}
use private_cloud_control_pl.Store.Rows.{WorkflowRow}
use private_cloud_control_pl.Store.Table.{update_rows}
use private_cloud_control_pl.Control.Rows.{InstanceRow, DriftReport, ControlDatabase}
use private_cloud_control_pl.Control.Projection.Steps.{instance_is}
use private_cloud_control_pl.Control.Reconciliation.{
  ReconciliationCandidate, ReconciliationOutcome, Identifiers, claim_stale_instances,
  record_observation, is_claimed, stamped, observed_row, drift_report, drift_name,
}
use private_cloud_control_pl.Control.Reconciliation.Worker.{
  Response, Moment, outcome_of, record_response, reconcile, reconcile_all, sweep, batch_size,
  stale_after_ms,
}

-- What a tenant and the control API decided about an instance.
pub record SameIntent (a b : InstanceRow) : Type 0 where
  pub id : b.id ≡ a.id
  pub project_id : b.project_id ≡ a.project_id
  pub provider_profile_id : b.provider_profile_id ≡ a.provider_profile_id
  pub flavor_id : b.flavor_id ≡ a.flavor_id
  pub request : b.request ≡ a.request
  pub desired : b.desired ≡ a.desired
  pub desired_power_state : b.desired_power_state ≡ a.desired_power_state
  pub lifecycle_state : b.lifecycle_state ≡ a.lifecycle_state
  pub active_operation_id : b.active_operation_id ≡ a.active_operation_id
  pub create_operation_id : b.create_operation_id ≡ a.create_operation_id
  pub retention_deadline : b.retention_deadline ≡ a.retention_deadline
  pub purge_eligible : b.purge_eligible ≡ a.purge_eligible

SameIntent-refl : (a : InstanceRow) → SameIntent a a
SameIntent-refl a = record {
  id = refl;
  project_id = refl;
  provider_profile_id = refl;
  flavor_id = refl;
  request = refl;
  desired = refl;
  desired_power_state = refl;
  lifecycle_state = refl;
  active_operation_id = refl;
  create_operation_id = refl;
  retention_deadline = refl;
  purge_eligible = refl;
}

SameIntent-trans : (a b c : InstanceRow) → SameIntent a b → SameIntent b c → SameIntent a c
SameIntent-trans a b c h k = record {
  id = k.id ∙ h.id;
  project_id = k.project_id ∙ h.project_id;
  provider_profile_id = k.provider_profile_id ∙ h.provider_profile_id;
  flavor_id = k.flavor_id ∙ h.flavor_id;
  request = k.request ∙ h.request;
  desired = k.desired ∙ h.desired;
  desired_power_state = k.desired_power_state ∙ h.desired_power_state;
  lifecycle_state = k.lifecycle_state ∙ h.lifecycle_state;
  active_operation_id = k.active_operation_id ∙ h.active_operation_id;
  create_operation_id = k.create_operation_id ∙ h.create_operation_id;
  retention_deadline = k.retention_deadline ∙ h.retention_deadline;
  purge_eligible = k.purge_eligible ∙ h.purge_eligible;
}

-- Row by row.
abbrev pub SameIntents : List InstanceRow → List InstanceRow → Type 0
SameIntents [] [] = Unit
SameIntents [] (b ∷ bs) = ⊥
SameIntents (a ∷ rest) [] = ⊥
SameIntents (a ∷ rest) (b ∷ bs) = SameIntent a b × SameIntents rest bs

SameIntents-refl : (rows : List InstanceRow) → SameIntents rows rows
SameIntents-refl [] = tt
SameIntents-refl (r ∷ rows) = (SameIntent-refl r, SameIntents-refl rows)

SameIntents-trans :
    (xs ys zs : List InstanceRow) → SameIntents xs ys → SameIntents ys zs → SameIntents xs zs
SameIntents-trans [] [] zs h k = k
SameIntents-trans [] (y ∷ ys) zs h k = absurd h
SameIntents-trans (x ∷ xs) [] zs h k = absurd h
SameIntents-trans (x ∷ xs) (y ∷ ys) [] h k = absurd k
SameIntents-trans (x ∷ xs) (y ∷ ys) (z ∷ zs) h k =
    (SameIntent-trans x y z h.0 k.0, SameIntents-trans xs ys zs h.1 k.1)

update-SameIntents :
    (p : InstanceRow → Bool) (f : InstanceRow → InstanceRow) (rows : List InstanceRow)
    → ((r : InstanceRow) → SameIntent r (f r))
    → SameIntents rows (update_rows p f rows)
unfolding update_rows
update-SameIntents p f [] keep = tt
update-SameIntents p f (r ∷ rows) keep = elim (Bool-cases (p r)) [
  | inl here ↦ rw here (keep r, update-SameIntents p f rows keep)
  | inr other ↦ rw other (SameIntent-refl r, update-SameIntents p f rows keep)
]

-- A report of a drift, not of its absence.
abbrev pub IsFinding : DriftReport → Type 0
IsFinding report = report.classification ≢ "none"

-- A change that only reports: the instances keep what was decided about them, everything but the
-- outbox stays, and the outbox gains findings.
pub record Reports (before after : ControlDatabase) : Type 0 where
  pub instances : SameIntents before.instances after.instances
  pub operations : after.operations ≡ before.operations
  pub snapshots : after.snapshots ≡ before.snapshots
  pub replay_requests : after.replay_requests ≡ before.replay_requests
  pub instance_documents : after.instance_documents ≡ before.instance_documents
  pub operation_documents : after.operation_documents ≡ before.operation_documents
  pub snapshot_documents : after.snapshot_documents ≡ before.snapshot_documents
  pub dead_letters : after.dead_letters ≡ before.dead_letters
  pub receipts : after.receipts ≡ before.receipts
  pub poison_records : after.poison_records ≡ before.poison_records
  pub reported : List DriftReport
  pub outbox : after.outbox ≡ reported ++ before.outbox
  pub findings : All IsFinding reported

Reports-refl : (db : ControlDatabase) → Reports db db
Reports-refl db = record {
  instances = SameIntents-refl db.instances;
  operations = refl;
  snapshots = refl;
  replay_requests = refl;
  instance_documents = refl;
  operation_documents = refl;
  snapshot_documents = refl;
  dead_letters = refl;
  receipts = refl;
  poison_records = refl;
  reported = [];
  outbox = refl;
  findings = tt;
}

Reports-trans : (a b c : ControlDatabase) → Reports a b → Reports b c → Reports a c
Reports-trans a b c h k = record {
  instances = SameIntents-trans a.instances b.instances c.instances h.instances k.instances;
  operations = k.operations ∙ h.operations;
  snapshots = k.snapshots ∙ h.snapshots;
  replay_requests = k.replay_requests ∙ h.replay_requests;
  instance_documents = k.instance_documents ∙ h.instance_documents;
  operation_documents = k.operation_documents ∙ h.operation_documents;
  snapshot_documents = k.snapshot_documents ∙ h.snapshot_documents;
  dead_letters = k.dead_letters ∙ h.dead_letters;
  receipts = k.receipts ∙ h.receipts;
  poison_records = k.poison_records ∙ h.poison_records;
  reported = k.reported ++ h.reported;
  outbox =
      k.outbox
      ∙ ap (λ (l : List DriftReport). k.reported ++ l) h.outbox
      ∙ sym (append_assoc k.reported h.reported a.outbox);
  findings = All-append IsFinding k.reported h.reported k.findings h.findings;
}

-- A change of instances alone.
rows-Reports :
    (db : ControlDatabase) (p : InstanceRow → Bool) (f : InstanceRow → InstanceRow)
    → ((r : InstanceRow) → SameIntent r (f r))
    → Reports db (record db { instances = update_rows p f db.instances })
rows-Reports db p f keep = record {
  instances = update-SameIntents p f db.instances keep;
  operations = refl;
  snapshots = refl;
  replay_requests = refl;
  instance_documents = refl;
  operation_documents = refl;
  snapshot_documents = refl;
  dead_letters = refl;
  receipts = refl;
  poison_records = refl;
  reported = [];
  outbox = refl;
  findings = tt;
}

observed_row-SameIntent :
    (outcome : ReconciliationOutcome) (fresh : Identifiers) (r : InstanceRow)
    → SameIntent r (observed_row outcome fresh r)
observed_row-SameIntent outcome fresh r = record {
  id = refl;
  project_id = refl;
  provider_profile_id = refl;
  flavor_id = refl;
  request = refl;
  desired = refl;
  desired_power_state = refl;
  lifecycle_state = refl;
  active_operation_id = refl;
  create_operation_id = refl;
  retention_deadline = refl;
  purge_eligible = refl;
}

stamped-SameIntent : (now : ℕ) (r : InstanceRow) → SameIntent r (stamped now r)
stamped-SameIntent now r = record {
  id = refl;
  project_id = refl;
  provider_profile_id = refl;
  flavor_id = refl;
  request = refl;
  desired = refl;
  desired_power_state = refl;
  lifecycle_state = refl;
  active_operation_id = refl;
  create_operation_id = refl;
  retention_deadline = refl;
  purge_eligible = refl;
}

record_observation-Reports :
    (text : ℕ → String) (outcome : ReconciliationOutcome) (fresh : Identifiers)
    (db : ControlDatabase)
    → Reports db (record_observation text outcome fresh db)
unfolding record_observation
record_observation-Reports text outcome fresh db =
    let rows =
      rows-Reports db (instance_is outcome.instance_id) (observed_row outcome fresh)
        (observed_row-SameIntent outcome fresh) in
    elim (Bool-cases (str_eq (drift_name outcome.drift) "none")) [
      | inl agrees ↦ rw agrees rows
      | inr drifts ↦ rw drifts (record {
        instances = rows.instances;
        operations = refl;
        snapshots = refl;
        replay_requests = refl;
        instance_documents = refl;
        operation_documents = refl;
        snapshot_documents = refl;
        dead_letters = refl;
        receipts = refl;
        poison_records = refl;
        reported = drift_report text outcome fresh ∷ [];
        outbox = refl;
        findings = (λ e. let same = (str_eq_iff (drift_name outcome.drift) "none").1 e in cc, tt);
      })
    ]

reconcile-Reports :
    (text : ℕ → String) (candidate : ReconciliationCandidate) (moment : Moment)
    (db : ControlDatabase)
    → Reports db (reconcile text candidate moment db)
unfolding reconcile
reconcile-Reports text candidate moment db = by_response moment.response
  where
    by_response : (r : Response) → Reports db (record_response text candidate moment db r)
    by_response Response.failed = Reports-refl db
    by_response (Response.answered observation) =
        record_observation-Reports text (outcome_of candidate observation moment.observed_at)
          moment.fresh db

reconcile_all-Reports :
    (text : ℕ → String) (moments : ℕ → Moment) (round : ℕ)
    (candidates : List ReconciliationCandidate) (db : ControlDatabase)
    → Reports db (reconcile_all text moments round candidates db)
unfolding reconcile_all
reconcile_all-Reports text moments round [] db = Reports-refl db
reconcile_all-Reports text moments round (candidate ∷ candidates) db =
    let once = reconcile text candidate (moments round) db in
    elim (Bool-cases (moments round).stopping) [
      | inl stops ↦ rw stops (Reports-refl db)
      | inr goes ↦ rw goes (
          Reports-trans db once (reconcile_all text moments (suc round) candidates once)
            (reconcile-Reports text candidate (moments round) db)
            (reconcile_all-Reports text moments (suc round) candidates once))
    ]

-- A sweep only reports, whatever the provider answers and wherever it stops: the instances keep what
-- was decided about them, operations, snapshots, documents and dead letters stay, and the outbox gains
-- reports of a drift other than none.
pub sweep-Reports {ℓ} :
    {A : Type ℓ} (text : ℕ → String) (workflows : List (WorkflowRow A)) (locked : ℕ → Bool)
    (now : ℕ) (moments : ℕ → Moment) (db : ControlDatabase)
    → Reports db (sweep text workflows locked now moments db)
unfolding sweep claim_stale_instances
sweep-Reports text workflows locked now moments db =
    let claim = claim_stale_instances workflows locked batch_size (now - stale_after_ms) now db in
    Reports-trans db claim.1 (reconcile_all text moments 0 claim.0 claim.1)
      (rows-Reports db (is_claimed claim.0) (stamped now) (stamped-SameIntent now))
      (reconcile_all-Reports text moments 0 claim.0 claim.1)
