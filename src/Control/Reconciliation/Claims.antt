-- ===== src/Control/Reconciliation/Claims.antt =====
-- packages/postgres-adapter/src/reconciliation-store.ts: what a claim takes.
use private_cloud_control_pl.Prelude.{
  ◌≡◌, ◌≤◌, ◌<◌, Has, ℕ, ◌==◌, Bool, true, false, not, ◌&&◌, some, List, [], ◌∷◌, length, All, refl,
  sym, ap, subst, inl, inr, arith, any, Bool-cases, contains,
}
use private_cloud_control_pl.Store.Rows.{WorkflowRow}
use private_cloud_control_pl.Store.Table.{update_rows}
use private_cloud_control_pl.Control.Rows.{InstanceRow, ControlDatabase}
use private_cloud_control_pl.Control.Reconciliation.{
  ReconciliationCandidate, provider_resource, is_stale, is_eligible, select_rows, order_rows,
  limit_rows, candidate_of, selected, is_claimed, stamped, claim_stale_instances,
}
use private_cloud_control_pl.Control.Reconciliation.Taken.{
  IsTaken, length-candidates, length-limit, claim_stale_instances-IsTaken, candidate-facts,
  candidate-resource, implied,
}
use private_cloud_control_pl.Control.Reconciliation.Origins.{IsOf, taken-IsOf}

-- A claim takes no more candidates than its limit, and each stands for an instance of the table that is
-- neither purged nor pending, that no other transaction holds, and that was not reconciled after the
-- cutoff; the instance has a create operation and a workflow with the candidate's resource.
pub claim_stale_instances-IsOf :
    {A : Type 0} (workflows : List (WorkflowRow A)) (locked : ℕ → Bool) (limit stale_after now : ℕ)
    (db : ControlDatabase)
    → All
        (IsOf workflows locked stale_after db.instances)
        (claim_stale_instances workflows locked limit stale_after now db).0
      × (length (claim_stale_instances workflows locked limit stale_after now db).0 ≤ limit)
unfolding claim_stale_instances selected
claim_stale_instances-IsOf workflows locked limit stale_after now db =
    let claimed = claim_stale_instances workflows locked limit stale_after now db in
    let chosen = order_rows (select_rows (is_eligible locked stale_after) db.instances) in
    (
      implied (IsTaken workflows locked stale_after db.instances)
          (IsOf workflows locked stale_after db.instances) claimed.0
          (taken-IsOf workflows locked stale_after db.instances)
          (claim_stale_instances-IsTaken workflows locked limit stale_after now db),
      omega (
        arith,
        length-candidates workflows (limit_rows limit chosen),
        length-limit workflows limit chosen,
      ),
    )

-- The rows after a claim: those of its candidates were reconciled now.
claimed_time :
    (candidates : List ReconciliationCandidate) (now : ℕ) (r : InstanceRow)
    (rows : List InstanceRow)
    → Has r (update_rows (is_claimed candidates) (stamped now) rows)
    → is_claimed candidates r ≡ true
    → r.last_reconciled_at ≡ some now
unfolding update_rows
claimed_time candidates now r [] h claimed = absurd h
claimed_time candidates now r (x ∷ rows) (inr k) claimed =
    claimed_time candidates now r rows k claimed
claimed_time candidates now r (x ∷ rows) (inl e) claimed =
    elim (Bool-cases (is_claimed candidates x)) [
      | inl one ↦
          let same : stamped now x ≡ r = rw one at e in
          ap (λ (y : InstanceRow). y.last_reconciled_at) (sym same)
      | inr other ↦
          let same : x ≡ r = rw other at e in
          let off = subst (λ y. is_claimed candidates y ≡ false) same other in cc
    ]

eligible_time :
    (locked : ℕ → Bool) (stale_after : ℕ) (r : InstanceRow)
    → is_eligible locked stale_after r ≡ true
    → is_stale stale_after r.last_reconciled_at ≡ true
eligible_time locked stale_after r h =
    middle (not (contains ("purged" ∷ "pending" ∷ []) r.lifecycle_state))
      (is_stale stale_after r.last_reconciled_at) (not (locked r.id)) h
  where
    middle : (a b c : Bool) → (a && b && c) ≡ true → b ≡ true
    middle true true c e = refl
    middle true false c e = cc
    middle false b c e = cc

abbrev pub is_among : List ReconciliationCandidate → ReconciliationCandidate → Bool
is_among candidates c =
    any (λ (d : ReconciliationCandidate). c.instance_id == d.instance_id) candidates

-- A claim whose cutoff lies before the moment of an earlier claim takes no instance that the earlier one
-- took, whatever the workflows, the locks and the limits are.
pub claim_stale_instances-apart {ℓ κ} :
    {A : Type ℓ} {B : Type κ} (workflows : List (WorkflowRow A)) (others : List (WorkflowRow B))
    (locked held : ℕ → Bool) (limit bound stale_after cutoff now later : ℕ) (db : ControlDatabase)
    → cutoff < now
    → All
        (λ c.
          is_among (claim_stale_instances workflows locked limit stale_after now db).0 c ≡ false)
        (claim_stale_instances others held bound cutoff later
          (claim_stale_instances workflows locked limit stale_after now db).1).0
unfolding claim_stale_instances
claim_stale_instances-apart workflows others locked held limit bound stale_after cutoff now later db
      before =
    let first = claim_stale_instances workflows locked limit stale_after now db in
    implied (IsTaken others held cutoff first.1.instances) (λ c. is_among first.0 c ≡ false)
      (claim_stale_instances others held bound cutoff later first.1).0 (λ c of. apart first.0 c of)
      (claim_stale_instances-IsTaken others held bound cutoff later first.1)
  where
    apart :
        (candidates : List ReconciliationCandidate) (c : ReconciliationCandidate)
        → IsTaken others held cutoff
            (update_rows (is_claimed candidates) (stamped now) db.instances)
            c
        → is_among candidates c ≡ false
    apart candidates c (row, has, eligible, made) =
        let resource = candidate-resource (provider_resource others row) row c made in
        let (id, _, _, _) =
          candidate-facts c.provider_resource_id row c
            (subst (λ o. candidate_of o row ≡ some c) resource made) in
        elim (Bool-cases (is_claimed candidates row)) [
          | inr free ↦ rw id free
          | inl taken ↦
              let time = claimed_time candidates now row db.instances has taken in
              let stale : is_stale cutoff (some now) ≡ true =
                subst (λ t. is_stale cutoff t ≡ true) time
                  (eligible_time held cutoff row eligible) in
              absurd (ground arith)
        ]
