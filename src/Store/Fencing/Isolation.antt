-- ===== src/Store/Fencing/Isolation.antt =====
-- A write ends the lease that it was made under, and leaves every other operation and instance alone.
use private_cloud_control_pl.Prelude.{
  ◌≡◌, ◌≢◌, ℕ, ◌==◌, String, str_eq_iff, Bool, true, false, Option, none, some, List, inl, inr,
  refl, ap, ◌∙◌, arith, Bool-cases,
}
use private_cloud_control_pl.Workflow.Stage.{WorkflowAction}
use private_cloud_control_pl.Workflow.Step.{Command, StoreCall, ok}
use private_cloud_control_pl.Store.Table.{
  update_rows, updated, updated_row, find_row-update_rows, find_row-test,
}
use private_cloud_control_pl.Store.Rows.{WorkflowRow, LeaseRow, Database}
use private_cloud_control_pl.Store.Lease.{
  find_lease, of_operation, of_instance, find_workflow, release_lease, holds, released,
}
use private_cloud_control_pl.Store.Writes.{Fresh, of_claim, write}
use private_cloud_control_pl.Store.Fencing.{call_operation, call_worker, call_token}
use private_cloud_control_pl.Store.Fencing.Holder.{IsHeld, Keeps, Written, write-Written}
use private_cloud_control_pl.Store.Fencing.Exclusion.{IsFree}

module _ {ℓ} {R : Type ℓ} where
  -- A row that the update does not match is found as it was.
  updated_row_same :
      (q : R → Bool) (f : R → R) (o : Option R)
      → ((r : R) → o ≡ some r → q r ≡ false)
      → updated_row q f o ≡ o
  updated_row_same q f none h = refl
  updated_row_same q f (some r) h = rw (h r refl) refl

-- The lease of the claim, once it is released.
holds_held :
    (instance : ℕ) (worker : String) (token now : ℕ) (lease : LeaseRow)
    → of_instance instance lease ≡ true
    → IsHeld worker token now (some lease)
    → holds instance worker token lease ≡ true
holds_held instance worker token now lease here (owner, same, live) =
    ground (arith, str_eq_iff lease.owner_id worker)

released-IsFree :
    (instance : ℕ) (worker other : String) (token now : ℕ) (o : Option LeaseRow)
    → ((r : LeaseRow) → o ≡ some r → of_instance instance r ≡ true)
    → IsHeld worker token now o
    → IsFree other now (updated_row (holds instance worker token) (released now) o)
released-IsFree instance worker other token now none here h = absurd h
released-IsFree instance worker other token now (some lease) here h =
    rw (holds_held instance worker token now lease (here lease refl) h) (inl (omega arith))

holds_other :
    (instance j : ℕ) (worker : String) (token : ℕ) (lease : LeaseRow)
    → j ≢ instance
    → of_instance j lease ≡ true
    → holds instance worker token lease ≡ false
holds_other instance j worker token lease n here = ground arith

same_lease_instance :
    (j instance : ℕ) (worker : String) (token now : ℕ) (r : LeaseRow)
    → of_instance j (updated (holds instance worker token) (released now) r) ≡ of_instance j r
same_lease_instance j instance worker token now r =
    elim (Bool-cases (holds instance worker token r)) [ inl e ↦ rw e refl | inr e ↦ rw e refl ]

find_lease-release_lease :
    (j instance : ℕ) (worker : String) (token now : ℕ) (leases : List LeaseRow)
    → find_lease j (release_lease instance worker token now leases)
      ≡ updated_row (holds instance worker token) (released now) (find_lease j leases)
unfolding release_lease
find_lease-release_lease j instance worker token now leases =
    find_row-update_rows (of_instance j) (holds instance worker token) (released now) leases
      (same_lease_instance j instance worker token now)

-- What a write that succeeded relied on and changed.
pub record Isolated {A : Type 0} (call : StoreCall) (now : ℕ) (db after : Database A) : Type 0 where
  pub row : WorkflowRow A
  pub found : find_workflow (call_operation call) db.workflows ≡ some row
  pub held : IsHeld (call_worker call) (call_token call) now (find_lease row.instance_id db.leases)
  pub freed : (worker : String) → IsFree worker now (find_lease row.instance_id after.leases)
  pub other_leases :
      (j : ℕ) → j ≢ row.instance_id → find_lease j after.leases ≡ find_lease j db.leases
  pub other_workflows :
      (operation : ℕ)
      → operation ≢ call_operation call
      → find_workflow operation after.workflows ≡ find_workflow operation db.workflows

module _ {A : Type 0} where
  of_claim_other :
      (operation other token : ℕ) (row : WorkflowRow A)
      → other ≢ operation
      → of_operation other row ≡ true
      → of_claim operation token row ≡ false
  of_claim_other operation other token row n here = ground arith

  edited_other :
      (operation other token : ℕ) (edit : WorkflowRow A → WorkflowRow A)
      (rows : List (WorkflowRow A))
      → Keeps edit
      → other ≢ operation
      → find_workflow other (update_rows (of_claim operation token) edit rows)
        ≡ find_workflow other rows
  edited_other operation other token edit rows k n =
      find_row-update_rows (of_operation other) (of_claim operation token) edit rows same_operation
      ∙ updated_row_same (of_claim operation token) edit (find_workflow other rows) (λ r e.
        of_claim_other operation other token r n (find_row-test (of_operation other) rows r e))
    where
      same_operation :
          (r : WorkflowRow A)
          → of_operation other (updated (of_claim operation token) edit r) ≡ of_operation other r
      same_operation r = elim (Bool-cases (of_claim operation token r)) [
        | inl e ↦ rw e (ap (λ m. m == other) (k.operation r))
        | inr e ↦ rw e refl
      ]

  Written-Isolated :
      (call : StoreCall) (now : ℕ) (db after : Database A)
      → Written call now db after
      → Isolated call now db after
  Written-Isolated call now db after w = record {
    row = w.row;
    found = w.asserted.found;
    held = w.asserted.held;
    freed = λ worker.
        rw
          (
            w.leases,
            find_lease-release_lease w.row.instance_id w.row.instance_id (call_worker call)
                (call_token call) now db.leases,
          )
          (released-IsFree w.row.instance_id (call_worker call) worker (call_token call) now
            (find_lease w.row.instance_id db.leases)
            (find_row-test (of_instance w.row.instance_id) db.leases) w.asserted.held);
    other_leases = λ j n.
        ap (find_lease j) w.leases
        ∙ find_lease-release_lease j w.row.instance_id (call_worker call) (call_token call) now
            db.leases
        ∙ updated_row_same (holds w.row.instance_id (call_worker call) (call_token call))
            (released now) (find_lease j db.leases)
            (λ r e.
              holds_other w.row.instance_id j (call_worker call) (call_token call) r n
                (find_row-test (of_instance j) db.leases r e));
    other_workflows = λ operation n.
        ap (find_workflow operation) w.workflows
        ∙ edited_other (call_operation call) operation (call_token call) w.edit db.workflows w.keeps
            n;
  }

-- A write that succeeds was made by the worker that holds the unexpired lease of the operation's
-- instance under the newest token; it frees that lease for every worker; and it changes no other
-- instance's lease and no other operation's row.
pub write-Isolated :
    {A : Type 0} (strict : Bool) (valid : WorkflowAction → Command A → Bool) (fresh : Fresh)
    (call : StoreCall) (now : ℕ) (db after : Database A)
    → write strict valid fresh call now db ≡ ok after
    → Isolated call now db after
write-Isolated strict valid fresh call now db after made =
    Written-Isolated call now db after (write-Written strict valid fresh call now db after made)
