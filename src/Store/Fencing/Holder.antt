-- ===== src/Store/Fencing/Holder.antt =====
-- A write that succeeds: the lease that it was made under, and the rows that it edits.
use private_cloud_control_pl.Prelude.{
  ◌≡◌, ◌<◌, ℕ, ◌==◌, ==_iff, String, str_eq_iff, Bool, true, not, ◌&&◌, ◌||◌, Option, none, some,
  List, any, inl, inr, refl, ap, ◌∙◌, subst, arith, Bool-cases,
}
use private_cloud_control_pl.Contracts.Events.{Failure}
use private_cloud_control_pl.Workflow.Stage.{WorkflowAction}
use private_cloud_control_pl.Workflow.Step.{
  Command, Checkpoint, Completion, DeadLetter, StoreCall, Result, ok, raise,
}
use private_cloud_control_pl.Store.Table.{update_rows, updated, updated_row, find_row-update_rows}
use private_cloud_control_pl.Store.Rows.{WorkflowRow, LeaseRow, Database}
use private_cloud_control_pl.Store.Lease.{
  of_operation, find_lease, find_workflow, is_current, with_lease, with_workflow, assert_lease,
  release_lease,
}
use private_cloud_control_pl.Store.Writes.{
  Fresh, failure_of, of_claim, of_receipt, checkpointed, completed_row, dead_lettered_row,
  required_update, write_checkpoint, store_checkpoint, write_completion, store_complete,
  write_exhausted, write_dead_letter_workflow, store_dead_letter_workflow, write,
}
use private_cloud_control_pl.Store.Fencing.{row_instance, call_operation, call_worker, call_token}

-- The lease is there, is the worker's under the token, and has not expired.
abbrev pub IsHeld : String → ℕ → ℕ → Option LeaseRow → Type 0
IsHeld worker token now none = ⊥
IsHeld worker token now (some lease) =
    (lease.owner_id ≡ worker) × (lease.fencing_token ≡ token) × (now < lease.leased_until)

is_current-IsHeld :
    (worker : String) (token now : ℕ) (lease : LeaseRow)
    → is_current worker token now lease ≡ true
    → IsHeld worker token now (some lease)
is_current-IsHeld worker token now lease h = ground (arith, str_eq_iff lease.owner_id worker)

module _ {A : Type 0} where
  with_lease-IsHeld :
      (worker : String) (token now : ℕ) (row found : WorkflowRow A) (o : Option LeaseRow)
      → with_lease worker token now row o ≡ ok found
      → (row ≡ found) × IsHeld worker token now o
  with_lease-IsHeld worker token now row found none h = cc
  with_lease-IsHeld worker token now row found (some lease) h =
      elim (Bool-cases (is_current worker token now lease)) [
        | inl e ↦ (cc (rw e at h), is_current-IsHeld worker token now lease e)
        | inr e ↦ cc (rw e at h)
      ]

  -- What `assertLease` has checked when it returns a row.
  pub record Asserted (operation : ℕ) (worker : String) (token now : ℕ) (db : Database A)
      (row : WorkflowRow A) : Type 0 where
    pub found : find_workflow operation db.workflows ≡ some row
    pub row_token : row.fencing_token ≡ token
    pub held : IsHeld worker token now (find_lease row.instance_id db.leases)

  with_workflow-Asserted :
      (operation : ℕ) (worker : String) (token now : ℕ) (db : Database A) (row : WorkflowRow A)
      (o : Option (WorkflowRow A))
      → find_workflow operation db.workflows ≡ o
      → with_workflow worker token now db.leases o ≡ ok row
      → Asserted operation worker token now db row
  with_workflow-Asserted operation worker token now db row none e h = cc
  with_workflow-Asserted operation worker token now db row (some r) e h =
      elim (Bool-cases (r.fencing_token == token)) [
        | inl same ↦
            let (is_row, held) =
              with_lease-IsHeld worker token now r row (find_lease r.instance_id db.leases)
                (rw same at h) in
            subst (Asserted operation worker token now db) is_row
              (record { found = e; row_token = (==_iff r.fencing_token token).0 same; held = held })
        | inr other ↦ cc (rw other at h)
      ]

  pub assert_lease-Asserted :
      (operation : ℕ) (worker : String) (token now : ℕ) (db : Database A) (row : WorkflowRow A)
      → assert_lease operation worker token now db ≡ ok row
      → Asserted operation worker token now db row
  assert_lease-Asserted operation worker token now db row h =
      with_workflow-Asserted operation worker token now db row
        (find_workflow operation db.workflows) refl (unfold assert_lease in h)

  -- An edit of a row that keeps what identifies it.
  pub record Keeps (edit : WorkflowRow A → WorkflowRow A) : Type 0 where
    pub operation : (r : WorkflowRow A) → (edit r).operation_id ≡ r.operation_id
    pub instance_kept : (r : WorkflowRow A) → (edit r).instance_id ≡ r.instance_id

  -- What a write that succeeded has done.
  pub record Written (call : StoreCall) (now : ℕ) (db after : Database A) : Type 0 where
    pub row : WorkflowRow A
    pub asserted : Asserted (call_operation call) (call_worker call) (call_token call) now db row
    pub edit : WorkflowRow A → WorkflowRow A
    pub keeps : Keeps edit
    pub workflows :
        after.workflows
        ≡ update_rows (of_claim (call_operation call) (call_token call)) edit db.workflows
    pub leases :
        after.leases
        ≡ release_lease row.instance_id (call_worker call) (call_token call) now db.leases

  required_update-ok :
      (strict changed : Bool) (db after : Database A)
      → required_update strict changed db ≡ ok after
      → db ≡ after
  required_update-ok strict changed db after h = elim (Bool-cases (not strict || changed)) [
    | inl e ↦ cc (rw e at h)
    | inr e ↦ cc (rw e at h)
  ]

module _ {A : Type 0} (strict : Bool) where
  write_checkpoint-Written :
      (input : Checkpoint) (now : ℕ) (db after : Database A) (r : Result (WorkflowRow A))
      → assert_lease input.operation_id input.worker_id input.fencing_token now db ≡ r
      → write_checkpoint strict input now db r ≡ ok after
      → Written (StoreCall.checkpoint input) now db after
  write_checkpoint-Written input now db after (raise e) a h = cc
  write_checkpoint-Written input now db after (ok row) a h =
      subst (Written (StoreCall.checkpoint input) now db)
        (required_update-ok strict
          (any (of_claim input.operation_id input.fencing_token) db.workflows) _ after h)
        (record {
          row = row;
          asserted =
              assert_lease-Asserted input.operation_id input.worker_id input.fencing_token now db
                row a;
          edit = checkpointed input now;
          keeps = record { operation = λ r. refl; instance_kept = λ r. refl };
          workflows = refl;
          leases = refl;
        })

  write_completion-Written :
      (fresh : Fresh) (input : Completion) (now : ℕ) (db after : Database A)
      (r : Result (WorkflowRow A))
      → assert_lease input.operation_id input.worker_id input.fencing_token now db ≡ r
      → write_completion strict fresh input now db r ≡ ok after
      → Written (StoreCall.complete input) now db after
  write_completion-Written fresh input now db after (raise e) a h = cc
  write_completion-Written fresh input now db after (ok row) a h =
      subst (Written (StoreCall.complete input) now db)
        (required_update-ok strict
          (any (of_claim input.operation_id input.fencing_token) db.workflows
            && any (of_receipt row) db.receipts)
          _ after h)
        (record {
          row = row;
          asserted =
              assert_lease-Asserted input.operation_id input.worker_id input.fencing_token now db
                row a;
          edit = completed_row input now;
          keeps = record { operation = λ r. refl; instance_kept = λ r. refl };
          workflows = refl;
          leases = refl;
        })

module _ {A : Type 0} (strict : Bool) (valid : WorkflowAction → Command A → Bool) where
  write_exhausted-Written :
      (fresh : Fresh) (input : DeadLetter) (now : ℕ) (db after : Database A) (row : WorkflowRow A)
      (failure : Option Failure)
      → assert_lease input.operation_id input.worker_id input.fencing_token now db ≡ ok row
      → write_exhausted strict valid fresh input now db row failure ≡ ok after
      → Written (StoreCall.dead_letter_workflow input) now db after
  write_exhausted-Written fresh input now db after row none a h = cc
  write_exhausted-Written fresh input now db after row (some failure) a h =
      subst (Written (StoreCall.dead_letter_workflow input) now db)
        (required_update-ok strict
          (any (of_claim input.operation_id input.fencing_token) db.workflows
            && any (of_receipt row) db.receipts)
          _ after h)
        (record {
          row = row;
          asserted =
              assert_lease-Asserted input.operation_id input.worker_id input.fencing_token now db
                row a;
          edit = dead_lettered_row input failure now;
          keeps = record { operation = λ r. refl; instance_kept = λ r. refl };
          workflows = refl;
          leases = refl;
        })

  write_dead_letter_workflow-Written :
      (fresh : Fresh) (input : DeadLetter) (now : ℕ) (db after : Database A)
      (r : Result (WorkflowRow A))
      → assert_lease input.operation_id input.worker_id input.fencing_token now db ≡ r
      → write_dead_letter_workflow strict valid fresh input now db r ≡ ok after
      → Written (StoreCall.dead_letter_workflow input) now db after
  write_dead_letter_workflow-Written fresh input now db after (raise e) a h = cc
  write_dead_letter_workflow-Written fresh input now db after (ok row) a h =
      elim (Bool-cases (valid row.action row.command)) [
        | inl e ↦
            write_exhausted-Written fresh input now db after row (failure_of input.event.payload) a
              (rw e at h)
        | inr e ↦ cc (rw e at h)
      ]

  -- Every write that succeeds was made under the current lease of its instance.
  pub write-Written :
      (fresh : Fresh) (call : StoreCall) (now : ℕ) (db after : Database A)
      → write strict valid fresh call now db ≡ ok after
      → Written call now db after
  unfolding write store_checkpoint store_complete store_dead_letter_workflow
  write-Written fresh (StoreCall.checkpoint input) now db after h =
      write_checkpoint-Written strict input now db after
        (assert_lease input.operation_id input.worker_id input.fencing_token now db) refl h
  write-Written fresh (StoreCall.complete input) now db after h =
      write_completion-Written strict fresh input now db after
        (assert_lease input.operation_id input.worker_id input.fencing_token now db) refl h
  write-Written fresh (StoreCall.dead_letter_workflow input) now db after h =
      write_dead_letter_workflow-Written fresh input now db after
        (assert_lease input.operation_id input.worker_id input.fencing_token now db) refl h

module _ {A : Type 0} where
  -- An edit that keeps what identifies a row keeps the instance of every operation.
  pub edited-instance_of :
      (operation : ℕ) (q : WorkflowRow A → Bool) (edit : WorkflowRow A → WorkflowRow A)
      (rows : List (WorkflowRow A))
      → Keeps edit
      → row_instance (find_workflow operation (update_rows q edit rows))
        ≡ row_instance (find_workflow operation rows)
  edited-instance_of operation q edit rows k =
      ap row_instance (find_row-update_rows (of_operation operation) q edit rows same_operation)
      ∙ same_instance (find_workflow operation rows)
    where
      same_operation :
          (r : WorkflowRow A) → of_operation operation (updated q edit r) ≡ of_operation operation r
      same_operation r = elim (Bool-cases (q r)) [
        | inl e ↦ rw e (ap (λ n. n == operation) (k.operation r))
        | inr e ↦ rw e refl
      ]

      same_instance :
          (o : Option (WorkflowRow A)) → row_instance (updated_row q edit o) ≡ row_instance o
      same_instance none = refl
      same_instance (some r) = elim (Bool-cases (q r)) [
        | inl e ↦ rw e (ap some (k.instance_kept r))
        | inr e ↦ rw e refl
      ]
