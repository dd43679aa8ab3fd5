-- ===== src/Control/Acceptance/Rules.antt =====
-- packages/postgres-adapter/src/control-plane-store.ts: what an acceptance ensures, by the statement that
-- it starts with.
use private_cloud_control_pl.Prelude.{
  ◌≡◌, ◌≤◌, ltb, ℕ, ◌==◌, String, str_eq, str_eq_iff, true, false, ◌&&◌, Option, none, some, refl,
  inl, inr, Bool-cases, Option-cases, Among, contains, contains→Among, arith,
}
use private_cloud_control_pl.Domain.Resize.{ResizeVerdict}
use private_cloud_control_pl.Store.Table.{find_row, find_row-test, update_rows}
use private_cloud_control_pl.Control.Keyed.{find-restricted}
use private_cloud_control_pl.Control.Rows.{InstanceRow}
use private_cloud_control_pl.Control.Transaction.{
  Tried, done, threw, ◌>>=◌, Ensures, Ensures-update,
}
use private_cloud_control_pl.Control.Projection.Steps.{instance_is}
use private_cloud_control_pl.Control.Acceptance.Records.{
  AcceptedMutation, IdempotencyRow, AcceptanceDatabase, Conventions, FreshValues, MutationIdentity,
  Acceptance,
}
use private_cloud_control_pl.Control.Acceptance.Guards.{
  is_scope, as_replay, mutable_lifecycle_states, lock_instance_for_mutation, attempt, existing,
  guarded, unless_busy, if_mutable, replayed_response,
}
use private_cloud_control_pl.Control.Acceptance.Writes.{accepted_mutation, committed, commit}
use private_cloud_control_pl.Control.Acceptance.Methods.{validated}
use private_cloud_control_pl.Control.Acceptance.Removals.{past_deadline, if_retained, purgeable}
use private_cloud_control_pl.Control.Acceptance.Commands.{InstanceKeys, IsIdle}

module _ (P : AcceptedMutation × AcceptanceDatabase → Type 0) where
  pub Ensures-attempt :
      (by : MutationIdentity) (action hash : String) (db : AcceptanceDatabase)
      (first : Tried (AcceptedMutation × AcceptanceDatabase))
      → ((r : IdempotencyRow)
          → find_row (is_scope by action) db.idempotency_records ≡ some r
          → r.request_hash ≡ hash
          → P (as_replay r.response, db))
      → Ensures P first
      → Ensures P (attempt by action hash db first)
  unfolding attempt replayed_response
  Ensures-attempt by action hash db first replays starts =
      elim (Option-cases (find_row (is_scope by action) db.idempotency_records)) [
        | inl absent ↦ rw absent starts
        | inr (r, found) ↦ elim (Bool-cases (str_eq r.request_hash hash)) [
          | inl same ↦ rw (found, same) (replays r found ((str_eq_iff r.request_hash hash).0 same))
          | inr other ↦ rw (found, other) tt
        ]
      ]

  pub Ensures-unless_busy :
      {A : Type 0} (o : Option ℕ) (m : Tried A)
      (next : A → Tried (AcceptedMutation × AcceptanceDatabase))
      → (o ≡ none → Ensures P (m >>= next))
      → Ensures P (unless_busy o m >>= next)
  Ensures-unless_busy none m next go = go refl
  Ensures-unless_busy (some operation) m next go = tt

  pub Ensures-lock :
      (project_id id : ℕ) (db : AcceptanceDatabase)
      (next : InstanceRow → Tried (AcceptedMutation × AcceptanceDatabase))
      → ((row : InstanceRow)
          → IsIdle id db row
          → row.project_id ≡ project_id
          → Among row.lifecycle_state mutable_lifecycle_states
          → Ensures P (next row))
      → Ensures P (lock_instance_for_mutation project_id id db.control.instances >>= next)
  unfolding lock_instance_for_mutation
  Ensures-lock project_id id db next go =
      by_row (find_row (λ r. instance_is id r && r.project_id == project_id) db.control.instances)
        refl
    where
      both : (k m n o : ℕ) → (k == m && n == o) ≡ true → (k ≡ m) × (n ≡ o)
      both k m n o e = ground arith

      by_guard :
          (row : InstanceRow)
          → (InstanceKeys db → find_row (instance_is id) db.control.instances ≡ some row)
            × (row.id ≡ id)
          → row.project_id ≡ project_id
          → Ensures P (guarded row >>= next)
      by_guard row located own =
          Ensures-unless_busy row.active_operation_id (if_mutable row) next λ free.
            elim (Bool-cases (contains mutable_lifecycle_states row.lifecycle_state)) [
              | inr settled ↦ rw settled tt
              | inl ready ↦ rw ready (
                  go row (free, located.0, located.1) own
                    (contains→Among mutable_lifecycle_states row.lifecycle_state ready))
            ]

      by_row :
          (o : Option InstanceRow)
          → find_row (λ r. instance_is id r && r.project_id == project_id) db.control.instances ≡ o
          → Ensures P (existing o >>= guarded >>= next)
      by_row none found = tt
      by_row (some row) found =
          let named = both row.id id row.project_id project_id (
            find_row-test (λ (r : InstanceRow). instance_is id r && r.project_id == project_id)
              db.control.instances row found) in
          by_guard row
            (
              λ keys.
                  find-restricted (λ (r : InstanceRow). r.id) id (λ r. r.project_id == project_id)
                    db.control.instances row keys found,
              named.0,
            )
            named.1

  pub Ensures-purgeable :
      (now : ℕ) (row : InstanceRow) (next : ℕ → Tried (AcceptedMutation × AcceptanceDatabase))
      → ((deadline : ℕ)
          → row.active_operation_id ≡ none
          → row.lifecycle_state ≡ "retained"
          → (row.retention_deadline ≡ some deadline) × (deadline ≤ now)
          → Ensures P (next deadline))
      → Ensures P (purgeable now row >>= next)
  Ensures-purgeable now row next go =
      Ensures-unless_busy row.active_operation_id (if_retained now row) next λ free.
        elim (Bool-cases (str_eq row.lifecycle_state "retained")) [
          | inr other ↦ rw other tt
          | inl kept ↦ rw kept (
              by_deadline free ((str_eq_iff row.lifecycle_state "retained").0 kept)
                row.retention_deadline refl)
        ]
    where
      by_deadline :
          row.active_operation_id ≡ none
          → row.lifecycle_state ≡ "retained"
          → (o : Option ℕ) → row.retention_deadline ≡ o
          → Ensures P (past_deadline now o >>= next)
      by_deadline free kept none there = tt
      by_deadline free kept (some deadline) there = elim (Bool-cases (ltb now deadline)) [
        | inl early ↦ rw early tt
        | inr late ↦ rw late (go deadline free kept (there, not_after late))
      ]
        where
          not_after : ltb now deadline ≡ false → deadline ≤ now
          not_after h = ground arith

  pub Ensures-checked :
      (verdict : ResizeVerdict) (second : Tried {0} Unit)
      (next : Tried (AcceptedMutation × AcceptanceDatabase))
      → (verdict ≡ ResizeVerdict.accepted → second ≡ done tt → Ensures P next)
      → Ensures P (validated verdict >>= λ _. second >>= λ _. next)
  Ensures-checked ResizeVerdict.accepted (done tt) next h = h refl refl
  Ensures-checked ResizeVerdict.accepted (threw e) next h = tt
  Ensures-checked ResizeVerdict.disk_shrink_forbidden second next h = tt
  Ensures-checked ResizeVerdict.validation_failed second next h = tt

  pub Ensures-commit :
      (c : Conventions) (a : Acceptance) (fresh : FreshValues) (hash : String)
      (db : AcceptanceDatabase)
      → P (
        accepted_mutation c a fresh,
        committed c a fresh hash db
            (update_rows (instance_is a.instance_id) a.changed db.control.instances),
      )
      → Ensures P (commit c a fresh hash db)
  unfolding commit
  Ensures-commit c a fresh hash db h =
      Ensures-update P c.strict (instance_is a.instance_id) a.changed db.control.instances
        (λ instances. done (accepted_mutation c a fresh, committed c a fresh hash db instances)) h
