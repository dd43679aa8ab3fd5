-- ===== src/Control/Acceptance/Readiness.antt =====
-- packages/postgres-adapter/src/control-plane-store.ts: the steps of an acceptance that succeed.
use private_cloud_control_pl.Prelude.{
  ◌≡◌, ℕ, ◌==◌, String, Bool, true, false, ◌&&◌, ◌||◌, Option, none, some, List, [], ◌∷◌, any, refl,
  sym, subst, inl, inr, Bool-cases, contains, arith,
}
use private_cloud_control_pl.Store.Table.{find_row, update_rows}
use private_cloud_control_pl.Control.Rows.{InstanceRow}
use private_cloud_control_pl.Control.Transaction.{
  Tried, done, threw, ◌>>=◌, update_or_throw, found_update_or_throw,
}
use private_cloud_control_pl.Control.Projection.Steps.{instance_is}
use private_cloud_control_pl.Control.Acceptance.Records.{
  AcceptedMutation, AcceptanceDatabase, Conventions, FreshValues, MutationIdentity, Acceptance,
}
use private_cloud_control_pl.Control.Acceptance.Guards.{
  mutable_lifecycle_states, unless_busy, if_mutable, lock_instance_for_mutation, attempt,
  replayed_response,
}
use private_cloud_control_pl.Control.Acceptance.Writes.{accepted_mutation, committed, commit}
use private_cloud_control_pl.Control.Acceptance.Repeats.{record_of}

-- A transaction that commits an acceptance.
abbrev pub IsAccepted : Tried (AcceptedMutation × AcceptanceDatabase) → Type 0
IsAccepted (done (m, after)) = m.replayed ≡ false
IsAccepted (threw e) = ⊥

-- An instance of a project that can take a mutation.
abbrev pub IsReady : ℕ → ℕ → AcceptanceDatabase → InstanceRow → Type 0
IsReady project_id id db row =
    (find_row (λ r. instance_is id r && r.project_id == project_id) db.control.instances ≡ some row)
    × (row.active_operation_id ≡ none)
    × (contains mutable_lifecycle_states row.lifecycle_state ≡ true)

pub found_any :
    (p q : InstanceRow → Bool) (rows : List InstanceRow) (row : InstanceRow)
    → find_row p rows ≡ some row
    → q row ≡ true
    → any q rows ≡ true
unfolding find_row
found_any p q [] row found holds = cc
found_any p q (r ∷ rows) row found holds = elim (Bool-cases (p r)) [
  | inl here ↦
      let same : r ≡ row = cc (rw here at found) in
      rw (subst (λ x. q x ≡ true) (sym same) holds) refl
  | inr other ↦ rw (found_any p q rows row (rw other at found) holds) (or_true (q r))
]
  where
    or_true : (b : Bool) → (b || true) ≡ true
    or_true true = refl
    or_true false = refl

pub free_unless_busy : {A : Type 0} (o : Option ℕ) (m : Tried A) → o ≡ none → unless_busy o m ≡ m
free_unless_busy none m e = refl
free_unless_busy (some operation) m e = absurd (cc)

pub bound :
    {A B : Type 0} (P : Tried B → Type 0) (m : Tried A) (a : A) (f : A → Tried B)
    → m ≡ done a
    → P (f a)
    → P (m >>= f)
bound P m a f e h = rw e h

module _ (c : Conventions) (fresh : FreshValues) (hash : String) (db : AcceptanceDatabase) where
  pub commit-IsAccepted :
      (a : Acceptance) (p : InstanceRow → Bool) (row : InstanceRow)
      → find_row p db.control.instances ≡ some row
      → a.instance_id ≡ row.id
      → IsAccepted (commit c a fresh hash db)
  unfolding commit
  commit-IsAccepted a p row found at =
      bound IsAccepted
        (update_or_throw c.strict (instance_is a.instance_id) a.changed db.control.instances)
        (update_rows (instance_is a.instance_id) a.changed db.control.instances)
        (λ instances. done (accepted_mutation c a fresh, committed c a fresh hash db instances))
        (found_update_or_throw c.strict (instance_is a.instance_id) a.changed db.control.instances
          (found_any p (instance_is a.instance_id) db.control.instances row found (here at)))
        refl
    where
      here : a.instance_id ≡ row.id → (row.id == a.instance_id) ≡ true
      here e = ground arith

  pub attempt-IsAccepted :
      (by : MutationIdentity) (action : String)
      (first : Tried (AcceptedMutation × AcceptanceDatabase))
      → record_of by action db ≡ none
      → IsAccepted first
      → IsAccepted (attempt by action hash db first)
  unfolding attempt replayed_response
  attempt-IsAccepted by action first absent h = rw absent h

  pub lock_ready :
      (project_id id : ℕ) (row : InstanceRow)
      → IsReady project_id id db row
      → lock_instance_for_mutation project_id id db.control.instances ≡ done row
  unfolding lock_instance_for_mutation
  lock_ready project_id id row (found, free, ready) =
      rw (found, free_unless_busy row.active_operation_id (if_mutable row) free, ready) refl
