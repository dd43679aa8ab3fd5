-- ===== src/Control/Acceptance/Exclusion.antt =====
-- packages/postgres-adapter/src/control-plane-store.ts: which operation holds an instance.
use private_cloud_control_pl.Prelude.{
  ◌≡◌, ◌≢◌, ◌⊎◌, inl, inr, ℕ, String, true, false, Option, none, some, refl, sym, subst, ◌∙◌,
}
use private_cloud_control_pl.Store.Table.{find_row, update_rows}
use private_cloud_control_pl.Control.Keyed.{find-update_same, find-update_other}
use private_cloud_control_pl.Control.Rows.{InstanceRow}
use private_cloud_control_pl.Control.Transaction.{done, Ensures-done}
use private_cloud_control_pl.Control.Projection.Steps.{instance_is}
use private_cloud_control_pl.Control.Acceptance.Records.{
  AcceptedMutation, AcceptanceDatabase, Conventions, FreshValues,
}
use private_cloud_control_pl.Control.Acceptance.Commands.{
  MutationCommand, accept, target_of, InstanceKeys,
}
use private_cloud_control_pl.Control.Acceptance.Outcomes.{accept-Ensures, Commits}

-- The operation that holds an instance, where there is such an instance.
abbrev pub HeldBy : Option ℕ → Option InstanceRow → Type 0
HeldBy operation none = ⊥
HeldBy operation (some r) = r.active_operation_id ≡ operation

abbrev pub row_of : ℕ → AcceptanceDatabase → Option InstanceRow
row_of id db = find_row (instance_is id) db.control.instances

-- An operation has taken an instance that none held, and no other instance has changed.
abbrev pub Takes : ℕ → AcceptanceDatabase → AcceptedMutation → AcceptanceDatabase → Type 0
Takes id db m after =
    (m.replayed ≡ false)
    × HeldBy none (row_of id db)
    × HeldBy (some m.operation_id) (row_of id after)
    × ((other : ℕ) → id ≢ other → row_of other after ≡ row_of other db)

abbrev pub IsExclusive : ℕ → AcceptanceDatabase → AcceptedMutation × AcceptanceDatabase → Type 0
IsExclusive id db (m, after) = ((m.replayed ≡ true) × (after ≡ db)) ⊎ Takes id db m after

module _ (id operation : ℕ) (f : InstanceRow → InstanceRow) (db : AcceptanceDatabase)
    (row : InstanceRow) (keep : (r : InstanceRow) → (f r).id ≡ r.id)
    (holds : (r : InstanceRow) → (f r).active_operation_id ≡ some operation)
    (found : row_of id db ≡ some row) where
  changed_held :
      HeldBy
        (some operation)
        (find_row (instance_is id) (update_rows (instance_is id) f db.control.instances))
  changed_held =
      rw (find-update_same (λ (r : InstanceRow). r.id) id f db.control.instances keep, found)
        (holds row)

  changed_others :
      (other : ℕ)
      → id ≢ other
      → find_row (instance_is other) (update_rows (instance_is id) f db.control.instances)
        ≡ row_of other db
  changed_others other apart =
      find-update_other (λ (r : InstanceRow). r.id) other id f db.control.instances keep apart

-- A command on an existing instance that is accepted either repeats an earlier answer and changes
-- nothing, or takes an instance that no operation held, which its operation holds afterwards, and
-- changes no other instance's row. The identifiers of the instances are distinct.
pub accept-IsExclusive :
    (c : Conventions) (command : MutationCommand) (fresh : FreshValues) (hash : String)
    (db after : AcceptanceDatabase) (m : AcceptedMutation)
    → InstanceKeys db
    → accept c command fresh hash db ≡ done (m, after)
    → IsExclusive (target_of command) db (m, after)
accept-IsExclusive c command fresh hash db after m keys e =
    Ensures-done (IsExclusive (target_of command) db) (accept c command fresh hash db) (m, after)
      (accept-Ensures (IsExclusive (target_of command) db) c fresh hash db command
        (λ r found same. inl (refl, refl)) taking)
      e
  where
    taking : Commits (IsExclusive (target_of command) db) c fresh hash db command
    taking row a (free, locates, named) (_, _, at, keep, holds) =
        let found = locates keys in
        let here : a.instance_id ≡ target_of command = at ∙ named in
        inr (
          refl,
          rw found free,
          subst
              (λ k. HeldBy (some fresh.operation_id) (
                find_row (instance_is (target_of command))
                  (update_rows (instance_is k) a.changed db.control.instances)))
              (sym here)
              (changed_held (target_of command) fresh.operation_id a.changed db row keep holds
                found),
          subst
              (λ k.
                (other : ℕ)
                → target_of command ≢ other
                → find_row (instance_is other)
                    (update_rows (instance_is k) a.changed db.control.instances)
                  ≡ row_of other db)
              (sym here)
              (changed_others (target_of command) fresh.operation_id a.changed db row keep holds
                found),
        )
