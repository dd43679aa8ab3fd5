-- ===== src/Control/Acceptance/Purges.antt =====
-- packages/postgres-adapter/src/control-plane-store.ts: when a purge is accepted.
use private_cloud_control_pl.Prelude.{
  ◌≡◌, ◌≤◌, ◌⊎◌, inl, inr, ℕ, String, true, Option, none, some, refl,
}
use private_cloud_control_pl.Control.Keyed.{find-update_same, find_key}
use private_cloud_control_pl.Control.Rows.{InstanceRow}
use private_cloud_control_pl.Control.Transaction.{done, Ensures-done}
use private_cloud_control_pl.Control.Acceptance.Records.{
  AcceptedMutation, AcceptanceDatabase, Conventions, FreshValues, PurgeInstanceCommand,
}
use private_cloud_control_pl.Control.Acceptance.Removals.{purge_changed}
use private_cloud_control_pl.Control.Acceptance.Commands.{MutationCommand, accept}
use private_cloud_control_pl.Control.Acceptance.Outcomes.{accept_purge-Ensures}
use private_cloud_control_pl.Control.Acceptance.Exclusion.{row_of}

-- A row that may be purged at a moment.
abbrev pub IsPurgeable : ℕ → Option InstanceRow → Type 0
IsPurgeable now none = ⊥
IsPurgeable now (some r) =
    (r.active_operation_id ≡ none)
    × (r.lifecycle_state ≡ "retained")
    × ((deadline : ℕ) × (r.retention_deadline ≡ some deadline) × (deadline ≤ now))

abbrev pub IsPending : Option InstanceRow → Type 0
IsPending none = ⊥
IsPending (some r) = r.lifecycle_state ≡ "purge_pending"

abbrev pub IsJustified :
    PurgeInstanceCommand
    → FreshValues
    → AcceptanceDatabase
    → AcceptedMutation × AcceptanceDatabase
    → Type 0
IsJustified command fresh db (m, after) =
    ((m.replayed ≡ true) × (after ≡ db))
    ⊎ ((command.confirm_instance_id ≡ command.instance_id)
        × IsPurgeable fresh.now (row_of command.instance_id db)
        × IsPending (row_of command.instance_id after))

-- A purge that is accepted repeats an earlier answer and changes nothing, or its confirmation repeats
-- the identifier of an instance that no operation holds, that is retained, and whose deadline has
-- passed at the moment of the acceptance, and the instance is then pending its purge.
pub accept_purge-IsJustified :
    (c : Conventions) (command : PurgeInstanceCommand) (fresh : FreshValues) (hash : String)
    (db after : AcceptanceDatabase) (m : AcceptedMutation)
    → accept c (MutationCommand.purge command) fresh hash db ≡ done (m, after)
    → IsJustified command fresh db (m, after)
accept_purge-IsJustified c command fresh hash db after m e =
    Ensures-done (IsJustified command fresh db)
      (accept c (MutationCommand.purge command) fresh hash db) (m, after)
      (accept_purge-Ensures (IsJustified command fresh db) c fresh hash db command
        (λ r found same. inl (refl, refl))
        λ row deadline confirmed found free retained past. inr (
          confirmed,
          rw found (free, retained, (deadline, past.0, past.1)),
          rw
              (
                find_key (λ (r : InstanceRow). r.id) command.instance_id db.control.instances row
                    found,
                find-update_same (λ (r : InstanceRow). r.id) command.instance_id
                    (purge_changed fresh) db.control.instances (λ r. refl),
                found,
              )
              refl,
        ))
      e
