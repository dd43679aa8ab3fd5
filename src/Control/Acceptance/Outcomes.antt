-- ===== src/Control/Acceptance/Outcomes.antt =====
-- packages/postgres-adapter/src/control-plane-store.ts: what the transactions of accepted commands leave.
use private_cloud_control_pl.Prelude.{
  ◌≡◌, ◌≤◌, ℕ, ◌==◌, String, true, Option, none, some, refl, inl, inr, Bool-cases, Among, arith,
}
use private_cloud_control_pl.Domain.Resize.{ResizeVerdict, validate_resize}
use private_cloud_control_pl.Store.Table.{find_row, update_rows}
use private_cloud_control_pl.Control.Keyed.{find_key}
use private_cloud_control_pl.Control.Rows.{InstanceRow}
use private_cloud_control_pl.Control.Transaction.{
  Tried, done, threw, ◌>>=◌, Ensures, or_throw, Ensures-or_throw,
}
use private_cloud_control_pl.Control.Projection.Steps.{instance_is}
use private_cloud_control_pl.Control.Acceptance.Records.{
  FlavorRow, RetentionPolicyRow, AcceptedMutation, IdempotencyRow, AcceptanceDatabase, Conventions,
  FreshValues, PowerInstanceCommand, ResizeInstanceCommand, RetainInstanceCommand,
  PurgeInstanceCommand, Acceptance,
}
use private_cloud_control_pl.Control.Acceptance.Guards.{
  is_scope, as_replay, mutable_lifecycle_states, lock_instance_for_mutation, existing,
}
use private_cloud_control_pl.Control.Acceptance.Writes.{accepted_mutation, committed, commit}
use private_cloud_control_pl.Control.Acceptance.Methods.{
  identity_of, admin_scope, power_acceptance, accept_power_action, resize_target, requested_resize,
  assert_resize_quota_headroom, resize_acceptance, resize_changed, enabled_flavor, resize_to,
  accept_resize,
}
use private_cloud_control_pl.Control.Acceptance.Removals.{
  purge_changed, purgeable, retention_acceptance, purge_acceptance, accept_retention, accept_purge,
}
use private_cloud_control_pl.Contracts.Events.{Resources}
use private_cloud_control_pl.Control.Acceptance.Commands.{
  MutationCommand, accept, identity, operation_type, target_of, IsIdle, IsFor,
}
use private_cloud_control_pl.Control.Acceptance.Rules.{
  Ensures-attempt, Ensures-lock, Ensures-purgeable, Ensures-checked, Ensures-commit,
}

-- What a command's transaction leaves: it repeats the answer that is recorded under its scope, or takes
-- an idle row and commits an acceptance of it.
module _ (P : AcceptedMutation × AcceptanceDatabase → Type 0) (c : Conventions)
    (fresh : FreshValues) (hash : String) (db : AcceptanceDatabase) where
  abbrev pub Replays : MutationCommand → Type 0
  Replays command =
      (r : IdempotencyRow)
      → find_row (is_scope (identity command) (operation_type command)) db.idempotency_records
        ≡ some r
      → r.request_hash ≡ hash
      → P (as_replay r.response, db)

  abbrev pub Commits : MutationCommand → Type 0
  Commits command =
      (row : InstanceRow) (a : Acceptance)
      → IsIdle (target_of command) db row
      → IsFor command fresh row a
      → P (
        accepted_mutation c a fresh,
        committed c a fresh hash db
            (update_rows (instance_is a.instance_id) a.changed db.control.instances),
      )

  power_Ensures :
      (command : PowerInstanceCommand)
      → Replays (MutationCommand.power command)
      → Commits (MutationCommand.power command)
      → Ensures P (accept c (MutationCommand.power command) fresh hash db)
  unfolding accept accept_power_action
  power_Ensures command replays commits =
      Ensures-attempt P (identity_of command.origin command.project_id) "power_instance" hash db
        (lock_instance_for_mutation command.project_id command.instance_id db.control.instances
          >>= λ row. commit c (power_acceptance c command fresh row) fresh hash db)
        replays
        (Ensures-lock P command.project_id command.instance_id db
          (λ row. commit c (power_acceptance c command fresh row) fresh hash db)
          λ row idle own ready.
            let a = power_acceptance c command fresh row in
            Ensures-commit P c a fresh hash db
              (commits row a idle (refl, refl, refl, λ r. refl, λ r. refl)))

  retain_Ensures :
      (command : RetainInstanceCommand)
      → Replays (MutationCommand.retain command)
      → Commits (MutationCommand.retain command)
      → Ensures P (accept c (MutationCommand.retain command) fresh hash db)
  unfolding accept accept_retention
  retain_Ensures command replays commits =
      Ensures-attempt P (identity_of command.origin command.project_id) "retain_instance" hash db
        (lock_instance_for_mutation command.project_id command.instance_id db.control.instances
          >>= with_policy)
        replays
        (Ensures-lock P command.project_id command.instance_id db with_policy λ row idle own ready.
          Ensures-or_throw P db.retention_policy (committing row) λ policy there.
            let a = retention_acceptance c command fresh policy row in
            Ensures-commit P c a fresh hash db
              (commits row a idle (refl, refl, refl, λ r. refl, λ r. refl)))
    where
      committing : InstanceRow → RetentionPolicyRow → Tried (AcceptedMutation × AcceptanceDatabase)
      committing row policy =
          commit c (retention_acceptance c command fresh policy row) fresh hash db

      with_policy : InstanceRow → Tried (AcceptedMutation × AcceptanceDatabase)
      with_policy row = or_throw db.retention_policy >>= committing row

  -- A purge commits where it is confirmed and its row is retained, idle and past its deadline.
  pub accept_purge-Ensures :
      (command : PurgeInstanceCommand)
      → Replays (MutationCommand.purge command)
      → ((row : InstanceRow) (deadline : ℕ)
          → command.confirm_instance_id ≡ command.instance_id
          → find_row (instance_is command.instance_id) db.control.instances ≡ some row
          → row.active_operation_id ≡ none
          → row.lifecycle_state ≡ "retained"
          → (row.retention_deadline ≡ some deadline) × (deadline ≤ fresh.now)
          → P (
            accepted_mutation c (purge_acceptance c command fresh row deadline) fresh,
            committed c
                (purge_acceptance c command fresh row deadline)
                fresh
                hash
                db
                (update_rows (instance_is row.id) (purge_changed fresh) db.control.instances),
          ))
      → Ensures P (accept c (MutationCommand.purge command) fresh hash db)
  unfolding accept accept_purge
  accept_purge-Ensures command replays commits =
      elim (Bool-cases (command.confirm_instance_id == command.instance_id)) [
        | inr other ↦ rw other tt
        | inl confirmed ↦ rw confirmed (
            Ensures-attempt P (admin_scope command.origin) "purge_instance" hash db
              (existing (find_row (instance_is command.instance_id) db.control.instances)
                >>= taking)
              replays (by_row (equal confirmed) (find_row _ _) refl))
      ]
    where
      equal : {m n : ℕ} → (m == n) ≡ true → m ≡ n
      equal e = ground arith

      taking : InstanceRow → Tried (AcceptedMutation × AcceptanceDatabase)
      taking row = purgeable fresh.now row >>= λ deadline.
          commit c (purge_acceptance c command fresh row deadline) fresh hash db

      by_row :
          command.confirm_instance_id ≡ command.instance_id
          → (o : Option InstanceRow)
          → find_row (instance_is command.instance_id) db.control.instances ≡ o
          → Ensures P (existing o >>= taking)
      by_row confirmed none found = tt
      by_row confirmed (some row) found =
          Ensures-purgeable P fresh.now row
            (λ deadline. commit c (purge_acceptance c command fresh row deadline) fresh hash db)
            λ deadline free retained past.
              Ensures-commit P c (purge_acceptance c command fresh row deadline) fresh hash db
                (commits row deadline confirmed found free retained past)

  purge_Ensures :
      (command : PurgeInstanceCommand)
      → Replays (MutationCommand.purge command)
      → Commits (MutationCommand.purge command)
      → Ensures P (accept c (MutationCommand.purge command) fresh hash db)
  purge_Ensures command replays commits =
      accept_purge-Ensures command replays λ row deadline confirmed found free retained past.
        commits row (purge_acceptance c command fresh row deadline)
          (
            free,
            λ keys. found,
            find_key (λ (r : InstanceRow). r.id) command.instance_id db.control.instances row found,
          )
          (refl, refl, refl, λ r. refl, λ r. refl)

  -- A resize commits where the domain accepts the sizes and the project's quota has room for them.
  pub accept_resize-Ensures :
      (command : ResizeInstanceCommand)
      → Replays (MutationCommand.resize command)
      → ((row : InstanceRow) (target : Resources)
          → IsIdle command.instance_id db row
          → row.project_id ≡ command.project_id
          → Among row.lifecycle_state mutable_lifecycle_states
          → validate_resize (requested_resize row.desired target command.disk_gib)
            ≡ ResizeVerdict.accepted
          → assert_resize_quota_headroom command.project_id row.desired target db ≡ done tt
          → P (
            accepted_mutation c (resize_acceptance c command fresh target row) fresh,
            committed c (resize_acceptance c command fresh target row) fresh hash db (
                update_rows
                  (instance_is row.id)
                  (resize_changed command fresh target)
                  db.control.instances),
          ))
      → Ensures P (accept c (MutationCommand.resize command) fresh hash db)
  unfolding accept accept_resize
  accept_resize-Ensures command replays commits =
      Ensures-attempt P (identity_of command.origin command.project_id) "resize_instance" hash db
        (lock_instance_for_mutation command.project_id command.instance_id db.control.instances
          >>= with_flavor)
        replays
        (Ensures-lock P command.project_id command.instance_id db with_flavor λ row idle own ready.
          by_flavor row idle own ready (enabled_flavor command.flavor_id db.flavors))
    where
      sized : InstanceRow → FlavorRow → Tried (AcceptedMutation × AcceptanceDatabase)
      sized row flavor =
          resize_to c command fresh hash db row (resize_target row.desired flavor command.disk_gib)

      with_flavor : InstanceRow → Tried (AcceptedMutation × AcceptanceDatabase)
      with_flavor row = enabled_flavor command.flavor_id db.flavors >>= sized row

      by_flavor :
          (row : InstanceRow)
          → IsIdle command.instance_id db row
          → row.project_id ≡ command.project_id
          → Among row.lifecycle_state mutable_lifecycle_states
          → (m : Tried FlavorRow) → Ensures P (m >>= sized row)
      by_flavor row idle own ready (threw e) = tt
      by_flavor row idle own ready (done flavor) =
          let target = resize_target row.desired flavor command.disk_gib in
          Ensures-checked P (validate_resize (requested_resize row.desired target command.disk_gib))
            (assert_resize_quota_headroom command.project_id row.desired target db)
            (commit c (resize_acceptance c command fresh target row) fresh hash db)
            λ valid room.
              Ensures-commit P c (resize_acceptance c command fresh target row) fresh hash db
                (commits row target idle own ready valid room)

  resize_Ensures :
      (command : ResizeInstanceCommand)
      → Replays (MutationCommand.resize command)
      → Commits (MutationCommand.resize command)
      → Ensures P (accept c (MutationCommand.resize command) fresh hash db)
  resize_Ensures command replays commits =
      accept_resize-Ensures command replays λ row target idle own ready valid room.
        commits row (resize_acceptance c command fresh target row) idle
          (refl, refl, refl, λ r. refl, λ r. refl)

  pub accept-Ensures :
      (command : MutationCommand)
      → Replays command
      → Commits command
      → Ensures P (accept c command fresh hash db)
  accept-Ensures (MutationCommand.power command) replays commits =
      power_Ensures command replays commits
  accept-Ensures (MutationCommand.resize command) replays commits =
      resize_Ensures command replays commits
  accept-Ensures (MutationCommand.retain command) replays commits =
      retain_Ensures command replays commits
  accept-Ensures (MutationCommand.purge command) replays commits =
      purge_Ensures command replays commits
