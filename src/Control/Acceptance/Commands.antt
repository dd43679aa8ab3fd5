-- ===== src/Control/Acceptance/Commands.antt =====
-- packages/application/src/ports.ts: the mutations of an existing instance that the control API has
-- accepted by `ControlPlaneStore`.
use private_cloud_control_pl.Prelude.{◌≡◌, ℕ, ◌==◌, String, Bool, true, none, some}
use private_cloud_control_pl.Store.Table.{find_row}
use private_cloud_control_pl.Control.Keyed.{Unique}
use private_cloud_control_pl.Control.Rows.{InstanceRow}
use private_cloud_control_pl.Control.Transaction.{Tried}
use private_cloud_control_pl.Control.Projection.Steps.{instance_is}
use private_cloud_control_pl.Control.Acceptance.Records.{
  AcceptedMutation, AcceptanceDatabase, Conventions, FreshValues, MutationIdentity,
  PowerInstanceCommand, ResizeInstanceCommand, RetainInstanceCommand, PurgeInstanceCommand,
  Acceptance,
}
use private_cloud_control_pl.Control.Acceptance.Methods.{
  identity_of, admin_scope, accept_power_action, accept_resize,
}
use private_cloud_control_pl.Control.Acceptance.Removals.{accept_retention, accept_purge}

pub data MutationCommand : Type 0 where
  power : PowerInstanceCommand → MutationCommand
  resize : ResizeInstanceCommand → MutationCommand
  retain : RetainInstanceCommand → MutationCommand
  purge : PurgeInstanceCommand → MutationCommand

unfoldable pub accept :
    Conventions
    → MutationCommand
    → FreshValues
    → String
    → AcceptanceDatabase
    → Tried (AcceptedMutation × AcceptanceDatabase)
unfolding accept_power_action accept_resize accept_retention accept_purge
accept c (MutationCommand.power command) fresh hash db = accept_power_action c command fresh hash db
accept c (MutationCommand.resize command) fresh hash db = accept_resize c command fresh hash db
accept c (MutationCommand.retain command) fresh hash db = accept_retention c command fresh hash db
accept c (MutationCommand.purge command) fresh hash db = accept_purge c command fresh hash db

-- Under which scope a command is made, which operation it asks for, and of which instance.
abbrev pub identity : MutationCommand → MutationIdentity
identity (MutationCommand.power command) = identity_of command.origin command.project_id
identity (MutationCommand.resize command) = identity_of command.origin command.project_id
identity (MutationCommand.retain command) = identity_of command.origin command.project_id
identity (MutationCommand.purge command) = admin_scope command.origin

abbrev pub operation_type : MutationCommand → String
operation_type (MutationCommand.power command) = "power_instance"
operation_type (MutationCommand.resize command) = "resize_instance"
operation_type (MutationCommand.retain command) = "retain_instance"
operation_type (MutationCommand.purge command) = "purge_instance"

abbrev pub target_of : MutationCommand → ℕ
target_of (MutationCommand.power command) = command.instance_id
target_of (MutationCommand.resize command) = command.instance_id
target_of (MutationCommand.retain command) = command.instance_id
target_of (MutationCommand.purge command) = command.instance_id

-- A purge repeats the identifier of its instance.
abbrev pub is_confirmed : MutationCommand → Bool
is_confirmed (MutationCommand.purge command) = command.confirm_instance_id == command.instance_id
is_confirmed command = true

abbrev pub InstanceKeys : AcceptanceDatabase → Type 0
InstanceKeys db = Unique (λ (r : InstanceRow). r.id) db.control.instances

-- The row that a command may take.
abbrev pub IsIdle : ℕ → AcceptanceDatabase → InstanceRow → Type 0
IsIdle id db row =
    (row.active_operation_id ≡ none)
    × (InstanceKeys db → find_row (instance_is id) db.control.instances ≡ some row)
    × (row.id ≡ id)

-- An acceptance of a command, of the row that it takes.
abbrev pub IsFor : MutationCommand → FreshValues → InstanceRow → Acceptance → Type 0
IsFor command fresh row a =
    (a.identity ≡ identity command)
    × (a.action ≡ operation_type command)
    × (a.instance_id ≡ row.id)
    × ((r : InstanceRow) → (a.changed r).id ≡ r.id)
    × ((r : InstanceRow) → (a.changed r).active_operation_id ≡ some fresh.operation_id)
