-- ===== src/Control/Acceptance/Methods.antt =====
-- packages/postgres-adapter/src/control-plane-store.ts: `acceptPowerAction`, `acceptResize`,
-- `acceptRetention` and `acceptPurge`. The text of a refusal is its code.
use private_cloud_control_pl.Prelude.{
  ℕ, ◌+◌, ◌==◌, String, str_eq, ◌<>◌, Bool, not, ◌&&◌, ◌||◌, Option, none, some, nullish, List, [],
  ◌∷◌, leb, ltb, if◌then◌else◌,
}
use private_cloud_control_pl.Contracts.Events.{Resources, PowerAction}
use private_cloud_control_pl.Domain.Resize.{ResizeVerdict, ResizeRequest, validate_resize}
use private_cloud_control_pl.Store.Table.{find_row}
use private_cloud_control_pl.Control.Rows.{InstanceRow}
use private_cloud_control_pl.Control.Transaction.{Tried, done, ◌>>=◌}
use private_cloud_control_pl.Control.Acceptance.Records.{
  AcceptedMutation, QuotaRow, FlavorRow, Ipv4LeaseRow, ControlPayload, AcceptanceDatabase,
  Conventions, FreshValues, CommandOrigin, MutationIdentity, PowerInstanceCommand,
  ResizeInstanceCommand, Acceptance,
}
use private_cloud_control_pl.Control.Acceptance.Guards.{refuse, lock_instance_for_mutation, attempt}
use private_cloud_control_pl.Control.Acceptance.Writes.{commit}

abbrev pub identity_of : CommandOrigin → ℕ → MutationIdentity
identity_of origin project_id = record {
  subject = origin.subject;
  project_id = project_id;
  idempotency_key = origin.idempotency_key;
}

-- `adminScope`: the zero UUID stands in for the project.
abbrev pub admin_scope : CommandOrigin → MutationIdentity
admin_scope origin = identity_of origin 0

abbrev pub project_status_url : Conventions → ℕ → ℕ → String
project_status_url c project_id operation_id =
    "/v1/projects/" <> c.text project_id <> "/operations/" <> c.text operation_id

abbrev pub admin_status_url : Conventions → ℕ → String
admin_status_url c operation_id = "/v1/admin/operations/" <> c.text operation_id

unfoldable pub power_action_name : PowerAction → String
power_action_name PowerAction.start = "start"
power_action_name PowerAction.shutdown = "shutdown"
power_action_name PowerAction.stop = "stop"
power_action_name PowerAction.reboot = "reboot"

unfoldable pub desired_by : PowerAction → String
desired_by PowerAction.start = "running"
desired_by PowerAction.shutdown = "stopped"
desired_by PowerAction.stop = "stopped"
desired_by PowerAction.reboot = "running"

abbrev pub keep_leases : List Ipv4LeaseRow → List Ipv4LeaseRow
keep_leases leases = leases

abbrev pub power_changed : PowerInstanceCommand → FreshValues → InstanceRow → InstanceRow
power_changed command fresh row = record row {
  active_operation_id = some fresh.operation_id;
  desired_power_state = desired_by command.action;
  updated_at = fresh.now;
}

abbrev pub power_acceptance :
    Conventions → PowerInstanceCommand → FreshValues → InstanceRow → Acceptance
power_acceptance c command fresh row = record {
  origin = command.origin;
  identity = identity_of command.origin command.project_id;
  action = "power_instance";
  project_id = command.project_id;
  instance_id = row.id;
  status_url = project_status_url c command.project_id fresh.operation_id;
  payload = ControlPayload.power_requested (record {
    action = command.action;
    provider_profile_id = row.provider_profile_id;
    create_operation_id = nullish row.create_operation_id c.empty_id;
  });
  changed = power_changed command fresh;
  leases = keep_leases;
  audit_action = "power_" <> power_action_name command.action;
  actor_role = "tenant_developer";
  reason_reference = none;
}

-- `acceptPowerAction`.
unfoldable pub accept_power_action :
    Conventions
    → PowerInstanceCommand
    → FreshValues
    → String
    → AcceptanceDatabase
    → Tried (AcceptedMutation × AcceptanceDatabase)
unfolding attempt lock_instance_for_mutation commit desired_by power_action_name
accept_power_action c command fresh hash db =
    attempt (identity_of command.origin command.project_id) "power_instance" hash db (
      lock_instance_for_mutation command.project_id command.instance_id db.control.instances
      >>= λ row. commit c (power_acceptance c command fresh row) fresh hash db)

abbrev pub larger : ℕ → ℕ → ℕ
larger a b = if leb a b then b else a

abbrev pub resize_target : Resources → FlavorRow → Option ℕ → Resources
resize_target current flavor disk_gib = record {
  cpu_count = flavor.resources.cpu_count;
  memory_mib = flavor.resources.memory_mib;
  disk_gib = larger (larger current.disk_gib flavor.resources.disk_gib) (nullish disk_gib 0);
}

abbrev pub requested_resize : Resources → Resources → Option ℕ → ResizeRequest
requested_resize current target disk_gib = record {
  current = current;
  target = record target { disk_gib = nullish disk_gib target.disk_gib };
}

abbrev pub validated : ResizeVerdict → Tried {0} Unit
validated ResizeVerdict.accepted = done tt
validated ResizeVerdict.disk_shrink_forbidden = refuse "DISK_SHRINK_FORBIDDEN"
validated ResizeVerdict.validation_failed = refuse "VALIDATION_FAILED"

-- The sum of a column over a project's instances that are not purged.
unfoldable pub usage : (Resources → ℕ) → ℕ → List InstanceRow → ℕ
usage measure project_id [] = 0
usage measure project_id (r ∷ rows) =
    let rest = usage measure project_id rows in
    if r.project_id == project_id && not (str_eq r.lifecycle_state "purged")
    then measure r.desired + rest
    else rest

-- `used - current + target > quota`, of numbers that may be negative.
abbrev pub exceeds :
    (Resources → ℕ) → ℕ → List InstanceRow → Resources → Resources → Resources → Bool
exceeds measure project_id rows quota current target =
    ltb (measure quota + measure current) (usage measure project_id rows + measure target)

-- What `assertResizeQuotaHeadroom` makes of the quota that it finds.
abbrev pub within_quota :
    ℕ → List InstanceRow → Resources → Resources → Option QuotaRow → Tried {0} Unit
within_quota project_id rows current target none = refuse "PROJECT_NOT_FOUND"
within_quota project_id rows current target (some quota) =
    if exceeds (λ r. r.cpu_count) project_id rows quota.resources current target
      || exceeds (λ r. r.memory_mib) project_id rows quota.resources current target
      || exceeds (λ r. r.disk_gib) project_id rows quota.resources current target
    then refuse "QUOTA_EXCEEDED"
    else done tt

-- `assertResizeQuotaHeadroom`.
unfoldable pub assert_resize_quota_headroom :
    ℕ → Resources → Resources → AcceptanceDatabase → Tried {0} Unit
unfolding usage
assert_resize_quota_headroom project_id current target db =
    within_quota project_id db.control.instances current target
      (find_row (λ (q : QuotaRow). q.project_id == project_id) db.quotas)

abbrev pub resize_changed :
    ResizeInstanceCommand → FreshValues → Resources → InstanceRow → InstanceRow
resize_changed command fresh target row = record row {
  active_operation_id = some fresh.operation_id;
  flavor_id = command.flavor_id;
  desired = target;
  updated_at = fresh.now;
}

abbrev pub resize_acceptance :
    Conventions → ResizeInstanceCommand → FreshValues → Resources → InstanceRow → Acceptance
resize_acceptance c command fresh target row = record {
  origin = command.origin;
  identity = identity_of command.origin command.project_id;
  action = "resize_instance";
  project_id = command.project_id;
  instance_id = row.id;
  status_url = project_status_url c command.project_id fresh.operation_id;
  payload = ControlPayload.resize_requested (record {
    flavor_id = command.flavor_id;
    target_resources = target;
    provider_profile_id = row.provider_profile_id;
    create_operation_id = nullish row.create_operation_id c.empty_id;
  });
  changed = resize_changed command fresh target;
  leases = keep_leases;
  audit_action = "resize_instance";
  actor_role = "tenant_developer";
  reason_reference = none;
}

abbrev pub flavor_or_refuse : Option FlavorRow → Tried FlavorRow
flavor_or_refuse none = refuse "VALIDATION_FAILED"
flavor_or_refuse (some flavor) = done flavor

abbrev pub enabled_flavor : String → List FlavorRow → Tried FlavorRow
enabled_flavor id flavors =
    flavor_or_refuse (find_row (λ (f : FlavorRow). str_eq f.id id && f.enabled) flavors)

abbrev pub resize_to :
    Conventions
    → ResizeInstanceCommand
    → FreshValues
    → String
    → AcceptanceDatabase
    → InstanceRow
    → Resources
    → Tried (AcceptedMutation × AcceptanceDatabase)
resize_to c command fresh hash db row target =
    validated (validate_resize (requested_resize row.desired target command.disk_gib)) >>= λ _.
    assert_resize_quota_headroom command.project_id row.desired target db >>= λ _.
    commit c (resize_acceptance c command fresh target row) fresh hash db

-- `acceptResize`.
unfoldable pub accept_resize :
    Conventions
    → ResizeInstanceCommand
    → FreshValues
    → String
    → AcceptanceDatabase
    → Tried (AcceptedMutation × AcceptanceDatabase)
unfolding attempt lock_instance_for_mutation commit validate_resize assert_resize_quota_headroom
accept_resize c command fresh hash db =
    attempt (identity_of command.origin command.project_id) "resize_instance" hash db (
      lock_instance_for_mutation command.project_id command.instance_id db.control.instances
      >>= λ row. enabled_flavor command.flavor_id db.flavors >>= λ flavor.
          resize_to c command fresh hash db row (resize_target row.desired flavor command.disk_gib))
