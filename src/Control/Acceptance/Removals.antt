-- ===== src/Control/Acceptance/Removals.antt =====
-- packages/postgres-adapter/src/control-plane-store.ts: `acceptRetention`, `acceptPurge` and
-- `releaseIpv4Lease`. The text of a refusal is its code.
use private_cloud_control_pl.Prelude.{
  ℕ, ◌+◌, ◌*◌, ◌==◌, String, str_eq, Bool, true, false, not, ◌&&◌, Option, none, some, nullish,
  List, leb, ltb, if◌then◌else◌,
}
use private_cloud_control_pl.Store.Table.{find_row, update_rows}
use private_cloud_control_pl.Control.Rows.{InstanceRow}
use private_cloud_control_pl.Control.Transaction.{Tried, done, ◌>>=◌, or_throw, update_or_throw}
use private_cloud_control_pl.Control.Projection.Steps.{instance_is}
use private_cloud_control_pl.Control.Acceptance.Records.{
  AcceptedMutation, LeaseState, Ipv4LeaseRow, RetentionPolicyRow, ControlPayload,
  AcceptanceDatabase, Conventions, FreshValues, RetainInstanceCommand, PurgeInstanceCommand,
  Acceptance,
}
use private_cloud_control_pl.Control.Acceptance.Guards.{
  refuse, lock_instance_for_mutation, unless_busy, existing, attempt,
}
use private_cloud_control_pl.Control.Acceptance.Writes.{commit}
use private_cloud_control_pl.Control.Acceptance.Methods.{
  identity_of, admin_scope, project_status_url, admin_status_url, keep_leases,
}

unfoldable pub is_active_lease : LeaseState → Bool
is_active_lease LeaseState.active = true
is_active_lease LeaseState.quarantined = false
is_active_lease LeaseState.released = false

abbrev pub retained_lease_state : String → LeaseState
retained_lease_state mode =
    if str_eq mode "release_on_retain" then LeaseState.released else LeaseState.quarantined

abbrev pub retained_leases : String → ℕ → ℕ → List Ipv4LeaseRow → List Ipv4LeaseRow
retained_leases mode instance_id now =
    update_rows (λ (l : Ipv4LeaseRow). l.instance_id == instance_id && is_active_lease l.state)
      (λ l. record l { state = retained_lease_state mode; updated_at = now })

abbrev pub deadline_of : RetentionPolicyRow → FreshValues → ℕ
deadline_of policy fresh = fresh.now + policy.retention_hours * 60 * 60 * 1000

abbrev pub retention_changed : RetentionPolicyRow → FreshValues → InstanceRow → InstanceRow
retention_changed policy fresh row = record row {
  active_operation_id = some fresh.operation_id;
  lifecycle_state = "deleting";
  retention_deadline = some (deadline_of policy fresh);
  purge_eligible = false;
  updated_at = fresh.now;
}

abbrev pub retention_acceptance :
    Conventions
    → RetainInstanceCommand
    → FreshValues
    → RetentionPolicyRow
    → InstanceRow
    → Acceptance
retention_acceptance c command fresh policy row = record {
  origin = command.origin;
  identity = identity_of command.origin command.project_id;
  action = "retain_instance";
  project_id = command.project_id;
  instance_id = row.id;
  status_url = project_status_url c command.project_id fresh.operation_id;
  payload =
      ControlPayload.retention_requested
        (record {
          retention_deadline = deadline_of policy fresh;
          provider_profile_id = row.provider_profile_id;
          create_operation_id = nullish row.create_operation_id c.empty_id;
        })
        policy.lease_release_mode;
  changed = retention_changed policy fresh;
  leases = retained_leases policy.lease_release_mode row.id fresh.now;
  audit_action = "retain_instance";
  actor_role = "tenant_developer";
  reason_reference = none;
}

-- `acceptRetention`.
unfoldable pub accept_retention :
    Conventions
    → RetainInstanceCommand
    → FreshValues
    → String
    → AcceptanceDatabase
    → Tried (AcceptedMutation × AcceptanceDatabase)
unfolding attempt lock_instance_for_mutation commit is_active_lease
accept_retention c command fresh hash db =
    attempt (identity_of command.origin command.project_id) "retain_instance" hash db (
      lock_instance_for_mutation command.project_id command.instance_id db.control.instances
      >>= λ row. or_throw db.retention_policy >>= λ policy.
          commit c (retention_acceptance c command fresh policy row) fresh hash db)

abbrev pub purge_changed : FreshValues → InstanceRow → InstanceRow
purge_changed fresh row = record row {
  active_operation_id = some fresh.operation_id;
  lifecycle_state = "purge_pending";
  purge_eligible = true;
  updated_at = fresh.now;
}

abbrev pub purge_acceptance :
    Conventions → PurgeInstanceCommand → FreshValues → InstanceRow → ℕ → Acceptance
purge_acceptance c command fresh row deadline = record {
  origin = command.origin;
  identity = admin_scope command.origin;
  action = "purge_instance";
  project_id = row.project_id;
  instance_id = row.id;
  status_url = admin_status_url c fresh.operation_id;
  payload = ControlPayload.purge_requested (record {
    purge_authorization_id = fresh.purge_authorization_id;
    retention_deadline = deadline;
    reason_reference = c.text fresh.purge_authorization_id;
    provider_profile_id = row.provider_profile_id;
    create_operation_id = nullish row.create_operation_id c.empty_id;
  });
  changed = purge_changed fresh;
  leases = keep_leases;
  audit_action = "purge_instance";
  actor_role = "platform_administrator";
  reason_reference = some fresh.purge_authorization_id;
}

abbrev pub past_deadline : ℕ → Option ℕ → Tried ℕ
past_deadline now none = refuse "INSTANCE_BUSY"
past_deadline now (some deadline) =
    if ltb now deadline then refuse "INSTANCE_BUSY" else done deadline

-- The guards of a purge, and the deadline that has passed.
abbrev pub if_retained : ℕ → InstanceRow → Tried ℕ
if_retained now row =
    if not (str_eq row.lifecycle_state "retained")
    then refuse "INSTANCE_BUSY"
    else past_deadline now row.retention_deadline

abbrev pub purgeable : ℕ → InstanceRow → Tried ℕ
purgeable now row = unless_busy row.active_operation_id (if_retained now row)

-- `acceptPurge`.
unfoldable pub accept_purge :
    Conventions
    → PurgeInstanceCommand
    → FreshValues
    → String
    → AcceptanceDatabase
    → Tried (AcceptedMutation × AcceptanceDatabase)
unfolding attempt commit
accept_purge c command fresh hash db =
    if not (command.confirm_instance_id == command.instance_id)
    then refuse "VALIDATION_FAILED"
    else attempt (admin_scope command.origin) "purge_instance" hash db (
        existing (find_row (instance_is command.instance_id) db.control.instances) >>= λ row.
        purgeable fresh.now row >>= λ deadline.
        commit c (purge_acceptance c command fresh row deadline) fresh hash db)

-- `LeaseReleaseMode`.
pub data LeaseReleaseMode : Type 0 where
  quarantine_until_purge release_on_retain : LeaseReleaseMode

unfoldable pub lease_target : LeaseReleaseMode → LeaseState
lease_target LeaseReleaseMode.quarantine_until_purge = LeaseState.quarantined
lease_target LeaseReleaseMode.release_on_retain = LeaseState.released

unfoldable pub lease_order : LeaseState → ℕ
lease_order LeaseState.active = 0
lease_order LeaseState.quarantined = 1
lease_order LeaseState.released = 2

abbrev pub lease_is : ℕ → LeaseState → Ipv4LeaseRow → Bool
lease_is id state l = l.id == id && lease_order l.state == lease_order state

abbrev pub lease_of : ℕ → Ipv4LeaseRow → Bool
lease_of instance_id l = l.instance_id == instance_id

-- The answer, and the leases, by the lease that is found.
abbrev pub advance_lease :
    Bool
    → LeaseReleaseMode
    → ℕ
    → List Ipv4LeaseRow
    → Option Ipv4LeaseRow
    → Tried (Option LeaseState × List Ipv4LeaseRow)
advance_lease strict mode now leases none = done (none, leases)
advance_lease strict mode now leases (some lease) =
    if leb (lease_order (lease_target mode)) (lease_order lease.state)
    then done (if is_active_lease lease.state then none else some lease.state, leases)
    else update_or_throw strict (lease_is lease.id lease.state)
        (λ l. record l { state = lease_target mode; updated_at = now }) leases
      >>= λ rows. done (some (lease_target mode), rows)

-- `releaseIpv4Lease`.
unfoldable pub release_ipv4_lease :
    Bool
    → ℕ
    → LeaseReleaseMode
    → ℕ
    → List Ipv4LeaseRow
    → Tried (Option LeaseState × List Ipv4LeaseRow)
unfolding lease_target lease_order is_active_lease
release_ipv4_lease strict instance_id mode now leases =
    advance_lease strict mode now leases (find_row (lease_of instance_id) leases)
