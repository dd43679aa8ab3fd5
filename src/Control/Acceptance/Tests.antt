-- ===== src/Control/Acceptance/Tests.antt =====
-- Acceptances of mutations of one instance.
use private_cloud_control_pl.Prelude.{
  ◌≡◌, ℕ, String, true, false, Option, none, some, [], ◌∷◌, refl, inl, arith, decimal, contains,
}
use private_cloud_control_pl.Contracts.Events.{PowerAction}
use private_cloud_control_pl.Control.Acceptance.Methods.{usage}
use private_cloud_control_pl.Store.Table.{find_row, update_rows}
use private_cloud_control_pl.Control.Rows.{InstanceRow}
use private_cloud_control_pl.Control.Transaction.{TransactionError, Tried, done, threw}
use private_cloud_control_pl.Control.Acceptance.Records.{
  QuotaRow, FlavorRow, AcceptedMutation, LeaseState, Ipv4LeaseRow, AcceptanceDatabase, Conventions,
  FreshValues, CommandOrigin, ResizeInstanceCommand, PurgeInstanceCommand,
}
use private_cloud_control_pl.Control.Acceptance.Guards.{replayed_response}
use private_cloud_control_pl.Control.Acceptance.Removals.{LeaseReleaseMode, release_ipv4_lease}
use private_cloud_control_pl.Control.Acceptance.Commands.{MutationCommand, accept}
use private_cloud_control_pl.Control.Acceptance.Exclusion.{IsExclusive, accept-IsExclusive}
use private_cloud_control_pl.Control.Acceptance.Repeats.{repeated, accept-repeated}
use private_cloud_control_pl.Control.Acceptance.Purges.{IsJustified, accept_purge-IsJustified}
use private_cloud_control_pl.Control.Acceptance.Quota.{IsAfforded, accept_resize-IsAfforded}
use private_cloud_control_pl.Control.Acceptance.Success.{accept-IsAccepted}
use private_cloud_control_pl.Control.Acceptance.Readiness.{IsAccepted}
use private_cloud_control_pl.Control.Acceptance.Leases.{IsReleaseOf, release_ipv4_lease-IsReleaseOf}

abbrev instance : String → Option ℕ → InstanceRow
instance lifecycle_state retention_deadline = record {
  id = 7;
  project_id = 1;
  provider_profile_id = "lab";
  flavor_id = "small";
  request = 0;
  desired = record { cpu_count = 2; memory_mib = 2048; disk_gib = 20 };
  desired_power_state = "running";
  lifecycle_state = lifecycle_state;
  active_operation_id = none;
  create_operation_id = some 2;
  retention_deadline = retention_deadline;
  purge_eligible = false;
  drift = "none";
  last_reconciled_at = none;
  observed_exists = none;
  observed_power_state = none;
  observed_cpu_count = none;
  observed_memory_mib = none;
  observed_disk_gib = none;
  observed_marker_match = none;
  observed_at = none;
  updated_at = 0;
}

abbrev project_quota : QuotaRow
project_quota = record {
  project_id = 1;
  resources = record { cpu_count = 4; memory_mib = 4096; disk_gib = 40 };
}

abbrev large_flavor : FlavorRow
large_flavor = record {
  id = "large";
  resources = record { cpu_count = 4; memory_mib = 4096; disk_gib = 30 };
  enabled = true;
}

abbrev lease : Ipv4LeaseRow
lease = record { id = 3; instance_id = 7; state = LeaseState.active; updated_at = 0 }

abbrev with_instance : InstanceRow → AcceptanceDatabase
with_instance row = record {
  control = record {
    instances = row ∷ [];
    operations = [];
    snapshots = [];
    replay_requests = [];
    instance_documents = [];
    operation_documents = [];
    snapshot_documents = [];
    dead_letters = [];
    receipts = [];
    poison_records = [];
    outbox = [];
  };
  idempotency_records = [];
  quotas = project_quota ∷ [];
  flavors = large_flavor ∷ [];
  ipv4_leases = lease ∷ [];
  retention_policy =
      some record { retention_hours = 24; lease_release_mode = "quarantine_until_purge" };
  commands = [];
  audit_entries = [];
}

abbrev active_database : AcceptanceDatabase
active_database = with_instance (instance "active" none)

abbrev retained_database : AcceptanceDatabase
retained_database = with_instance (instance "retained" (some 900))

abbrev conventions : Conventions
conventions = record { strict = true; text = decimal; request = λ r. r.target_id; empty_id = 0 }

abbrev fresh_at : ℕ → FreshValues
fresh_at now = record {
  now = now;
  operation_id = 41;
  event_id = 42;
  audit_event_id = 43;
  purge_authorization_id = 44;
}

abbrev origin : CommandOrigin
origin = record {
  subject = "someone";
  idempotency_key = "key-1";
  correlation_id = 5;
  traceparent = "";
  trace_context = 6;
}

abbrev reboot : MutationCommand
reboot =
    MutationCommand.power
      (record { origin = origin; project_id = 1; instance_id = 7; action = PowerAction.reboot })

abbrev resize_command : ResizeInstanceCommand
resize_command = record {
  origin = origin;
  project_id = 1;
  instance_id = 7;
  flavor_id = "large";
  disk_gib = none;
}

abbrev retain_command : MutationCommand
retain_command =
    MutationCommand.retain (record { origin = origin; project_id = 1; instance_id = 7 })

abbrev purge_command : PurgeInstanceCommand
purge_command = record { origin = origin; instance_id = 7; confirm_instance_id = 7 }

-- The outcome of a transaction that commits.
abbrev outcome :
    AcceptanceDatabase
    → Tried (AcceptedMutation × AcceptanceDatabase)
    → AcceptedMutation × AcceptanceDatabase
outcome db (done o) = o
outcome db (threw e) = (
  record { operation_id = 0; target_id = 0; accepted_at = 0; status_url = ""; replayed = true },
  db,
)

abbrev after : MutationCommand → AcceptanceDatabase → AcceptedMutation × AcceptanceDatabase
after command db = outcome db (accept conventions command (fresh_at 1000) "hash" db)

reboot_is_accepted : (after reboot active_database).0.replayed ≡ false
unfolding accept replayed_response find_row update_rows contains
reboot_is_accepted = refl

-- Another mutation of the instance is refused until the first has ended.
retention_is_refused :
    accept conventions retain_command (fresh_at 2000) "other" (after reboot active_database).1
    ≡ threw (TransactionError.refused "INSTANCE_BUSY")
unfolding accept replayed_response find_row update_rows contains
retention_is_refused = refl

accept-IsExclusive_example : IsExclusive 7 active_database (after reboot active_database)
unfolding accept replayed_response find_row update_rows contains
accept-IsExclusive_example =
    accept-IsExclusive conventions reboot (fresh_at 1000) "hash" active_database
      (after reboot active_database).1 (after reboot active_database).0 (tt, tt) refl

-- A day and more after the first, which is after the record has expired.
accept-repeated_example :
    accept conventions reboot (fresh_at 99000000) "hash" (after reboot active_database).1
    ≡ repeated "hash" "hash" (after reboot active_database).0 (after reboot active_database).1
unfolding accept replayed_response find_row update_rows contains
accept-repeated_example =
    accept-repeated conventions reboot reboot (fresh_at 1000) (fresh_at 99000000) "hash" "hash"
      active_database (after reboot active_database).1 (after reboot active_database).0 refl refl
      refl refl

accept_purge-IsJustified_example :
    IsJustified purge_command
      (fresh_at 1000)
      retained_database
      (after (MutationCommand.purge purge_command) retained_database)
unfolding accept replayed_response find_row update_rows contains
accept_purge-IsJustified_example =
    accept_purge-IsJustified conventions purge_command (fresh_at 1000) "hash" retained_database
      (after (MutationCommand.purge purge_command) retained_database).1
      (after (MutationCommand.purge purge_command) retained_database).0 refl

purge_is_early :
    accept conventions (MutationCommand.purge purge_command) (fresh_at 899) "hash" retained_database
    ≡ threw (TransactionError.refused "INSTANCE_BUSY")
unfolding accept replayed_response find_row update_rows contains
purge_is_early = refl

accept_resize-IsAfforded_example :
    IsAfforded resize_command active_database
      (after (MutationCommand.resize resize_command) active_database)
unfolding accept replayed_response find_row update_rows contains
accept_resize-IsAfforded_example =
    accept_resize-IsAfforded conventions resize_command (fresh_at 1000) "hash" active_database
      (after (MutationCommand.resize resize_command) active_database).1
      (after (MutationCommand.resize resize_command) active_database).0 (tt, tt) refl

abbrev quarantined_lease : Ipv4LeaseRow
quarantined_lease = record lease { state = LeaseState.quarantined; updated_at = 5 }

release_ipv4_lease-IsReleaseOf_example :
    IsReleaseOf LeaseReleaseMode.quarantine_until_purge 7
      (lease ∷ [])
      (some LeaseState.quarantined, quarantined_lease ∷ [])
unfolding release_ipv4_lease find_row update_rows
release_ipv4_lease-IsReleaseOf_example =
    release_ipv4_lease-IsReleaseOf true 7 LeaseReleaseMode.quarantine_until_purge 5 (lease ∷ [])
      (quarantined_lease ∷ []) (some LeaseState.quarantined) refl

accept-IsAccepted_example : IsAccepted (
    accept conventions
      (MutationCommand.resize resize_command)
      (fresh_at 1000)
      "hash"
      active_database)
unfolding find_row contains usage
accept-IsAccepted_example =
    accept-IsAccepted conventions (MutationCommand.resize resize_command) (fresh_at 1000) "hash"
      active_database refl
      (
        instance "active" none,
        large_flavor,
        project_quota,
        (refl, refl, refl),
        inl (refl, refl, refl),
        (tt, inl (omega arith)),
        refl,
        (omega arith, omega arith, omega arith),
      )
