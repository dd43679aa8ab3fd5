-- ===== src/Domain/Tests.antt =====
-- Concrete snapshots, sizes and pools.
use private_cloud_control_pl.Prelude.{refl, ℕ, ◌==◌, ◌-◌, Bool, true, false, none, some}
use private_cloud_control_pl.Contracts.Events.{PowerState}
use private_cloud_control_pl.Domain.Drift.{
  DesiredPower, DesiredSnapshot, ObservedSnapshot, classify_drift, Explains,
  classify_drift-Explains,
}
use private_cloud_control_pl.Domain.Resize.{
  ResizeRequest, validate_resize, Justifies, validate_resize-Justifies,
}
use private_cloud_control_pl.Domain.Addresses.{
  is_taken, host_count, allocate_ipv4, IsLowest, allocate_ipv4-IsLowest,
}

abbrev desired_running : DesiredSnapshot
desired_running = record {
  lifecycle_state = "active";
  power_state = DesiredPower.running;
  cpu_count = 2;
  memory_mib = 2048;
  disk_gib = 20;
}

abbrev observed_stopped : ObservedSnapshot
observed_stopped = record {
  exists = true;
  power_state = PowerState.stopped;
  marker_match = true;
  cpu_count = some 2;
  memory_mib = none;
  disk_gib = some 40;
}

classify_drift-Explains_example :
    Explains
      (classify_drift desired_running observed_stopped).classification
      (classify_drift desired_running observed_stopped).dangerous
      desired_running
      observed_stopped
classify_drift-Explains_example = classify_drift-Explains desired_running observed_stopped

abbrev shrinking : ResizeRequest
shrinking = record {
  current = record { cpu_count = 2; memory_mib = 2048; disk_gib = 40 };
  target = record { cpu_count = 4; memory_mib = 4096; disk_gib = 20 };
}

validate_resize-Justifies_example : Justifies (validate_resize shrinking) shrinking
validate_resize-Justifies_example = validate_resize-Justifies shrinking

-- 10.20.0.0/24 with its gateway at .1, where .2 is leased.
abbrev no_exclusions : ℕ → Bool
no_exclusions address = false

abbrev second_leased : ℕ → Bool
second_leased address = address == 169082882

allocate_ipv4-IsLowest_example :
    IsLowest
      (is_taken 169082881 no_exclusions second_leased)
      169082880
      1
      (host_count 24 - 2)
      (allocate_ipv4 169082880 24 169082881 no_exclusions second_leased)
allocate_ipv4-IsLowest_example =
    allocate_ipv4-IsLowest 169082880 24 169082881 no_exclusions second_leased refl
