-- ===== src/Domain/Drift.antt =====
-- packages/domain/src/index.ts: `classifyDrift`.
use private_cloud_control_pl.Prelude.{
  ◌≡◌, ◌≢◌, ◌≤◌, ◌⊎◌, ℕ, ◌==◌, String, str_eq, str_eq_iff, Bool, true, false, not, ◌&&◌, ◌||◌,
  Option, none, some, inl, inr, refl, arith, Bool-cases, ltb, if◌then◌else◌,
}
use private_cloud_control_pl.Contracts.Events.{PowerState}

pub data DesiredPower : Type 0 where
  running stopped unchanged : DesiredPower

pub record DesiredSnapshot : Type 0 where
  pub lifecycle_state : String
  pub power_state : DesiredPower
  pub cpu_count : ℕ
  pub memory_mib : ℕ
  pub disk_gib : ℕ

pub record ObservedSnapshot : Type 0 where
  pub exists : Bool
  pub power_state : PowerState
  pub marker_match : Bool
  pub cpu_count : Option ℕ
  pub memory_mib : Option ℕ
  pub disk_gib : Option ℕ

pub data DriftClassification : Type 0 where
  none_found missing_resource identity_mismatch stale_task : DriftClassification
  late_success power_drift network_drift ambiguous : DriftClassification

pub record DriftFinding : Type 0 where
  pub classification : DriftClassification
  pub dangerous : Bool

abbrev pub is_unknown_power : PowerState → Bool
is_unknown_power PowerState.unknown = true
is_unknown_power _ = false

-- `desired !== 'unchanged' && observed !== desired`.
abbrev pub power_differs : DesiredPower → PowerState → Bool
power_differs DesiredPower.unchanged _ = false
power_differs DesiredPower.running PowerState.running = false
power_differs DesiredPower.stopped PowerState.stopped = false
power_differs DesiredPower.running _ = true
power_differs DesiredPower.stopped _ = true

-- `observed !== undefined && observed !== desired`.
abbrev pub size_differs : Option ℕ → ℕ → Bool
size_differs none desired = false
size_differs (some observed) desired = not (observed == desired)

abbrev pub is_smaller : Option ℕ → ℕ → Bool
is_smaller none desired = false
is_smaller (some observed) desired = ltb observed desired

abbrev pub found : DriftClassification → Bool → DriftFinding
found classification dangerous = record { classification = classification; dangerous = dangerous }

-- The tests on power and sizes, of an instance that is there and is the control plane's own.
abbrev pub classify_identified : DesiredSnapshot → ObservedSnapshot → DriftFinding
classify_identified desired observed =
    if power_differs desired.power_state observed.power_state
    then found DriftClassification.power_drift false
    else if size_differs observed.cpu_count desired.cpu_count
        || size_differs observed.memory_mib desired.memory_mib
    then found DriftClassification.network_drift false
    else if is_smaller observed.disk_gib desired.disk_gib
    then found DriftClassification.network_drift false
    else found DriftClassification.none_found false

unfoldable pub classify_drift : DesiredSnapshot → ObservedSnapshot → DriftFinding
classify_drift desired observed =
    if observed.exists && not observed.marker_match
    then found DriftClassification.identity_mismatch true
    else if not observed.exists
    then if str_eq desired.lifecycle_state "purged"
      then found DriftClassification.none_found false
      else found DriftClassification.missing_resource true
    else if is_unknown_power observed.power_state
    then found DriftClassification.ambiguous true
    else classify_identified desired observed

-- A size that was reported agrees with the desired one.
abbrev pub Agrees : Option ℕ → ℕ → Type 0
Agrees none desired = Unit
Agrees (some observed) desired = observed ≡ desired

abbrev pub IsLargeEnough : Option ℕ → ℕ → Type 0
IsLargeEnough none desired = Unit
IsLargeEnough (some observed) desired = desired ≤ observed

-- The instance is there, with its own markers and in a power state that is known.
abbrev pub IsIdentified : ObservedSnapshot → Type 0
IsIdentified observed =
    (observed.exists ≡ true)
    × (observed.marker_match ≡ true)
    × (observed.power_state ≢ PowerState.unknown)

-- No drift: purged and gone, or identified with the desired power and sizes.
abbrev pub IsAligned : DesiredSnapshot → ObservedSnapshot → Type 0
IsAligned desired observed =
    ((observed.exists ≡ false) × (desired.lifecycle_state ≡ "purged"))
    ⊎ (IsIdentified observed
        × (power_differs desired.power_state observed.power_state ≡ false)
        × Agrees observed.cpu_count desired.cpu_count
        × Agrees observed.memory_mib desired.memory_mib
        × IsLargeEnough observed.disk_gib desired.disk_gib)

size_differs-Agrees : (o : Option ℕ) (d : ℕ) → size_differs o d ≡ false → Agrees o d
size_differs-Agrees none d h = tt
size_differs-Agrees (some n) d h = ground arith

is_smaller-IsLargeEnough : (o : Option ℕ) (d : ℕ) → is_smaller o d ≡ false → IsLargeEnough o d
is_smaller-IsLargeEnough none d h = tt
is_smaller-IsLargeEnough (some n) d h = ground arith

is_unknown_power_lem : (p : PowerState) → is_unknown_power p ≡ false → p ≢ PowerState.unknown
is_unknown_power_lem p h e = ground arith

or_facts : (a b : Bool) → (a || b) ≡ false → (a ≡ false) × (b ≡ false)
or_facts a b h = ground arith

present_marked : (e m : Bool) → (e && not m) ≡ false → not e ≡ false → (e ≡ true) × (m ≡ true)
present_marked e m h k = ground arith

absent : (e : Bool) → not e ≡ true → e ≡ false
absent e h = ground arith

-- What a classification says of the snapshots.
abbrev pub Explains : DriftClassification → Bool → DesiredSnapshot → ObservedSnapshot → Type 0
Explains DriftClassification.none_found dangerous desired observed =
    (dangerous ≡ false) × IsAligned desired observed
Explains DriftClassification.power_drift dangerous desired observed =
    (dangerous ≡ false) × IsIdentified observed
Explains DriftClassification.network_drift dangerous desired observed =
    (dangerous ≡ false) × IsIdentified observed
Explains _ dangerous desired observed = dangerous ≡ true

abbrev IsExplained : DriftFinding → DesiredSnapshot → ObservedSnapshot → Type 0
IsExplained finding desired observed =
    Explains finding.classification finding.dangerous desired observed

sizes_IsExplained :
    (desired : DesiredSnapshot) (observed : ObservedSnapshot)
    → IsIdentified observed
    → IsExplained (classify_identified desired observed) desired observed
sizes_IsExplained desired observed ours =
    elim (Bool-cases (power_differs desired.power_state observed.power_state)) [
      | inl power ↦ rw power (refl, ours)
      | inr same_power ↦
          elim (Bool-cases (
            size_differs observed.cpu_count desired.cpu_count
            || size_differs observed.memory_mib desired.memory_mib)) [
              | inl size ↦ rw (same_power, size) (refl, ours)
              | inr same_size ↦ elim (Bool-cases (is_smaller observed.disk_gib desired.disk_gib)) [
                | inl small ↦ rw (same_power, same_size, small) (refl, ours)
                | inr large ↦
                    let (cpu, memory) =
                      or_facts (size_differs observed.cpu_count desired.cpu_count)
                        (size_differs observed.memory_mib desired.memory_mib) same_size in
                    rw (same_power, same_size, large)
                      (
                        refl,
                        inr (
                          ours,
                          same_power,
                          size_differs-Agrees observed.cpu_count desired.cpu_count cpu,
                          size_differs-Agrees observed.memory_mib desired.memory_mib memory,
                          is_smaller-IsLargeEnough observed.disk_gib desired.disk_gib large,
                        ),
                      )
              ]
            ]
    ]

-- A finding that is not dangerous, and so may be corrected automatically, is made only of an instance
-- that is there, carries its own markers and is in a known power state, or is no drift: then the
-- instance is purged and gone, or has the desired power and sizes. Every other finding is dangerous.
pub classify_drift-Explains :
    (desired : DesiredSnapshot) (observed : ObservedSnapshot)
    → Explains
        (classify_drift desired observed).classification
        (classify_drift desired observed).dangerous
        desired
        observed
unfolding classify_drift
classify_drift-Explains desired observed =
    elim (Bool-cases (observed.exists && not observed.marker_match)) [
      | inl foreign ↦ rw foreign refl
      | inr ours ↦ elim (Bool-cases (not observed.exists)) [
        | inl gone ↦ elim (Bool-cases (str_eq desired.lifecycle_state "purged")) [
          | inl purged ↦
              rw (ours, gone, purged)
                (
                  refl,
                  inl (
                    absent observed.exists gone,
                    (str_eq_iff desired.lifecycle_state "purged").0 purged,
                  ),
                )
          | inr other ↦ rw (ours, gone, other) refl
        ]
        | inr there ↦ elim (Bool-cases (is_unknown_power observed.power_state)) [
          | inl unknown ↦ rw (ours, there, unknown) refl
          | inr known ↦
              let (exists, marked) =
                present_marked observed.exists observed.marker_match ours there in
              rw (ours, there, known)
                (sizes_IsExplained desired observed
                  (exists, marked, is_unknown_power_lem observed.power_state known))
        ]
      ]
    ]
