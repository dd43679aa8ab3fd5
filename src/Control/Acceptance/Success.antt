-- ===== src/Control/Acceptance/Success.antt =====
-- packages/postgres-adapter/src/control-plane-store.ts: which commands are accepted.
use private_cloud_control_pl.Prelude.{
  ◌≡◌, ◌≢◌, ◌≤◌, ◌⊎◌, inl, inr, ℕ, ◌+◌, ◌==◌, ◌&&◌, Bool, Bool-cases, List, [], ◌∷◌, nullish, sym,
  subst, ap, if◌then◌else◌, String, str_eq, str_eq_iff, true, false, Option, none, some, refl, ◌∙◌,
  ltb, arith,
}
use private_cloud_control_pl.Contracts.Events.{Resources}
use private_cloud_control_pl.Domain.Resize.{ResizeVerdict, validate_resize}
use private_cloud_control_pl.Store.Table.{find_row}
use private_cloud_control_pl.Control.Rows.{InstanceRow}
use private_cloud_control_pl.Control.Transaction.{done, ◌>>=◌, or_throw}
use private_cloud_control_pl.Control.Projection.Steps.{instance_is}
use private_cloud_control_pl.Control.Acceptance.Records.{
  FlavorRow, QuotaRow, RetentionPolicyRow, AcceptanceDatabase, Conventions, FreshValues,
  PowerInstanceCommand, ResizeInstanceCommand, RetainInstanceCommand, PurgeInstanceCommand,
}
use private_cloud_control_pl.Control.Acceptance.Guards.{lock_instance_for_mutation, existing}
use private_cloud_control_pl.Control.Acceptance.Writes.{commit}
use private_cloud_control_pl.Control.Acceptance.Methods.{
  identity_of, admin_scope, larger, usage, resize_to, power_acceptance, resize_acceptance,
  resize_target, requested_resize, enabled_flavor, assert_resize_quota_headroom,
  accept_power_action, accept_resize,
}
use private_cloud_control_pl.Control.Acceptance.Removals.{
  retention_acceptance, purge_acceptance, past_deadline, if_retained, purgeable, accept_retention,
  accept_purge,
}
use private_cloud_control_pl.Control.Acceptance.Commands.{
  MutationCommand, accept, identity, operation_type,
}
use private_cloud_control_pl.Control.Acceptance.Quota.{cpus, memory, disk}
use private_cloud_control_pl.Control.Acceptance.Repeats.{record_of}
use private_cloud_control_pl.Control.Acceptance.Readiness.{
  IsAccepted, IsReady, free_unless_busy, bound, commit-IsAccepted, attempt-IsAccepted, lock_ready,
}

-- The flavor of an identifier, which is enabled.
abbrev pub IsOffered : String → List FlavorRow → FlavorRow → Type 0
IsOffered id [] flavor = ⊥
IsOffered id (f ∷ flavors) flavor =
    ((f ≡ flavor) × (f.id ≡ id) × (f.enabled ≡ true))
    ⊎ (((f.id ≢ id) ⊎ (f.enabled ≡ false)) × IsOffered id flavors flavor)

-- The sizes that a resize comes to: the flavor's processors and memory, and the largest of three disks.
abbrev pub largest : ℕ → ℕ → ℕ → ℕ
largest a b c = if ltb a b then (if ltb b c then c else b) else if ltb a c then c else a

abbrev pub resized : Resources → Resources → Option ℕ → Resources
resized current flavor disk_gib = record {
  cpu_count = flavor.cpu_count;
  memory_mib = flavor.memory_mib;
  disk_gib = largest current.disk_gib flavor.disk_gib (nullish disk_gib 0);
}

-- A disk that is asked for is no smaller than the current one, and some size that is asked for differs.
abbrev pub AsksNoLess : ℕ → Option ℕ → Type 0
AsksNoLess current none = Unit
AsksNoLess current (some asked) = current ≤ asked

abbrev pub IsGrowth : Resources → Resources → Option ℕ → Type 0
IsGrowth current flavor asked =
    AsksNoLess current.disk_gib asked
    × ((flavor.cpu_count ≢ current.cpu_count)
        ⊎ (flavor.memory_mib ≢ current.memory_mib)
        ⊎ (nullish asked (largest current.disk_gib flavor.disk_gib 0) ≢ current.disk_gib))

-- The sums over the project's instances, with the row's sizes replaced, stay within the quota.
abbrev pub HasRoom : ℕ → List InstanceRow → Resources → Resources → Resources → Type 0
HasRoom project_id rows quota current target =
    (usage cpus project_id rows + target.cpu_count ≤ quota.cpu_count + current.cpu_count)
    × (usage memory project_id rows + target.memory_mib ≤ quota.memory_mib + current.memory_mib)
    × (usage disk project_id rows + target.disk_gib ≤ quota.disk_gib + current.disk_gib)

-- What each command needs.
abbrev pub IsAcceptable : MutationCommand → FreshValues → AcceptanceDatabase → Type 0
IsAcceptable (MutationCommand.power command) fresh db =
    (row : InstanceRow) × IsReady command.project_id command.instance_id db row
IsAcceptable (MutationCommand.resize command) fresh db =
    (row : InstanceRow) × (flavor : FlavorRow) × (quota : QuotaRow) × IsReady command.project_id
      command.instance_id db row
    × IsOffered command.flavor_id db.flavors flavor
    × IsGrowth row.desired flavor.resources command.disk_gib
    × (find_row (λ (q : QuotaRow). q.project_id == command.project_id) db.quotas ≡ some quota)
    × HasRoom command.project_id db.control.instances quota.resources row.desired
        (resized row.desired flavor.resources command.disk_gib)
IsAcceptable (MutationCommand.retain command) fresh db =
    (row : InstanceRow) × (policy : RetentionPolicyRow) × IsReady command.project_id
      command.instance_id db row
    × (db.retention_policy ≡ some policy)
IsAcceptable (MutationCommand.purge command) fresh db =
    (row : InstanceRow) × (deadline : ℕ) × (command.confirm_instance_id ≡ command.instance_id)
    × (find_row (instance_is command.instance_id) db.control.instances ≡ some row)
    × (row.active_operation_id ≡ none)
    × (row.lifecycle_state ≡ "retained")
    × (row.retention_deadline ≡ some deadline)
    × (deadline ≤ fresh.now)

both : {a b : Bool} → a ≡ true → b ≡ true → (a && b) ≡ true
both e h = rw (e, h) refl

offered_row :
    (id : String) (flavors : List FlavorRow) (flavor : FlavorRow)
    → IsOffered id flavors flavor
    → find_row (λ (f : FlavorRow). str_eq f.id id && f.enabled) flavors ≡ some flavor
unfolding find_row
offered_row id [] flavor h = absurd h
offered_row id (f ∷ flavors) flavor (inl (same, named, on)) =
    rw (both ((str_eq_iff f.id id).1 named) on) (ap some same)
offered_row id (f ∷ flavors) flavor (inr (passed, rest)) =
    rw (skipped passed) (offered_row id flavors flavor rest)
  where
    unlike : f.id ≢ id → str_eq f.id id ≡ false
    unlike n = elim (Bool-cases (str_eq f.id id)) [
      | inl e ↦ absurd (n ((str_eq_iff f.id id).0 e))
      | inr e ↦ e
    ]

    and_false : (b : Bool) → (b && false) ≡ false
    and_false true = refl
    and_false false = refl

    skipped : (f.id ≢ id) ⊎ (f.enabled ≡ false) → (str_eq f.id id && f.enabled) ≡ false
    skipped (inl n) = rw (unlike n) refl
    skipped (inr off) = rw off (and_false (str_eq f.id id))

offered_flavor :
    (id : String) (flavors : List FlavorRow) (flavor : FlavorRow)
    → IsOffered id flavors flavor
    → enabled_flavor id flavors ≡ done flavor
offered_flavor id flavors flavor h = rw (offered_row id flavors flavor h) refl

largest-larger : (a b c : ℕ) → larger (larger a b) c ≡ largest a b c
largest-larger a b c = ground arith

resized_target :
    (current : Resources) (flavor : FlavorRow) (asked : Option ℕ)
    → resize_target current flavor asked ≡ resized current flavor.resources asked
resized_target current flavor asked =
    rw (largest-larger current.disk_gib flavor.resources.disk_gib (nullish asked 0)) refl

no_less : (asked current : ℕ) → current ≤ asked → ltb asked current ≡ false
no_less asked current h = ground arith

kept : (current minimum : ℕ) → ltb (larger (larger current minimum) 0) current ≡ false
kept current minimum = ground arith

changed : (a b c d e f : ℕ) → (a ≢ b) ⊎ (c ≢ d) ⊎ (e ≢ f) → (a == b && c == d && e == f) ≡ false
changed a b c d e f h = ground arith

growth_valid :
    (current : Resources) (flavor : FlavorRow) (asked : Option ℕ)
    → IsGrowth current flavor.resources asked
    → validate_resize (requested_resize current (resize_target current flavor asked) asked)
      ≡ ResizeVerdict.accepted
unfolding validate_resize
growth_valid current flavor none (_, h) =
    rw
      (
        kept current.disk_gib flavor.resources.disk_gib,
        changed flavor.resources.cpu_count current.cpu_count flavor.resources.memory_mib
            current.memory_mib (larger (larger current.disk_gib flavor.resources.disk_gib) 0)
            current.disk_gib
            (subst
              (λ d.
                (flavor.resources.cpu_count ≢ current.cpu_count)
                ⊎ (flavor.resources.memory_mib ≢ current.memory_mib)
                ⊎ (d ≢ current.disk_gib))
              (sym (largest-larger current.disk_gib flavor.resources.disk_gib 0)) h),
      )
      refl
growth_valid current flavor (some asked) (enough, h) =
    rw
      (
        no_less asked current.disk_gib enough,
        changed flavor.resources.cpu_count current.cpu_count flavor.resources.memory_mib
            current.memory_mib asked current.disk_gib h,
      )
      refl

room_affords :
    (project_id : ℕ) (current target : Resources) (db : AcceptanceDatabase) (quota : QuotaRow)
    → find_row (λ (q : QuotaRow). q.project_id == project_id) db.quotas ≡ some quota
    → HasRoom project_id db.control.instances quota.resources current target
    → assert_resize_quota_headroom project_id current target db ≡ done tt
unfolding assert_resize_quota_headroom
room_affords project_id current target db quota found (cpu, mem, dsk) =
    rw
      (
        found,
        within (usage cpus project_id db.control.instances) target.cpu_count
            quota.resources.cpu_count current.cpu_count cpu,
        within (usage memory project_id db.control.instances) target.memory_mib
            quota.resources.memory_mib current.memory_mib mem,
        within (usage disk project_id db.control.instances) target.disk_gib quota.resources.disk_gib
            current.disk_gib dsk,
      )
      refl
  where
    within :
        (used new limit old : ℕ) → used + new ≤ limit + old → ltb (limit + old) (used + new) ≡ false
    within used new limit old h = ground arith

module _ (c : Conventions) (fresh : FreshValues) (hash : String) (db : AcceptanceDatabase) where
  power-IsAccepted :
      (command : PowerInstanceCommand) (row : InstanceRow)
      → record_of (identity_of command.origin command.project_id) "power_instance" db ≡ none
      → IsReady command.project_id command.instance_id db row
      → IsAccepted (accept_power_action c command fresh hash db)
  unfolding accept_power_action
  power-IsAccepted command row absent ready =
      attempt-IsAccepted c fresh hash db (identity_of command.origin command.project_id)
        "power_instance" _ absent
        (bound IsAccepted
          (lock_instance_for_mutation command.project_id command.instance_id db.control.instances)
          row (λ r. commit c (power_acceptance c command fresh r) fresh hash db)
          (lock_ready c fresh hash db command.project_id command.instance_id row ready)
          (commit-IsAccepted c fresh hash db (power_acceptance c command fresh row) _ row ready.0
            refl))

  retain-IsAccepted :
      (command : RetainInstanceCommand) (row : InstanceRow) (policy : RetentionPolicyRow)
      → record_of (identity_of command.origin command.project_id) "retain_instance" db ≡ none
      → IsReady command.project_id command.instance_id db row
      → db.retention_policy ≡ some policy
      → IsAccepted (accept_retention c command fresh hash db)
  unfolding accept_retention
  retain-IsAccepted command row policy absent ready there =
      attempt-IsAccepted c fresh hash db (identity_of command.origin command.project_id)
        "retain_instance" _ absent
        (bound IsAccepted
          (lock_instance_for_mutation command.project_id command.instance_id db.control.instances)
          row
          (λ r. or_throw db.retention_policy >>= λ p.
            commit c (retention_acceptance c command fresh p r) fresh hash db)
          (lock_ready c fresh hash db command.project_id command.instance_id row ready)
          (bound IsAccepted (or_throw db.retention_policy) policy
            (λ p. commit c (retention_acceptance c command fresh p row) fresh hash db)
            (rw there refl)
            (commit-IsAccepted c fresh hash db (retention_acceptance c command fresh policy row) _
              row ready.0 refl)))

  resize-IsAccepted :
      (command : ResizeInstanceCommand) (row : InstanceRow) (flavor : FlavorRow)
      → record_of (identity_of command.origin command.project_id) "resize_instance" db ≡ none
      → IsReady command.project_id command.instance_id db row
      → enabled_flavor command.flavor_id db.flavors ≡ done flavor
      → validate_resize (
          requested_resize row.desired
            (resize_target row.desired flavor command.disk_gib)
            command.disk_gib)
        ≡ ResizeVerdict.accepted
      → assert_resize_quota_headroom command.project_id row.desired
          (resize_target row.desired flavor command.disk_gib)
          db
        ≡ done tt
      → IsAccepted (accept_resize c command fresh hash db)
  unfolding accept_resize
  resize-IsAccepted command row flavor absent ready enabled valid room =
      attempt-IsAccepted c fresh hash db (identity_of command.origin command.project_id)
        "resize_instance" _ absent
        (bound IsAccepted
          (lock_instance_for_mutation command.project_id command.instance_id db.control.instances)
          row
          (λ r. enabled_flavor command.flavor_id db.flavors >>= λ f.
            resize_to c command fresh hash db r (resize_target r.desired f command.disk_gib))
          (lock_ready c fresh hash db command.project_id command.instance_id row ready)
          (bound IsAccepted (enabled_flavor command.flavor_id db.flavors) flavor
            (λ f.
              resize_to c command fresh hash db row (resize_target row.desired f command.disk_gib))
            enabled
            (rw (valid, room)
              (commit-IsAccepted c fresh hash db
                (resize_acceptance c command fresh
                  (resize_target row.desired flavor command.disk_gib) row)
                _ row ready.0 refl))))

  purge-IsAccepted :
      (command : PurgeInstanceCommand) (row : InstanceRow) (deadline : ℕ)
      → record_of (admin_scope command.origin) "purge_instance" db ≡ none
      → command.confirm_instance_id ≡ command.instance_id
      → find_row (instance_is command.instance_id) db.control.instances ≡ some row
      → row.active_operation_id ≡ none
      → row.lifecycle_state ≡ "retained"
      → row.retention_deadline ≡ some deadline
      → deadline ≤ fresh.now
      → IsAccepted (accept_purge c command fresh hash db)
  unfolding accept_purge
  purge-IsAccepted command row deadline absent confirmed found free retained there past =
      rw (equals command.confirm_instance_id command.instance_id confirmed) (
        attempt-IsAccepted c fresh hash db (admin_scope command.origin) "purge_instance" _ absent (
          bound IsAccepted
            (existing (find_row (instance_is command.instance_id) db.control.instances)) row
            (λ r. purgeable fresh.now r >>= λ d.
              commit c (purge_acceptance c command fresh r d) fresh hash db)
            (rw found refl)
            (bound IsAccepted (purgeable fresh.now row) deadline
              (λ d. commit c (purge_acceptance c command fresh row d) fresh hash db) open_gate
              (commit-IsAccepted c fresh hash db (purge_acceptance c command fresh row deadline) _
                row found refl))))
    where
      equals : (m n : ℕ) → m ≡ n → (m == n) ≡ true
      equals m n e = ground arith

      due : ltb fresh.now deadline ≡ false
      due = ground arith

      dated : (o : Option ℕ) → o ≡ some deadline → past_deadline fresh.now o ≡ done deadline
      dated none e = absurd (cc)
      dated (some d) e = let same : d ≡ deadline = cc in rw (same, due) refl

      open_gate : purgeable fresh.now row ≡ done deadline
      open_gate =
          free_unless_busy row.active_operation_id (if_retained fresh.now row) free
          ∙ rw ((str_eq_iff row.lifecycle_state "retained").1 retained)
              (dated row.retention_deadline there)

-- A command whose scope holds no record is accepted where what it needs is there: an instance of the
-- project that no operation holds and that is active or failed; for a resize, an enabled flavor, a disk
-- that is not asked to shrink, some size that changes, and a quota that the sums over the project's
-- instances, with the new sizes in place of the old, do not exceed; for a retention, a policy; and for
-- a purge, the confirmation and an idle, retained instance whose deadline has passed.
pub accept-IsAccepted :
    (c : Conventions) (command : MutationCommand) (fresh : FreshValues) (hash : String)
    (db : AcceptanceDatabase)
    → record_of (identity command) (operation_type command) db ≡ none
    → IsAcceptable command fresh db
    → IsAccepted (accept c command fresh hash db)
unfolding accept
accept-IsAccepted c (MutationCommand.power command) fresh hash db absent (row, ready) =
    power-IsAccepted c fresh hash db command row absent ready
accept-IsAccepted c (MutationCommand.resize command) fresh hash db absent
      (row, flavor, quota, ready, offered, growth, found, room) =
    resize-IsAccepted c fresh hash db command row flavor absent ready
      (offered_flavor command.flavor_id db.flavors flavor offered)
      (growth_valid row.desired flavor command.disk_gib growth)
      (room_affords command.project_id row.desired
        (resize_target row.desired flavor command.disk_gib) db quota found
        (subst (HasRoom command.project_id db.control.instances quota.resources row.desired)
          (sym (resized_target row.desired flavor command.disk_gib)) room))
accept-IsAccepted c (MutationCommand.retain command) fresh hash db absent
      (row, policy, ready, there) =
    retain-IsAccepted c fresh hash db command row policy absent ready there
accept-IsAccepted c (MutationCommand.purge command) fresh hash db absent
      (row, deadline, confirmed, found, free, retained, there, past) =
    purge-IsAccepted c fresh hash db command row deadline absent confirmed found free retained there
      past
