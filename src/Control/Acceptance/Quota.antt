-- ===== src/Control/Acceptance/Quota.antt =====
-- packages/postgres-adapter/src/control-plane-store.ts: the quota of a project after a resize.
use private_cloud_control_pl.Prelude.{
  ◌≡◌, ◌≢◌, ◌≤◌, ◌⊎◌, inl, inr, ℕ, ◌+◌, ◌==◌, String, str_eq, Bool, true, false, not, ◌&&◌, ◌||◌,
  Option, none, some, List, [], ◌∷◌, All, Among, refl, sym, ap, subst, Bool-cases, arith,
}
use private_cloud_control_pl.Contracts.Events.{Resources}
use private_cloud_control_pl.Store.Table.{find_row, update_rows}
use private_cloud_control_pl.Control.Keyed.{Unique}
use private_cloud_control_pl.Control.Rows.{InstanceRow}
use private_cloud_control_pl.Control.Transaction.{done, Ensures-done}
use private_cloud_control_pl.Control.Projection.Steps.{instance_is}
use private_cloud_control_pl.Control.Acceptance.Records.{
  AcceptedMutation, QuotaRow, AcceptanceDatabase, Conventions, FreshValues, ResizeInstanceCommand,
}
use private_cloud_control_pl.Control.Acceptance.Guards.{mutable_lifecycle_states}
use private_cloud_control_pl.Control.Acceptance.Methods.{
  usage, exceeds, within_quota, assert_resize_quota_headroom, resize_changed,
}
use private_cloud_control_pl.Control.Acceptance.Commands.{MutationCommand, accept, InstanceKeys}
use private_cloud_control_pl.Control.Acceptance.Outcomes.{accept_resize-Ensures}

-- The columns that are limited.
abbrev pub cpus : Resources → ℕ
cpus r = r.cpu_count

abbrev pub memory : Resources → ℕ
memory r = r.memory_mib

abbrev pub disk : Resources → ℕ
disk r = r.disk_gib

abbrev pub IsWithin : ℕ → List InstanceRow → Option QuotaRow → Type 0
IsWithin project_id rows none = ⊥
IsWithin project_id rows (some q) =
    (usage cpus project_id rows ≤ q.resources.cpu_count)
    × (usage memory project_id rows ≤ q.resources.memory_mib)
    × (usage disk project_id rows ≤ q.resources.disk_gib)

abbrev pub quota_of : ℕ → AcceptanceDatabase → Option QuotaRow
quota_of project_id db = find_row (λ (q : QuotaRow). q.project_id == project_id) db.quotas

abbrev pub IsAfforded :
    ResizeInstanceCommand → AcceptanceDatabase → AcceptedMutation × AcceptanceDatabase → Type 0
IsAfforded command db (m, after) =
    ((m.replayed ≡ true) × (after ≡ db))
    ⊎ IsWithin command.project_id after.control.instances (quota_of command.project_id db)

untouched_rows :
    (id : ℕ) (f : InstanceRow → InstanceRow) (rows : List InstanceRow)
    → All (λ x. x.id ≢ id) rows
    → update_rows (instance_is id) f rows ≡ rows
unfolding update_rows
untouched_rows id f [] apart = refl
untouched_rows id f (r ∷ rows) apart =
    rw (unlike r.id apart.0, untouched_rows id f rows apart.1) refl
  where
    unlike : (n : ℕ) → n ≢ id → (n == id) ≡ false
    unlike n h = ground arith

-- A resize of an instance that counts moves the sum by the difference of its sizes.
module _ (measure : Resources → ℕ) (project_id id : ℕ) (command : ResizeInstanceCommand)
    (fresh : FreshValues) (target : Resources) where
  usage-resized :
      (rows : List InstanceRow) (row : InstanceRow)
      → Unique (λ (r : InstanceRow). r.id) rows
      → find_row (instance_is id) rows ≡ some row
      → row.project_id ≡ project_id
      → str_eq row.lifecycle_state "purged" ≡ false
      → usage measure project_id
            (update_rows (instance_is id) (resize_changed command fresh target) rows)
          + measure row.desired
        ≡ usage measure project_id rows + measure target
  unfolding usage find_row update_rows
  usage-resized [] row keys found own counts = cc
  usage-resized (r ∷ rows) row keys found own counts = elim (Bool-cases (r.id == id)) [
    | inl here ↦ let same : r ≡ row = cc (rw here at found) in at_row here same
    | inr other ↦
        let rest = usage-resized rows row keys.1 (rw other at found) own counts in
        elim (Bool-cases (r.project_id == project_id && not (str_eq r.lifecycle_state "purged"))) [
          | inl counted ↦ rw (other, counted) (omega (arith, rest))
          | inr left ↦ rw (other, left) rest
        ]
  ]
    where
      equal : (m n : ℕ) → (m == n) ≡ true → m ≡ n
      equal m n e = ground arith

      equals : (m n : ℕ) → m ≡ n → (m == n) ≡ true
      equals m n e = ground arith

      swap : (a b c d : ℕ) → a ≡ d → (b + c) + d ≡ (a + c) + b
      swap a b c d e = omega (arith, e)

      at_row :
          (r.id == id) ≡ true
          → r ≡ row
          → usage measure project_id
                (update_rows (instance_is id) (resize_changed command fresh target) (r ∷ rows))
              + measure row.desired
            ≡ usage measure project_id (r ∷ rows) + measure target
      at_row here same =
          let mine : r.project_id ≡ project_id = cc in
          let alive : str_eq r.lifecycle_state "purged" ≡ false = cc in
          let apart = subst (λ k. All (λ x. x.id ≢ k) rows) (equal r.id id here) keys.0 in
          rw
            (
              here,
              equals r.project_id project_id mine,
              alive,
              untouched_rows id (resize_changed command fresh target) rows apart,
            )
            (swap (measure r.desired) (measure target) (usage measure project_id rows)
              (measure row.desired) (ap (λ (x : InstanceRow). measure x.desired) same))

within :
    (q : Resources → ℕ) (project_id : ℕ) (rows after : List InstanceRow)
    (quota current target : Resources)
    → usage q project_id after + q current ≡ usage q project_id rows + q target
    → exceeds q project_id rows quota current target ≡ false
    → usage q project_id after ≤ q quota
within q project_id rows after quota current target moved room = ground arith

unpurged : (state : String) → Among state mutable_lifecycle_states → str_eq state "purged" ≡ false
unpurged state (inl e) = subst (λ s. str_eq s "purged" ≡ false) e refl
unpurged state (inr (inl e)) = subst (λ s. str_eq s "purged" ≡ false) e refl
unpurged state (inr (inr absent)) = absurd absent

-- A quota that has room for the change of a row has room for the sum after it.
roomy :
    (project_id : ℕ) (db : AcceptanceDatabase) (after : List InstanceRow)
    (current target : Resources)
    → ((q : Resources → ℕ)
        → usage q project_id after + q current ≡ usage q project_id db.control.instances + q target)
    → assert_resize_quota_headroom project_id current target db ≡ done tt
    → IsWithin project_id after (quota_of project_id db)
unfolding assert_resize_quota_headroom
roomy project_id db after current target moved room = by_quota (quota_of project_id db) room
  where
    three : (a b c : Bool) → (a || b || c) ≡ false → (a ≡ false) × (b ≡ false) × (c ≡ false)
    three false false c h = (refl, refl, h)
    three false true c h = cc
    three true b c h = cc

    fits :
        (quota : QuotaRow) (measure : Resources → ℕ)
        → exceeds measure project_id db.control.instances quota.resources current target ≡ false
        → usage measure project_id after ≤ measure quota.resources
    fits quota measure h =
        within measure project_id db.control.instances after quota.resources current target
          (moved measure) h

    by_quota :
        (o : Option QuotaRow)
        → within_quota project_id db.control.instances current target o ≡ done tt
        → IsWithin project_id after o
    by_quota none h = absurd (cc)
    by_quota (some quota) h =
        elim (Bool-cases (
          exceeds cpus project_id db.control.instances quota.resources current target
          || exceeds memory project_id db.control.instances quota.resources current target
          || exceeds disk project_id db.control.instances quota.resources current target)) [
            | inl over ↦ absurd (cc (rw over at h))
            | inr under ↦
                let (c, m, d) =
                  three
                    (exceeds cpus project_id db.control.instances quota.resources current target)
                    (exceeds memory project_id db.control.instances quota.resources current target)
                    (exceeds disk project_id db.control.instances quota.resources current target)
                    under in
                (fits quota cpus c, fits quota memory m, fits quota disk d)
          ]

-- A resize that is accepted repeats an earlier answer and changes nothing, or leaves the sums of the
-- processors, the memory and the disks of the project's instances that are not purged within its
-- quota. The identifiers of the instances are distinct.
pub accept_resize-IsAfforded :
    (c : Conventions) (command : ResizeInstanceCommand) (fresh : FreshValues) (hash : String)
    (db after : AcceptanceDatabase) (m : AcceptedMutation)
    → InstanceKeys db
    → accept c (MutationCommand.resize command) fresh hash db ≡ done (m, after)
    → IsAfforded command db (m, after)
accept_resize-IsAfforded c command fresh hash db after m keys e =
    Ensures-done (IsAfforded command db) (accept c (MutationCommand.resize command) fresh hash db)
      (m, after)
      (accept_resize-Ensures (IsAfforded command db) c fresh hash db command
        (λ r found same. inl (refl, refl))
        λ row target (free, locates, named) own ready valid room. inr (
          roomy command.project_id db
            (update_rows (instance_is row.id) (resize_changed command fresh target)
              db.control.instances)
            row.desired target
            (λ q.
              subst
                (λ k.
                  usage q command.project_id (
                      update_rows (instance_is k) (resize_changed command fresh target)
                        db.control.instances)
                    + q row.desired
                  ≡ usage q command.project_id db.control.instances + q target)
                (sym named)
                (usage-resized q command.project_id command.instance_id command fresh target
                  db.control.instances row keys (locates keys) own
                  (unpurged row.lifecycle_state ready)))
            room))
      e
