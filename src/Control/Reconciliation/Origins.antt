-- ===== src/Control/Reconciliation/Origins.antt =====
-- packages/postgres-adapter/src/reconciliation-store.ts: what the tests and searches of a claim say of
-- an instance.
use private_cloud_control_pl.Prelude.{
  ◌≡◌, ◌≢◌, ◌≤◌, Has, Among, Among→contains, leb, leb→le, ◌∙◌, ℕ, ◌==◌, String, str_eq, Bool, true,
  false, not, ◌&&◌, Option, none, some, List, [], ◌∷◌, refl, sym, ap, subst, inl, inr, arith,
  Bool-cases, contains,
}
use private_cloud_control_pl.Store.Rows.{WorkflowRow}
use private_cloud_control_pl.Control.Rows.{InstanceRow}
use private_cloud_control_pl.Control.Reconciliation.{
  ReconciliationCandidate, earliest_of, earliest_resource, provider_resource, is_stale,
  candidate_of,
}
use private_cloud_control_pl.Control.Reconciliation.Taken.{
  IsTaken, candidate-facts, candidate-resource,
}

-- An instance that was never reconciled, or not since a moment.
abbrev pub IsDue : ℕ → Option ℕ → Type 0
IsDue stale_after none = Unit
IsDue stale_after (some at) = at ≤ stale_after

-- The instance that a candidate stands for, and why it may be observed.
pub record IsOf {A : Type 0} (workflows : List (WorkflowRow A)) (locked : ℕ → Bool)
    (stale_after : ℕ) (rows : List InstanceRow) (c : ReconciliationCandidate) : Type 0 where
  pub row : InstanceRow
  pub listed : Has row rows
  pub not_purged : row.lifecycle_state ≢ "purged"
  pub not_pending : row.lifecycle_state ≢ "pending"
  pub due : IsDue stale_after row.last_reconciled_at
  pub unlocked : locked row.id ≡ false
  pub instance_id : c.instance_id ≡ row.id
  pub created_by : row.create_operation_id ≡ some c.create_operation_id
  pub resource_named : c.provider_resource_id ≢ ""
  pub workflow : WorkflowRow A
  pub stored : Has workflow workflows
  pub same_instance : workflow.instance_id ≡ row.id
  pub resource : workflow.provider_resource_id ≡ some c.provider_resource_id

-- The workflow that a resource was read from.
module _ {A : Type 0} (id : ℕ) where
  abbrev Names : List (WorkflowRow A) → ℕ × String → Type 0
  Names rows found =
      (w : WorkflowRow A) × Has w rows
      × (w.instance_id ≡ id)
      × (w.provider_resource_id ≡ some found.1)

  earliest-Names :
      (rows : List (WorkflowRow A)) (found : ℕ × String)
      → earliest_resource id rows ≡ some found
      → Names rows found
  unfolding earliest_resource
  earliest-Names [] found e = cc
  earliest-Names (w ∷ rows) found e = elim (Bool-cases (w.instance_id == id)) [
    | inr other ↦ later found (earliest-Names rows found (rw other at e))
    | inl here ↦
        by_resource w.provider_resource_id refl (earliest_resource id rows) (earliest-Names rows)
          (equal w.instance_id id here) (rw here at e)
  ]
    where
      equal : (m n : ℕ) → (m == n) ≡ true → m ≡ n
      equal m n h = ground arith

      later : (f : ℕ × String) → Names rows f → Names (w ∷ rows) f
      later f (x, has, same, resource) = (x, inr has, same, resource)

      by_resource :
          (o : Option String)
          → w.provider_resource_id ≡ o
          → (rest : Option (ℕ × String)) → ((f : ℕ × String) → rest ≡ some f → Names rows f)
          → w.instance_id ≡ id
          → (elim o [ none ↦ rest | some resource ↦ earliest_of (w.created_at, resource) rest ])
            ≡ some found
          → Names (w ∷ rows) found
      by_resource none at rest names same made = later found (names found made)
      by_resource (some resource) at none names same made =
          let text : resource ≡ found.1 = cc in (w, inl refl, same, at ∙ ap some text)
      by_resource (some resource) at (some other) names same made =
          elim (Bool-cases (leb w.created_at other.0)) [
            | inl first ↦
                let kept = rw first at made in
                let text : resource ≡ found.1 = cc in (w, inl refl, same, at ∙ ap some text)
            | inr second ↦
                let kept : other ≡ found = cc (rw second at made) in
                later found (names found (ap some kept))
          ]

-- What the tests of the code say.
module _ {A : Type 0} (workflows : List (WorkflowRow A)) (locked : ℕ → Bool) (stale_after : ℕ)
    (rows : List InstanceRow) where
  outside :
      (state name : String)
      → Among name ("purged" ∷ "pending" ∷ [])
      → contains ("purged" ∷ "pending" ∷ []) state ≡ false
      → state ≢ name
  outside state name among h e =
      let inside =
        subst (λ s. contains ("purged" ∷ "pending" ∷ []) s ≡ true) (sym e)
          (Among→contains ("purged" ∷ "pending" ∷ []) name among) in
      cc

  time-IsDue : (o : Option ℕ) → is_stale stale_after o ≡ true → IsDue stale_after o
  time-IsDue none h = tt
  time-IsDue (some at) h = leb→le at stale_after h

  tests : (a b c : Bool) → (not a && b && not c) ≡ true → (a ≡ false) × (b ≡ true) × (c ≡ false)
  tests false true false h = (refl, refl, refl)
  tests false true true h = cc
  tests false false c h = cc
  tests true b c h = cc

  pub taken-IsOf :
      (c : ReconciliationCandidate)
      → IsTaken workflows locked stale_after rows c
      → IsOf workflows locked stale_after rows c
  taken-IsOf c (row, has, eligible, made) =
      let (gone, stale, free) =
        tests (contains ("purged" ∷ "pending" ∷ []) row.lifecycle_state)
          (is_stale stale_after row.last_reconciled_at) (locked row.id) eligible in
      let resource = candidate-resource (provider_resource workflows row) row c made in
      let (id, created, _, named) =
        candidate-facts c.provider_resource_id row c
          (subst (λ o. candidate_of o row ≡ some c) resource made) in
      let (w, there, same, at) =
        named_by (earliest_resource row.id workflows) (earliest-Names row.id workflows) resource in
      record {
        row = row;
        listed = has;
        not_purged = outside row.lifecycle_state "purged" (inl refl) gone;
        not_pending = outside row.lifecycle_state "pending" (inr (inl refl)) gone;
        due = time-IsDue row.last_reconciled_at stale;
        unlocked = free;
        instance_id = id;
        created_by = created;
        resource_named = λ blank. unequal (subst (λ t. str_eq t "" ≡ false) blank named);
        workflow = w;
        stored = there;
        same_instance = same;
        resource = at;
      }
    where
      unequal : str_eq "" "" ≡ false → ⊥
      unequal h = cc

      named_by :
          (o : Option (ℕ × String))
          → ((f : ℕ × String) → o ≡ some f → Names row.id workflows f)
          → (elim o [ none ↦ none | some found ↦ some found.1 ]) ≡ some c.provider_resource_id
          → (w : WorkflowRow A) × Has w workflows
            × (w.instance_id ≡ row.id)
            × (w.provider_resource_id ≡ some c.provider_resource_id)
      named_by none names e = absurd (cc)
      named_by (some found) names e =
          let (w, there, same, at) = names found refl in (w, there, same, at ∙ e)
