-- ===== src/Control/Reconciliation/Taken.antt =====
-- packages/postgres-adapter/src/reconciliation-store.ts: the rows behind the candidates of a claim.
use private_cloud_control_pl.Prelude.{
  ◌≡◌, ◌≤◌, ◌⊎◌, Has, ◌∙◌, ℕ, zero, suc, String, str_eq, Bool, true, false, Option, none, some,
  List, [], ◌∷◌, length, All, refl, sym, ap, subst, inl, inr, arith, Bool-cases, Option-cases,
}
use private_cloud_control_pl.Store.Rows.{WorkflowRow}
use private_cloud_control_pl.Control.Rows.{InstanceRow, ControlDatabase}
use private_cloud_control_pl.Control.Reconciliation.{
  ReconciliationCandidate, provider_resource, is_eligible, select_rows, no_later, insert_row,
  order_rows, limit_rows, candidate_of, with_candidate, candidates_of, selected,
  claim_stale_instances,
}

select-Has :
    (p : InstanceRow → Bool) (r : InstanceRow) (rows : List InstanceRow)
    → Has r (select_rows p rows)
    → Has r rows × (p r ≡ true)
unfolding select_rows
select-Has p r [] h = absurd h
select-Has p r (x ∷ rows) h = elim (Bool-cases (p x)) [
  | inl kept ↦ first kept (select-Has p r rows) (rw kept at h)
  | inr left ↦ let (there, test) = select-Has p r rows (rw left at h) in (inr there, test)
]
  where
    first :
        p x ≡ true
        → (Has r (select_rows p rows) → Has r rows × (p r ≡ true))
        → (x ≡ r) ⊎ Has r (select_rows p rows)
        → Has r (x ∷ rows) × (p r ≡ true)
    first kept more (inl e) = (inl e, subst (λ y. p y ≡ true) e kept)
    first kept more (inr k) = let (there, test) = more k in (inr there, test)

insert-Has :
    (a r : InstanceRow) (rows : List InstanceRow) → Has r (insert_row a rows) → Has r (a ∷ rows)
unfolding insert_row
insert-Has a r [] h = h
insert-Has a r (b ∷ rows) h = elim (Bool-cases (no_later a b)) [
  | inl front ↦ rw front at h
  | inr behind ↦ swapped (insert-Has a r rows) (rw behind at h)
]
  where
    past : Has r (a ∷ rows) → Has r (a ∷ b ∷ rows)
    past (inl e) = inl e
    past (inr k) = inr (inr k)

    swapped :
        (Has r (insert_row a rows) → Has r (a ∷ rows))
        → (b ≡ r) ⊎ Has r (insert_row a rows)
        → Has r (a ∷ b ∷ rows)
    swapped more (inl e) = inr (inl e)
    swapped more (inr k) = past (more k)

order-Has : (r : InstanceRow) (rows : List InstanceRow) → Has r (order_rows rows) → Has r rows
unfolding order_rows
order-Has r [] h = h
order-Has r (x ∷ rows) h = kept (order-Has r rows) (insert-Has x r (order_rows rows) h)
  where
    kept : (Has r (order_rows rows) → Has r rows) → Has r (x ∷ order_rows rows) → Has r (x ∷ rows)
    kept more (inl e) = inl e
    kept more (inr k) = inr (more k)

limit-Has :
    (n : ℕ) (r : InstanceRow) (rows : List InstanceRow) → Has r (limit_rows n rows) → Has r rows
unfolding limit_rows
limit-Has zero r rows h = absurd h
limit-Has (suc n) r [] h = h
limit-Has (suc n) r (x ∷ rows) (inl e) = inl e
limit-Has (suc n) r (x ∷ rows) (inr k) = inr (limit-Has n r rows k)

-- The row of the table that a candidate stands for: eligible at the moment of the claim, with a resource
-- and a create operation.
abbrev pub IsTaken {ℓ} :
    {A : Type ℓ}
    → List (WorkflowRow A)
    → (ℕ → Bool)
    → ℕ
    → List InstanceRow
    → ReconciliationCandidate
    → Type 0
IsTaken workflows locked stale_after rows c =
    (row : InstanceRow) × Has row rows
    × (is_eligible locked stale_after row ≡ true)
    × (candidate_of (provider_resource workflows row) row ≡ some c)

module _ {ℓ} {A : Type ℓ} (workflows : List (WorkflowRow A)) where
  candidates-IsTaken :
      (locked : ℕ → Bool) (stale_after : ℕ) (table rows : List InstanceRow)
      → ((r : InstanceRow) → Has r rows → Has r table × (is_eligible locked stale_after r ≡ true))
      → All (IsTaken workflows locked stale_after table) (candidates_of workflows rows)
  unfolding candidates_of
  candidates-IsTaken locked stale_after table [] from = tt
  candidates-IsTaken locked stale_after table (r ∷ rows) from =
      with_it (candidates-IsTaken locked stale_after table rows (λ x h. from x (inr h)))
        (candidate_of (provider_resource workflows r) r) refl
    where
      with_it :
          All (IsTaken workflows locked stale_after table) (candidates_of workflows rows)
          → (o : Option ReconciliationCandidate)
          → candidate_of (provider_resource workflows r) r ≡ o
          → All
              (IsTaken workflows locked stale_after table)
              (with_candidate o (candidates_of workflows rows))
      with_it rest none e = rest
      with_it rest (some c) e = let (there, test) = from r (inl refl) in ((r, there, test, e), rest)

  pub length-candidates :
      (rows : List InstanceRow) → length (candidates_of workflows rows) ≤ length rows
  unfolding candidates_of
  length-candidates [] = omega arith
  length-candidates (r ∷ rows) =
      by_candidate (length-candidates rows) (candidate_of (provider_resource workflows r) r)
    where
      by_candidate :
          length (candidates_of workflows rows) ≤ length rows
          → (o : Option ReconciliationCandidate)
          → length (with_candidate o (candidates_of workflows rows)) ≤ suc (length rows)
      by_candidate h none = omega arith
      by_candidate h (some c) = omega arith

  pub length-limit : (n : ℕ) (rows : List InstanceRow) → length (limit_rows n rows) ≤ n
  unfolding limit_rows
  length-limit zero rows = omega arith
  length-limit (suc n) [] = omega arith
  length-limit (suc n) (r ∷ rows) = omega (arith, length-limit n rows)

  pub claim_stale_instances-IsTaken :
      (locked : ℕ → Bool) (limit stale_after now : ℕ) (db : ControlDatabase)
      → All
          (IsTaken workflows locked stale_after db.instances)
          (claim_stale_instances workflows locked limit stale_after now db).0
  unfolding claim_stale_instances selected
  claim_stale_instances-IsTaken locked limit stale_after now db =
      let chosen = select_rows (is_eligible locked stale_after) db.instances in
      candidates-IsTaken locked stale_after db.instances (limit_rows limit (order_rows chosen))
        (λ r h.
          select-Has (is_eligible locked stale_after) r db.instances
            (order-Has r chosen (limit-Has limit r (order_rows chosen) h)))

-- What makes a row a candidate.
pub candidate-facts :
    (resource : String) (r : InstanceRow) (c : ReconciliationCandidate)
    → candidate_of (some resource) r ≡ some c
    → (c.instance_id ≡ r.id)
      × (r.create_operation_id ≡ some c.create_operation_id)
      × (c.provider_resource_id ≡ resource)
      × (str_eq resource "" ≡ false)
candidate-facts resource r c e = elim (Option-cases r.create_operation_id) [
  | inl absent ↦ cc (rw absent at e)
  | inr (operation, there) ↦ elim (Bool-cases (str_eq resource "")) [
    | inl blank ↦ cc (rw (there, blank) at e)
    | inr full ↦ let same = rw (there, full) at e in (cc, there ∙ cc, cc, full)
  ]
]

pub candidate-resource :
    (o : Option String) (r : InstanceRow) (c : ReconciliationCandidate)
    → candidate_of o r ≡ some c
    → o ≡ some c.provider_resource_id
candidate-resource none r c e = cc
candidate-resource (some resource) r c e =
    let (_, _, same, _) = candidate-facts resource r c e in ap some (sym same)

pub implied :
    {A : Type 0} (P Q : A → Type 0) (xs : List A) → ((x : A) → P x → Q x) → All P xs → All Q xs
implied P Q [] f h = tt
implied P Q (x ∷ xs) f (p, h) = (f x p, implied P Q xs f h)
