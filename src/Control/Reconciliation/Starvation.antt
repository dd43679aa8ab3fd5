-- ===== src/Control/Reconciliation/Starvation.antt =====
-- packages/postgres-adapter/src/reconciliation-store.ts: sweeps that claim nothing.
use private_cloud_control_pl.Prelude.{
  ◌≡◌, ◌≤◌, ℕ, zero, suc, ◌-◌, String, Bool, true, false, not, ◌&&◌, Option, none, some, List, [],
  ◌∷◌, ◌++◌, length, refl, ◌∙◌, ap, inl, inr, arith, Bool-cases, leb,
}
use private_cloud_control_pl.Store.Rows.{WorkflowRow}
use private_cloud_control_pl.Store.Table.{update_rows}
use private_cloud_control_pl.Control.Rows.{InstanceRow, ControlDatabase}
use private_cloud_control_pl.Control.Reconciliation.{
  is_stale, is_eligible, was_never_reconciled, select_rows, no_later, insert_row, order_rows,
  limit_rows, candidates_of, selected, is_claimed, stamped, claim_stale_instances,
}
use private_cloud_control_pl.Control.Reconciliation.Worker.{
  Moment, reconcile_all, sweep, batch_size, stale_after_ms,
}

-- The eligible instances that no reconciliation has reached, in the order of the table.
abbrev pub waiting : (ℕ → Bool) → List InstanceRow → List InstanceRow
waiting locked rows = select_rows (λ r. was_never_reconciled r && is_eligible locked 0 r) rows

abbrev reached : InstanceRow → Bool
reached r = not (was_never_reconciled r)

never_later : (a b : InstanceRow) → was_never_reconciled a ≡ true → no_later a b ≡ true
never_later a b h = by_time a.last_reconciled_at b.last_reconciled_at h
  where
    by_time :
        (x y : Option ℕ)
        → (elim x [ none ↦ true | some _ ↦ false ]) ≡ true
        → (elim x [ none ↦ true | some at ↦ elim y [ none ↦ false | some other ↦ leb at other ] ])
          ≡ true
    by_time none y h = refl
    by_time (some n) y h = cc

later_than_never :
    (a b : InstanceRow)
    → was_never_reconciled a ≡ false
    → was_never_reconciled b ≡ true
    → no_later a b ≡ false
later_than_never a b h k = by_time a.last_reconciled_at b.last_reconciled_at h k
  where
    by_time :
        (x y : Option ℕ)
        → (elim x [ none ↦ true | some _ ↦ false ]) ≡ false
        → (elim y [ none ↦ true | some _ ↦ false ]) ≡ true
        → (elim x [ none ↦ true | some at ↦ elim y [ none ↦ false | some other ↦ leb at other ] ])
          ≡ false
    by_time none y h k = cc
    by_time (some n) none h k = refl
    by_time (some n) (some m) h k = cc

-- A row that was reached goes behind those that were not.
insert-behind :
    (a : InstanceRow) (rows others : List InstanceRow)
    → was_never_reconciled a ≡ false
    → insert_row a (select_rows was_never_reconciled rows ++ others)
      ≡ select_rows was_never_reconciled rows ++ insert_row a others
unfolding insert_row select_rows
insert-behind a [] others h = refl
insert-behind a (b ∷ rows) others h = elim (Bool-cases (was_never_reconciled b)) [
  | inl never ↦
      rw (never, later_than_never a b h never)
        (ap (λ (l : List InstanceRow). b ∷ l) (insert-behind a rows others h))
  | inr other ↦ rw other (insert-behind a rows others h)
]

insert-front :
    (a : InstanceRow) (rows : List InstanceRow)
    → was_never_reconciled a ≡ true
    → insert_row a rows ≡ a ∷ rows
unfolding insert_row
insert-front a [] h = refl
insert-front a (b ∷ rows) h = rw (never_later a b h) refl

-- `NULLS FIRST`.
order_rows-never :
    (rows : List InstanceRow)
    → order_rows rows
      ≡ select_rows was_never_reconciled rows ++ order_rows (select_rows reached rows)
unfolding order_rows select_rows
order_rows-never [] = refl
order_rows-never (r ∷ rows) = elim (Bool-cases (was_never_reconciled r)) [
  | inl never ↦
      rw (never, order_rows-never rows)
        (insert-front r
          (select_rows was_never_reconciled rows ++ order_rows (select_rows reached rows)) never)
  | inr other ↦
      rw (other, order_rows-never rows)
        (insert-behind r rows (order_rows (select_rows reached rows)) other)
]

same_test :
    (locked : ℕ → Bool) (stale_after : ℕ) (r : InstanceRow)
    → was_never_reconciled r ≡ true
    → is_eligible locked stale_after r ≡ is_eligible locked 0 r
same_test locked stale_after r h = rw (by_time r.last_reconciled_at h) refl
  where
    by_time :
        (x : Option ℕ)
        → (elim x [ none ↦ true | some _ ↦ false ]) ≡ true
        → is_stale stale_after x ≡ is_stale 0 x
    by_time none h = refl
    by_time (some n) h = cc

-- Which rows wait does not depend on the moment of the sweep.
select-waiting :
    (locked : ℕ → Bool) (stale_after : ℕ) (rows : List InstanceRow)
    → select_rows was_never_reconciled (select_rows (is_eligible locked stale_after) rows)
      ≡ waiting locked rows
unfolding select_rows
select-waiting locked stale_after [] = refl
select-waiting locked stale_after (r ∷ rows) = elim (Bool-cases (was_never_reconciled r)) [
  | inl never ↦ elim (Bool-cases (is_eligible locked 0 r)) [
    | inl chosen ↦
        let here = same_test locked stale_after r never ∙ chosen in
        rw (here, never, chosen)
          (ap (λ (l : List InstanceRow). r ∷ l) (select-waiting locked stale_after rows))
    | inr left ↦
        let here = same_test locked stale_after r never ∙ left in
        rw (here, never, left) (select-waiting locked stale_after rows)
  ]
  | inr other ↦ elim (Bool-cases (is_eligible locked stale_after r)) [
    | inl chosen ↦ rw (chosen, other) (select-waiting locked stale_after rows)
    | inr left ↦ rw (left, other) (select-waiting locked stale_after rows)
  ]
]

limit-append :
    (n : ℕ) (xs ys : List InstanceRow) → n ≤ length xs → limit_rows n (xs ++ ys) ≡ limit_rows n xs
unfolding limit_rows
limit-append zero xs ys h = refl
limit-append (suc n) [] ys h = absurd (omega arith)
limit-append (suc n) (x ∷ xs) ys h =
    ap (λ (l : List InstanceRow). x ∷ l) (limit-append n xs ys (omega arith))

selected-waiting :
    (locked : ℕ → Bool) (limit stale_after : ℕ) (rows : List InstanceRow)
    → limit ≤ length (waiting locked rows)
    → selected locked limit stale_after rows ≡ limit_rows limit (waiting locked rows)
unfolding selected
selected-waiting locked limit stale_after rows h =
    ap (limit_rows limit) (order_rows-never (select_rows (is_eligible locked stale_after) rows))
    ∙ rw (select-waiting locked stale_after rows) (limit-append limit (waiting locked rows) _ h)

none_updated :
    (f : InstanceRow → InstanceRow) (rows : List InstanceRow)
    → update_rows (is_claimed []) f rows ≡ rows
unfolding update_rows
none_updated f [] = refl
none_updated f (r ∷ rows) = ap (λ (l : List InstanceRow). r ∷ l) (none_updated f rows)

module _ {ℓ} {A : Type ℓ} (workflows : List (WorkflowRow A)) (locked : ℕ → Bool) (limit : ℕ)
    (db : ControlDatabase) (full : limit ≤ length (waiting locked db.instances))
    (lost : candidates_of workflows (limit_rows limit (waiting locked db.instances)) ≡ []) where
  -- Where the instances that no reconciliation has reached fill the limit, and the first of them have no
  -- provider resource or no create operation, a claim takes nothing and changes nothing, at any moment
  -- and with any cutoff.
  pub claim_stale_instances-starved :
      (stale_after now : ℕ)
      → claim_stale_instances workflows locked limit stale_after now db ≡ ([], db)
  unfolding claim_stale_instances
  claim_stale_instances-starved stale_after now =
      rw
        (
          selected-waiting locked limit stale_after db.instances full,
          lost,
          none_updated (stamped now) db.instances,
        )
        refl

-- A run of sweeps, one after another.
abbrev pub sweeps {ℓ} :
    {A : Type ℓ}
    → (ℕ → String)
    → List (WorkflowRow A)
    → (ℕ → Bool)
    → (ℕ → ℕ)
    → (ℕ → ℕ → Moment)
    → ℕ
    → ControlDatabase
    → ControlDatabase
sweeps text workflows locked times moments zero db = db
sweeps text workflows locked times moments (suc n) db =
    sweep text workflows locked (times n) (moments n)
      (sweeps text workflows locked times moments n db)

-- Then no number of sweeps changes anything, whenever they run: no other instance is ever observed.
pub sweeps-starved {ℓ} :
    {A : Type ℓ} (text : ℕ → String) (workflows : List (WorkflowRow A)) (locked : ℕ → Bool)
    (times : ℕ → ℕ) (moments : ℕ → ℕ → Moment) (db : ControlDatabase)
    → batch_size ≤ length (waiting locked db.instances)
    → candidates_of workflows (limit_rows batch_size (waiting locked db.instances)) ≡ []
    → (n : ℕ) → sweeps text workflows locked times moments n db ≡ db
unfolding sweep reconcile_all
sweeps-starved text workflows locked times moments db full lost zero = refl
sweeps-starved text workflows locked times moments db full lost (suc n) =
    rw
      (
        sweeps-starved text workflows locked times moments db full lost n,
        claim_stale_instances-starved workflows locked batch_size db full lost
            (times n - stale_after_ms) (times n),
      )
      refl
