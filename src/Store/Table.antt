-- ===== src/Store/Table.antt =====
-- Tables as lists of rows, with the three statements that the store uses on them.
use private_cloud_control_pl.Prelude.{
  ◌≡◌, Bool, true, Option, none, some, List, [], ◌∷◌, refl, inl, inr, Bool-cases, if◌then◌else◌,
  subst,
}

module _ {ℓ} {R : Type ℓ} where
  -- `SELECT … WHERE p`, its first row.
  unfoldable pub find_row : (R → Bool) → List R → Option R
  find_row p [] = none
  find_row p (r ∷ rows) = let rest = find_row p rows in if p r then some r else rest

  -- `UPDATE … SET f WHERE p`.
  unfoldable pub update_rows : (R → Bool) → (R → R) → List R → List R
  update_rows p f [] = []
  update_rows p f (r ∷ rows) = let rest = update_rows p f rows in (if p r then f r else r) ∷ rest

  -- The row that an update makes of one row.
  abbrev pub updated : (R → Bool) → (R → R) → R → R
  updated p f r = if p r then f r else r

  abbrev pub updated_row : (R → Bool) → (R → R) → Option R → Option R
  updated_row p f none = none
  updated_row p f (some r) = some (updated p f r)

  -- A row that is found satisfies the test.
  pub find_row-test : (p : R → Bool) (rows : List R) (r : R) → find_row p rows ≡ some r → p r ≡ true
  unfolding find_row
  find_row-test p [] r h = cc
  find_row-test p (x ∷ rows) r h = elim (Bool-cases (p x)) [
    | inl here ↦ let same : x ≡ r = cc (rw here at h) in subst (λ y. p y ≡ true) same here
    | inr other ↦ find_row-test p rows r (rw other at h)
  ]

  -- An update that keeps the key of a search finds the updated row.
  pub find_row-update_rows :
      (p q : R → Bool) (f : R → R) (rows : List R)
      → ((r : R) → p (updated q f r) ≡ p r)
      → find_row p (update_rows q f rows) ≡ updated_row q f (find_row p rows)
  unfolding find_row update_rows
  find_row-update_rows p q f [] key = refl
  find_row-update_rows p q f (r ∷ rows) key = elim (Bool-cases (p r)) [
    | inl here ↦ rw (key r, here) refl
    | inr other ↦ rw (key r, other) (find_row-update_rows p q f rows key)
  ]
