-- ===== src/Control/Keyed.antt =====
-- Tables whose rows have a number as their key.
use private_cloud_control_pl.Prelude.{
  ◌≡◌, ◌≢◌, ℕ, ◌==◌, Bool, true, false, ◌&&◌, none, some, List, [], ◌∷◌, All, refl, ap, subst, inl,
  inr, Bool-cases, arith,
}
use mathlib.Core.Option
use private_cloud_control_pl.Store.Table.{find_row, update_rows}

module _ {ℓ} {R : Type ℓ} (key : R → ℕ) where
  abbrev pub keyed : ℕ → R → Bool
  keyed id r = key r == id

  pub find-update_same :
      (id : ℕ) (f : R → R) (rows : List R)
      → ((r : R) → key (f r) ≡ key r)
      → find_row (keyed id) (update_rows (keyed id) f rows)
        ≡ Option.map f (find_row (keyed id) rows)
  unfolding find_row update_rows
  find-update_same id f [] keep = refl
  find-update_same id f (r ∷ rows) keep = elim (Bool-cases (key r == id)) [
    | inl here ↦ rw (here, keep r, here) refl
    | inr other ↦ rw (other, other) (find-update_same id f rows keep)
  ]

  pub find-update_other :
      (id target : ℕ) (f : R → R) (rows : List R)
      → ((r : R) → key (f r) ≡ key r)
      → target ≢ id
      → find_row (keyed id) (update_rows (keyed target) f rows) ≡ find_row (keyed id) rows
  unfolding find_row update_rows
  find-update_other id target f [] keep apart = refl
  find-update_other id target f (r ∷ rows) keep apart = elim (Bool-cases (key r == target)) [
    | inl here ↦ rw (here, keep r, differs r here) (find-update_other id target f rows keep apart)
    | inr other ↦ elim (Bool-cases (key r == id)) [
      | inl found ↦ rw (other, found) refl
      | inr missed ↦ rw (other, missed) (find-update_other id target f rows keep apart)
    ]
  ]
    where
      differs : (x : R) → (key x == target) ≡ true → (key x == id) ≡ false
      differs x e = ground arith

  pub find_key : (id : ℕ) (rows : List R) (r : R) → find_row (keyed id) rows ≡ some r → key r ≡ id
  unfolding find_row
  find_key id [] r h = cc
  find_key id (x ∷ rows) r h = elim (Bool-cases (key x == id)) [
    | inl here ↦ let same : x ≡ r = cc (rw here at h) in ground arith
    | inr other ↦ find_key id rows r (rw other at h)
  ]

  -- A primary key.
  abbrev pub Unique : List R → Type 0
  Unique [] = Unit
  Unique (r ∷ rows) = All (λ x. key x ≢ key r) rows × Unique rows

  none_of :
      (id : ℕ) (p : R → Bool) (rows : List R)
      → All (λ x. key x ≢ id) rows
      → find_row (λ r. keyed id r && p r) rows ≡ none
  unfolding find_row
  none_of id p [] apart = refl
  none_of id p (r ∷ rows) apart =
      let off : (key r == id) ≡ false = unlike (key r) apart.0 in rw off (none_of id p rows apart.1)
    where
      unlike : (n : ℕ) → n ≢ id → (n == id) ≡ false
      unlike n h = ground arith

  -- Under a primary key, a row that is found under a further condition is the one of its key.
  pub find-restricted :
      (id : ℕ) (p : R → Bool) (rows : List R) (r : R)
      → Unique rows
      → find_row (λ x. keyed id x && p x) rows ≡ some r
      → find_row (keyed id) rows ≡ some r
  unfolding find_row
  find-restricted id p [] r keys h = cc
  find-restricted id p (x ∷ rows) r keys h = elim (Bool-cases (key x == id)) [
    | inr other ↦ rw other (find-restricted id p rows r keys.1 (rw other at h))
    | inl here ↦ elim (Bool-cases (p x)) [
      | inl kept ↦ let same : x ≡ r = cc (rw (here, kept) at h) in rw here (ap some same)
      | inr left ↦
          let same : key x ≡ id = equal (key x) here in
          let gone = none_of id p rows (subst (λ k. All (λ y. key y ≢ k) rows) same keys.0) in
          absurd (cc (rw (here, left, gone) at h))
    ]
  ]
    where
      equal : (n : ℕ) → (n == id) ≡ true → n ≡ id
      equal n e = ground arith
