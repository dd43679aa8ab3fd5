-- ===== src/Control/Transaction.antt =====
-- What a transaction of these stores does: it commits a value, or throws and is rolled back.
use private_cloud_control_pl.Prelude.{
  ◌≡◌, refl, subst, String, Bool, true, false, not, ◌||◌, Option, none, some, List, any, inl, inr,
  Bool-cases, if◌then◌else◌,
}
use private_cloud_control_pl.Store.Table.{update_rows}

-- `NoResultError`, and the errors that the stores throw by name.
pub data TransactionError : Type 0 where
  no_result : TransactionError
  refused : String → TransactionError

pub data Tried {ℓ} (A : Type ℓ) : Type ℓ where
  done : A → Tried A
  threw : TransactionError → Tried A

infixl 5 ◌>>=◌
abbrev pub ◌>>=◌ {ℓ κ} : {A : Type ℓ} {B : Type κ} → Tried A → (A → Tried B) → Tried B
done a >>= f = f a
threw e >>= f = threw e

-- `executeTakeFirstOrThrow` of a SELECT.
abbrev pub or_throw {ℓ} : {A : Type ℓ} → Option A → Tried A
or_throw none = threw TransactionError.no_result
or_throw (some a) = done a

-- `executeTakeFirstOrThrow` of an UPDATE that returns no rows: whether the query builder throws where
-- none was changed is `strict`, and a parameter.
abbrev pub update_or_throw {ℓ} :
    {R : Type ℓ} → Bool → (R → Bool) → (R → R) → List R → Tried (List R)
update_or_throw strict p f rows =
    if not strict || any p rows
    then done (update_rows p f rows)
    else threw TransactionError.no_result

pub found_update_or_throw {ℓ} :
    {R : Type ℓ} (strict : Bool) (p : R → Bool) (f : R → R) (rows : List R)
    → any p rows ≡ true
    → update_or_throw strict p f rows ≡ done (update_rows p f rows)
found_update_or_throw true p f rows h = rw h refl
found_update_or_throw false p f rows h = refl

-- What a transaction that commits leaves.
abbrev pub Ensures {ℓ κ} : {A : Type ℓ} → (A → Type κ) → Tried A → Type κ
Ensures P (done a) = P a
Ensures P (threw e) = Unit

module _ {ℓ κ} {A : Type ℓ} (P : A → Type κ) where
  pub Ensures-done : (m : Tried A) (a : A) → Ensures P m → m ≡ done a → P a
  Ensures-done (done b) a h e = let same : b ≡ a = cc in subst P same h
  Ensures-done (threw x) a h e = absurd (cc)

-- What a transaction ensures, by the statement that it starts with.
module _ {ℓ κ μ} {A : Type ℓ} {B : Type κ} (P : B → Type μ) where
  pub Ensures-or_throw :
      (o : Option A) (f : A → Tried B)
      → ((a : A) → o ≡ some a → Ensures P (f a))
      → Ensures P (or_throw o >>= f)
  Ensures-or_throw none f h = tt
  Ensures-or_throw (some a) f h = h a refl

  pub Ensures-update :
      (strict : Bool) (p : A → Bool) (g : A → A) (rows : List A) (f : List A → Tried B)
      → Ensures P (f (update_rows p g rows))
      → Ensures P (update_or_throw strict p g rows >>= f)
  Ensures-update strict p g rows f h = elim (Bool-cases (not strict || any p rows)) [
    | inl changed ↦ rw changed h
    | inr unchanged ↦ rw unchanged tt
  ]
