-- ===== src/Prelude/Lists.antt =====
-- Lists measured by native numbers, and predicates by recursion on a list.
use Prim.Native.Nat.{ℕ, zero, suc, ◌+◌}
use mathlib.Core.Path.{◌≡◌, refl}
use mathlib.Core.Logic.{◌⊎◌}
use mathlib.Core.Bool.{Bool, true, false, ◌&&◌, ◌||◌}
use mathlib.Core.Option.{Option, none, some}
use mathlib.Core.List.{List, [], ◌∷◌, ◌++◌}
use native.Mathlib.Omega.{arith}

module _ {ℓ} {A : Type ℓ} where
  abbrev pub length : List A → ℕ
  length [] = 0
  length (x ∷ xs) = suc (length xs)

  abbrev pub get_elem? : List A → ℕ → Option A
  get_elem? [] i = none
  get_elem? (x ∷ xs) zero = some x
  get_elem? (x ∷ xs) (suc i) = get_elem? xs i

  -- `Array.prototype.some` and `every`.
  abbrev pub any : (A → Bool) → List A → Bool
  any p [] = false
  any p (x ∷ xs) = p x || any p xs

  abbrev pub all : (A → Bool) → List A → Bool
  all p [] = true
  all p (x ∷ xs) = p x && all p xs

  pub length-append : (xs ys : List A) → length (xs ++ ys) ≡ length xs + length ys
  length-append [] ys = omega arith
  length-append (x ∷ xs) ys = omega (arith, length-append xs ys)

module _ {ℓ κ} {A : Type ℓ} (P : A → Type κ) where
  abbrev pub All : List A → Type κ
  All [] = Unit
  All (x ∷ xs) = P x × All xs

  pub All-append : (xs ys : List A) → All xs → All ys → All (xs ++ ys)
  All-append [] ys hx hy = hy
  All-append (x ∷ xs) ys hx hy = (hx.0, All-append xs ys hx.1 hy)

-- A value is one of a list's.
abbrev pub Has : {A : Type 0} → A → List A → Type 0
Has a [] = ⊥
Has a (x ∷ xs) = (x ≡ a) ⊎ Has a xs

-- A test that fails, or holds, on a whole list.
module _ {ℓ κ} {A : Type ℓ} (p : A → Bool) (P : A → Type κ) where
  pub any-eq-false : ((a : A) → p a ≡ false → P a) → (xs : List A) → any p xs ≡ false → All P xs
  any-eq-false f [] h = tt
  any-eq-false f (x ∷ xs) h =
      let (here, there) = neither (p x) (any p xs) h in (f x here, any-eq-false f xs there)
    where
      neither : (b c : Bool) → (b || c) ≡ false → (b ≡ false) × (c ≡ false)
      neither true c e = cc
      neither false c e = (refl, e)

  pub any_of_All : ((a : A) → P a → p a ≡ false) → (xs : List A) → All P xs → any p xs ≡ false
  any_of_All f [] h = refl
  any_of_All f (x ∷ xs) h = rw (f x h.0) (any_of_All f xs h.1)
