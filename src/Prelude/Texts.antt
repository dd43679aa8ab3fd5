-- ===== src/Prelude/Texts.antt =====
-- Texts: membership in a list, `String(n)`, `join` and truthiness.
use Prim.Native.Nat.{ℕ, zero, suc, ◌+◌, ◌/◌, ◌%◌}
use Prim.Native.String.{String}
use Prim.Native.String
use mathlib.Core.Path.{◌≡◌, refl}
use mathlib.Core.Logic.{◌⊎◌, inl, inr}
use mathlib.Core.Bool.{Bool, true, false, ◌||◌}
use mathlib.Core.Option.{Option, none, some}
use mathlib.Core.List.{List, [], ◌∷◌}
use text.Mathlib.Text.{◌==◌ as str_eq}
use text.Mathlib.TextEquality.{eq_iff as str_eq_iff}
use private_cloud_control_pl.Prelude.Tests.{ltb, if◌then◌else◌}

infixr 65 ◌<>◌
abbrev pub ◌<>◌ : String → String → String
s <> t = String.◌++◌ s t

-- `Array.prototype.includes`.
unfoldable pub contains : List String → String → Bool
contains [] s = false
contains (t ∷ ts) s = str_eq t s || contains ts s

-- A text is one of a list of texts.
abbrev pub Among : String → List String → Type 0
Among s [] = ⊥
Among s (t ∷ ts) = (t ≡ s) ⊎ Among s ts

pub contains→Among : (ts : List String) (s : String) → contains ts s ≡ true → Among s ts
unfolding contains
contains→Among [] s h = cc
contains→Among (t ∷ ts) s h = first (str_eq t s) (str_eq_iff t s).0 (contains→Among ts s) h
  where
    first :
        {A B : Type 0} (b : Bool) {c : Bool}
        → (b ≡ true → A)
        → (c ≡ true → B)
        → (b || c) ≡ true
        → A ⊎ B
    first true f g e = inl (f refl)
    first false f g e = inr (g e)

pub Among→contains : (ts : List String) (s : String) → Among s ts → contains ts s ≡ true
unfolding contains
Among→contains [] s h = absurd h
Among→contains (t ∷ ts) s (inl e) = rw ((str_eq_iff t s).1 e) refl
Among→contains (t ∷ ts) s (inr h) = rw (Among→contains ts s h) (or_true (str_eq t s))
  where
    or_true : (b : Bool) → (b || true) ≡ true
    or_true true = refl
    or_true false = refl

digit : ℕ → String
digit zero = "0"
digit (suc zero) = "1"
digit (suc (suc zero)) = "2"
digit (suc (suc (suc zero))) = "3"
digit (suc (suc (suc (suc zero)))) = "4"
digit (suc (suc (suc (suc (suc zero))))) = "5"
digit (suc (suc (suc (suc (suc (suc zero)))))) = "6"
digit (suc (suc (suc (suc (suc (suc (suc zero))))))) = "7"
digit (suc (suc (suc (suc (suc (suc (suc (suc zero)))))))) = "8"
digit _ = "9"

-- A number has no more digits than it has units, and one.
decimal_from : ℕ → ℕ → String
decimal_from zero n = ""
decimal_from (suc fuel) n =
    let more = decimal_from fuel (n / 10) <> digit (n % 10) in if ltb n 10 then digit n else more

-- `String(n)`.
unfoldable pub decimal : ℕ → String
unfolding decimal_from digit
decimal n = decimal_from (n + 1) n

-- `join(separator)`.
unfoldable pub join : String → List String → String
join separator [] = ""
join separator (s ∷ []) = s
join separator (s ∷ t ∷ ts) = s <> separator <> join separator (t ∷ ts)

-- `a || undefined` on a text that may be missing: an empty text is dropped.
abbrev pub truthy : Option String → Option String
truthy none = none
truthy (some s) = if str_eq s "" then none else some s
