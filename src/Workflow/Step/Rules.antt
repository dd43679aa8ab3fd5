-- ===== src/Workflow/Step/Rules.antt =====
-- Rules for what a step returns, one for each way to build it.
use private_cloud_control_pl.Prelude.{◌≡◌, subst}
use private_cloud_control_pl.Workflow.Step.{Result, ok, raise, Step, ◌>>=◌}

-- `P` holds of the value, if the step returns one.
abbrev pub Returns {ℓ κ} : {A : Type ℓ} → (A → Type κ) → Result A → Type κ
Returns P (ok a) = P a
Returns P (raise e) = Unit

module _ {ℓ κ μ} {A : Type ℓ} {B : Type κ} (P : B → Type μ) where
  pub Returns-bind :
      (m : Step A) (f : A → Step B) → ((a : A) → Returns P (f a).1) → Returns P (m >>= f).1
  Returns-bind (calls, ok a) f h = h a
  Returns-bind (calls, raise e) f h = tt

module _ {ℓ κ} {A : Type ℓ} (P Q : A → Type κ) where
  pub Returns-mono : (r : Result A) → ((a : A) → P a → Q a) → Returns P r → Returns Q r
  Returns-mono (ok a) f h = f a h
  Returns-mono (raise e) f h = tt

pub Returns-ok {ℓ κ} :
    {A : Type ℓ} (P : A → Type κ) (r : Result A) (a : A) → r ≡ ok a → Returns P r → P a
Returns-ok P r a e h = subst (Returns P) e h
