-- ===== src/Adapters/PlanGate/Verdict.antt =====
-- packages/provider-adapters/src/terraform/plan-gate.ts: what `evaluatePlan` objects to, and when it
-- allows a plan.
use private_cloud_control_pl.Prelude.{
  ◌≡◌, ◌↔◌, ◌⊎◌, inl, inr, refl, sym, ap, String, str_eq, str_eq_iff, contains, contains→Among,
  Among→contains, Among, truthy, Bool, true, false, not, ◌&&◌, Option, none, some, any, All,
  any-eq-false, any_of_All, Bool-cases,
}
use private_cloud_control_pl.Adapters.PlanGate.{
  PlanResourceChange, GateOptions, Refusal, permitted_actions, destructive_action, actions_of,
  address_of, is_unrecognised, is_named, refusal,
}

abbrev pub IsRecognised : String → Type 0
IsRecognised action = Among action permitted_actions ⊎ (action ≡ destructive_action)

-- A change that destroys nothing but what the purge path names.
abbrev pub IsHarmless : GateOptions → PlanResourceChange → Type 0
IsHarmless options change =
    All IsRecognised (actions_of change)
    × ((¬ Among destructive_action (actions_of change))
        ⊎ (options.allow_destroy_of ≡ some (address_of change)))

recognised : (a : String) → is_unrecognised a ≡ false → IsRecognised a
recognised a h =
    split (contains permitted_actions a) (str_eq a destructive_action)
      (contains→Among permitted_actions a) (str_eq_iff a destructive_action).0 h
  where
    split :
        {A B : Type 0} (b c : Bool)
        → (b ≡ true → A)
        → (c ≡ true → B)
        → (not b && not c) ≡ false
        → A ⊎ B
    split true c f g e = inl (f refl)
    split false true f g e = inr (g refl)
    split false false f g e = cc

unrecognised : (a : String) → IsRecognised a → is_unrecognised a ≡ false
unrecognised a (inl h) = rw (Among→contains permitted_actions a h) refl
unrecognised a (inr e) =
    rw ((str_eq_iff a destructive_action).1 e) (not_and (contains permitted_actions a))
  where
    not_and : (b : Bool) → (not b && false) ≡ false
    not_and true = refl
    not_and false = refl

named_iff :
    (options : GateOptions) (address : String)
    → (is_named options address ≡ true) ↔ (options.allow_destroy_of ≡ some address)
named_iff options address = by_option options.allow_destroy_of
  where
    by_option :
        (o : Option String)
        → ((elim o [ none ↦ false | some named ↦ str_eq address named ]) ≡ true)
          ↔ (o ≡ some address)
    by_option none = ((λ h. cc), (λ h. cc))
    by_option (some named) = (
      (λ h. ap some (sym ((str_eq_iff address named).0 h))),
      (λ h. (str_eq_iff address named).1 (cc)),
    )

-- What a round of the loop finds of a change.
pub data Judged (options : GateOptions) (change : PlanResourceChange)
    : Option Refusal → Type 0 where
  harmless : IsHarmless options change → Judged options change none
  unrecognised_action :
      (r : Refusal)
      → ¬ IsHarmless options change
      → r.objection.address ≡ address_of change
      → r.objection.actions ≡ actions_of change
      → r.objection.action_reason ≡ none
      → Judged options change (some r)
  destructive :
      (r : Refusal)
      → All IsRecognised (actions_of change)
      → Among destructive_action (actions_of change)
      → ¬ IsHarmless options change
      → r.objection.address ≡ address_of change
      → r.objection.actions ≡ actions_of change
      → r.objection.action_reason ≡ truthy change.action_reason
      → Judged options change (some r)

module _ (options : GateOptions) (change : PlanResourceChange) where
  harmless_test : IsHarmless options change → any is_unrecognised (actions_of change) ≡ false
  harmless_test h = any_of_All is_unrecognised IsRecognised unrecognised (actions_of change) h.0

  pub refusal-Judged : Judged options change (refusal options change)
  unfolding refusal
  refusal-Judged = elim (Bool-cases (any is_unrecognised (actions_of change))) [
    | inl strange ↦
        rw strange
          (Judged.unrecognised_action _ (λ h. let known = harmless_test h in cc) refl refl refl)
    | inr plain ↦
        let known =
          any-eq-false is_unrecognised IsRecognised recognised (actions_of change) plain in
        elim (Bool-cases (contains (actions_of change) destructive_action)) [
          | inr kept ↦
              rw (plain, kept)
                (Judged.harmless (known, inl (λ m. let found = Among→contains _ _ m in cc)))
          | inl deletes ↦ elim (Bool-cases (is_named options (address_of change))) [
            | inl named ↦
                rw (plain, deletes, named)
                  (Judged.harmless (known, inr ((named_iff options (address_of change)).0 named)))
            | inr other ↦
                rw (plain, deletes, other)
                  (Judged.destructive _ known (contains→Among _ _ deletes)
                    (λ h. refuses deletes other h.1) refl refl refl)
          ]
        ]
  ]
    where
      refuses :
          contains (actions_of change) destructive_action ≡ true
          → is_named options (address_of change) ≡ false
          → (¬ Among destructive_action (actions_of change))
            ⊎ (options.allow_destroy_of ≡ some (address_of change))
          → ⊥
      refuses d o (inl free) = free (contains→Among _ _ d)
      refuses d o (inr e) = let named = (named_iff options (address_of change)).1 e in cc
