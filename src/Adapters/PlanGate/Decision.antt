-- ===== src/Adapters/PlanGate/Decision.antt =====
-- packages/provider-adapters/src/terraform/plan-gate.ts: the loop of `evaluatePlan` and its decision.
use private_cloud_control_pl.Prelude.{
  ◌≡◌, ◌↔◌, refl, sym, ◌∙◌, nullish, false, Option, none, some, List, [], ◌∷◌, ◌++◌, inl, inr, All,
  Bool-cases,
}
use mathlib.Core.List.{append_assoc, append-nil}
use private_cloud_control_pl.Adapters.PlanGate.{
  PlanResourceChange, TerraformPlan, GateDecision, GateObjection, GateOptions, Refusal, Review,
  actions_of, address_of, refusal, noted, review_from, changes_of, decided, evaluate_plan,
}
use private_cloud_control_pl.Adapters.PlanGate.Verdict.{IsHarmless, Judged, refusal-Judged}

abbrev pub pushed : Option Refusal → List GateObjection → List GateObjection
pushed none os = os
pushed (some r) os = r.objection ∷ os

-- The objections to a list of changes, in its order.
abbrev pub refused : GateOptions → List PlanResourceChange → List GateObjection
refused options [] = []
refused options (change ∷ changes) = pushed (refusal options change) (refused options changes)

pub review_from-objections :
    (options : GateOptions) (changes : List PlanResourceChange) (review : Review)
    → (review_from options changes review).objections ≡ review.objections ++ refused options changes
unfolding review_from
review_from-objections options [] review = sym (append-nil review.objections)
review_from-objections options (change ∷ changes) review =
    review_from-objections options changes (noted review (refusal options change))
    ∙ by_refusal (refusal options change)
  where
    by_refusal :
        (r : Option Refusal)
        → (noted review r).objections ++ refused options changes
          ≡ review.objections ++ pushed r (refused options changes)
    by_refusal none = refl
    by_refusal (some r) =
        append_assoc review.objections (r.objection ∷ []) (refused options changes)

-- One objection to each change that is not harmless, with its address and its actions, in order.
pub data Objects (options : GateOptions)
    : List PlanResourceChange → List GateObjection → Type 0 where
  done : Objects options [] []
  passed :
      {change : PlanResourceChange} {changes : List PlanResourceChange} {os : List GateObjection}
      → IsHarmless options change
      → Objects options changes os
      → Objects options (change ∷ changes) os
  objected :
      {change : PlanResourceChange} {changes : List PlanResourceChange} {o : GateObjection}
      {os : List GateObjection}
      → ¬ IsHarmless options change
      → o.address ≡ address_of change
      → o.actions ≡ actions_of change
      → Objects options changes os
      → Objects options (change ∷ changes) (o ∷ os)

pub refused-Objects :
    (options : GateOptions) (changes : List PlanResourceChange)
    → Objects options changes (refused options changes)
refused-Objects options [] = Objects.done
refused-Objects options (change ∷ changes) =
    judged (refusal options change) (refusal-Judged options change)
      (refused-Objects options changes)
  where
    judged :
        (r : Option Refusal) {os : List GateObjection}
        → Judged options change r
        → Objects options changes os
        → Objects options (change ∷ changes) (pushed r os)
    judged _ (Judged.harmless h) rest = Objects.passed h rest
    judged _ (Judged.unrecognised_action r no_harm address actions _) rest =
        Objects.objected no_harm address actions rest
    judged _ (Judged.destructive r _ _ no_harm address actions _) rest =
        Objects.objected no_harm address actions rest

decided-objections :
    (changes : List PlanResourceChange) (review : Review)
    → (decided changes review).objections ≡ review.objections
decided-objections changes review = by_list review.objections refl
  where
    by_list :
        (os : List GateObjection)
        → review.objections ≡ os
        → (decided changes review).objections ≡ review.objections
    by_list [] e = rw e refl
    by_list (o ∷ os) e = rw e refl

pub read_objections :
    (options : GateOptions) (plan : TerraformPlan)
    → nullish plan.errored false ≡ false
    → (evaluate_plan (some plan) options).objections ≡ refused options (changes_of plan)
unfolding evaluate_plan
read_objections options plan fine =
    let start : Review = record { rule = none; objections = [] } in
    rw fine (
      decided-objections (changes_of plan) (review_from options (changes_of plan) start)
      ∙ review_from-objections options (changes_of plan) start)

-- The objections to a plan that is read and not errored are one to each change that is not harmless,
-- in the order of the plan, with its address and its actions.
pub evaluate_plan-Objects :
    (options : GateOptions) (plan : TerraformPlan)
    → nullish plan.errored false ≡ false
    → Objects options (changes_of plan) (evaluate_plan (some plan) options).objections
evaluate_plan-Objects options plan fine =
    rw (read_objections options plan fine) (refused-Objects options (changes_of plan))

none_objected :
    {options : GateOptions} {changes : List PlanResourceChange} {os : List GateObjection}
    → Objects options changes os
    → os ≡ []
    → All (IsHarmless options) changes
none_objected Objects.done e = tt
none_objected (Objects.passed h rest) e = (h, none_objected rest e)
none_objected (Objects.objected _ _ _ _) e = cc

pub no_objection :
    {options : GateOptions} {changes : List PlanResourceChange} {os : List GateObjection}
    → Objects options changes os
    → All (IsHarmless options) changes
    → os ≡ []
no_objection Objects.done h = refl
no_objection (Objects.passed _ rest) h = no_objection rest h.1
no_objection (Objects.objected no_harm _ _ _) h = absurd (no_harm h.0)

decided_iff :
    (changes : List PlanResourceChange) (review : Review)
    → ((decided changes review).decision ≡ GateDecision.allowed) ↔ (review.objections ≡ [])
decided_iff changes review = by_list review.objections refl
  where
    by_list :
        (os : List GateObjection)
        → review.objections ≡ os
        → ((decided changes review).decision ≡ GateDecision.allowed) ↔ (review.objections ≡ [])
    by_list [] e = rw e ((λ h. refl), (λ h. refl))
    by_list (o ∷ os) e = rw e ((λ h. cc), (λ h. cc))

-- A plan that may be applied: it was read, Terraform did not mark it as errored, and every change in
-- it is harmless.
abbrev pub IsApplicable : GateOptions → Option TerraformPlan → Type 0
IsApplicable options none = ⊥
IsApplicable options (some plan) =
    (nullish plan.errored false ≡ false) × All (IsHarmless options) (changes_of plan)

-- The gate allows exactly the plans that were read, that are not errored, and in which every change has
-- known actions only and deletes nothing but the one named address.
pub evaluate_plan-IsApplicable :
    (options : GateOptions) (plan : Option TerraformPlan)
    → ((evaluate_plan plan options).decision ≡ GateDecision.allowed) ↔ IsApplicable options plan
unfolding evaluate_plan
evaluate_plan-IsApplicable options none = ((λ h. cc), (λ h. absurd h))
evaluate_plan-IsApplicable options (some plan) = elim (Bool-cases (nullish plan.errored false)) [
  | inl errored ↦ rw errored ((λ h. cc), (λ h. cc))
  | inr fine ↦
      let start : Review = record { rule = none; objections = [] } in
      let review = review_from options (changes_of plan) start in
      let same = review_from-objections options (changes_of plan) start in
      let objects = refused-Objects options (changes_of plan) in
      let (forth, back) = decided_iff (changes_of plan) review in
      rw fine (
        (λ h. (refl, none_objected objects (sym same ∙ forth h))),
        (λ h. back (same ∙ no_objection objects h.1)),
      )
]
