-- ===== src/Adapters/PlanGate/Recovery.antt =====
-- packages/provider-adapters/src/terraform/plan-gate.ts: `isRecoverableByUntaint`.
use private_cloud_control_pl.Prelude.{
  ◌≡◌, ◌⊎◌, inl, inr, refl, sym, ◌∙◌, ap, String, str_eq, str_eq_iff, Among, truthy, nullish, Bool,
  true, false, ◌&&◌, Option, none, some, List, [], ◌∷◌, all, All, Bool-cases,
}
use private_cloud_control_pl.Adapters.PlanGate.{
  PlanResourceChange, TerraformPlan, GateObjection, GateOptions, GateResult, Refusal,
  destructive_action, actions_of, refusal, changes_of, is_tainted, is_refused, is_nonempty,
  evaluate_plan, is_recoverable_by_untaint,
}
use private_cloud_control_pl.Adapters.PlanGate.Verdict.{
  IsHarmless, IsRecognised, Judged, refusal-Judged,
}
use private_cloud_control_pl.Adapters.PlanGate.Decision.{
  pushed, refused, read_objections, refused-Objects, no_objection,
}

-- A deletion that is proposed because an earlier apply left the resource tainted.
abbrev pub IsTaintedDelete : PlanResourceChange → Type 0
IsTaintedDelete change =
    All IsRecognised (actions_of change)
    × Among destructive_action (actions_of change)
    × (change.action_reason ≡ some "replace_because_tainted")

both : (b c : Bool) → (b && c) ≡ true → (b ≡ true) × (c ≡ true)
both true c e = (refl, e)
both false c e = cc

kept_reason : (o : Option String) (s : String) → truthy o ≡ some s → o ≡ some s
kept_reason none s e = e
kept_reason (some t) s e = elim (Bool-cases (str_eq t "")) [
  | inl blank ↦ let off : truthy (some t) ≡ none = rw blank refl in cc
  | inr full ↦ rw full at e
]

tainted_reason :
    (o : Option String)
    → (elim o [ none ↦ false | some reason ↦ str_eq reason "replace_because_tainted" ]) ≡ true
    → o ≡ some "replace_because_tainted"
tainted_reason none e = cc
tainted_reason (some reason) e = ap some ((str_eq_iff reason "replace_because_tainted").0 e)

refused-tainted :
    (options : GateOptions) (changes : List PlanResourceChange)
    → all is_tainted (refused options changes) ≡ true
    → All (λ change. IsHarmless options change ⊎ IsTaintedDelete change) changes
refused-tainted options [] e = tt
refused-tainted options (change ∷ changes) e =
    judged (refusal options change) (refused options changes) (refusal-Judged options change)
      (refused-tainted options changes) e
  where
    judged :
        (r : Option Refusal) (os : List GateObjection) {Rest : Type 0}
        → Judged options change r
        → (all is_tainted os ≡ true → Rest)
        → all is_tainted (pushed r os) ≡ true
        → (IsHarmless options change ⊎ IsTaintedDelete change) × Rest
    judged _ os (Judged.harmless h) rest e = (inl h, rest e)
    judged _ os (Judged.unrecognised_action r _ _ _ reason) rest e =
        let (here, there) = both (is_tainted r.objection) (all is_tainted os) e in
        let cause = tainted_reason r.objection.action_reason here in cc
    judged _ os (Judged.destructive r known deletes _ _ _ reason) rest e =
        let (here, there) = both (is_tainted r.objection) (all is_tainted os) e in
        let cause = tainted_reason r.objection.action_reason here in
        (inr (known, deletes, kept_reason change.action_reason _ (cc)), rest there)

-- What untainting can clear: a plan that was read and is not errored, in which some change is not
-- harmless, and each change that is not is a deletion for a tainted resource.
abbrev pub IsRecoverable : GateOptions → Option TerraformPlan → Type 0
IsRecoverable options none = ⊥
IsRecoverable options (some plan) =
    (nullish plan.errored false ≡ false)
    × (¬ All (IsHarmless options) (changes_of plan))
    × All (λ change. IsHarmless options change ⊎ IsTaintedDelete change) (changes_of plan)

-- A verdict is called recoverable by untainting only for a plan that was read and is not errored, that
-- was refused for some change, and in which each change that is not harmless is a deletion of known
-- actions that Terraform explains by a taint.
pub is_recoverable_by_untaint-IsRecoverable :
    (options : GateOptions) (plan : Option TerraformPlan)
    → is_recoverable_by_untaint (evaluate_plan plan options) ≡ true
    → IsRecoverable options plan
unfolding is_recoverable_by_untaint evaluate_plan
is_recoverable_by_untaint-IsRecoverable options none h = cc
is_recoverable_by_untaint-IsRecoverable options (some plan) h =
    elim (Bool-cases (nullish plan.errored false)) [
      | inl errored ↦ let off : false ≡ true = rw errored at h in cc
      | inr fine ↦ found fine (parts (evaluate_plan (some plan) options) h)
    ]
  where
    parts :
        (r : GateResult)
        → (is_refused r.decision && is_nonempty r.objections && all is_tainted r.objections) ≡ true
        → (is_nonempty r.objections ≡ true) × (all is_tainted r.objections ≡ true)
    parts r e =
        let (front, tainted) =
          both (is_refused r.decision && is_nonempty r.objections) (all is_tainted r.objections)
            e in
        ((both (is_refused r.decision) (is_nonempty r.objections) front).1, tainted)

    found :
        nullish plan.errored false ≡ false
        → (is_nonempty (evaluate_plan (some plan) options).objections ≡ true)
          × (all is_tainted (evaluate_plan (some plan) options).objections ≡ true)
        → IsRecoverable options (some plan)
    found fine (nonempty, tainted) =
        let same = read_objections options plan fine in
        (
          fine,
          λ harmless.
              let empty =
                same ∙ no_objection (refused-Objects options (changes_of plan)) harmless in
              let off : is_nonempty (evaluate_plan (some plan) options).objections ≡ false =
                ap is_nonempty empty in
              cc,
          refused-tainted options (changes_of plan) (ap (all is_tainted) (sym same) ∙ tainted),
        )
