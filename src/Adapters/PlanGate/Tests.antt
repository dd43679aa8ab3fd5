-- ===== src/Adapters/PlanGate/Tests.antt =====
-- Plans of the shapes in terraform-state/fixtures.
use private_cloud_control_pl.Prelude.{
  ◌≡◌, ◌↔◌, refl, String, true, Option, none, some, List, [], ◌∷◌, join, decimal,
}
use private_cloud_control_pl.Adapters.PlanGate.{
  TerraformPlan, GateDecision, GateOptions, Segment, changes_of, evaluate_plan,
  is_recoverable_by_untaint,
}
use private_cloud_control_pl.Adapters.PlanGate.Decision.{
  IsApplicable, Objects, evaluate_plan-IsApplicable, evaluate_plan-Objects,
}
use private_cloud_control_pl.Adapters.PlanGate.Recovery.{
  IsRecoverable, is_recoverable_by_untaint-IsRecoverable,
}

abbrev plan_of : List String → Option String → TerraformPlan
plan_of actions reason = record {
  errored = none;
  resource_changes = some (
      record {
        address = some "proxmox_virtual_environment_vm.instance";
        action_reason = reason;
        change = some record {
          actions = some actions;
          replace_paths =
              some ((Segment.key "disk" ∷ Segment.index 0 ∷ Segment.key "size" ∷ []) ∷ []);
        };
      }
      ∷ []);
}

abbrev no_destroy : GateOptions
no_destroy = record { allow_destroy_of = none }

abbrev update : TerraformPlan
update = plan_of ("update" ∷ []) none

abbrev tainted : TerraformPlan
tainted = plan_of ("delete" ∷ "create" ∷ []) (some "replace_because_tainted")

summary_of_taint :
    (evaluate_plan (some tainted) no_destroy).summary
    ≡ "Refused, this plan would destroy a provider resource. proxmox_virtual_environment_vm.instance: delete+create (replace_because_tainted) forced by disk.0.size"
unfolding evaluate_plan join decimal
summary_of_taint = refl

summary_of_update : (evaluate_plan (some update) no_destroy).summary ≡ "Allowed: update=1."
unfolding evaluate_plan join decimal
summary_of_update = refl

-- A plan that names no actions for a resource is allowed.
no_actions :
    (evaluate_plan
      (some record {
        errored = none;
        resource_changes =
            some (record { address = none; action_reason = none; change = none } ∷ []);
      })
      no_destroy).decision
    ≡ GateDecision.allowed
unfolding evaluate_plan
no_actions = refl

evaluate_plan-IsApplicable_example :
    ((evaluate_plan (some tainted) no_destroy).decision ≡ GateDecision.allowed)
    ↔ IsApplicable no_destroy (some tainted)
evaluate_plan-IsApplicable_example = evaluate_plan-IsApplicable no_destroy (some tainted)

evaluate_plan-Objects_example :
    Objects no_destroy (changes_of tainted) (evaluate_plan (some tainted) no_destroy).objections
evaluate_plan-Objects_example = evaluate_plan-Objects no_destroy tainted refl

is_tainted_plan : is_recoverable_by_untaint (evaluate_plan (some tainted) no_destroy) ≡ true
unfolding is_recoverable_by_untaint evaluate_plan
is_tainted_plan = refl

is_recoverable_by_untaint-IsRecoverable_example : IsRecoverable no_destroy (some tainted)
is_recoverable_by_untaint-IsRecoverable_example =
    is_recoverable_by_untaint-IsRecoverable no_destroy (some tainted) is_tainted_plan
