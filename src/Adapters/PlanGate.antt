-- ===== src/Adapters/PlanGate.antt =====
-- packages/provider-adapters/src/terraform/plan-gate.ts. A plan is what `terraform show -json` gives,
-- parsed. No action is spelled like a property of `Object.prototype`, and an index in a path is a
-- natural number.
pub mod Verdict
pub mod Decision
pub mod Recovery
pub mod Tests
use private_cloud_control_pl.Prelude.{
  ◌≡◌, ℕ, suc, ◌+◌, String, str_eq, ◌<>◌, contains, join, decimal, truthy, nullish, Bool, true,
  false, not, ◌&&◌, ◌||◌, Option, none, some, List, [], ◌∷◌, ◌++◌, map, any, all, ltb,
  if◌then◌else◌,
}

abbrev pub permitted_actions : List String
permitted_actions = "no-op" ∷ "create" ∷ "read" ∷ "update" ∷ []

abbrev pub destructive_action : String
destructive_action = "delete"

pub data Segment : Type 0 where
  key : String → Segment
  index : ℕ → Segment

-- The `change` of a resource change.
pub record Change : Type 0 where
  pub actions : Option (List String)
  pub replace_paths : Option (List (List Segment))

pub record PlanResourceChange : Type 0 where
  pub address : Option String
  pub action_reason : Option String
  pub change : Option Change

pub record TerraformPlan : Type 0 where
  pub errored : Option Bool
  pub resource_changes : Option (List PlanResourceChange)

pub data GateDecision : Type 0 where
  allowed refused_destructive : GateDecision

pub record GateObjection : Type 0 where
  pub address : String
  pub actions : List String
  pub action_reason : Option String
  pub replace_paths : Option (List String)

abbrev pub Counts : Type 0
Counts = List (String × ℕ)

pub record GateResult : Type 0 where
  pub decision : GateDecision
  pub rule : Option String
  pub action_counts : Counts
  pub objections : List GateObjection
  pub summary : String

pub record GateOptions : Type 0 where
  pub allow_destroy_of : Option String

abbrev pub counted_actions : List String
counted_actions = "no-op" ∷ "create" ∷ "read" ∷ "update" ∷ "delete" ∷ "replace" ∷ []

-- `counts[action] = (counts[action] ?? 0) + 1`.
unfoldable pub incremented : String → Counts → Counts
incremented action [] = (action, 1) ∷ []
incremented action ((a, n) ∷ counts) =
    let rest = incremented action counts in
    if str_eq a action then (a, n + 1) ∷ counts else (a, n) ∷ rest

abbrev pub actions_of : PlanResourceChange → List String
actions_of change = elim change.change [ none ↦ [] | some c ↦ nullish c.actions [] ]

unfoldable pub count_each : List String → Counts → Counts
unfolding incremented
count_each [] counts = counts
count_each (action ∷ actions) counts = count_each actions (incremented action counts)

abbrev pub is_replacement : List String → Bool
is_replacement actions = contains actions "delete" && contains actions "create"

unfoldable pub count_from : List PlanResourceChange → Counts → Counts
unfolding count_each
count_from [] counts = counts
count_from (change ∷ changes) counts = count_from changes (
    count_each (actions_of change)
      (if is_replacement (actions_of change) then incremented "replace" counts else counts))

unfoldable pub count_actions : List PlanResourceChange → Counts
unfolding count_from
count_actions changes = count_from changes (map (λ action. (action, 0)) counted_actions)

abbrev pub segment_text : Segment → String
segment_text (key s) = s
segment_text (index n) = decimal n

unfoldable pub render_path : List Segment → String
render_path path = join "." (map segment_text path)

abbrev pub address_of : PlanResourceChange → String
address_of change = nullish change.address "unknown"

abbrev pub is_unrecognised : String → Bool
is_unrecognised action =
    not (contains permitted_actions action) && not (str_eq action destructive_action)

abbrev pub rendered_paths : PlanResourceChange → Option (List String)
rendered_paths change = elim change.change [
  | none ↦ none
  | some c ↦ elim c.replace_paths [ none ↦ none | some paths ↦ some (map render_path paths) ]
]

-- The purge path's one address.
abbrev pub is_named : GateOptions → String → Bool
is_named options address = elim options.allow_destroy_of [
  | none ↦ false
  | some named ↦ str_eq address named
]

-- What a round of the loop proposes as the rule, and pushes; none where it continues without.
pub record Refusal : Type 0 where
  pub rule : String
  pub objection : GateObjection

unfoldable pub refusal : GateOptions → PlanResourceChange → Option Refusal
unfolding contains render_path
refusal options change =
    if any is_unrecognised (actions_of change)
    then some record {
      rule = "unrecognised_action";
      objection = record {
        address = address_of change;
        actions = actions_of change;
        action_reason = none;
        replace_paths = none;
      };
    }
    else if not (contains (actions_of change) destructive_action)
    then none
    else if is_named options (address_of change)
    then none
    else some record {
      rule = nullish change.action_reason "delete_not_permitted";
      objection = record {
        address = address_of change;
        actions = actions_of change;
        action_reason = truthy change.action_reason;
        replace_paths = rendered_paths change;
      };
    }

pub record Review : Type 0 where
  pub rule : Option String
  pub objections : List GateObjection

-- `rule ??= …; objections.push(…)`.
abbrev pub noted : Review → Option Refusal → Review
noted review none = review
noted review (some r) = record {
  rule = some (nullish review.rule r.rule);
  objections = review.objections ++ r.objection ∷ [];
}

unfoldable pub review_from : GateOptions → List PlanResourceChange → Review → Review
unfolding refusal
review_from options [] review = review
review_from options (change ∷ changes) review =
    review_from options changes (noted review (refusal options change))

-- `action=count` of each action that is counted.
unfoldable pub described : Counts → List String
described [] = []
described ((action, n) ∷ counts) =
    let rest = described counts in if ltb 0 n then (action <> "=" <> decimal n) ∷ rest else rest

abbrev pub allowed_summary : List PlanResourceChange → Counts → String
allowed_summary [] counts = "No changes."
allowed_summary (_ ∷ _) counts =
    let text = join " " (described counts) in
    "Allowed: " <> (if str_eq text "" then "no-op" else text) <> "."

abbrev pub reason_text : Option String → String
reason_text none = ""
reason_text (some reason) = " (" <> reason <> ")"

abbrev pub paths_text : Option (List String) → String
paths_text none = ""
paths_text (some []) = ""
paths_text (some (path ∷ paths)) = " forced by " <> join ", " (path ∷ paths)

abbrev pub detail_of : GateObjection → String
detail_of o =
    o.address
    <> ": "
    <> join "+" o.actions
    <> reason_text o.action_reason
    <> paths_text o.replace_paths

abbrev pub refused_unread : String → String → GateResult
refused_unread rule summary = record {
  decision = GateDecision.refused_destructive;
  rule = some rule;
  action_counts = [];
  objections = [];
  summary = summary;
}

-- The decision after the loop.
abbrev pub decided : List PlanResourceChange → Review → GateResult
decided changes review = elim review.objections [
  | [] ↦ record {
    decision = GateDecision.allowed;
    rule = none;
    action_counts = count_actions changes;
    objections = [];
    summary = allowed_summary changes (count_actions changes);
  }
  | o ∷ os ↦ record {
    decision = GateDecision.refused_destructive;
    rule = truthy review.rule;
    action_counts = count_actions changes;
    objections = o ∷ os;
    summary =
        "Refused, this plan would destroy a provider resource. "
        <> join "; " (map detail_of (o ∷ os));
  }
]

abbrev pub changes_of : TerraformPlan → List PlanResourceChange
changes_of plan = nullish plan.resource_changes []

unfoldable pub evaluate_plan : Option TerraformPlan → GateOptions → GateResult
unfolding review_from count_actions described
evaluate_plan none options =
    refused_unread "unparseable_plan"
      "The plan could not be read. Refusing, because a gate that guesses is not a gate."
evaluate_plan (some plan) options =
    if nullish plan.errored false
    then refused_unread "errored_plan"
        "Terraform marked this plan as errored. Nothing is applied from an errored plan."
    else decided (changes_of plan)
        (review_from options (changes_of plan) (record { rule = none; objections = [] }))

abbrev pub is_tainted : GateObjection → Bool
is_tainted o = elim o.action_reason [
  | none ↦ false
  | some reason ↦ str_eq reason "replace_because_tainted"
]

abbrev pub is_refused : GateDecision → Bool
is_refused GateDecision.allowed = false
is_refused GateDecision.refused_destructive = true

abbrev pub is_nonempty {ℓ} : {A : Type ℓ} → List A → Bool
is_nonempty [] = false
is_nonempty (_ ∷ _) = true

unfoldable pub is_recoverable_by_untaint : GateResult → Bool
is_recoverable_by_untaint result =
    is_refused result.decision && is_nonempty result.objections && all is_tainted result.objections
