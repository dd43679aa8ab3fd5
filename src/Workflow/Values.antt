-- ===== src/Workflow/Values.antt =====
-- packages/application/src/lifecycle-workflow.ts: constants, what a step reads from outside, and the
-- values that failures and progress are made of.
use private_cloud_control_pl.Prelude.{
  ℕ, String, str_eq, Bool, true, false, not, ◌&&◌, Option, none, some, List, any, if◌then◌else◌,
}
use private_cloud_control_pl.Contracts.Events.{
  FailureCategory, Failure, OperationState, CompensationState, ObservedResources,
}
use private_cloud_control_pl.Contracts.Provider.{
  ProviderFailureCategory, ProviderFailure, TransportErrorCode, ObservedOwnership,
  InstanceResources,
}
use private_cloud_control_pl.Workflow.Stage.{WorkflowStage, WorkflowAction, stage_eq}
use private_cloud_control_pl.Workflow.Step.{Claimed, Retry, TaskReference, CompletionStatus}

abbrev pub default_lease_seconds : ℕ
default_lease_seconds = 30

abbrev pub task_poll_delay_ms : ℕ
task_poll_delay_ms = 500

abbrev pub maximum_retry_attempts : ℕ
maximum_retry_attempts = 8

abbrev pub retry_budget_ms : ℕ
retry_budget_ms = 900000

abbrev pub retry_backoff_base_ms : ℕ
retry_backoff_base_ms = 500

abbrev pub retry_backoff_ceiling_ms : ℕ
retry_backoff_ceiling_ms = 30000

-- What the random source returned: a multiple of 2^-53, as `Math.random` gives, or another value,
-- which is refused as one outside [0, 1).
pub data Sample : Type 0 where
  fraction : ℕ → Sample
  invalid : Sample

abbrev pub sample_scale : ℕ
sample_scale = 9007199254740992

-- What a step reads from outside: `Date.now()`, `recovery.now()`, the random source, two fresh
-- UUIDs, the span that is current, and the worker's name. The wall clock is read once.
pub record Env : Type 0 where
  pub worker_id : String
  pub wall : ℕ
  pub now : ℕ
  pub random : Sample
  pub event_id : ℕ
  pub evidence_id : ℕ
  pub current_trace_context : ℕ → ℕ

-- The members that a capability overrides, but for `execute`.
pub record Traits {ℓ} (A : Type ℓ) : Type ℓ where
  pub action : WorkflowAction
  pub mutation_stages : List WorkflowStage
  pub provider_profile_id : Claimed A → String
  pub create_operation_id : Claimed A → ℕ

unfoldable pub provider_failure_category : Option ProviderFailureCategory → FailureCategory
provider_failure_category (some ProviderFailureCategory.validation) = FailureCategory.validation
provider_failure_category (some ProviderFailureCategory.quota) = FailureCategory.validation
provider_failure_category (some ProviderFailureCategory.authentication) =
    FailureCategory.authorization
provider_failure_category (some ProviderFailureCategory.authorization) =
    FailureCategory.authorization
provider_failure_category (some ProviderFailureCategory.conflict) = FailureCategory.conflict
provider_failure_category (some ProviderFailureCategory.transient) = FailureCategory.transient
provider_failure_category (some ProviderFailureCategory.unknown_outcome) =
    FailureCategory.unknown_outcome
provider_failure_category (some ProviderFailureCategory.compensation_failure) =
    FailureCategory.compensation_failure
provider_failure_category (some ProviderFailureCategory.manual_review) =
    FailureCategory.manual_review
provider_failure_category _ = FailureCategory.permanent

abbrev pub or_default {ℓ} : {A : Type ℓ} → Option A → A → A
or_default none d = d
or_default (some a) d = a

abbrev pub category_of : Option ProviderFailure → Option ProviderFailureCategory
category_of none = none
category_of (some f) = some f.category

abbrev pub code_of : Option ProviderFailure → Option String
code_of none = none
code_of (some f) = f.code

abbrev pub safe_message_of : Option ProviderFailure → Option String
safe_message_of none = none
safe_message_of (some f) = f.safe_message

abbrev pub retry_after_of : Option ProviderFailure → Option ℕ
retry_after_of none = none
retry_after_of (some f) = f.retry_after_milliseconds

unfoldable pub failure_value : Option ProviderFailure → String → Failure
unfolding provider_failure_category
failure_value failure default_code = record {
  category = provider_failure_category (category_of failure);
  code = or_default (code_of failure) default_code;
  safe_message = or_default (safe_message_of failure) "The provider operation failed.";
  retry_after_milliseconds = retry_after_of failure;
}

-- `!text` for an optional text: the empty text is false too.
abbrev pub is_present : Option String → Bool
is_present none = false
is_present (some s) = not (str_eq s "")

-- `a ?? b`.
abbrev pub or_else : Option String → Option String → Option String
or_else none b = b
or_else (some a) b = some a

abbrev pub permanent : String → String → Failure
permanent code message = record {
  category = FailureCategory.permanent;
  code = code;
  safe_message = message;
  retry_after_milliseconds = none;
}

-- `error.code`, and `PROVIDER_${error.code.toUpperCase()}`.
abbrev pub code_name : TransportErrorCode → String
code_name TransportErrorCode.aborted = "aborted"
code_name TransportErrorCode.deadline_exceeded = "deadline_exceeded"
code_name TransportErrorCode.protocol_error = "protocol_error"
code_name TransportErrorCode.unavailable = "unavailable"

abbrev pub provider_code : TransportErrorCode → String
provider_code TransportErrorCode.aborted = "PROVIDER_ABORTED"
provider_code TransportErrorCode.deadline_exceeded = "PROVIDER_DEADLINE_EXCEEDED"
provider_code TransportErrorCode.protocol_error = "PROVIDER_PROTOCOL_ERROR"
provider_code TransportErrorCode.unavailable = "PROVIDER_UNAVAILABLE"

abbrev pub is_protocol_error : TransportErrorCode → Bool
is_protocol_error TransportErrorCode.protocol_error = true
is_protocol_error _ = false

-- `stages.includes(stage)`.
unfoldable pub includes : List WorkflowStage → WorkflowStage → Bool
unfolding stage_eq
includes stages stage = any (stage_eq stage) stages

abbrev pub compensation_of : CompletionStatus → CompensationState
compensation_of CompletionStatus.manual_review = CompensationState.unsafe
compensation_of _ = CompensationState.not_required

-- The optional arguments of `progress`.
pub record ProgressOptions : Type 0 where
  pub provider_resource_id : Option String
  pub provider_task_reference : TaskReference
  pub next_attempt_at : Option ℕ
  pub operation_state : Option OperationState
  pub retry : Option Retry

abbrev pub no_options : ProgressOptions
no_options = record {
  provider_resource_id = none;
  provider_task_reference = TaskReference.unchanged;
  next_attempt_at = none;
  operation_state = none;
  retry = none;
}

-- `typeof options.providerTaskReference === 'string'`.
abbrev pub reference_text : TaskReference → Option String
reference_text TaskReference.unchanged = none
reference_text (TaskReference.replaced r) = r

-- `options.providerResourceId ? … : workflow.providerResourceId ? … : {}`.
abbrev pub kept_resource : Option String → Option String → Option String
kept_resource chosen current =
    if is_present chosen then chosen else if is_present current then current else none

-- The `default` branch of every `execute`.
abbrev pub stage_invalid : Failure
stage_invalid =
    permanent "WORKFLOW_STAGE_INVALID"
      "The persisted workflow stage is not supported by this capability."

-- A failure that sends the workflow to an operator.
abbrev pub for_review : String → String → Failure
for_review code message = record {
  category = FailureCategory.manual_review;
  code = code;
  safe_message = message;
  retry_after_milliseconds = none;
}

-- `!ownership?.complete || !ownership.match` is false.
unfoldable pub is_owned : Option ObservedOwnership → Bool
is_owned none = false
is_owned (some o) = o.complete && o.matches

-- `observation.observedAt ?? new Date().toISOString()`.
abbrev pub observed_at_or : Option ℕ → ℕ → ℕ
observed_at_or none wall = wall
observed_at_or (some at) wall = at

-- `resources && resources.cpuCount !== undefined ? { resources } : {}`.
unfoldable pub observed_resources : Option InstanceResources → Option ObservedResources
observed_resources none = none
observed_resources (some r) = elim r.cpu_count [
  | none ↦ none
  | some n ↦ some (record { cpu_count = n; memory_mib = r.memory_mib; disk_gib = r.disk_gib })
]
