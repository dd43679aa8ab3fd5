-- ===== src/Workflow/Recovery.antt =====
-- packages/application/src/lifecycle-workflow.ts, `LifecycleWorkflow`: transport failures, the
-- bounded retry policy, and one turn of a worker on a claimed workflow.
pub mod Stays
pub mod Policy
use private_cloud_control_pl.Prelude.{
  ℕ, ◌+◌, ◌-◌, ◌*◌, ◌/◌, ◌^◌, min, String, Bool, true, false, not, ◌&&◌, ◌||◌, Option, none, some,
  List, [], ltb, leb, ◌==◌, if◌then◌else◌,
}
use private_cloud_control_pl.Contracts.Events.{
  FailureCategory, OperationState, CompensationState, EventData, Failure,
}
use private_cloud_control_pl.Contracts.Provider.{
  ProviderCall, TransportErrorCode, ProviderTransportError, Provider,
}
use private_cloud_control_pl.Workflow.Stage.{action_eq}
use private_cloud_control_pl.Workflow.Step.{
  Claimed, CompletionStatus, StoreCall, Raised, Result, Step, ok, raise, transport, bug,
}
use private_cloud_control_pl.Workflow.Engine.{
  maximum_retry_attempts, retry_budget_ms, retry_backoff_base_ms, retry_backoff_ceiling_ms, Sample,
  fraction, invalid, sample_scale, Env, Traits, permanent, code_name, provider_code,
  is_protocol_error, includes, no_options, envelope, progress, fail, manual_review,
}

abbrev pub started_or : Option ℕ → ℕ → ℕ
started_or none now = now
started_or (some started) now = started

-- `Math.min(CEILING, BASE * 2 ** (stageAttempt - 1))`.
unfoldable pub exponential_ceiling : ℕ → ℕ
exponential_ceiling stage_attempt =
    min retry_backoff_ceiling_ms (retry_backoff_base_ms * 2 ^ (stage_attempt - 1))

-- `Math.floor(random * exponentialCeiling)`; `none` where the random source is refused.
unfoldable pub jitter : Sample → ℕ → Option ℕ
jitter (fraction k) ceiling = if ltb k sample_scale then some (k * ceiling / sample_scale) else none
jitter invalid ceiling = none

abbrev pub retry_exhausted : Failure
retry_exhausted = record {
  category = FailureCategory.transient;
  code = "WORKFLOW_RETRY_EXHAUSTED";
  safe_message = "The provider remained unavailable until the workflow retry policy expired.";
  retry_after_milliseconds = none;
}

abbrev pub unknown_outcome : ProviderTransportError → Failure
unknown_outcome error = record {
  category = FailureCategory.unknown_outcome;
  code = provider_code error.code;
  safe_message = "The mutation transport failed and its provider outcome is unknown.";
  retry_after_milliseconds = none;
}

module _ {ℓ} {A : Type ℓ} (env : Env) where
  -- `retryStartedAt`, `remainingBudgetMs` and the test that ends the retries. The budget that
  -- remains is at most 0 exactly when the truncated difference is 0.
  abbrev pub retry_started : Claimed A → ℕ
  retry_started wf = started_or wf.retry_started_at env.now

  abbrev pub remaining_budget_ms : Claimed A → ℕ
  remaining_budget_ms wf = retry_started wf + retry_budget_ms - env.now

  abbrev pub is_exhausted : Claimed A → Bool
  is_exhausted wf = leb maximum_retry_attempts (wf.stage_attempt + 1) || remaining_budget_ms wf == 0

module _ {ℓ} {A : Type ℓ} (t : Traits A) (env : Env) where
  unfoldable pub dead_letter : Claimed A → ProviderTransportError → ℕ → StoreCall
  dead_letter wf error stage_attempt = StoreCall.dead_letter_workflow (record {
    operation_id = wf.command.envelope.operation_id;
    worker_id = env.worker_id;
    fencing_token = wf.fencing_token;
    attempts = stage_attempt;
    failure_code = "WORKFLOW_RETRY_EXHAUSTED";
    safe_message = "The provider remained unavailable until the workflow retry policy expired.";
    last_error_category = "provider_transport";
    last_error_code = code_name error.code;
    event = record {
      envelope = envelope t env wf;
      payload = EventData.failed (record {
        action = t.action;
        failure = retry_exhausted;
        compensation_state = CompensationState.not_required;
      });
    };
  })

  -- The retry that is left: parked at its stage until a jittered moment.
  unfoldable pub backoff : Claimed A → ProviderTransportError → ℕ → ℕ → ℕ → ℕ → StoreCall
  backoff wf error stage_attempt started remaining jittered =
      progress t env wf wf.stage (record no_options {
        next_attempt_at = some (env.now + min jittered remaining);
        operation_state = some OperationState.retry_wait;
        retry = some (record {
          attempt = stage_attempt;
          started_at = started;
          error_category = "provider_transport";
          error_code = code_name error.code;
        });
      })

  unfoldable pub retry_or_refuse :
      Claimed A → ProviderTransportError → ℕ → ℕ → ℕ → Option ℕ → Result StoreCall
  unfolding backoff
  retry_or_refuse wf error stage_attempt started remaining none =
      raise (bug "Workflow retry random source must return a value in [0, 1).")
  retry_or_refuse wf error stage_attempt started remaining (some jittered) =
      ok (backoff wf error stage_attempt started remaining jittered)

  unfoldable pub retry_or_dead_letter : Claimed A → ProviderTransportError → Result StoreCall
  unfolding dead_letter retry_or_refuse
  retry_or_dead_letter wf error =
      if is_exhausted env wf
      then ok (dead_letter wf error (wf.stage_attempt + 1))
      else retry_or_refuse wf error (wf.stage_attempt + 1) (retry_started env wf)
          (remaining_budget_ms env wf)
          (jitter env.random (exponential_ceiling (wf.stage_attempt + 1)))

  -- A mutation whose transport failed without a protocol error: its outcome is unknown.
  abbrev pub is_unknown : Claimed A → ProviderTransportError → Bool
  is_unknown wf error = includes t.mutation_stages wf.stage && not (is_protocol_error error.code)

  unfoldable pub handle_provider_error : Claimed A → ProviderTransportError → Result StoreCall
  unfolding retry_or_dead_letter
  handle_provider_error wf error =
      if is_unknown wf error
      then ok (manual_review t env wf (unknown_outcome error))
      else if error.retryable
      then retry_or_dead_letter wf error
      else ok (
          fail t env wf
            (permanent "PROVIDER_PROTOCOL_ERROR" "The create workflow could not continue safely."))

  -- The `catch` of `runOne`: a transport error is classified, any other is thrown on.
  unfoldable pub recover : Claimed A → Result StoreCall → Result StoreCall
  unfolding handle_provider_error
  recover wf (ok call) = ok call
  recover wf (raise (transport error)) = handle_provider_error wf error
  recover wf (raise (bug message)) = raise (bug message)

-- A concrete subclass: its traits and its `execute`.
pub record Capability {ℓ} (A : Type ℓ) : Type ℓ where
  pub traits : Traits A
  pub execute : Env → Provider → Claimed A → Step StoreCall

-- `runOne` after the claim: the check of the action, the stage, and the `catch`.
unfoldable pub run_claimed {ℓ} :
    {A : Type ℓ} → Capability A → Env → Provider → Claimed A → Step StoreCall
unfolding recover
run_claimed c env provider wf =
    let (calls, result) = c.execute env provider wf in
    if action_eq wf.action c.traits.action
    then (calls, recover c.traits env wf result)
    else ([], raise (bug "Workflow has another action."))
