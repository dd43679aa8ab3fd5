-- ===== src/Workflow/Engine.antt =====
-- packages/application/src/lifecycle-workflow.ts, `LifecycleWorkflow`: what every capability shares.
-- A step ends with one call of the store, which is its value. Spans and counters are left out.
unfoldable pub use private_cloud_control_pl.Workflow.Values.{
  provider_failure_category, failure_value, includes, is_owned, observed_resources,
}
pub use private_cloud_control_pl.Workflow.Values.{
  default_lease_seconds, task_poll_delay_ms, maximum_retry_attempts, retry_budget_ms,
  retry_backoff_base_ms, retry_backoff_ceiling_ms, Sample, sample_scale, Env, Traits, or_default,
  category_of, code_of, safe_message_of, retry_after_of, is_present, or_else, permanent, code_name,
  provider_code, is_protocol_error, compensation_of, ProgressOptions, no_options, reference_text,
  kept_resource, stage_invalid, for_review, observed_at_or, fraction, invalid,
}
use private_cloud_control_pl.Prelude.{String, str_eq, false, Option, none, some, if◌then◌else◌}
use private_cloud_control_pl.Contracts.Events.{
  Failure, EventEnvelope, OperationState, EventData, LifecycleState, ObservedState,
}
use private_cloud_control_pl.Contracts.Provider.{
  ProviderCallContext, OwnershipMarkers, InstanceRequest, TransportErrorCode,
}
use private_cloud_control_pl.Workflow.Stage.{WorkflowStage}
use private_cloud_control_pl.Workflow.Step.{
  Claimed, CompletionStatus, StoreCall, Raised, Step, pure, throw,
}

module _ {ℓ} {A : Type ℓ} (t : Traits A) (env : Env) where
  abbrev pub envelope : Claimed A → EventEnvelope
  envelope wf =
      let c = wf.command.envelope in
      record {
        event_id = env.event_id;
        aggregate_id = c.aggregate_id;
        project_id = c.project_id;
        operation_id = c.operation_id;
        correlation_id = c.correlation_id;
        causation_id = c.event_id;
        occurred_at = env.wall;
        trace_context = env.current_trace_context wf.trace_context;
        partition_key = c.partition_key;
      }

  unfoldable pub context : Claimed A → String → ProviderCallContext
  context wf step =
      let c = wf.command.envelope in
      record {
        request_id = (c.operation_id, step);
        operation_id = c.operation_id;
        correlation_id = c.correlation_id;
        project_id = c.project_id;
        instance_id = c.aggregate_id;
        provider_profile_id = t.provider_profile_id wf;
        attempt = 1;
        fencing_token = wf.fencing_token;
      }

  unfoldable pub ownership : Claimed A → OwnershipMarkers
  ownership wf = record {
    managed_by = "private-cloud-control-plane";
    environment = "lab";
    project_id = wf.command.envelope.project_id;
    instance_id = wf.command.envelope.aggregate_id;
    create_operation_id = t.create_operation_id wf;
  }

  abbrev pub instance_request : Claimed A → String → String → InstanceRequest
  instance_request wf step resource = record {
    context = context wf step;
    provider_resource_id = resource;
    expected_ownership_markers = ownership wf;
  }

  unfoldable pub required_resource : Claimed A → Step String
  required_resource wf = elim wf.provider_resource_id [
    | none ↦
        throw (
          Raised.transport (record { code = TransportErrorCode.protocol_error; retryable = false }))
    | some resource ↦
        if str_eq resource ""
        then throw (
            Raised.transport
              (record { code = TransportErrorCode.protocol_error; retryable = false }))
        else pure resource
  ]

  unfoldable pub progress : Claimed A → WorkflowStage → ProgressOptions → StoreCall
  progress wf stage options = StoreCall.checkpoint (record {
    operation_id = wf.command.envelope.operation_id;
    worker_id = env.worker_id;
    fencing_token = wf.fencing_token;
    stage = stage;
    provider_resource_id = kept_resource options.provider_resource_id wf.provider_resource_id;
    provider_task_reference = options.provider_task_reference;
    next_attempt_at = options.next_attempt_at;
    retry = options.retry;
    event = record {
      envelope = envelope wf;
      payload = EventData.progressed (record {
        stage = stage;
        attempt = wf.attempt;
        operation_state = or_default options.operation_state OperationState.running;
        provider_task_reference = reference_text options.provider_task_reference;
        next_action_at = options.next_attempt_at;
      });
    };
  })

  unfoldable pub finish_failure : Claimed A → Failure → CompletionStatus → StoreCall
  finish_failure wf failure status = StoreCall.complete (record {
    operation_id = wf.command.envelope.operation_id;
    worker_id = env.worker_id;
    fencing_token = wf.fencing_token;
    status = status;
    event = record {
      envelope = envelope wf;
      payload = EventData.failed (record {
        action = t.action;
        failure = failure;
        compensation_state = compensation_of status;
      });
    };
  })

  unfoldable pub fail : Claimed A → Failure → StoreCall
  unfolding finish_failure
  fail wf failure = finish_failure wf failure CompletionStatus.failed

  unfoldable pub manual_review : Claimed A → Failure → StoreCall
  unfolding finish_failure
  manual_review wf failure = finish_failure wf failure CompletionStatus.manual_review

  -- The arguments of `store.complete` after a success.
  unfoldable pub succeed : Claimed A → LifecycleState → String → Option ObservedState → StoreCall
  succeed wf lifecycle_state resource observed = StoreCall.complete (record {
    operation_id = wf.command.envelope.operation_id;
    worker_id = env.worker_id;
    fencing_token = wf.fencing_token;
    status = CompletionStatus.succeeded;
    event = record {
      envelope = envelope wf;
      payload = EventData.completed (record {
        action = t.action;
        lifecycle_state = lifecycle_state;
        provider_resource_id = resource;
        evidence_id = env.evidence_id;
        observed = observed;
      });
    };
  })
