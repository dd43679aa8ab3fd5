-- ===== src/Workflow/Tests.antt =====
-- Concrete claims and providers, on which the theorems about a turn of a worker are applied.
use private_cloud_control_pl.Prelude.{◌≡◌, ◌<◌, ◌⊎◌, ◌↔◌, refl, true, none, some, []}
use private_cloud_control_pl.Contracts.Events.{
  EventEnvelope, PowerAction, PowerRequested, PurgeRequested, LifecycleState, PowerState, EventData,
  OperationState,
}
use private_cloud_control_pl.Contracts.Provider.{
  ProviderTransportError, TransportErrorCode, InstanceObservation, ObservedPowerState, Provider,
  Answer, Mutation,
}
use private_cloud_control_pl.Workflow.Stage.{
  WorkflowStage, WorkflowAction, PersistedStage, stage_eq, stage_name, action_eq,
  stage_progress_percent, to_workflow_stage,
}
use private_cloud_control_pl.Workflow.Step.{Claimed, TaskReference, Checkpoint, StoreCall, ok}
use private_cloud_control_pl.Workflow.Engine.{
  Env, fraction, manual_review, includes, context, ownership, instance_request, required_resource,
  progress, no_options, succeed, is_owned,
}
use private_cloud_control_pl.Workflow.Recovery.{
  run_claimed, recover, handle_provider_error, unknown_outcome, retry_or_dead_letter,
  retry_or_refuse, jitter, exponential_ceiling, backoff,
}
use private_cloud_control_pl.Workflow.Recovery.Policy.{IsBounded, retry_or_dead_letter-IsBounded}
use private_cloud_control_pl.Workflow.Power.{
  power_traits, power_capability, execute_power, submit_power, observe_power, observed_power,
  expected_power_state, power_mutation,
}
use private_cloud_control_pl.Workflow.Purge.{
  purge_traits, purge_capability, execute_purge, verify_ownership, verified_ownership,
}
use private_cloud_control_pl.Workflow.Executors.{Executor, executor, executor_action}
use private_cloud_control_pl.Workflow.Transitions.{IsAllowed}
use private_cloud_control_pl.Workflow.Transitions.Turn.{
  run_claimed-IsAllowed, run_claimed-stage_progress,
}
use private_cloud_control_pl.Workflow.Evidence.{Evidence, Observed, Owned}
use private_cloud_control_pl.Workflow.Evidence.Turn.{
  run_claimed-Evidence, run_claimed-IsPurgeSubmission,
}
use private_cloud_control_pl.Workflow.Address.{IsAddressed}
use private_cloud_control_pl.Workflow.Address.Turn.{run_claimed-IsAddressed}
use private_cloud_control_pl.Workflow.Discipline.{CallsWithin}
use private_cloud_control_pl.Workflow.Discipline.Turn.{run_claimed-CallsWithin, run_claimed_lost}
use private_cloud_control_pl.Workflow.Stage.Spelling.{to_workflow_stage_iff}

abbrev envelope_7 : EventEnvelope
envelope_7 = record {
  event_id = 70;
  aggregate_id = 7;
  project_id = 1;
  operation_id = 700;
  correlation_id = 71;
  causation_id = 72;
  occurred_at = 1000;
  trace_context = 5;
  partition_key = "7";
}

abbrev pub env_now : Env
env_now = record {
  worker_id = "worker-a";
  wall = 2000;
  now = 2000;
  random = fraction 4503599627370496;
  event_id = 900;
  evidence_id = 901;
  current_trace_context = λ t. t;
}

abbrev unavailable_error : ProviderTransportError
unavailable_error = record { code = TransportErrorCode.unavailable; retryable = true }

abbrev owned_vm : InstanceObservation
owned_vm = record {
  exists = true;
  power_state = ObservedPowerState.running;
  resources = none;
  ownership = some (record { complete = true; matches = true });
  observed_at = some 1999;
}

-- Every mutation is lost; every instance is there, owned and running.
abbrev pub lossy : Provider
lossy = record {
  mutate = λ m. Answer.failed unavailable_error;
  get_task = λ c r. Answer.failed unavailable_error;
  observe_instance = λ r. Answer.answered (some owned_vm);
  list_snapshots = λ r. Answer.answered [];
}

abbrev pub start_at : WorkflowStage → Claimed PowerRequested
start_at s = record {
  action = WorkflowAction.power_instance;
  command = record {
    envelope = envelope_7;
    payload = record {
      action = PowerAction.start;
      provider_profile_id = "profile-1";
      create_operation_id = 600;
    };
  };
  trace_context = 5;
  stage = s;
  attempt = 1;
  stage_attempt = 0;
  retry_started_at = none;
  fencing_token = 3;
  provider_resource_id = some "vm-7";
  provider_task_reference = some "task-7";
}

abbrev purge_at : WorkflowStage → Claimed PurgeRequested
purge_at s = record {
  action = WorkflowAction.purge_instance;
  command = record {
    envelope = envelope_7;
    payload = record {
      purge_authorization_id = 44;
      retention_deadline = 1500;
      reason_reference = "ticket-9";
      provider_profile_id = "profile-1";
      create_operation_id = 600;
    };
  };
  trace_context = 5;
  stage = s;
  attempt = 1;
  stage_attempt = 0;
  retry_started_at = none;
  fencing_token = 3;
  provider_resource_id = some "vm-7";
  provider_task_reference = none;
}

run_claimed_lost_example :
    (run_claimed
      (executor Executor.power)
      env_now
      lossy
      (start_at WorkflowStage.submitting_power)).1
    ≡ ok (
        manual_review power_traits env_now
          (start_at WorkflowStage.submitting_power)
          (unknown_outcome unavailable_error))
unfolding executor power_capability run_claimed recover handle_provider_error execute_power
    submit_power includes power_traits required_resource context ownership stage_eq action_eq
    power_mutation
run_claimed_lost_example =
    run_claimed_lost Executor.power env_now lossy (start_at WorkflowStage.submitting_power)
      (Mutation.start_instance (
        instance_request power_traits env_now (start_at WorkflowStage.submitting_power)
          "power-start" "vm-7"))
      unavailable_error refl refl (λ e. cc)

-- What a successful observation of the start asks the store to write.
abbrev pub started : StoreCall
started =
    succeed power_traits env_now (start_at WorkflowStage.observing_power) LifecycleState.active
      "vm-7"
      (some (record {
        exists = true;
        power_state = PowerState.running;
        resources = none;
        marker_match = true;
        observed_at = 1999;
      }))

abbrev pub StartReturned : Type 0
StartReturned =
    (run_claimed (executor Executor.power) env_now lossy (start_at WorkflowStage.observing_power)).1
    ≡ ok started

pub start_succeeds : StartReturned
unfolding executor power_capability run_claimed recover execute_power observe_power observed_power
    power_traits required_resource context ownership action_eq is_owned expected_power_state succeed
start_succeeds = refl

run_claimed-Evidence_example :
    Evidence env_now lossy Executor.power (start_at WorkflowStage.observing_power)
unfolding succeed
run_claimed-Evidence_example =
    run_claimed-Evidence Executor.power env_now lossy (start_at WorkflowStage.observing_power)
      started start_succeeds refl

run_claimed-IsAllowed_example :
    IsAllowed (executor_action Executor.power) WorkflowStage.observing_power started
run_claimed-IsAllowed_example =
    run_claimed-IsAllowed Executor.power env_now lossy (start_at WorkflowStage.observing_power)
      started start_succeeds

run_claimed-CallsWithin_example :
    CallsWithin
      (executor Executor.power).traits.mutation_stages
      WorkflowStage.submitting_power
      (run_claimed
        (executor Executor.power)
        env_now
        lossy
        (start_at WorkflowStage.submitting_power)).0
run_claimed-CallsWithin_example =
    run_claimed-CallsWithin Executor.power env_now lossy (start_at WorkflowStage.submitting_power)

-- The checkpoint that admits the purge of an owned instance.
abbrev admits_purge : StoreCall
admits_purge =
    progress purge_traits env_now (purge_at WorkflowStage.verifying_purge)
      WorkflowStage.submitting_purge no_options

purge_admitted :
    (run_claimed purge_capability env_now lossy (purge_at WorkflowStage.verifying_purge)).1
    ≡ ok admits_purge
unfolding executor purge_capability run_claimed recover execute_purge verify_ownership
    verified_ownership purge_traits required_resource context ownership action_eq is_owned
purge_admitted = refl

run_claimed-IsPurgeSubmission_example :
    ((purge_at WorkflowStage.verifying_purge).stage ≡ WorkflowStage.verifying_purge)
    × Observed purge_traits env_now lossy
        (purge_at WorkflowStage.verifying_purge)
        (Owned (λ o. Unit))
unfolding progress
run_claimed-IsPurgeSubmission_example =
    run_claimed-IsPurgeSubmission env_now lossy (purge_at WorkflowStage.verifying_purge)
      admits_purge (λ e. cc) purge_admitted refl

abbrev purge_checkpoint : Checkpoint
purge_checkpoint = record {
  operation_id = 700;
  worker_id = "worker-a";
  fencing_token = 3;
  stage = WorkflowStage.submitting_purge;
  provider_resource_id = some "vm-7";
  provider_task_reference = TaskReference.unchanged;
  next_attempt_at = none;
  retry = none;
  event = record {
    envelope = record {
      event_id = 900;
      aggregate_id = 7;
      project_id = 1;
      operation_id = 700;
      correlation_id = 71;
      causation_id = 70;
      occurred_at = 2000;
      trace_context = 5;
      partition_key = "7";
    };
    payload = EventData.progressed (record {
      stage = WorkflowStage.submitting_purge;
      attempt = 1;
      operation_state = OperationState.running;
      provider_task_reference = none;
      next_action_at = none;
    });
  };
}

run_claimed-stage_progress_example :
    (WorkflowStage.submitting_purge ≡ WorkflowStage.verifying_purge)
    ⊎ (stage_progress_percent (PersistedStage.active WorkflowStage.verifying_purge)
        < stage_progress_percent (PersistedStage.active WorkflowStage.submitting_purge))
unfolding progress executor
run_claimed-stage_progress_example =
    run_claimed-stage_progress Executor.purge env_now lossy (purge_at WorkflowStage.verifying_purge)
      purge_checkpoint purge_admitted

retry_or_dead_letter-IsBounded_example : IsBounded env_now (start_at WorkflowStage.polling_power) (
    backoff power_traits env_now
      (start_at WorkflowStage.polling_power)
      unavailable_error
      1
      2000
      900000
      250)
unfolding retry_or_dead_letter retry_or_refuse jitter exponential_ceiling
retry_or_dead_letter-IsBounded_example =
    retry_or_dead_letter-IsBounded power_traits env_now (start_at WorkflowStage.polling_power)
      unavailable_error
      (backoff power_traits env_now (start_at WorkflowStage.polling_power) unavailable_error 1 2000
        900000 250)
      refl

to_workflow_stage_iff_example :
    (to_workflow_stage "observing" ≡ some WorkflowStage.observing)
    ↔ (stage_name WorkflowStage.observing ≡ "observing")
to_workflow_stage_iff_example = to_workflow_stage_iff "observing" WorkflowStage.observing

run_claimed-IsAddressed_example :
    IsAddressed env_now (start_at WorkflowStage.observing_power) started
run_claimed-IsAddressed_example =
    run_claimed-IsAddressed Executor.power env_now lossy (start_at WorkflowStage.observing_power)
      started start_succeeds
