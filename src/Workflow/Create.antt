-- ===== src/Workflow/Create.antt =====
-- packages/application/src/lifecycle-workflow.ts, `CreateInstanceWorkflow`.
use private_cloud_control_pl.Prelude.{
  ℕ, String, Bool, true, false, ◌&&◌, Option, none, some, List, [], ◌∷◌, if◌then◌else◌,
}
use private_cloud_control_pl.Contracts.Events.{
  CreateRequested, LifecycleState, PowerState, ObservedState,
}
use private_cloud_control_pl.Contracts.Provider.{
  ObservedPowerState, InstanceObservation, NetworkConfiguration, Configuration, Mutation, Provider,
}
use private_cloud_control_pl.Workflow.Stage.{WorkflowStage, WorkflowAction}
use private_cloud_control_pl.Workflow.Step.{
  Claimed, StoreCall, Step, pure, mutate, observe_instance, ◌>>=◌,
}
use private_cloud_control_pl.Workflow.Engine.{
  Env, Traits, no_options, context, ownership, instance_request, required_resource, progress, fail,
  manual_review, succeed, permanent, for_review, is_owned, observed_at_or, observed_resources,
}
use private_cloud_control_pl.Workflow.Outcome.{handle_mutation_result, poll_task}
use private_cloud_control_pl.Workflow.Recovery.{Capability}

abbrev pub create_mutation_stages : List WorkflowStage
create_mutation_stages =
    WorkflowStage.submitting_create ∷ WorkflowStage.configuring ∷ WorkflowStage.starting ∷ []

unfoldable pub create_traits : Traits CreateRequested
create_traits = record {
  action = WorkflowAction.create_instance;
  mutation_stages = create_mutation_stages;
  provider_profile_id = λ wf. wf.command.payload.provider_profile_id;
  create_operation_id = λ wf. wf.command.envelope.operation_id;
}

-- `network`.
abbrev pub network : Claimed CreateRequested → NetworkConfiguration
network wf =
    let d = wf.command.payload in
    record {
      network_id = d.network_id;
      ipv4_address = d.ipv4.address;
      ipv4_prefix_length = d.ipv4.prefix_length;
      ipv4_gateway = d.ipv4.gateway;
      dns_servers = d.ipv4.dns_servers;
    }

-- The part of the requests of `submitCreate` and `configure` that they share.
abbrev pub configuration : Claimed CreateRequested → Configuration
configuration wf = record {
  hostname = wf.command.payload.hostname;
  resources = wf.command.payload.resources;
  network = network wf;
  ssh_public_keys = wf.command.payload.ssh_public_keys;
}

unfoldable pub observed_power_state : ObservedPowerState → PowerState
observed_power_state ObservedPowerState.running = PowerState.running
observed_power_state ObservedPowerState.stopped = PowerState.stopped
observed_power_state ObservedPowerState.suspended = PowerState.suspended
observed_power_state _ = PowerState.unknown

abbrev pub is_running : ObservedPowerState → Bool
is_running ObservedPowerState.running = true
is_running _ = false

abbrev pub ownership_matches : InstanceObservation → Bool
ownership_matches o = elim o.ownership [ none ↦ false | some w ↦ w.matches ]

unfoldable pub observed_state : InstanceObservation → ℕ → ObservedState
unfolding observed_power_state observed_resources
observed_state o wall = record {
  exists = o.exists;
  power_state = observed_power_state o.power_state;
  resources = observed_resources o.resources;
  marker_match = ownership_matches o;
  observed_at = observed_at_or o.observed_at wall;
}

-- The condition under which `observe` reports success.
unfoldable pub proves_running : Option InstanceObservation → Bool
unfolding is_owned
proves_running none = false
proves_running (some o) = o.exists && is_owned o.ownership && is_running o.power_state

module _ (env : Env) (wf : Claimed CreateRequested) where
  unfoldable pub observed_create : String → Option InstanceObservation → StoreCall
  unfolding proves_running
  observed_create resource none = manual_review create_traits env wf (
      for_review "CREATE_OBSERVATION_AMBIGUOUS"
        "Provider observation did not prove an owned running instance.")
  observed_create resource (some o) =
      if proves_running (some o)
      then succeed create_traits env wf LifecycleState.active resource
          (some (observed_state o env.wall))
      else manual_review create_traits env wf (
          for_review "CREATE_OBSERVATION_AMBIGUOUS"
            "Provider observation did not prove an owned running instance.")

module _ (env : Env) (provider : Provider) (wf : Claimed CreateRequested) where
  unfoldable pub submit_create : Step StoreCall
  unfolding handle_mutation_result context ownership create_traits
  submit_create = do
    result ← mutate provider (
        Mutation.submit_create_instance (context create_traits env wf "create")
          wf.command.payload.image_id wf.command.payload.flavor_id (configuration wf)
          (ownership create_traits env wf))
    pure (
        handle_mutation_result create_traits env wf result WorkflowStage.polling_create
          WorkflowStage.configuring)

  unfoldable pub configure : Step StoreCall
  unfolding handle_mutation_result required_resource create_traits
  configure = do
    resource ← required_resource create_traits env wf
    result ← mutate provider (
        Mutation.apply_instance_configuration
          (instance_request create_traits env wf "configure" resource) (configuration wf))
    pure (
        handle_mutation_result create_traits env wf result WorkflowStage.polling_configuration
          WorkflowStage.starting)

  unfoldable pub start : Step StoreCall
  unfolding handle_mutation_result required_resource create_traits
  start = do
    resource ← required_resource create_traits env wf
    result ←
        mutate provider
          (Mutation.start_instance (instance_request create_traits env wf "start" resource))
    pure (
        handle_mutation_result create_traits env wf result WorkflowStage.polling_start
          WorkflowStage.observing)

  unfoldable pub observe : Step StoreCall
  unfolding observed_create required_resource create_traits
  observe = do
    resource ← required_resource create_traits env wf
    observation ←
        observe_instance provider (instance_request create_traits env wf "observe" resource)
    pure (observed_create env wf resource observation)

  unfoldable pub execute_create : WorkflowStage → Step StoreCall
  unfolding submit_create configure start observe poll_task create_traits
  execute_create WorkflowStage.accepted =
      pure (progress create_traits env wf WorkflowStage.submitting_create no_options)
  execute_create WorkflowStage.submitting_create = submit_create
  execute_create WorkflowStage.polling_create =
      poll_task create_traits env provider wf WorkflowStage.configuring
  execute_create WorkflowStage.configuring = configure
  execute_create WorkflowStage.polling_configuration =
      poll_task create_traits env provider wf WorkflowStage.starting
  execute_create WorkflowStage.starting = start
  execute_create WorkflowStage.polling_start =
      poll_task create_traits env provider wf WorkflowStage.observing
  execute_create WorkflowStage.observing = observe
  execute_create _ = pure (
      fail create_traits env wf
        (permanent "WORKFLOW_STAGE_INVALID" "The persisted workflow stage is not supported."))

unfoldable pub create_capability : Capability CreateRequested
unfolding execute_create create_traits
create_capability = record {
  traits = create_traits;
  execute = λ env provider wf. execute_create env provider wf wf.stage;
}
