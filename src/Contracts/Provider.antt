-- ===== src/Contracts/Provider.antt =====
-- packages/contracts/src/generated/proto (common.pb.ts, provider.pb.ts) and packages/provider-sdk/src:
-- the provider's requests, responses and transport errors. An enum that a response leaves out reads
-- as its `unspecified` value, and a flag that it leaves out as false: the code treats them alike.
use private_cloud_control_pl.Prelude.{ℕ, String, Bool, Option, List}
use private_cloud_control_pl.Contracts.Events.{Resources}

-- `FailureCategory` of common.pb.ts.
pub data ProviderFailureCategory : Type 0 where
  unspecified validation authentication authorization not_found : ProviderFailureCategory
  conflict quota transient permanent unknown_outcome : ProviderFailureCategory
  compensation_failure manual_review internal unrecognized : ProviderFailureCategory

pub record ProviderFailure : Type 0 where
  pub category : ProviderFailureCategory
  pub code : Option String
  pub safe_message : Option String
  pub retry_after_milliseconds : Option ℕ

-- `ProviderResultState`.
pub data ResultState : Type 0 where
  unspecified accepted succeeded rejected unknown unrecognized : ResultState

-- `ProviderTaskState`.
pub data TaskState : Type 0 where
  unspecified queued running succeeded failed unknown unrecognized : TaskState

-- `ObservedPowerState`.
pub data ObservedPowerState : Type 0 where
  unspecified running stopped suspended unknown unrecognized : ObservedPowerState

pub record ProviderMutationResult : Type 0 where
  pub state : ResultState
  pub provider_task_reference : Option String
  pub provider_resource_id : Option String
  pub failure : Option ProviderFailure

pub record GetTaskResponse : Type 0 where
  pub state : TaskState
  pub failure : Option ProviderFailure

pub record InstanceResources : Type 0 where
  pub cpu_count : Option ℕ
  pub memory_mib : Option ℕ
  pub disk_gib : Option ℕ

pub record ObservedOwnership : Type 0 where
  pub complete : Bool
  pub matches : Bool

pub record InstanceObservation : Type 0 where
  pub exists : Bool
  pub power_state : ObservedPowerState
  pub resources : Option InstanceResources
  pub ownership : Option ObservedOwnership
  pub observed_at : Option ℕ

-- `requestId` is the operation's id and the step, joined by a colon in the source.
pub record ProviderCallContext : Type 0 where
  pub request_id : ℕ × String
  pub operation_id : ℕ
  pub correlation_id : ℕ
  pub project_id : ℕ
  pub instance_id : ℕ
  pub provider_profile_id : String
  pub attempt : ℕ
  pub fencing_token : ℕ

pub record OwnershipMarkers : Type 0 where
  pub managed_by : String
  pub environment : String
  pub project_id : ℕ
  pub instance_id : ℕ
  pub create_operation_id : ℕ

-- `InstanceMutationRequest`, and the requests of `observeInstance` and `listSnapshots`.
pub record InstanceRequest : Type 0 where
  pub context : ProviderCallContext
  pub provider_resource_id : String
  pub expected_ownership_markers : OwnershipMarkers

pub record NetworkConfiguration : Type 0 where
  pub network_id : String
  pub ipv4_address : String
  pub ipv4_prefix_length : ℕ
  pub ipv4_gateway : String
  pub dns_servers : List String

pub record Configuration : Type 0 where
  pub hostname : String
  pub resources : Resources
  pub network : NetworkConfiguration
  pub ssh_public_keys : List String

-- The calls of `ProviderPort` that change provider state.
pub data Mutation : Type 0 where
  submit_create_instance :
      ProviderCallContext → String → String → Configuration → OwnershipMarkers → Mutation
  apply_instance_configuration : InstanceRequest → Configuration → Mutation
  start_instance shutdown_instance stop_instance reboot_instance : InstanceRequest → Mutation
  resize_instance : InstanceRequest → Resources → Mutation
  create_snapshot : InstanceRequest → ℕ → String → Option String → Mutation
  rollback_snapshot delete_snapshot : InstanceRequest → ℕ → String → Mutation
  mark_instance_retained : InstanceRequest → ℕ → Mutation
  purge_instance : InstanceRequest → ℕ → ℕ → Mutation

-- A call of the provider, as the workflow makes it.
pub data ProviderCall : Type 0 where
  mutation : Mutation → ProviderCall
  get_task : ProviderCallContext → String → ProviderCall
  observe_instance : InstanceRequest → ProviderCall
  list_snapshots : InstanceRequest → ProviderCall

-- `ProviderTransportErrorCode`.
pub data TransportErrorCode : Type 0 where
  aborted deadline_exceeded protocol_error unavailable : TransportErrorCode

pub record ProviderTransportError : Type 0 where
  pub code : TransportErrorCode
  pub retryable : Bool

-- What a call comes back with: a response, or a transport error.
pub data Answer {ℓ} (A : Type ℓ) : Type ℓ where
  answered : A → Answer A
  failed : ProviderTransportError → Answer A

-- The provider behind the port, at the moment of a step. It is not part of the workflow.
pub record Provider : Type 0 where
  pub mutate : Mutation → Answer (Option ProviderMutationResult)
  pub get_task : ProviderCallContext → String → Answer GetTaskResponse
  pub observe_instance : InstanceRequest → Answer (Option InstanceObservation)
  pub list_snapshots : InstanceRequest → Answer (List String)
