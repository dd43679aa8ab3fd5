-- ===== src/Workflow/Snapshot.antt =====
-- packages/application/src/snapshot-workflow.ts. The class is instantiated for one of three
-- actions; the action fixes the type of the command's data, where the source casts.
use private_cloud_control_pl.Prelude.{
  ℕ, String, str_eq, Bool, true, not, Option, none, List, [], ◌∷◌, any, if◌then◌else◌,
}
use private_cloud_control_pl.Contracts.Events.{
  SnapshotCreateRequested, SnapshotTargetRequested, LifecycleState,
}
use private_cloud_control_pl.Contracts.Provider.{InstanceRequest, Mutation, Provider}
use private_cloud_control_pl.Workflow.Stage.{WorkflowStage, WorkflowAction, action_name}
use private_cloud_control_pl.Workflow.Step.{
  Claimed, StoreCall, Step, pure, mutate, list_snapshots, ◌>>=◌,
}
use private_cloud_control_pl.Workflow.Engine.{
  Env, Traits, no_options, instance_request, required_resource, progress, fail, manual_review,
  succeed, stage_invalid, for_review, is_present,
}
use private_cloud_control_pl.Workflow.Outcome.{handle_mutation_result, poll_task}
use private_cloud_control_pl.Workflow.Recovery.{Capability}

pub data SnapshotAction : Type 0 where
  create rollback delete : SnapshotAction

abbrev pub SnapshotPayload : SnapshotAction → Type 0
SnapshotPayload SnapshotAction.create = SnapshotCreateRequested
SnapshotPayload SnapshotAction.rollback = SnapshotTargetRequested
SnapshotPayload SnapshotAction.delete = SnapshotTargetRequested

abbrev pub workflow_action : SnapshotAction → WorkflowAction
workflow_action SnapshotAction.create = WorkflowAction.create_snapshot
workflow_action SnapshotAction.rollback = WorkflowAction.rollback_snapshot
workflow_action SnapshotAction.delete = WorkflowAction.delete_snapshot

abbrev pub snapshot_mutation_stages : List WorkflowStage
snapshot_mutation_stages = WorkflowStage.submitting_snapshot ∷ []

abbrev payload_profile : (a : SnapshotAction) → SnapshotPayload a → String
payload_profile SnapshotAction.create d = d.provider_profile_id
payload_profile SnapshotAction.rollback d = d.provider_profile_id
payload_profile SnapshotAction.delete d = d.provider_profile_id

abbrev payload_create_operation : (a : SnapshotAction) → SnapshotPayload a → ℕ
payload_create_operation SnapshotAction.create d = d.create_operation_id
payload_create_operation SnapshotAction.rollback d = d.create_operation_id
payload_create_operation SnapshotAction.delete d = d.create_operation_id

unfoldable pub snapshot_traits : (a : SnapshotAction) → Traits (SnapshotPayload a)
snapshot_traits a = record {
  action = workflow_action a;
  mutation_stages = snapshot_mutation_stages;
  provider_profile_id = λ wf. payload_profile a wf.command.payload;
  create_operation_id = λ wf. payload_create_operation a wf.command.payload;
}

-- `...(create.description ? { description } : {})`.
abbrev pub kept_description : Option String → Option String
kept_description d = if is_present d then d else none

-- The mutation that `submitSnapshot` issues.
unfoldable pub snapshot_mutation :
    (a : SnapshotAction) → SnapshotPayload a → InstanceRequest → Mutation
snapshot_mutation SnapshotAction.create d r =
    Mutation.create_snapshot r d.snapshot_id d.name (kept_description d.description)
snapshot_mutation SnapshotAction.rollback d r =
    Mutation.rollback_snapshot r d.snapshot_id d.provider_snapshot_reference
snapshot_mutation SnapshotAction.delete d r =
    Mutation.delete_snapshot r d.snapshot_id d.provider_snapshot_reference

-- `expectedName`; a rollback asks for none.
abbrev pub expected_name : (a : SnapshotAction) → SnapshotPayload a → String
expected_name SnapshotAction.create d = d.name
expected_name SnapshotAction.rollback d = d.provider_snapshot_reference
expected_name SnapshotAction.delete d = d.provider_snapshot_reference

unfoldable pub snapshot_present : String → List String → Bool
snapshot_present name names = any (str_eq name) names

-- Whether the listing reflects the requested change.
unfoldable pub satisfied : (a : SnapshotAction) → SnapshotPayload a → List String → Bool
unfolding snapshot_present
satisfied SnapshotAction.create d names =
    snapshot_present (expected_name SnapshotAction.create d) names
satisfied SnapshotAction.rollback d names = true
satisfied SnapshotAction.delete d names =
    not (snapshot_present (expected_name SnapshotAction.delete d) names)

-- `${this.action}-observe`.
abbrev pub observe_step : SnapshotAction → String
observe_step SnapshotAction.create = "create_snapshot-observe"
observe_step SnapshotAction.rollback = "rollback_snapshot-observe"
observe_step SnapshotAction.delete = "delete_snapshot-observe"

module _ (a : SnapshotAction) (env : Env) (wf : Claimed (SnapshotPayload a)) where
  unfoldable pub observed_snapshot : String → List String → StoreCall
  unfolding satisfied
  observed_snapshot resource names =
      if not (satisfied a wf.command.payload names)
      then manual_review (snapshot_traits a) env wf (
          for_review "SNAPSHOT_STATE_NOT_REACHED"
            "The provider snapshot listing does not reflect the requested change.")
      else succeed (snapshot_traits a) env wf LifecycleState.active resource none

module _ (a : SnapshotAction) (env : Env) (provider : Provider)
    (wf : Claimed (SnapshotPayload a)) where
  unfoldable pub submit_snapshot : Step StoreCall
  unfolding handle_mutation_result required_resource snapshot_traits snapshot_mutation
  submit_snapshot = do
    resource ← required_resource (snapshot_traits a) env wf
    result ← mutate provider (
        snapshot_mutation a wf.command.payload
          (instance_request (snapshot_traits a) env wf (action_name (workflow_action a)) resource))
    pure (
        handle_mutation_result (snapshot_traits a) env wf result WorkflowStage.polling_snapshot
          WorkflowStage.observing_snapshot)

  unfoldable pub observe_snapshot : Step StoreCall
  unfolding observed_snapshot required_resource snapshot_traits
  observe_snapshot = do
    resource ← required_resource (snapshot_traits a) env wf
    names ←
        list_snapshots provider
          (instance_request (snapshot_traits a) env wf (observe_step a) resource)
    pure (observed_snapshot a env wf resource names)

  unfoldable pub execute_snapshot : WorkflowStage → Step StoreCall
  unfolding submit_snapshot observe_snapshot poll_task snapshot_traits
  execute_snapshot WorkflowStage.accepted =
      pure (progress (snapshot_traits a) env wf WorkflowStage.submitting_snapshot no_options)
  execute_snapshot WorkflowStage.submitting_snapshot = submit_snapshot
  execute_snapshot WorkflowStage.polling_snapshot =
      poll_task (snapshot_traits a) env provider wf WorkflowStage.observing_snapshot
  execute_snapshot WorkflowStage.observing_snapshot = observe_snapshot
  execute_snapshot _ = pure (fail (snapshot_traits a) env wf stage_invalid)

unfoldable pub snapshot_capability : (a : SnapshotAction) → Capability (SnapshotPayload a)
unfolding execute_snapshot snapshot_traits
snapshot_capability a = record {
  traits = snapshot_traits a;
  execute = λ env provider wf. execute_snapshot a env provider wf wf.stage;
}
