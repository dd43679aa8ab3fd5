-- ===== src/Workflow/Evidence.antt =====
-- What the provider must have shown before a capability reports success.
pub mod Observations
pub mod Removals
pub mod Executes
pub mod Turn
use private_cloud_control_pl.Prelude.{
  ◌≡◌, ◌⊎◌, ℕ, Option, none, some, List, String, Bool, true, false, ◌&&◌,
}
use private_cloud_control_pl.Contracts.Events.{PurgeRequested}
use private_cloud_control_pl.Contracts.Provider.{Provider, InstanceObservation, Answer}
use private_cloud_control_pl.Workflow.Stage.{WorkflowStage}
use private_cloud_control_pl.Workflow.Step.{Claimed, StoreCall, CompletionStatus}
use private_cloud_control_pl.Workflow.Engine.{Traits, Env, instance_request, is_owned}
use private_cloud_control_pl.Workflow.Create.{is_running}
use private_cloud_control_pl.Workflow.Power.{same_power_state, expected_power_state}
use private_cloud_control_pl.Workflow.Resize.{disagrees}
use private_cloud_control_pl.Workflow.Snapshot.{SnapshotAction, SnapshotPayload, snapshot_present}
use private_cloud_control_pl.Workflow.Executors.{Executor, Payload, executor}

-- The persisted resource was observed under the claim's own ownership markers, with an answer of
-- which `Good` holds.
pub record Observed {A : Type 0} (t : Traits A) (env : Env) (provider : Provider) (wf : Claimed A)
    (Good : Option InstanceObservation → Type 0) : Type 0 where
  pub resource : String
  pub persisted : wf.provider_resource_id ≡ some resource
  pub step : String
  pub answer : Option InstanceObservation
  pub answered :
      provider.observe_instance (instance_request t env wf step resource) ≡ Answer.answered answer
  pub good : Good answer

-- The provider's snapshots were listed for the persisted resource.
pub record Listed {A : Type 0} (t : Traits A) (env : Env) (provider : Provider) (wf : Claimed A)
    (Good : List String → Type 0) : Type 0 where
  pub resource : String
  pub persisted : wf.provider_resource_id ≡ some resource
  pub step : String
  pub names : List String
  pub answered :
      provider.list_snapshots (instance_request t env wf step resource) ≡ Answer.answered names
  pub good : Good names

-- An instance was there, with complete and matching ownership markers, and `Good` holds of it.
abbrev pub Owned : (InstanceObservation → Type 0) → Option InstanceObservation → Type 0
Owned Good none = ⊥
Owned Good (some o) = (o.exists ≡ true) × (is_owned o.ownership ≡ true) × Good o

-- No instance was there.
abbrev pub Absent : Option InstanceObservation → Type 0
Absent none = Unit
Absent (some o) = o.exists ≡ false

-- What the listing must show for each snapshot action.
abbrev pub Reflects : (a : SnapshotAction) → SnapshotPayload a → List String → Type 0
Reflects SnapshotAction.create d names = snapshot_present d.name names ≡ true
Reflects SnapshotAction.rollback d names = Unit
Reflects SnapshotAction.delete d names =
    snapshot_present d.provider_snapshot_reference names ≡ false

module _ (env : Env) (provider : Provider) where
  -- What each executor must have seen when it reports success.
  abbrev pub Evidence : (x : Executor) → Claimed (Payload x) → Type 0
  Evidence Executor.create wf =
      Observed (executor Executor.create).traits env provider wf
        (Owned (λ o. is_running o.power_state ≡ true))
  Evidence Executor.power wf = Observed (executor Executor.power).traits env provider wf (
      Owned (λ o.
        same_power_state o.power_state (expected_power_state wf.command.payload.action) ≡ true))
  Evidence Executor.resize wf =
      Observed (executor Executor.resize).traits env provider wf
        (Owned (λ o. disagrees o.resources wf.command.payload.target_resources ≡ false))
  Evidence Executor.retain wf =
      Observed (executor Executor.retain).traits env provider wf (Owned (λ o. Unit))
  Evidence Executor.purge wf = Observed (executor Executor.purge).traits env provider wf Absent
  Evidence (Executor.snapshot a) wf =
      Listed (executor (Executor.snapshot a)).traits env provider wf (Reflects a wf.command.payload)

abbrev pub IsSuccess : StoreCall → Type 0
IsSuccess (StoreCall.checkpoint c) = ⊥
IsSuccess (StoreCall.complete c) = c.status ≡ CompletionStatus.succeeded
IsSuccess (StoreCall.dead_letter_workflow d) = ⊥

-- A checkpoint that lets the purge be submitted.
abbrev pub IsPurgeSubmission : StoreCall → Type 0
IsPurgeSubmission (StoreCall.checkpoint c) = c.stage ≡ WorkflowStage.submitting_purge
IsPurgeSubmission (StoreCall.complete c) = ⊥
IsPurgeSubmission (StoreCall.dead_letter_workflow d) = ⊥
