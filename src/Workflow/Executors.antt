-- ===== src/Workflow/Executors.antt =====
-- apps/provisioning-orchestrator: the executors that the registry holds, one for each action but
-- reconciliation.
use private_cloud_control_pl.Prelude.{Option, none, some}
use private_cloud_control_pl.Contracts.Events.{
  CreateRequested, PowerRequested, ResizeRequested, RetentionRequested, PurgeRequested,
}
use private_cloud_control_pl.Workflow.Stage.{WorkflowAction}
use private_cloud_control_pl.Workflow.Recovery.{Capability}
use private_cloud_control_pl.Workflow.Create.{create_capability}
use private_cloud_control_pl.Workflow.Power.{power_capability}
use private_cloud_control_pl.Workflow.Resize.{resize_capability}
use private_cloud_control_pl.Workflow.Snapshot.{
  SnapshotAction, SnapshotPayload, workflow_action, snapshot_capability,
}
use private_cloud_control_pl.Workflow.Retain.{retain_capability}
use private_cloud_control_pl.Workflow.Purge.{purge_capability}

pub data Executor : Type 0 where
  create power resize retain purge : Executor
  snapshot : SnapshotAction → Executor

-- The data of the commands that an executor runs.
abbrev pub Payload : Executor → Type 0
Payload Executor.create = CreateRequested
Payload Executor.power = PowerRequested
Payload Executor.resize = ResizeRequested
Payload Executor.retain = RetentionRequested
Payload Executor.purge = PurgeRequested
Payload (Executor.snapshot a) = SnapshotPayload a

abbrev pub executor_action : Executor → WorkflowAction
executor_action Executor.create = WorkflowAction.create_instance
executor_action Executor.power = WorkflowAction.power_instance
executor_action Executor.resize = WorkflowAction.resize_instance
executor_action Executor.retain = WorkflowAction.retain_instance
executor_action Executor.purge = WorkflowAction.purge_instance
executor_action (Executor.snapshot a) = workflow_action a

unfoldable pub executor : (x : Executor) → Capability (Payload x)
executor Executor.create = create_capability
executor Executor.power = power_capability
executor Executor.resize = resize_capability
executor Executor.retain = retain_capability
executor Executor.purge = purge_capability
executor (Executor.snapshot a) = snapshot_capability a

-- The data of a stored command, of whichever action.
pub data CommandData : Type 0 where
  create_data : CreateRequested → CommandData
  power_data : PowerRequested → CommandData
  resize_data : ResizeRequested → CommandData
  retention_data : RetentionRequested → CommandData
  purge_data : PurgeRequested → CommandData
  snapshot_data : (a : SnapshotAction) → SnapshotPayload a → CommandData

unfoldable pub snapshot_payload :
    (a b : SnapshotAction) → SnapshotPayload b → Option (SnapshotPayload a)
snapshot_payload SnapshotAction.create SnapshotAction.create d = some d
snapshot_payload SnapshotAction.rollback SnapshotAction.rollback d = some d
snapshot_payload SnapshotAction.delete SnapshotAction.delete d = some d
snapshot_payload _ _ d = none

unfoldable pub payload_of : (x : Executor) → CommandData → Option (Payload x)
unfolding snapshot_payload
payload_of Executor.create (CommandData.create_data d) = some d
payload_of Executor.power (CommandData.power_data d) = some d
payload_of Executor.resize (CommandData.resize_data d) = some d
payload_of Executor.retain (CommandData.retention_data d) = some d
payload_of Executor.purge (CommandData.purge_data d) = some d
payload_of (Executor.snapshot a) (CommandData.snapshot_data b d) = snapshot_payload a b d
payload_of _ _ = none
