-- ===== src/Workflow/Stage.antt =====
-- packages/application/src/workflow-stage.ts: stages, actions and the progress table.
pub mod Spelling
use private_cloud_control_pl.Prelude.{
  ℕ, ◌==◌, String, str_eq, Bool, Option, none, some, List, [], ◌∷◌, any, if◌then◌else◌,
}

-- `WorkflowStage`: a stage that a worker can claim a workflow at.
pub data WorkflowStage : Type 0 where
  accepted : WorkflowStage
  submitting_create polling_create configuring polling_configuration : WorkflowStage
  starting polling_start observing : WorkflowStage
  submitting_power polling_power observing_power : WorkflowStage
  submitting_resize polling_resize observing_resize : WorkflowStage
  submitting_snapshot polling_snapshot observing_snapshot : WorkflowStage
  submitting_retention polling_retention observing_retention : WorkflowStage
  verifying_purge submitting_purge polling_purge observing_purge : WorkflowStage

-- `TerminalStage`: written only when a workflow finishes.
pub data TerminalStage : Type 0 where
  completed failed manual_review : TerminalStage

-- `PersistedStage`: what the `stage` column may hold.
pub data PersistedStage : Type 0 where
  active : WorkflowStage → PersistedStage
  terminal : TerminalStage → PersistedStage

-- `WORKFLOW_STAGES`.
abbrev pub workflow_stages : List WorkflowStage
workflow_stages =
    accepted ∷ submitting_create ∷ polling_create ∷ configuring ∷ polling_configuration ∷ starting
    ∷ polling_start ∷ observing ∷ submitting_power ∷ polling_power ∷ observing_power
    ∷ submitting_resize ∷ polling_resize ∷ observing_resize ∷ submitting_snapshot ∷ polling_snapshot
    ∷ observing_snapshot ∷ submitting_retention ∷ polling_retention ∷ observing_retention
    ∷ verifying_purge ∷ submitting_purge ∷ polling_purge ∷ observing_purge ∷ []

-- The spelling of a stage in the `stage` column.
unfoldable pub stage_name : WorkflowStage → String
stage_name accepted = "accepted"
stage_name submitting_create = "submitting_create"
stage_name polling_create = "polling_create"
stage_name configuring = "configuring"
stage_name polling_configuration = "polling_configuration"
stage_name starting = "starting"
stage_name polling_start = "polling_start"
stage_name observing = "observing"
stage_name submitting_power = "submitting_power"
stage_name polling_power = "polling_power"
stage_name observing_power = "observing_power"
stage_name submitting_resize = "submitting_resize"
stage_name polling_resize = "polling_resize"
stage_name observing_resize = "observing_resize"
stage_name submitting_snapshot = "submitting_snapshot"
stage_name polling_snapshot = "polling_snapshot"
stage_name observing_snapshot = "observing_snapshot"
stage_name submitting_retention = "submitting_retention"
stage_name polling_retention = "polling_retention"
stage_name observing_retention = "observing_retention"
stage_name verifying_purge = "verifying_purge"
stage_name submitting_purge = "submitting_purge"
stage_name polling_purge = "polling_purge"
stage_name observing_purge = "observing_purge"

-- `STAGE_PROGRESS_PERCENT`.
unfoldable pub stage_progress_percent : PersistedStage → ℕ
stage_progress_percent (active accepted) = 0
stage_progress_percent (active submitting_create) = 10
stage_progress_percent (active polling_create) = 25
stage_progress_percent (active configuring) = 40
stage_progress_percent (active polling_configuration) = 55
stage_progress_percent (active starting) = 70
stage_progress_percent (active polling_start) = 82
stage_progress_percent (active observing) = 92
stage_progress_percent (active submitting_power) = 20
stage_progress_percent (active polling_power) = 55
stage_progress_percent (active observing_power) = 85
stage_progress_percent (active submitting_resize) = 20
stage_progress_percent (active polling_resize) = 55
stage_progress_percent (active observing_resize) = 85
stage_progress_percent (active submitting_snapshot) = 20
stage_progress_percent (active polling_snapshot) = 55
stage_progress_percent (active observing_snapshot) = 85
stage_progress_percent (active submitting_retention) = 20
stage_progress_percent (active polling_retention) = 55
stage_progress_percent (active observing_retention) = 85
stage_progress_percent (active verifying_purge) = 15
stage_progress_percent (active submitting_purge) = 40
stage_progress_percent (active polling_purge) = 65
stage_progress_percent (active observing_purge) = 88
stage_progress_percent (terminal completed) = 100
stage_progress_percent (terminal failed) = 100
stage_progress_percent (terminal manual_review) = 100

-- Stages are compared by their spelling, as `===` and `includes` do.
unfoldable pub stage_eq : WorkflowStage → WorkflowStage → Bool
unfolding stage_name
stage_eq a b = str_eq (stage_name a) (stage_name b)

pub find_stage : String → List WorkflowStage → Option WorkflowStage
find_stage value [] = none
find_stage value (s ∷ rest) = if str_eq (stage_name s) value then some s else find_stage value rest

-- `toWorkflowStage`: `none` is the thrown error.
unfoldable pub to_workflow_stage : String → Option WorkflowStage
unfolding find_stage stage_name
to_workflow_stage value = find_stage value workflow_stages

-- `WorkflowAction`: a capability that a workflow may execute.
pub data WorkflowAction : Type 0 where
  create_instance power_instance resize_instance : WorkflowAction
  create_snapshot rollback_snapshot delete_snapshot : WorkflowAction
  retain_instance purge_instance reconcile_instance : WorkflowAction

-- `WORKFLOW_ACTIONS`.
abbrev pub workflow_actions : List WorkflowAction
workflow_actions =
    create_instance ∷ power_instance ∷ resize_instance ∷ create_snapshot ∷ rollback_snapshot
    ∷ delete_snapshot ∷ retain_instance ∷ purge_instance ∷ reconcile_instance ∷ []

-- The spelling of an action in the `action` column.
unfoldable pub action_name : WorkflowAction → String
action_name create_instance = "create_instance"
action_name power_instance = "power_instance"
action_name resize_instance = "resize_instance"
action_name create_snapshot = "create_snapshot"
action_name rollback_snapshot = "rollback_snapshot"
action_name delete_snapshot = "delete_snapshot"
action_name retain_instance = "retain_instance"
action_name purge_instance = "purge_instance"
action_name reconcile_instance = "reconcile_instance"

unfoldable pub action_eq : WorkflowAction → WorkflowAction → Bool
unfolding action_name
action_eq a b = str_eq (action_name a) (action_name b)

pub find_action : String → List WorkflowAction → Option WorkflowAction
find_action value [] = none
find_action value (a ∷ rest) =
    if str_eq (action_name a) value then some a else find_action value rest

-- `toWorkflowAction`: `none` is the thrown error.
unfoldable pub to_workflow_action : String → Option WorkflowAction
unfolding find_action action_name
to_workflow_action value = find_action value workflow_actions
