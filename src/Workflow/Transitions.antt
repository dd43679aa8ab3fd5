-- ===== src/Workflow/Transitions.antt =====
-- The stage table that workflow-stage.ts documents, as a specification of what a step may write.
pub mod Results
pub mod Endings
pub mod Refinement
pub mod Turn
use private_cloud_control_pl.Prelude.{
  ◌≡◌, ◌≢◌, ◌⊎◌, ℕ, ◌<◌, ◌≤◌, List, [], ◌∷◌, inl, inr, refl, arith,
}
use private_cloud_control_pl.Workflow.Stage.{
  WorkflowStage, WorkflowAction, PersistedStage, stage_progress_percent,
}
use private_cloud_control_pl.Workflow.Step.{Claimed, StoreCall, CompletionStatus, Result, ok, raise}

-- Where a workflow goes from `accepted`.
abbrev pub first_stage : WorkflowAction → List WorkflowStage
first_stage WorkflowAction.create_instance = WorkflowStage.submitting_create ∷ []
first_stage WorkflowAction.power_instance = WorkflowStage.submitting_power ∷ []
first_stage WorkflowAction.resize_instance = WorkflowStage.submitting_resize ∷ []
first_stage WorkflowAction.create_snapshot = WorkflowStage.submitting_snapshot ∷ []
first_stage WorkflowAction.rollback_snapshot = WorkflowStage.submitting_snapshot ∷ []
first_stage WorkflowAction.delete_snapshot = WorkflowStage.submitting_snapshot ∷ []
first_stage WorkflowAction.retain_instance = WorkflowStage.submitting_retention ∷ []
first_stage WorkflowAction.purge_instance = WorkflowStage.verifying_purge ∷ []
first_stage WorkflowAction.reconcile_instance = []

-- The column "Next on success".
abbrev pub next_stages : WorkflowAction → WorkflowStage → List WorkflowStage
next_stages a WorkflowStage.accepted = first_stage a
next_stages a WorkflowStage.submitting_create =
    WorkflowStage.polling_create ∷ WorkflowStage.configuring ∷ []
next_stages a WorkflowStage.polling_create = WorkflowStage.configuring ∷ []
next_stages a WorkflowStage.configuring =
    WorkflowStage.polling_configuration ∷ WorkflowStage.starting ∷ []
next_stages a WorkflowStage.polling_configuration = WorkflowStage.starting ∷ []
next_stages a WorkflowStage.starting = WorkflowStage.polling_start ∷ WorkflowStage.observing ∷ []
next_stages a WorkflowStage.polling_start = WorkflowStage.observing ∷ []
next_stages a WorkflowStage.observing = []
next_stages a WorkflowStage.submitting_power =
    WorkflowStage.polling_power ∷ WorkflowStage.observing_power ∷ []
next_stages a WorkflowStage.polling_power = WorkflowStage.observing_power ∷ []
next_stages a WorkflowStage.observing_power = []
next_stages a WorkflowStage.submitting_resize =
    WorkflowStage.polling_resize ∷ WorkflowStage.observing_resize ∷ []
next_stages a WorkflowStage.polling_resize = WorkflowStage.observing_resize ∷ []
next_stages a WorkflowStage.observing_resize = []
next_stages a WorkflowStage.submitting_snapshot =
    WorkflowStage.polling_snapshot ∷ WorkflowStage.observing_snapshot ∷ []
next_stages a WorkflowStage.polling_snapshot = WorkflowStage.observing_snapshot ∷ []
next_stages a WorkflowStage.observing_snapshot = []
next_stages a WorkflowStage.submitting_retention =
    WorkflowStage.polling_retention ∷ WorkflowStage.observing_retention ∷ []
next_stages a WorkflowStage.polling_retention = WorkflowStage.observing_retention ∷ []
next_stages a WorkflowStage.observing_retention = []
next_stages a WorkflowStage.verifying_purge = WorkflowStage.submitting_purge ∷ []
next_stages a WorkflowStage.submitting_purge =
    WorkflowStage.polling_purge ∷ WorkflowStage.observing_purge ∷ []
next_stages a WorkflowStage.polling_purge = WorkflowStage.observing_purge ∷ []
next_stages a WorkflowStage.observing_purge = []

-- The stages at which a capability may report success.
abbrev pub final_stages : WorkflowAction → List WorkflowStage
final_stages WorkflowAction.create_instance = WorkflowStage.observing ∷ []
final_stages WorkflowAction.power_instance = WorkflowStage.observing_power ∷ []
final_stages WorkflowAction.resize_instance = WorkflowStage.observing_resize ∷ []
final_stages WorkflowAction.create_snapshot = WorkflowStage.observing_snapshot ∷ []
final_stages WorkflowAction.rollback_snapshot = WorkflowStage.observing_snapshot ∷ []
final_stages WorkflowAction.delete_snapshot = WorkflowStage.observing_snapshot ∷ []
final_stages WorkflowAction.retain_instance = WorkflowStage.observing_retention ∷ []
final_stages WorkflowAction.purge_instance =
    WorkflowStage.verifying_purge ∷ WorkflowStage.observing_purge ∷ []
final_stages WorkflowAction.reconcile_instance = []

abbrev pub IsOneOf : WorkflowStage → List WorkflowStage → Type 0
IsOneOf s [] = ⊥
IsOneOf s (x ∷ xs) = (s ≡ x) ⊎ IsOneOf s xs

-- What a step of action `a` at stage `s` may ask the store to write.
abbrev pub IsAllowed : WorkflowAction → WorkflowStage → StoreCall → Type 0
IsAllowed a s (StoreCall.checkpoint c) = (c.stage ≡ s) ⊎ IsOneOf c.stage (next_stages a s)
IsAllowed a s (StoreCall.complete c) =
    (c.status ≢ CompletionStatus.succeeded) ⊎ IsOneOf s (final_stages a)
IsAllowed a s (StoreCall.dead_letter_workflow d) = Unit

-- Every edge of the table leads to a stage with a higher progress percentage.
pub next_stages-progress :
    (a : WorkflowAction) (s s' : WorkflowStage)
    → IsOneOf s' (next_stages a s)
    → stage_progress_percent (PersistedStage.active s)
      < stage_progress_percent (PersistedStage.active s')
unfolding stage_progress_percent
next_stages-progress WorkflowAction.create_instance WorkflowStage.accepted s' h = ground arith
next_stages-progress a s s' h = ground arith
