-- ===== src/Workflow/Stage/Spelling.antt =====
-- The columns `stage` and `action` round-trip through their spellings.
use private_cloud_control_pl.Prelude.{
  ◌≡◌, refl, ap, String, str_eq, str_eq_iff, some, List, [], ◌∷◌, inl, inr, arith, Bool-cases, ◌↔◌,
  ◌∙◌, sym,
}
use private_cloud_control_pl.Workflow.Stage.{
  WorkflowStage, workflow_stages, stage_name, find_stage, to_workflow_stage,
}

stage_name-find_stage :
    (value : String) (l : List WorkflowStage) (s : WorkflowStage)
    → find_stage value l ≡ some s
    → stage_name s ≡ value
unfolding find_stage
stage_name-find_stage value [] s h = cc
stage_name-find_stage value (x ∷ rest) s h = elim (Bool-cases (str_eq (stage_name x) value)) [
  | inl same ↦ ground (arith, str_eq_iff (stage_name x) value)
  | inr other ↦ stage_name-find_stage value rest s (ground arith)
]

find_stage-stage_name : (s : WorkflowStage) → to_workflow_stage (stage_name s) ≡ some s
unfolding to_workflow_stage
find_stage-stage_name WorkflowStage.accepted = refl
find_stage-stage_name _ = refl

-- `toWorkflowStage` accepts a text exactly when it is the spelling of a stage, and returns that
-- stage.
pub to_workflow_stage_iff :
    (value : String) (s : WorkflowStage)
    → (to_workflow_stage value ≡ some s) ↔ (stage_name s ≡ value)
to_workflow_stage_iff value s = (
  λ h. stage_name-find_stage value workflow_stages s (unfold to_workflow_stage in h),
  λ h. ap to_workflow_stage (sym h) ∙ find_stage-stage_name s,
)
