-- ===== src/Workflow/Registry/Tests.antt =====
-- Two executors, of which only the second has work.
use private_cloud_control_pl.Prelude.{ℕ, ◌<◌, arith, ◌-◌, false, List, [], ◌∷◌, length, ltb}
use private_cloud_control_pl.Workflow.Stage.{WorkflowAction}
use private_cloud_control_pl.Workflow.Step.{ok}
use private_cloud_control_pl.Workflow.Registry.{WorkflowExecutor, run_registry}
use private_cloud_control_pl.Workflow.Registry.Rotation.{Rotated, run_registry-Rotated}

-- The world is the number of resizes that wait.
abbrev rotation : List (WorkflowExecutor ℕ)
rotation =
    record { action = WorkflowAction.power_instance; run_one = λ w. (ok false, w) }
    ∷ record { action = WorkflowAction.resize_instance; run_one = λ w. (ok (ltb 0 w), w - 1) }
    ∷ []

run_registry-Rotated_example :
    Rotated rotation 0 0
      (length rotation)
      3
      (run_registry rotation 0 3).result
      (run_registry rotation 0 3).cursor
      (run_registry rotation 0 3).world
    × ((run_registry rotation 0 3).cursor < length rotation)
run_registry-Rotated_example = run_registry-Rotated rotation 0 3 (omega arith)
