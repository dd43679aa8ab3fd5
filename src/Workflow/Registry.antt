-- ===== src/Workflow/Registry.antt =====
-- packages/application/src/workflow-registry.ts, `WorkflowRegistry`: the rotation over the executors.
-- An executor's `runOne` acts on a world of any type, and returns or throws.
pub mod Rotation
pub mod Tests
use private_cloud_control_pl.Prelude.{
  ◌≡◌, ℕ, zero, suc, ◌+◌, ◌%◌, Bool, true, false, Option, none, some, List, [], ◌∷◌, length,
  get_elem?, any, if◌then◌else◌,
}
use private_cloud_control_pl.Workflow.Stage.{WorkflowAction, action_eq}
use private_cloud_control_pl.Workflow.Step.{Raised, Result, ok, raise, bug}

-- `WorkflowExecutor`.
pub record WorkflowExecutor {ℓ} (W : Type ℓ) : Type ℓ where
  pub action : WorkflowAction
  pub run_one : W → Result Bool × W

-- What a call of the registry leaves behind.
pub record Ticked {ℓ} (W : Type ℓ) : Type ℓ where
  pub result : Result Bool
  pub cursor : ℕ
  pub world : W

module _ {ℓ} {W : Type ℓ} where
  -- The constructor's loop: a second executor for an action is refused.
  unfoldable pub registers :
      List WorkflowAction → List (WorkflowExecutor W) → Result (List (WorkflowExecutor W))
  unfolding action_eq
  registers actions [] = ok []
  registers actions (executor ∷ rest) =
      let more = registers (executor.action ∷ actions) rest in
      if any (action_eq executor.action) actions
      then raise (bug "Duplicate workflow executor.")
      else kept executor more
    where
      kept :
          WorkflowExecutor W
          → Result (List (WorkflowExecutor W))
          → Result (List (WorkflowExecutor W))
      kept e (ok l) = ok (e ∷ l)
      kept e (raise r) = raise r

  -- `this.executors[(this.cursor + attempt) % this.executors.length]`.
  abbrev pub slot : List (WorkflowExecutor W) → ℕ → ℕ → Option (WorkflowExecutor W)
  slot executors cursor attempt = get_elem? executors ((cursor + attempt) % length executors)

  abbrev pub tried : List (WorkflowExecutor W) → ℕ → ℕ → (W → Ticked W) → Result Bool × W → Ticked W
  tried executors cursor attempt next (ok true, world) = record {
    result = ok true;
    cursor = (cursor + attempt + 1) % length executors;
    world = world;
  }
  tried executors cursor attempt next (ok false, world) = next world
  tried executors cursor attempt next (raise e, world) = record {
    result = raise e;
    cursor = cursor;
    world = world;
  }

  abbrev pub attempted :
      List (WorkflowExecutor W)
      → ℕ
      → ℕ
      → (W → Ticked W)
      → W
      → Option (WorkflowExecutor W)
      → Ticked W
  attempted executors cursor attempt next world none = next world
  attempted executors cursor attempt next world (some executor) =
      tried executors cursor attempt next (executor.run_one world)

  -- The loop, from an attempt on.
  unfoldable pub rotate : List (WorkflowExecutor W) → ℕ → ℕ → ℕ → W → Ticked W
  rotate executors cursor attempt zero world = record {
    result = ok false;
    cursor = cursor;
    world = world;
  }
  rotate executors cursor attempt (suc remaining) world =
      attempted executors cursor attempt (rotate executors cursor (attempt + 1) remaining) world
        (slot executors cursor attempt)

  -- `WorkflowRegistry.runOne`.
  unfoldable pub run_registry : List (WorkflowExecutor W) → ℕ → W → Ticked W
  unfolding rotate
  run_registry executors cursor world = rotate executors cursor 0 (length executors) world
