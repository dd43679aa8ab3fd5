-- ===== src/Workflow/Discipline.antt =====
-- Which provider calls a turn makes, and what becomes of a mutation whose answer is lost.
pub mod Executes
pub mod Turn
use private_cloud_control_pl.Prelude.{◌≡◌, ◌≢◌, List, [], ◌∷◌, Bool, true}
use private_cloud_control_pl.Contracts.Provider.{
  Provider, ProviderCall, ProviderTransportError, Mutation, Answer,
}
use private_cloud_control_pl.Workflow.Stage.{WorkflowStage}
use private_cloud_control_pl.Workflow.Step.{Result, raise, transport, Step, StoreCall}
use private_cloud_control_pl.Workflow.Engine.{includes}

-- A step at stage `s` makes one call of the provider at most; a mutation only at a mutation stage;
-- and where the transport of the mutation fails, the step throws that failure.
abbrev pub IsDisciplined : Provider → List WorkflowStage → WorkflowStage → Step StoreCall → Type 0
IsDisciplined provider stages s ([], result) = Unit
IsDisciplined provider stages s (ProviderCall.mutation m ∷ [], result) =
    (includes stages s ≡ true)
    × ((e : ProviderTransportError)
        → provider.mutate m ≡ Answer.failed e
        → result ≡ raise (transport e))
IsDisciplined provider stages s (ProviderCall.get_task c r ∷ [], result) = Unit
IsDisciplined provider stages s (ProviderCall.observe_instance r ∷ [], result) = Unit
IsDisciplined provider stages s (ProviderCall.list_snapshots r ∷ [], result) = Unit
IsDisciplined provider stages s (c ∷ d ∷ rest, result) = ⊥

-- The calls alone: one at most, and a mutation only at a mutation stage.
abbrev pub CallsWithin : List WorkflowStage → WorkflowStage → List ProviderCall → Type 0
CallsWithin stages s [] = Unit
CallsWithin stages s (ProviderCall.mutation m ∷ []) = includes stages s ≡ true
CallsWithin stages s (ProviderCall.get_task c r ∷ []) = Unit
CallsWithin stages s (ProviderCall.observe_instance r ∷ []) = Unit
CallsWithin stages s (ProviderCall.list_snapshots r ∷ []) = Unit
CallsWithin stages s (c ∷ d ∷ rest) = ⊥
