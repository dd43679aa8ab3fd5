-- ===== src/Workflow/Step.antt =====
-- packages/application/src/ports.ts: what a worker claims and what it asks the store to write; and
-- the actions that a step is made of: they call the provider, and return or throw.
pub mod Rules
pub mod Shapes
use private_cloud_control_pl.Prelude.{ℕ, String, Bool, Option, none, some, List, [], ◌∷◌, ◌++◌}
use private_cloud_control_pl.Contracts.Events.{EventEnvelope, WorkflowEvent}
use private_cloud_control_pl.Contracts.Provider.{
  ProviderCall, ProviderTransportError, Answer, Provider, Mutation, ProviderMutationResult,
  ProviderCallContext, GetTaskResponse, InstanceRequest, InstanceObservation,
}
use private_cloud_control_pl.Workflow.Stage.{WorkflowStage, WorkflowAction}

-- `LifecycleCommand`, with the data of one capability.
pub record Command {ℓ} (A : Type ℓ) : Type ℓ where
  pub envelope : EventEnvelope
  pub payload : A

-- `ClaimedWorkflow`.
pub record Claimed {ℓ} (A : Type ℓ) : Type ℓ where
  pub action : WorkflowAction
  pub command : Command A
  pub trace_context : ℕ
  pub stage : WorkflowStage
  pub attempt : ℕ
  pub stage_attempt : ℕ
  pub retry_started_at : Option ℕ
  pub fencing_token : ℕ
  pub provider_resource_id : Option String
  pub provider_task_reference : Option String

pub record Retry : Type 0 where
  pub attempt : ℕ
  pub started_at : ℕ
  pub error_category : String
  pub error_code : String

-- `'providerTaskReference' in input`: the key is left out, or holds a text or null.
pub data TaskReference : Type 0 where
  unchanged : TaskReference
  replaced : Option String → TaskReference

-- The arguments of `WorkflowStore.checkpoint`.
pub record Checkpoint : Type 0 where
  pub operation_id : ℕ
  pub worker_id : String
  pub fencing_token : ℕ
  pub stage : WorkflowStage
  pub provider_resource_id : Option String
  pub provider_task_reference : TaskReference
  pub next_attempt_at : Option ℕ
  pub retry : Option Retry
  pub event : WorkflowEvent

pub data CompletionStatus : Type 0 where
  succeeded failed manual_review : CompletionStatus

-- The arguments of `WorkflowStore.complete`.
pub record Completion : Type 0 where
  pub operation_id : ℕ
  pub worker_id : String
  pub fencing_token : ℕ
  pub status : CompletionStatus
  pub event : WorkflowEvent

-- The arguments of `WorkflowStore.deadLetterWorkflow`.
pub record DeadLetter : Type 0 where
  pub operation_id : ℕ
  pub worker_id : String
  pub fencing_token : ℕ
  pub attempts : ℕ
  pub failure_code : String
  pub safe_message : String
  pub last_error_category : String
  pub last_error_code : String
  pub event : WorkflowEvent

-- The call of the store that ends a step.
pub data StoreCall : Type 0 where
  checkpoint : Checkpoint → StoreCall
  complete : Completion → StoreCall
  dead_letter_workflow : DeadLetter → StoreCall

-- A thrown error: a `ProviderTransportError`, or any other, which is a bug of the process.
pub data Raised : Type 0 where
  transport : ProviderTransportError → Raised
  bug : String → Raised

pub data Result {ℓ} (A : Type ℓ) : Type ℓ where
  ok : A → Result A
  raise : Raised → Result A

-- A step makes provider calls, in order, and then returns or throws.
abbrev pub Step {ℓ} : Type ℓ → Type ℓ
Step A = List ProviderCall × Result A

module _ {ℓ} {A : Type ℓ} where
  abbrev pub pure : A → Step A
  pure a = ([], ok a)

  abbrev pub throw : Raised → Step A
  throw e = ([], raise e)

  abbrev pub of_answer : Answer A → Result A
  of_answer (Answer.answered a) = ok a
  of_answer (Answer.failed e) = raise (transport e)

  abbrev pub after : List ProviderCall → Step A → Step A
  after calls (more, result) = (calls ++ more, result)

module _ {ℓ κ} {A : Type ℓ} {B : Type κ} where
  abbrev pub bind_result : List ProviderCall → Result A → (A → Step B) → Step B
  bind_result calls (ok a) f = after calls (f a)
  bind_result calls (raise e) f = (calls, raise e)

  infixl 5 ◌>>=◌
  abbrev pub ◌>>=◌ : Step A → (A → Step B) → Step B
  (calls, result) >>= f = bind_result calls result f

-- The calls of the port: each is recorded, then made.
abbrev pub mutate : Provider → Mutation → Step (Option ProviderMutationResult)
mutate p m = (ProviderCall.mutation m ∷ [], of_answer (p.mutate m))

abbrev pub get_task : Provider → ProviderCallContext → String → Step GetTaskResponse
get_task p c reference =
    (ProviderCall.get_task c reference ∷ [], of_answer (p.get_task c reference))

abbrev pub observe_instance : Provider → InstanceRequest → Step (Option InstanceObservation)
observe_instance p r = (ProviderCall.observe_instance r ∷ [], of_answer (p.observe_instance r))

abbrev pub list_snapshots : Provider → InstanceRequest → Step (List String)
list_snapshots p r = (ProviderCall.list_snapshots r ∷ [], of_answer (p.list_snapshots r))
