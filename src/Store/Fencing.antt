-- ===== src/Store/Fencing.antt =====
-- The fence: what the tokens of the leases allow a worker to write.
pub mod Tokens
pub mod Holder
pub mod Claims
pub mod Order
pub mod Arrivals
pub mod Requests
pub mod Exclusion
pub mod Isolation
pub use private_cloud_control_pl.Workflow.Address.{call_operation, call_worker, call_token}
use private_cloud_control_pl.Prelude.{
  ◌≡◌, ◌<◌, ℕ, String, Bool, true, false, Option, none, some, List, [], ◌∷◌, ltb,
}
use private_cloud_control_pl.Workflow.Stage.{WorkflowAction}
use private_cloud_control_pl.Workflow.Step.{Command, Claimed, StoreCall, Result, ok}
use private_cloud_control_pl.Store.Rows.{WorkflowRow, LeaseRow, Delivery, ReplayRequest, Database}
use private_cloud_control_pl.Store.Lease.{find_lease, find_workflow, claim_next}
use private_cloud_control_pl.Store.Writes.{Fresh, write}
use private_cloud_control_pl.Store.Inbox.{CommandAdmission}
use private_cloud_control_pl.Store.Admission.{LifecycleCommand, admit_command}
use private_cloud_control_pl.Store.Authorization.{
  ReplayIds, ReplayDecision, admit_replay_request, LetterInput, dead_letter_command,
  quarantine_record,
}

-- The newest token of an instance: 0 before its first lease.
abbrev pub lease_token : Option LeaseRow → ℕ
lease_token none = 0
lease_token (some lease) = lease.fencing_token

abbrev pub token_of : ℕ → List LeaseRow → ℕ
token_of instance leases = lease_token (find_lease instance leases)

abbrev pub row_instance {ℓ} : {A : Type ℓ} → Option (WorkflowRow A) → Option ℕ
row_instance none = none
row_instance (some row) = some row.instance_id

-- The instance of an operation that the store knows.
abbrev pub instance_of {ℓ} : {A : Type ℓ} → ℕ → Database A → Option ℕ
instance_of operation db = row_instance (find_workflow operation db.workflows)

-- Any number of transactions of the store, at any moments: claims and writes, of any workers, and the
-- admission of commands, of requests for replays and of dead letters, whatever the hashes and the
-- validator of stored requests are.
pub data Steps {A : Type 0} (strict : Bool) (valid : WorkflowAction → Command A → Bool)
    : Database A → Database A → Type 0 where
  done : {db : Database A} → Steps strict valid db db
  claims :
      (worker : String) (seconds : ℕ) (action : WorkflowAction) (now : ℕ)
      (claim : Option (Claimed A)) (db after later : Database A)
      → claim_next valid worker seconds action now db ≡ ok (claim, after)
      → Steps strict valid after later
      → Steps strict valid db later
  writes :
      (fresh : Fresh) (call : StoreCall) (now : ℕ) (db after later : Database A)
      → write strict valid fresh call now db ≡ ok after
      → Steps strict valid after later
      → Steps strict valid db later
  admits :
      (valid_request : ReplayRequest → Bool) (hash : Command A → ℕ) (input : LifecycleCommand A)
      (delivery : Delivery) (now : ℕ) (admission : CommandAdmission) (db after later : Database A)
      → admit_command strict valid_request hash input delivery now db ≡ ok (admission, after)
      → Steps strict valid after later
      → Steps strict valid db later
  requests :
      (hash : Command A → ℕ) (request_hash : ReplayRequest → ℕ) (ids : ReplayIds)
      (request : ReplayRequest) (delivery : Delivery) (now : ℕ) (decision : ReplayDecision)
      (db after later : Database A)
      → admit_replay_request strict valid hash request_hash ids request delivery now db
        ≡ ok (decision, after)
      → Steps strict valid after later
      → Steps strict valid db later
  letters :
      (hash : Command A → ℕ) (input : LifecycleCommand A) (delivery : Delivery)
      (letter : LetterInput) (dead_letter_event_id audit_id now : ℕ) (db later : Database A)
      → Steps strict valid
          (dead_letter_command hash input delivery letter dead_letter_event_id audit_id now db).1
          later
      → Steps strict valid db later
  quarantines :
      (delivery : Delivery) (payload_hash : ℕ) (code message : String) (now : ℕ)
      (db later : Database A)
      → Steps strict valid (quarantine_record delivery payload_hash code message now db).1 later
      → Steps strict valid db later
