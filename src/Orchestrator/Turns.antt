-- ===== src/Orchestrator/Turns.antt =====
-- The turn of a worker that was superseded.
use private_cloud_control_pl.Prelude.{
  ◌≡◌, ◌≢◌, ◌<◌, ℕ, Bool, Option, none, some, sym, ap, ◌∙◌, subst,
}
use private_cloud_control_pl.Contracts.Provider.{Provider}
use private_cloud_control_pl.Workflow.Stage.{WorkflowAction}
use private_cloud_control_pl.Workflow.Step.{Command, Claimed, StoreCall, ok}
use private_cloud_control_pl.Workflow.Engine.{Env}
use private_cloud_control_pl.Workflow.Recovery.{run_claimed}
use private_cloud_control_pl.Workflow.Executors.{
  Executor, Payload, executor, CommandData, payload_of,
}
use private_cloud_control_pl.Workflow.Address.Turn.{run_claimed-IsAddressed}
use private_cloud_control_pl.Store.Rows.{Database}
use private_cloud_control_pl.Store.Writes.{Fresh, write}
use private_cloud_control_pl.Store.Fencing.{token_of, instance_of, Steps}
use private_cloud_control_pl.Store.Fencing.Exclusion.{write_superseded}
use private_cloud_control_pl.Orchestrator.{with_payload, narrowed}

module _ {A : Type 0} (claim : Claimed CommandData) (wf : Claimed A) where
  -- What is narrowed keeps the operation and the token of its claim.
  narrowed-kept :
      (o : Option A)
      → with_payload claim o ≡ some wf
      → (wf.command.envelope.operation_id ≡ claim.command.envelope.operation_id)
        × (wf.fencing_token ≡ claim.fencing_token)
  narrowed-kept none e = cc
  narrowed-kept (some payload) e = (cc, cc)

module _ (strict : Bool) (x : Executor) (valid : WorkflowAction → Command CommandData → Bool) where
  -- A worker whose claim has been superseded, in that the lease of its operation's instance has a newer
  -- token than the claim, has the write that its turn asks for refused: whatever its executor did and
  -- the provider answered, and whatever claims, writes, admissions of commands and of replay requests,
  -- dead letters and quarantines, for whichever actions, the store has committed since then.
  pub run_claimed_superseded :
      (env : Env) (provider : Provider) (claim : Claimed CommandData) (wf : Claimed (Payload x))
      (call : StoreCall) (fresh : Fresh) (now i : ℕ) (db later after : Database CommandData)
      → narrowed x claim ≡ some wf
      → (run_claimed (executor x) env provider wf).1 ≡ ok call
      → instance_of claim.command.envelope.operation_id db ≡ some i
      → claim.fencing_token < token_of i db.leases
      → Steps strict valid db later
      → write strict valid fresh call now later ≢ ok after
  run_claimed_superseded env provider claim wf call fresh now i db later after read returned here
        older steps =
      let (operation, worker, token) = run_claimed-IsAddressed x env provider wf call returned in
      let (same_operation, same_token) =
        narrowed-kept claim wf (payload_of x claim.command.payload) read in
      write_superseded strict valid fresh call now i db later after
        (ap (λ o. instance_of o db) (operation ∙ same_operation) ∙ here)
        (subst (λ t. t < token_of i db.leases) (sym (token ∙ same_token)) older) steps
