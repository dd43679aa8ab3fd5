-- ===== src/Workflow/Evidence/Observations.antt =====
-- What a provider answer that leads to success must have shown, step by step.
use private_cloud_control_pl.Prelude.{◌≡◌, Option, none, some, List, String, true, false, arith}
use private_cloud_control_pl.Contracts.Events.{
  CreateRequested, PowerRequested, ResizeRequested, RetentionRequested, PurgeRequested,
}
use private_cloud_control_pl.Contracts.Provider.{
  Provider, InstanceObservation, ProviderMutationResult, Mutation,
}
use private_cloud_control_pl.Workflow.Stage.{WorkflowStage}
use private_cloud_control_pl.Workflow.Step.{
  Claimed, StoreCall, ok, pure, mutate, observe_instance, list_snapshots, Step, ◌>>=◌,
}
use private_cloud_control_pl.Workflow.Step.Rules.{Returns, Returns-mono}
use private_cloud_control_pl.Workflow.Step.Shapes.{
  Returns-mutation, Returns-answered, Returns-listed,
}
use private_cloud_control_pl.Workflow.Engine.{
  Traits, Env, instance_request, required_resource, progress, manual_review, succeed,
}
use private_cloud_control_pl.Workflow.Outcome.{handle_mutation_result, poll_task}
use private_cloud_control_pl.Workflow.Transitions.Results.{
  Lands, handle_mutation_result-Lands, poll_task-Lands,
}
use private_cloud_control_pl.Workflow.Create.{is_running, proves_running, observed_create}
use private_cloud_control_pl.Workflow.Power.{same_power_state, expected_power_state, observed_power}
use private_cloud_control_pl.Workflow.Resize.{disagrees, observed_resize}
use private_cloud_control_pl.Workflow.Retain.{observed_retention}
use private_cloud_control_pl.Workflow.Purge.{verified_ownership, observed_absence}
use private_cloud_control_pl.Workflow.Evidence.{Observed, Listed, Owned, Absent, IsSuccess}

required_resource-persisted :
    {A : Type 0} (t : Traits A) (env : Env) (wf : Claimed A) (r : String)
    → (required_resource t env wf).1 ≡ ok r
    → wf.provider_resource_id ≡ some r
unfolding required_resource
required_resource-persisted t env wf r h = ground arith

Lands-IsSuccess : (a b : WorkflowStage) (call : StoreCall) → Lands a b call → ¬ IsSuccess call
Lands-IsSuccess a b (StoreCall.checkpoint c) l h = h
Lands-IsSuccess a b (StoreCall.complete c) l h = l h
Lands-IsSuccess a b (StoreCall.dead_letter_workflow d) l h = h

module _ {A : Type 0} (t : Traits A) (env : Env) (provider : Provider) (wf : Claimed A) where
  module _ (E : Type 0) where
    abbrev Proves : StoreCall → Type 0
    Proves call = IsSuccess call → E

    pub handle_mutation_result-Proves :
        (a b : WorkflowStage) (x : Option ProviderMutationResult)
        → Proves (handle_mutation_result t env wf x a b)
    handle_mutation_result-Proves a b x h = absurd (
        Lands-IsSuccess a b (handle_mutation_result t env wf x a b)
          (handle_mutation_result-Lands t env wf x a b) h)

    pub mutation-Proves :
        (resource : Step String) (build : String → Mutation) (a b : WorkflowStage)
        → Returns Proves
            (resource >>= λ r.
              mutate provider (build r) >>= λ x. pure (handle_mutation_result t env wf x a b)).1
    mutation-Proves resource build a b =
        Returns-mutation Proves provider resource build (λ x. handle_mutation_result t env wf x a b)
          (handle_mutation_result-Proves a b)

    pub poll_task-Proves : (b : WorkflowStage) → Returns Proves (poll_task t env provider wf b).1
    poll_task-Proves b =
        Returns-mono (Lands wf.stage b) Proves (poll_task t env provider wf b).1
          (λ call l h. absurd (Lands-IsSuccess wf.stage b call l h))
          (poll_task-Lands t env provider wf b)

  pub observation-supports :
      (K : StoreCall → Type 0) (step : String) (Good : Option InstanceObservation → Type 0)
      (read : String → Option InstanceObservation → StoreCall)
      → ((r : String) (o : Option InstanceObservation) → K (read r o) → Good o)
      → Returns
          (λ call. K call → Observed t env provider wf Good)
          (required_resource t env wf >>= λ r.
            observe_instance provider (instance_request t env wf step r) >>= λ x. pure (read r x)).1
  observation-supports K step Good read h =
      Returns-answered (λ call. K call → Observed t env provider wf Good) provider
        (required_resource t env wf) (instance_request t env wf step) read
        λ r o persisted answered success. record {
          resource = r;
          persisted = required_resource-persisted t env wf r persisted;
          step = step;
          answer = o;
          answered = answered;
          good = h r o success;
        }

  pub listing-Proves :
      (step : String) (Good : List String → Type 0) (read : String → List String → StoreCall)
      → ((r : String) (names : List String) → IsSuccess (read r names) → Good names)
      → Returns
          (λ call. IsSuccess call → Listed t env provider wf Good)
          (required_resource t env wf >>= λ r.
            list_snapshots provider (instance_request t env wf step r) >>= λ x. pure (read r x)).1
  listing-Proves step Good read h =
      Returns-listed (λ call. IsSuccess call → Listed t env provider wf Good) provider
        (required_resource t env wf) (instance_request t env wf step) read
        λ r names persisted answered success. record {
          resource = r;
          persisted = required_resource-persisted t env wf r persisted;
          step = step;
          names = names;
          answered = answered;
          good = h r names success;
        }

pub observed_create-Owned :
    (env : Env) (wf : Claimed CreateRequested) (r : String) (o : Option InstanceObservation)
    → IsSuccess (observed_create env wf r o)
    → Owned (λ o. is_running o.power_state ≡ true) o
unfolding observed_create proves_running succeed manual_review
observed_create-Owned env wf r none h = cc
observed_create-Owned env wf r (some o) h = ground arith

pub observed_power-Owned :
    (env : Env) (wf : Claimed PowerRequested) (r : String) (o : Option InstanceObservation)
    → IsSuccess (observed_power env wf r o)
    → Owned
        (λ o.
          same_power_state o.power_state (expected_power_state wf.command.payload.action) ≡ true)
        o
unfolding observed_power succeed manual_review
observed_power-Owned env wf r none h = cc
observed_power-Owned env wf r (some o) h = ground arith

pub observed_resize-Owned :
    (env : Env) (wf : Claimed ResizeRequested) (r : String) (o : Option InstanceObservation)
    → IsSuccess (observed_resize env wf r o)
    → Owned (λ o. disagrees o.resources wf.command.payload.target_resources ≡ false) o
unfolding observed_resize succeed manual_review
observed_resize-Owned env wf r none h = cc
observed_resize-Owned env wf r (some o) h = ground arith

pub observed_retention-Owned :
    (env : Env) (wf : Claimed RetentionRequested) (r : String) (o : Option InstanceObservation)
    → IsSuccess (observed_retention env wf r o)
    → Owned (λ o. Unit) o
unfolding observed_retention succeed manual_review
observed_retention-Owned env wf r none h = cc
observed_retention-Owned env wf r (some o) h = ground arith

pub observed_absence-Absent :
    (env : Env) (wf : Claimed PurgeRequested) (r : String) (o : Option InstanceObservation)
    → IsSuccess (observed_absence env wf r o)
    → Absent o
unfolding observed_absence succeed manual_review
observed_absence-Absent env wf r none h = tt
observed_absence-Absent env wf r (some o) h = ground arith

pub verified_ownership-Absent :
    (env : Env) (wf : Claimed PurgeRequested) (r : String) (o : Option InstanceObservation)
    → IsSuccess (verified_ownership env wf r o)
    → Absent o
unfolding verified_ownership succeed manual_review progress
verified_ownership-Absent env wf r none h = tt
verified_ownership-Absent env wf r (some o) h = ground arith
