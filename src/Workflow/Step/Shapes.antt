-- ===== src/Workflow/Step/Shapes.antt =====
-- The two shapes of a step that calls the provider: a mutation and an observation, each behind the
-- check of the resource identifier.
use private_cloud_control_pl.Prelude.{◌≡◌, refl, Option, List, [], ◌∷◌, String}
use private_cloud_control_pl.Contracts.Provider.{
  Mutation, InstanceRequest, InstanceObservation, ProviderMutationResult, Provider, Answer,
  ProviderCall,
}
use private_cloud_control_pl.Workflow.Step.{
  StoreCall, Step, ok, raise, bind_result, of_answer, pure, mutate, observe_instance,
  list_snapshots, ◌>>=◌,
}
use private_cloud_control_pl.Workflow.Step.Rules.{Returns, Returns-bind}

module _ (P : StoreCall → Type 0) (provider : Provider) (resource : Step String) where
  pub Returns-mutation :
      (build : String → Mutation) (read : Option ProviderMutationResult → StoreCall)
      → ((result : Option ProviderMutationResult) → P (read result))
      → Returns P (resource >>= λ r. mutate provider (build r) >>= λ x. pure (read x)).1
  Returns-mutation build read h =
      Returns-bind P resource (λ r. mutate provider (build r) >>= λ x. pure (read x))
        λ r. Returns-bind P (mutate provider (build r)) (λ x. pure (read x)) h

  pub Returns-observation :
      (build : String → InstanceRequest) (read : String → Option InstanceObservation → StoreCall)
      → ((r : String) (o : Option InstanceObservation) → P (read r o))
      → Returns P (resource >>= λ r. observe_instance provider (build r) >>= λ x. pure (read r x)).1
  Returns-observation build read h =
      Returns-bind P resource (λ r. observe_instance provider (build r) >>= λ x. pure (read r x))
        λ r. Returns-bind P (observe_instance provider (build r)) (λ x. pure (read r x)) (h r)

  pub Returns-listing :
      (build : String → InstanceRequest) (read : String → List String → StoreCall)
      → ((r : String) (names : List String) → P (read r names))
      → Returns P (resource >>= λ r. list_snapshots provider (build r) >>= λ x. pure (read r x)).1
  Returns-listing build read h =
      Returns-bind P resource (λ r. list_snapshots provider (build r) >>= λ x. pure (read r x))
        λ r. Returns-bind P (list_snapshots provider (build r)) (λ x. pure (read r x)) (h r)

-- The same rules for a reading that may use what the provider answered.
module _ (P : StoreCall → Type 0) (provider : Provider) where
  answered_observation :
      (request : InstanceRequest) (read : Option InstanceObservation → StoreCall)
      (answer : Answer (Option InstanceObservation))
      → ((o : Option InstanceObservation) → answer ≡ Answer.answered o → P (read o))
      → Returns P
          (bind_result
            (ProviderCall.observe_instance request ∷ [])
            (of_answer answer)
            (λ x. pure (read x))).1
  answered_observation request read (Answer.answered o) h = h o refl
  answered_observation request read (Answer.failed e) h = tt

  answered_listing :
      (request : InstanceRequest) (read : List String → StoreCall) (answer : Answer (List String))
      → ((names : List String) → answer ≡ Answer.answered names → P (read names))
      → Returns P
          (bind_result
            (ProviderCall.list_snapshots request ∷ [])
            (of_answer answer)
            (λ x. pure (read x))).1
  answered_listing request read (Answer.answered o) h = h o refl
  answered_listing request read (Answer.failed e) h = tt

  pub Returns-answered :
      (resource : Step String) (build : String → InstanceRequest)
      (read : String → Option InstanceObservation → StoreCall)
      → ((r : String) (o : Option InstanceObservation)
          → resource.1 ≡ ok r
          → provider.observe_instance (build r) ≡ Answer.answered o
          → P (read r o))
      → Returns P (resource >>= λ r. observe_instance provider (build r) >>= λ x. pure (read r x)).1
  Returns-answered (calls, ok r) build read h =
      answered_observation (build r) (read r) (provider.observe_instance (build r))
        (λ o. h r o refl)
  Returns-answered (calls, raise e) build read h = tt

  pub Returns-listed :
      (resource : Step String) (build : String → InstanceRequest)
      (read : String → List String → StoreCall)
      → ((r : String) (names : List String)
          → resource.1 ≡ ok r
          → provider.list_snapshots (build r) ≡ Answer.answered names
          → P (read r names))
      → Returns P (resource >>= λ r. list_snapshots provider (build r) >>= λ x. pure (read r x)).1
  Returns-listed (calls, ok r) build read h =
      answered_listing (build r) (read r) (provider.list_snapshots (build r)) (λ o. h r o refl)
  Returns-listed (calls, raise e) build read h = tt
