-- ===== src/Workflow/Recovery/Policy.antt =====
-- packages/application/src/lifecycle-workflow.ts, `retryOrDeadLetter`: the bounds that the retry
-- policy keeps.
use native.Mathlib.Nat.{le_trans, mul-le-mul_right}
use private_cloud_control_pl.Prelude.{
  ◌≡◌, ℕ, ◌+◌, ◌*◌, ◌/◌, ◌-◌, ◌≤◌, ◌<◌, ◌⊎◌, min, true, false, ◌||◌, Option, none, some, inl, inr,
  refl, subst, arith, Bool-cases, ltb, leb, ◌==◌, ltb→lt,
}
use private_cloud_control_pl.Contracts.Provider.{ProviderTransportError}
use private_cloud_control_pl.Workflow.Step.{Claimed, StoreCall, Retry, ok}
use private_cloud_control_pl.Workflow.Step.Rules.{Returns, Returns-ok}
use private_cloud_control_pl.Workflow.Engine.{
  Env, Traits, Sample, fraction, invalid, sample_scale, maximum_retry_attempts, retry_budget_ms,
  retry_backoff_ceiling_ms, progress,
}
use private_cloud_control_pl.Workflow.Recovery.{
  retry_or_dead_letter, retry_or_refuse, backoff, dead_letter, jitter, exponential_ceiling,
  is_exhausted, retry_started, remaining_budget_ms,
}

-- `at` is a moment within the longest backoff from now, and within the budget.
abbrev pub IsRetryTime : ℕ → ℕ → Option ℕ → Type 0
IsRetryTime now started none = ⊥
IsRetryTime now started (some at) =
    (now ≤ at) × (at ≤ now + retry_backoff_ceiling_ms) × (at ≤ started + retry_budget_ms)

abbrev pub IsNextRetry : ℕ → ℕ → Option Retry → Type 0
IsNextRetry attempt started none = ⊥
IsNextRetry attempt started (some r) =
    (r.attempt ≡ attempt) × (attempt < maximum_retry_attempts) × (r.started_at ≡ started)

-- A retry within its bounds, or a dead letter once one of them is reached.
abbrev pub IsBounded {ℓ} : {A : Type ℓ} → Env → Claimed A → StoreCall → Type 0
IsBounded env wf (StoreCall.checkpoint c) =
    (c.stage ≡ wf.stage)
    × IsNextRetry (wf.stage_attempt + 1) (retry_started env wf) c.retry
    × IsRetryTime env.now (retry_started env wf) c.next_attempt_at
IsBounded env wf (StoreCall.complete c) = ⊥
IsBounded env wf (StoreCall.dead_letter_workflow d) =
    (d.attempts ≡ wf.stage_attempt + 1)
    × ((maximum_retry_attempts ≤ wf.stage_attempt + 1)
        ⊎ (retry_started env wf + retry_budget_ms ≤ env.now))

exponential_ceiling_bound : (n : ℕ) → exponential_ceiling n ≤ retry_backoff_ceiling_ms
unfolding exponential_ceiling
exponential_ceiling_bound n = omega arith

share_bound : (k c : ℕ) → k < sample_scale → k * c / sample_scale ≤ c
share_bound k c h =
    let scaled : k * c ≤ sample_scale * c = mul-le-mul_right c (omega arith) in omega arith

-- A delay that is drawn never exceeds the ceiling.
pub jitter_bound : (r : Sample) (ceiling j : ℕ) → jitter r ceiling ≡ some j → j ≤ ceiling
unfolding jitter
jitter_bound (fraction k) ceiling j h = elim (Bool-cases (ltb k sample_scale)) [
  | inl in_range ↦
      let drawn : k * ceiling / sample_scale ≡ j = cc (rw in_range at h) in
      subst (λ v. v ≤ ceiling) drawn (share_bound k ceiling (ltb→lt k sample_scale in_range))
  | inr out ↦ cc (rw out at h)
]
jitter_bound invalid ceiling j h = cc

-- The two tests of `is_exhausted`, on plain numbers.
exhausted_reason :
    (n started now : ℕ)
    → (leb maximum_retry_attempts n || (started + retry_budget_ms - now == 0)) ≡ true
    → (maximum_retry_attempts ≤ n) ⊎ (started + retry_budget_ms ≤ now)
exhausted_reason n started now h = ground arith

attempts_left :
    (n started now : ℕ)
    → (leb maximum_retry_attempts n || (started + retry_budget_ms - now == 0)) ≡ false
    → n < maximum_retry_attempts
attempts_left n started now h = ground arith

-- The moment of a retry that is drawn while some budget remains.
min-IsRetryTime :
    (j n started now : ℕ)
    → j ≤ retry_backoff_ceiling_ms
    → (leb maximum_retry_attempts n || (started + retry_budget_ms - now == 0)) ≡ false
    → IsRetryTime now started (some (now + min j (started + retry_budget_ms - now)))
min-IsRetryTime j n started now h left = ground arith

module _ {A : Type 0} (t : Traits A) (env : Env) (wf : Claimed A)
    (error : ProviderTransportError) where
  retry_or_refuse-IsBounded :
      (r : Option ℕ)
      → ((j : ℕ) → r ≡ some j → j ≤ retry_backoff_ceiling_ms)
      → is_exhausted env wf ≡ false
      → Returns (IsBounded env wf) (
          retry_or_refuse t env wf error
            (wf.stage_attempt + 1)
            (retry_started env wf)
            (remaining_budget_ms env wf)
            r)
  unfolding retry_or_refuse backoff progress
  retry_or_refuse-IsBounded none h left = tt
  retry_or_refuse-IsBounded (some j) h left = (
    refl,
    (refl, attempts_left (wf.stage_attempt + 1) (retry_started env wf) env.now left, refl),
    min-IsRetryTime j (wf.stage_attempt + 1) (retry_started env wf) env.now (h j refl) left,
  )

retry_or_dead_letter-Returns :
    {A : Type 0} (t : Traits A) (env : Env) (wf : Claimed A) (error : ProviderTransportError)
    → Returns (IsBounded env wf) (retry_or_dead_letter t env wf error)
unfolding retry_or_dead_letter dead_letter
retry_or_dead_letter-Returns t env wf error = elim (Bool-cases (is_exhausted env wf)) [
  | inl over ↦
      rw over (refl, exhausted_reason (wf.stage_attempt + 1) (retry_started env wf) env.now over)
  | inr left ↦ rw left (
      retry_or_refuse-IsBounded t env wf error
        (jitter env.random (exponential_ceiling (wf.stage_attempt + 1)))
        (λ j drawn.
          le_trans (jitter_bound env.random (exponential_ceiling (wf.stage_attempt + 1)) j drawn)
            (exponential_ceiling_bound (wf.stage_attempt + 1)))
        left)
]

-- A retryable failure of the provider is retried at its stage, at most 7 times, each time at a moment
-- within 30 s and within 15 minutes of the first failure; and the workflow is dead-lettered only when
-- the eighth attempt is reached or the 15 minutes are over.
pub retry_or_dead_letter-IsBounded :
    {A : Type 0} (t : Traits A) (env : Env) (wf : Claimed A) (error : ProviderTransportError)
    (call : StoreCall)
    → retry_or_dead_letter t env wf error ≡ ok call
    → IsBounded env wf call
retry_or_dead_letter-IsBounded t env wf error call returned =
    Returns-ok (IsBounded env wf) (retry_or_dead_letter t env wf error) call returned
      (retry_or_dead_letter-Returns t env wf error)
