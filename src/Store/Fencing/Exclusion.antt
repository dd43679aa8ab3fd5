-- ===== src/Store/Fencing/Exclusion.antt =====
-- Who may claim an instance, who may write, and what a write touches.
use private_cloud_control_pl.Prelude.{
  ◌≡◌, ◌≢◌, ◌<◌, ◌≤◌, ◌⊎◌, ℕ, ◌+◌, String, str_eq_iff, Bool, true, false, ◌&&◌, leb, leb→le, Has,
  [], ◌∷◌, refl, Option, none, some, List, inl, inr, sym, ap, ◌∙◌, subst, arith, Bool-cases,
}
use private_cloud_control_pl.Workflow.Stage.{WorkflowAction, action_eq}
use private_cloud_control_pl.Workflow.Step.{Command, Claimed, StoreCall, ok}
use private_cloud_control_pl.Store.Rows.{WorkflowRow, LeaseRow, Database}
use private_cloud_control_pl.Store.Lease.{
  find_lease, upsert_lease, upsert_found, may_take, claim_next, ready_workflow, is_ready,
  is_live_status, may_lease, is_before, earlier,
}
use private_cloud_control_pl.Store.Writes.{Fresh, write}
use private_cloud_control_pl.Store.Fencing.{
  lease_token, token_of, row_instance, instance_of, call_operation, call_worker, call_token, Steps,
}
use private_cloud_control_pl.Store.Fencing.Tokens.{upsert_lease-Taken}
use private_cloud_control_pl.Store.Fencing.Holder.{IsHeld, write-Written}
use private_cloud_control_pl.Store.Fencing.Claims.{Issued, claim_next-Moved}
use private_cloud_control_pl.Store.Fencing.Order.{Steps-token_of, Steps-instance_of}

-- No other worker holds an unexpired lease.
abbrev pub IsFree : String → ℕ → Option LeaseRow → Type 0
IsFree worker now none = Unit
IsFree worker now (some lease) = (lease.leased_until ≤ now) ⊎ (lease.owner_id ≡ worker)

may_take-IsFree :
    (worker : String) (now : ℕ) (lease : LeaseRow)
    → may_take worker now lease ≡ true
    → IsFree worker now (some lease)
may_take-IsFree worker now lease h = ground (arith, str_eq_iff lease.owner_id worker)

upsert_found-IsFree :
    (worker : String) (seconds now instance token : ℕ) (leases after : List LeaseRow)
    (o : Option LeaseRow)
    → upsert_found worker seconds now instance leases o ≡ some (token, after)
    → IsFree worker now o
upsert_found-IsFree worker seconds now instance token leases after none h = tt
upsert_found-IsFree worker seconds now instance token leases after (some lease) h =
    elim (Bool-cases (may_take worker now lease)) [
      | inl e ↦ may_take-IsFree worker now lease e
      | inr e ↦ cc (rw e at h)
    ]

-- The lease of a claim, of the instance of a row of the store that was due: free for the worker before,
-- and with the next token of its instance after.
pub record NewClaim {A : Type 0} (worker : String) (now : ℕ) (claim : Claimed A)
    (db after : Database A) : Type 0 where
  pub row : WorkflowRow A
  pub listed : Has row db.workflows
  pub due : row.next_attempt_at ≤ now
  pub command : claim.command ≡ row.command
  pub action : claim.action ≡ row.action
  pub free : IsFree worker now (find_lease row.instance_id db.leases)
  pub next : claim.fencing_token ≡ token_of row.instance_id db.leases + 1
  pub newest : token_of row.instance_id after.leases ≡ claim.fencing_token

-- The row that is ready is one of the table's, and due.
ready_workflow-Has :
    {A : Type 0} (worker : String) (now : ℕ) (action : WorkflowAction) (leases : List LeaseRow)
    (rows : List (WorkflowRow A)) (row : WorkflowRow A)
    → ready_workflow worker now action leases rows ≡ some row
    → Has row rows × (row.next_attempt_at ≤ now)
unfolding ready_workflow
ready_workflow-Has worker now action leases [] row h = cc
ready_workflow-Has {A = A} worker now action leases (r ∷ rows) row h =
    elim (Bool-cases (is_ready worker now action leases r)) [
      | inr other ↦ later (ready_workflow-Has worker now action leases rows row (rw other at h))
      | inl ready ↦
          by_rest ready (ready_workflow worker now action leases rows)
            (ready_workflow-Has worker now action leases rows) (rw ready at h)
    ]
  where
    later :
        Has row rows × (row.next_attempt_at ≤ now)
        → Has row (r ∷ rows) × (row.next_attempt_at ≤ now)
    later (there, due) = (inr there, due)

    third : (a b c d : Bool) → (a && b && c && d) ≡ true → c ≡ true
    third true true true d h = refl
    third true true false d h = cc
    third true false c d h = cc
    third false b c d h = cc

    is_due : is_ready worker now action leases r ≡ true → r.next_attempt_at ≤ now
    is_due ready = leb→le r.next_attempt_at now (
        third (action_eq r.action action) (is_live_status r.status) (leb r.next_attempt_at now)
          (may_lease worker now (find_lease r.instance_id leases)) ready)

    here :
        is_ready worker now action leases r ≡ true
        → r ≡ row
        → Has row (r ∷ rows) × (row.next_attempt_at ≤ now)
    here ready same =
        (inl same, subst (λ (x : WorkflowRow A). x.next_attempt_at ≤ now) same (is_due ready))

    by_rest :
        is_ready worker now action leases r ≡ true
        → (o : Option (WorkflowRow A))
        → ((x : WorkflowRow A) → o ≡ some x → Has x rows × (x.next_attempt_at ≤ now))
        → some (earlier r o) ≡ some row
        → Has row (r ∷ rows) × (row.next_attempt_at ≤ now)
    by_rest ready none rest e = here ready (cc)
    by_rest ready (some x) rest e = elim (Bool-cases (is_before r x)) [
      | inl first ↦ here ready (cc (rw first at e))
      | inr second ↦ let same : x ≡ row = cc (rw second at e) in later (rest row (ap some same))
    ]

held_token :
    (worker : String) (token now : ℕ) (o : Option LeaseRow)
    → IsHeld worker token now o
    → lease_token o ≡ token
held_token worker token now none h = absurd h
held_token worker token now (some lease) (owner, same, live) = same

module _ {A : Type 0} (valid : WorkflowAction → Command A → Bool) where
  -- A claim is issued only for a row of the store whose next attempt is due, with its command and action,
  -- and only where no other worker holds an unexpired lease on the row's instance; the fencing token of
  -- the claim is the next after the one that this instance's lease had, and the one that it has then.
  pub claim_next-NewClaim :
      (worker : String) (seconds : ℕ) (action : WorkflowAction) (now : ℕ) (claim : Claimed A)
      (db after : Database A)
      → claim_next valid worker seconds action now db ≡ ok (some claim, after)
      → NewClaim worker now claim db after
  claim_next-NewClaim worker seconds action now claim db after made =
      let h : Issued worker seconds action now claim db after =
        claim_next-Moved valid worker seconds action now db after (some claim) made in
      let ready = ready_workflow-Has worker now action db.leases db.workflows h.row h.ready in
      let t =
        upsert_lease-Taken worker seconds now h.row.instance_id db.leases h.token h.leases
          h.taken in
      record {
        row = h.row;
        listed = ready.0;
        due = ready.1;
        command = h.claim_command;
        action = h.claim_action;
        free =
            upsert_found-IsFree worker seconds now h.row.instance_id h.token db.leases h.leases
              (find_lease h.row.instance_id db.leases) (unfold upsert_lease in h.taken);
        next = h.claim_token ∙ t.issued;
        newest = ap (token_of h.row.instance_id) h.after_leases ∙ t.stored ∙ sym h.claim_token;
      }

module _ {A : Type 0} (strict : Bool) (valid : WorkflowAction → Command A → Bool) where
  -- Once an instance has a newer token, a write for an operation on it under an older token is refused:
  -- at once, and after any number of further claims, writes, admissions of commands and of replay
  -- requests, dead letters and quarantines, whoever makes it and however long the worker was away.
  pub write_superseded :
      (fresh : Fresh) (call : StoreCall) (now i : ℕ) (db later after : Database A)
      → instance_of (call_operation call) db ≡ some i
      → call_token call < token_of i db.leases
      → Steps strict valid db later
      → write strict valid fresh call now later ≢ ok after
  write_superseded fresh call now i db later after here older steps made =
      let w = write-Written strict valid fresh call now later after made in
      let there : some w.row.instance_id ≡ some i =
        sym (ap row_instance w.asserted.found)
        ∙ Steps-instance_of strict valid (call_operation call) i db later steps here in
      let same : w.row.instance_id ≡ i = cc in
      let held : token_of i later.leases ≡ call_token call =
        subst (λ j. token_of j later.leases ≡ call_token call) same
          (held_token (call_worker call) (call_token call) now
            (find_lease w.row.instance_id later.leases) w.asserted.held) in
      let grown = Steps-token_of strict valid i db later steps in absurd (omega arith)
