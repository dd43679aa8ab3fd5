-- ===== src/Store/Fencing/Order.antt =====
-- Tokens over time: they only grow, so that a worker that was superseded can never write again.
use private_cloud_control_pl.Prelude.{
  ◌≡◌, ◌≤◌, ℕ, ◌==◌, ==_iff, String, Bool, false, Option, none, some, List, inl, inr, refl, sym, ap,
  ◌∙◌, subst, arith, Bool-cases,
}
use private_cloud_control_pl.Workflow.Stage.{WorkflowAction}
use private_cloud_control_pl.Workflow.Step.{Command, Claimed, StoreCall, ok}
use private_cloud_control_pl.Store.Rows.{LeaseRow, Delivery, ReplayRequest, Database}
use private_cloud_control_pl.Store.Inbox.{CommandAdmission}
use private_cloud_control_pl.Store.Admission.{LifecycleCommand, admit_command}
use private_cloud_control_pl.Store.Authorization.{
  ReplayIds, ReplayDecision, admit_replay_request, dead_letter_command, quarantine_record,
}
use private_cloud_control_pl.Store.Fencing.Arrivals.{IsFenced, Fenced-ok, admit_command-Fenced}
use private_cloud_control_pl.Store.Fencing.Requests.{
  admit_replay_request-Fenced, dead_letter_command-Fenced, quarantine_record-Fenced,
}
use private_cloud_control_pl.Store.Lease.{of_operation, find_workflow, claimed_row}
use private_cloud_control_pl.Store.Writes.{of_claim}
use private_cloud_control_pl.Store.Fencing.{
  token_of, row_instance, instance_of, call_operation, call_worker, call_token, Steps, done, claims,
  writes, admits, requests, letters, quarantines,
}
use private_cloud_control_pl.Store.Fencing.Tokens.{
  Taken, upsert_lease-Taken, release_lease-token_of,
}
use private_cloud_control_pl.Store.Fencing.Holder.{Written, write-Written, edited-instance_of}
use private_cloud_control_pl.Store.Fencing.Claims.{Issued, Moved, claim_next-Moved}

Taken-token_of :
    (i instance token : ℕ) (leases after : List LeaseRow)
    → Taken instance leases token after
    → token_of i leases ≤ token_of i after
Taken-token_of i instance token leases after t = elim (Bool-cases (i == instance)) [
  | inl e ↦
      let same : i ≡ instance = (==_iff i instance).0 e in
      subst (λ j. token_of j leases ≤ token_of j after) (sym same)
        (rw (t.stored, t.issued) (omega arith))
  | inr e ↦ rw (t.others i (λ same. absurd (different i instance same e))) (omega arith)
]
  where
    different : (a b : ℕ) → a ≡ b → (a == b) ≡ false → ⊥
    different a b same e = ground arith

module _ {A : Type 0} where
  Issued-token_of :
      (i : ℕ) (worker : String) (seconds : ℕ) (action : WorkflowAction) (now : ℕ)
      (claim : Claimed A) (db after : Database A)
      → Issued worker seconds action now claim db after
      → token_of i db.leases ≤ token_of i after.leases
  Issued-token_of i worker seconds action now claim db after h = rw h.after_leases (
      Taken-token_of i h.row.instance_id h.token db.leases h.leases (
        upsert_lease-Taken worker seconds now h.row.instance_id db.leases h.token h.leases h.taken))

  Written-token_of :
      (i : ℕ) (call : StoreCall) (now : ℕ) (db after : Database A)
      → Written call now db after
      → token_of i after.leases ≡ token_of i db.leases
  Written-token_of i call now db after h =
      ap (token_of i) h.leases
      ∙ release_lease-token_of i h.row.instance_id (call_worker call) (call_token call) now
          db.leases

  Issued-instance_of :
      (operation : ℕ) (worker : String) (seconds : ℕ) (action : WorkflowAction) (now : ℕ)
      (claim : Claimed A) (db after : Database A)
      → Issued worker seconds action now claim db after
      → instance_of operation after ≡ instance_of operation db
  Issued-instance_of operation worker seconds action now claim db after h =
      ap (λ rows. row_instance (find_workflow operation rows)) h.after_workflows
      ∙ edited-instance_of operation (of_operation h.row.operation_id) (claimed_row h.token now)
          db.workflows (record { operation = λ r. refl; instance_kept = λ r. refl })

  Written-instance_of :
      (operation : ℕ) (call : StoreCall) (now : ℕ) (db after : Database A)
      → Written call now db after
      → instance_of operation after ≡ instance_of operation db
  Written-instance_of operation call now db after h =
      ap (λ rows. row_instance (find_workflow operation rows)) h.workflows
      ∙ edited-instance_of operation (of_claim (call_operation call) (call_token call)) h.edit
          db.workflows h.keeps

  Moved-token_of :
      (i : ℕ) (worker : String) (seconds : ℕ) (action : WorkflowAction) (now : ℕ)
      (claim : Option (Claimed A)) (db after : Database A)
      → Moved worker seconds action now claim db after
      → token_of i db.leases ≤ token_of i after.leases
  Moved-token_of i worker seconds action now none db after h =
      subst (λ (d : Database A). token_of i db.leases ≤ token_of i d.leases) h (omega arith)
  Moved-token_of i worker seconds action now (some claim) db after h =
      Issued-token_of i worker seconds action now claim db after h

  Moved-instance_of :
      (operation : ℕ) (worker : String) (seconds : ℕ) (action : WorkflowAction) (now : ℕ)
      (claim : Option (Claimed A)) (db after : Database A)
      → Moved worker seconds action now claim db after
      → instance_of operation after ≡ instance_of operation db
  Moved-instance_of operation worker seconds action now none db after h =
      ap (instance_of operation) (sym h)
  Moved-instance_of operation worker seconds action now (some claim) db after h =
      Issued-instance_of operation worker seconds action now claim db after h

module _ {A : Type 0} where
  fenced_token :
      (i : ℕ) (db after later : Database A)
      → IsFenced db after
      → token_of i after.leases ≤ token_of i later.leases
      → token_of i db.leases ≤ token_of i later.leases
  fenced_token i db after later (leases, known) h =
      subst (λ l. token_of i l ≤ token_of i later.leases) leases h

  admitted :
      (strict : Bool) (valid_request : ReplayRequest → Bool) (hash : Command A → ℕ)
      (input : LifecycleCommand A) (delivery : Delivery) (now : ℕ) (admission : CommandAdmission)
      (db after : Database A)
      → admit_command strict valid_request hash input delivery now db ≡ ok (admission, after)
      → IsFenced db after
  admitted strict valid_request hash input delivery now admission db after made =
      Fenced-ok db after (admit_command strict valid_request hash input delivery now db) admission
        (admit_command-Fenced strict valid_request hash input delivery now db) made

  requested :
      (strict : Bool) (valid : WorkflowAction → Command A → Bool) (hash : Command A → ℕ)
      (request_hash : ReplayRequest → ℕ) (ids : ReplayIds) (request : ReplayRequest)
      (delivery : Delivery) (now : ℕ) (decision : ReplayDecision) (db after : Database A)
      → admit_replay_request strict valid hash request_hash ids request delivery now db
        ≡ ok (decision, after)
      → IsFenced db after
  requested strict valid hash request_hash ids request delivery now decision db after made =
      Fenced-ok db after
        (admit_replay_request strict valid hash request_hash ids request delivery now db) decision
        (admit_replay_request-Fenced strict valid hash request_hash ids request now delivery db)
        made

module _ {A : Type 0} (strict : Bool) (valid : WorkflowAction → Command A → Bool) where
  -- The newest token of an instance never falls, whatever the store does.
  pub Steps-token_of :
      (i : ℕ) (db later : Database A)
      → Steps strict valid db later
      → token_of i db.leases ≤ token_of i later.leases
  Steps-token_of i db later done = omega arith
  Steps-token_of i db later (claims worker seconds action now claim _ after _ made rest) =
      let here =
        Moved-token_of i worker seconds action now claim db after
          (claim_next-Moved valid worker seconds action now db after claim made) in
      let there = Steps-token_of i after later rest in omega arith
  Steps-token_of i db later (writes fresh call now _ after _ made rest) =
      let here =
        Written-token_of i call now db after
          (write-Written strict valid fresh call now db after made) in
      let there = Steps-token_of i after later rest in omega arith
  Steps-token_of i db later
        (admits valid_request hash input delivery now admission _ after _ made rest) =
      fenced_token i db after later
        (admitted strict valid_request hash input delivery now admission db after made)
        (Steps-token_of i after later rest)
  Steps-token_of i db later
        (requests hash request_hash ids request delivery now decision _ after _ made rest) =
      fenced_token i db after later
        (requested strict valid hash request_hash ids request delivery now decision db after made)
        (Steps-token_of i after later rest)
  Steps-token_of i db later
        (letters hash input delivery letter dead_letter_event_id audit_id now _ _ rest) =
      fenced_token i db
        (dead_letter_command hash input delivery letter dead_letter_event_id audit_id now db).1
        later
        (dead_letter_command-Fenced hash input delivery letter dead_letter_event_id audit_id now db)
        (Steps-token_of i
          (dead_letter_command hash input delivery letter dead_letter_event_id audit_id now db).1
          later rest)
  Steps-token_of i db later (quarantines delivery payload_hash code message now _ _ rest) =
      fenced_token i db (quarantine_record delivery payload_hash code message now db).1 later
        (quarantine_record-Fenced delivery payload_hash code message now db)
        (Steps-token_of i (quarantine_record delivery payload_hash code message now db).1 later
          rest)

  -- An operation that is known stays on its instance, whatever the store does.
  pub Steps-instance_of :
      (operation i : ℕ) (db later : Database A)
      → Steps strict valid db later
      → instance_of operation db ≡ some i
      → instance_of operation later ≡ some i
  Steps-instance_of operation i db later done known = known
  Steps-instance_of operation i db later
        (claims worker seconds action now claim _ after _ made rest) known =
      Steps-instance_of operation i after later rest (
        Moved-instance_of operation worker seconds action now claim db after
          (claim_next-Moved valid worker seconds action now db after claim made)
        ∙ known)
  Steps-instance_of operation i db later (writes fresh call now _ after _ made rest) known =
      Steps-instance_of operation i after later rest (
        Written-instance_of operation call now db after
          (write-Written strict valid fresh call now db after made)
        ∙ known)
  Steps-instance_of operation i db later
        (admits valid_request hash input delivery now admission _ after _ made rest) known =
      Steps-instance_of operation i after later rest (
        (admitted strict valid_request hash input delivery now admission db after made).1 operation
          i known)
  Steps-instance_of operation i db later
        (requests hash request_hash ids request delivery now decision _ after _ made rest) known =
      Steps-instance_of operation i after later rest (
        (requested strict valid hash request_hash ids request delivery now decision db after made).1
          operation i known)
  Steps-instance_of operation i db later
        (letters hash input delivery letter dead_letter_event_id audit_id now _ _ rest) known =
      Steps-instance_of operation i
        (dead_letter_command hash input delivery letter dead_letter_event_id audit_id now db).1
        later rest
        ((dead_letter_command-Fenced hash input delivery letter dead_letter_event_id audit_id now
            db).1
          operation i known)
  Steps-instance_of operation i db later
        (quarantines delivery payload_hash code message now _ _ rest) known =
      Steps-instance_of operation i (quarantine_record delivery payload_hash code message now db).1
        later rest
        ((quarantine_record-Fenced delivery payload_hash code message now db).1 operation i known)
