-- ===== src/Store/Fencing/Claims.antt =====
-- A claim that succeeds: the row that was ready, and the token that the lease gave.
use private_cloud_control_pl.Prelude.{
  ◌≡◌, ℕ, String, Bool, Option, none, some, List, inl, inr, refl, sym, ap, subst, Bool-cases,
}
use private_cloud_control_pl.Workflow.Stage.{WorkflowAction, PersistedStage}
use private_cloud_control_pl.Workflow.Step.{Command, Claimed, ok}
use private_cloud_control_pl.Store.Table.{update_rows}
use private_cloud_control_pl.Store.Rows.{WorkflowRow, LeaseRow, Database}
use private_cloud_control_pl.Store.Lease.{
  of_operation, upsert_lease, ready_workflow, claimed_row, claim_at, claim_of, handed_over,
  claimed_with, claim_ready, claim_next, is_claim_request,
}

module _ {A : Type 0} where
  pub record Issued (worker : String) (seconds : ℕ) (action : WorkflowAction) (now : ℕ)
      (claim : Claimed A) (db after : Database A) : Type 0 where
    pub row : WorkflowRow A
    pub ready : ready_workflow worker now action db.leases db.workflows ≡ some row
    pub token : ℕ
    pub leases : List LeaseRow
    pub taken : upsert_lease worker seconds now row.instance_id db.leases ≡ some (token, leases)
    pub claim_token : claim.fencing_token ≡ token
    pub claim_command : claim.command ≡ row.command
    pub claim_action : claim.action ≡ row.action
    pub after_leases : after.leases ≡ leases
    pub after_workflows :
        after.workflows
        ≡ update_rows (of_operation row.operation_id) (claimed_row token now) db.workflows

  -- What a call of `claimNext` that returns has done.
  abbrev pub Moved :
      String → ℕ → WorkflowAction → ℕ → Option (Claimed A) → Database A → Database A → Type 0
  Moved worker seconds action now none db after = db ≡ after
  Moved worker seconds action now (some claim) db after =
      Issued worker seconds action now claim db after

  -- The row of a claim that is handed over, by the stage that it was at.
  abbrev HandedOver : WorkflowRow A → Database A → Option (Claimed A) × Database A → Type 0
  HandedOver row db (none, after) = ⊥
  HandedOver row db (some claim, after) =
      (claim.fencing_token ≡ row.fencing_token)
      × (claim.command ≡ row.command)
      × (claim.action ≡ row.action)
      × (db ≡ after)

  handed_over-HandedOver :
      (row : WorkflowRow A) (stage : PersistedStage) (db : Database A)
      (p : Option (Claimed A) × Database A)
      → handed_over db (claim_of row stage) ≡ ok p
      → HandedOver row db p
  handed_over-HandedOver row (PersistedStage.terminal s) db p h = cc
  handed_over-HandedOver row (PersistedStage.active s) db p h =
      subst (HandedOver row db) {x = (some (claim_at row s), db)} (cc) (refl, refl, refl, refl)

  -- The database after the claim of a row under a token.
  abbrev claimed_database : ℕ → ℕ → List LeaseRow → WorkflowRow A → Database A → Database A
  claimed_database now token leases row db = record db {
    leases = leases;
    workflows = update_rows (of_operation row.operation_id) (claimed_row token now) db.workflows;
  }

  HandedOver-Moved :
      (worker : String) (seconds : ℕ) (action : WorkflowAction) (now : ℕ) (db after : Database A)
      (row : WorkflowRow A) (token : ℕ) (leases : List LeaseRow) (claim : Option (Claimed A))
      → ready_workflow worker now action db.leases db.workflows ≡ some row
      → upsert_lease worker seconds now row.instance_id db.leases ≡ some (token, leases)
      → HandedOver
          (claimed_row token now row)
          (claimed_database now token leases row db)
          (claim, after)
      → Moved worker seconds action now claim db after
  HandedOver-Moved worker seconds action now db after row token leases none r u h = absurd h
  HandedOver-Moved worker seconds action now db after row token leases (some claim) r u
        (token_kept, command_kept, action_kept, e) =
      record {
        row = row;
        ready = r;
        token = token;
        leases = leases;
        taken = u;
        claim_token = token_kept;
        claim_command = command_kept;
        claim_action = action_kept;
        after_leases = ap (λ (d : Database A). d.leases) (sym e);
        after_workflows = ap (λ (d : Database A). d.workflows) (sym e);
      }

module _ {A : Type 0} (valid : WorkflowAction → Command A → Bool) where
  claimed_with-Moved :
      (worker : String) (seconds : ℕ) (action : WorkflowAction) (now : ℕ) (db after : Database A)
      (row : WorkflowRow A) (o : Option (ℕ × List LeaseRow)) (claim : Option (Claimed A))
      → ready_workflow worker now action db.leases db.workflows ≡ some row
      → upsert_lease worker seconds now row.instance_id db.leases ≡ o
      → claimed_with valid now db row o ≡ ok (claim, after)
      → Moved worker seconds action now claim db after
  claimed_with-Moved worker seconds action now db after row none none r u h = cc
  claimed_with-Moved worker seconds action now db after row none (some claim) r u h = cc
  claimed_with-Moved worker seconds action now db after row (some (token, leases)) claim r u h =
      elim (Bool-cases (valid row.action row.command)) [
        | inl e ↦ HandedOver-Moved worker seconds action now db after row token leases claim r u (
            handed_over-HandedOver (claimed_row token now row) row.stage
              (claimed_database now token leases row db) (claim, after) (rw e at h))
        | inr e ↦ cc (rw e at h)
      ]

  claim_ready-Moved :
      (worker : String) (seconds : ℕ) (action : WorkflowAction) (now : ℕ) (db after : Database A)
      (o : Option (WorkflowRow A)) (claim : Option (Claimed A))
      → ready_workflow worker now action db.leases db.workflows ≡ o
      → claim_ready valid worker seconds now db o ≡ ok (claim, after)
      → Moved worker seconds action now claim db after
  unfolding claim_ready
  claim_ready-Moved worker seconds action now db after none none r h = cc
  claim_ready-Moved worker seconds action now db after none (some claim) r h = cc
  claim_ready-Moved worker seconds action now db after (some row) claim r h =
      claimed_with-Moved worker seconds action now db after row
        (upsert_lease worker seconds now row.instance_id db.leases) claim r refl h

  -- A call of `claimNext` that returns leaves the database as it was, or has issued a claim.
  pub claim_next-Moved :
      (worker : String) (seconds : ℕ) (action : WorkflowAction) (now : ℕ) (db after : Database A)
      (claim : Option (Claimed A))
      → claim_next valid worker seconds action now db ≡ ok (claim, after)
      → Moved worker seconds action now claim db after
  unfolding claim_next
  claim_next-Moved worker seconds action now db after claim h =
      elim (Bool-cases (is_claim_request worker seconds)) [
        | inl e ↦
            claim_ready-Moved worker seconds action now db after
              (ready_workflow worker now action db.leases db.workflows) claim refl (rw e at h)
        | inr e ↦ cc (rw e at h)
      ]
