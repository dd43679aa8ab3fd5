-- ===== src/Store/Authorization/Granted.antt =====
-- A replay request that is accepted: its dead letter was open, and the command that it publishes is
-- authorized under the identity that it will be delivered with.
use private_cloud_control_pl.Prelude.{
  ◌≡◌, ap, Has, ℕ, ◌+◌, ◌==◌, Bool, true, false, not, ◌&&◌, ◌||◌, Option, none, some, List, any,
  inl, inr, refl, subst, arith, Bool-cases,
}
use private_cloud_control_pl.Workflow.Stage.{WorkflowAction}
use private_cloud_control_pl.Workflow.Step.{Command, ok}
use private_cloud_control_pl.Store.Table.{find_row}
use private_cloud_control_pl.Store.Rows.{
  Delivery, ReceiptRow, DeadLetterStatus, DeadLetterRow, OutboxRow, ReplayRequest, ReplayRequestRow,
  Database,
}
use private_cloud_control_pl.Store.Writes.{of_event}
use private_cloud_control_pl.Store.Inbox.{authorizes, of_replay, insert_receipt}
use private_cloud_control_pl.Store.Authorization.{
  ReplayDecision, ReplayIds, is_open, authorized_request, replayed_command, of_open_event,
  rejected_request, is_key_conflict, unless_stored, reject_request, authorize_request, may_replay,
  authorized_or_throw, decide, decide_once, admit_replay_request,
}

module _ {A : Type 0} where
  -- The grant of a replay: the letter that it takes up, the command that it publishes, and the
  -- authorization that it records.
  pub record Granted (hash : Command A → ℕ) (ids : ReplayIds) (request : ReplayRequest) (now : ℕ)
      (db after : Database A) : Type 0 where
    pub letter : DeadLetterRow A
    pub found : find_row (of_event request.original_event_id) db.dead_letters ≡ some letter
    pub allowed : letter.replay_allowed ≡ true
    pub was_open : letter.status ≡ DeadLetterStatus.still_open
    pub authorization : ReplayRequestRow
    pub recorded :
        find_row
          (of_replay request.original_event_id (letter.replay_generation + 1))
          after.replay_requests
        ≡ some authorization
    pub published :
        Has
          (OutboxRow.replayed_command ids.outbox_id
            (letter.replay_generation + 1)
            (replayed_command request now letter.original_payload))
          after.outbox
    pub authorizes_delivery :
        (delivery : Delivery)
        → delivery.outbox_id ≡ ids.outbox_id
        → authorizes
            (hash (replayed_command request now letter.original_payload))
            delivery
            authorization
          ≡ true

  may_replay-facts :
      (valid : WorkflowAction → Command A → Bool) (letter : DeadLetterRow A)
      (action : Option WorkflowAction)
      → may_replay valid letter action ≡ true
      → (letter.replay_allowed ≡ true) × (is_open letter.status ≡ true)
  may_replay-facts valid letter none h = cc
  may_replay-facts valid letter (some action) h =
      facts letter.replay_allowed (is_open letter.status) (valid action letter.original_payload) h
    where
      facts : (a b c : Bool) → (a && b && c) ≡ true → (a ≡ true) × (b ≡ true)
      facts true true c h = (refl, refl)
      facts true false c h = cc
      facts false b c h = cc

is_open_lem : (s : DeadLetterStatus) → is_open s ≡ true → s ≡ DeadLetterStatus.still_open
is_open_lem DeadLetterStatus.still_open h = refl
is_open_lem DeadLetterStatus.replay_requested h = cc
is_open_lem DeadLetterStatus.replayed h = cc

==_same : (a b : ℕ) → a ≡ b → (b == a) ≡ true
==_same a b e = ground arith

module _ {A : Type 0} (strict : Bool) (valid : WorkflowAction → Command A → Bool)
    (hash : Command A → ℕ) (request_hash : ReplayRequest → ℕ) (ids : ReplayIds)
    (request : ReplayRequest) (now : ℕ) where
  abbrev grant : DeadLetterRow A → ReplayRequestRow
  grant letter =
      authorized_request request (letter.replay_generation + 1)
        (hash (replayed_command request now letter.original_payload)) ids.outbox_id now

  abbrev granted_database : DeadLetterRow A → Database A → Database A
  granted_database letter db =
      authorize_request ids request (letter.replay_generation + 1)
        (hash (replayed_command request now letter.original_payload)) now letter.original_payload db

  grant-Granted :
      (letter : DeadLetterRow A) (db : Database A)
      → find_row (of_event request.original_event_id) db.dead_letters ≡ some letter
      → letter.replay_allowed ≡ true
      → letter.status ≡ DeadLetterStatus.still_open
      → Granted hash ids request now db (granted_database letter db)
  unfolding authorize_request find_row
  grant-Granted letter db found allowed was_open = record {
    letter = letter;
    found = found;
    allowed = allowed;
    was_open = was_open;
    authorization = grant letter;
    recorded =
        rw
          (
            ==_same request.original_event_id request.original_event_id refl,
            ==_same (letter.replay_generation + 1) (letter.replay_generation + 1) refl,
          )
          refl;
    published = inr (inl refl);
    authorizes_delivery = λ delivery same.
        rw
          (
            ==_same (hash (replayed_command request now letter.original_payload))
                (hash (replayed_command request now letter.original_payload)) refl,
            ==_same delivery.outbox_id ids.outbox_id same,
          )
          refl;
  }

  -- What is returned after the INSERT is what was to be.
  unless_stored-ok :
      (row : ReplayRequestRow) (db : Database A) (p q : ReplayDecision × Database A)
      → unless_stored strict valid hash request_hash row db p ≡ ok q
      → p ≡ q
  unless_stored-ok row db p q h = elim (Bool-cases (any (is_key_conflict row) db.replay_requests)) [
    | inl taken ↦ cc (rw taken at h)
    | inr free ↦ cc (rw free at h)
  ]

  rejected-accepted :
      (db d after : Database A)
      → unless_stored strict valid hash request_hash
          (rejected_request request now)
          db
          (ReplayDecision.rejected, d)
        ≡ ok (ReplayDecision.accepted, after)
      → ⊥
  rejected-accepted db d after h =
      let same =
        ap (λ (p : ReplayDecision × Database A). p.0)
          (unless_stored-ok (rejected_request request now) db (ReplayDecision.rejected, d)
            (ReplayDecision.accepted, after) h) in
      cc

  authorized_or_throw-Granted :
      (letter : DeadLetterRow A) (db after : Database A)
      → find_row (of_event request.original_event_id) db.dead_letters ≡ some letter
      → letter.replay_allowed ≡ true
      → letter.status ≡ DeadLetterStatus.still_open
      → authorized_or_throw strict valid hash request_hash ids request now db letter
        ≡ ok (ReplayDecision.accepted, after)
      → Granted hash ids request now db after
  authorized_or_throw-Granted letter db after found allowed was_open h =
      elim (Bool-cases (
        not strict
        || any (of_open_event letter.original_payload.envelope.event_id) db.dead_letters)) [
          | inl e ↦
              let k =
                unless_stored-ok (grant letter) db
                  (ReplayDecision.accepted, granted_database letter db)
                  (ReplayDecision.accepted, after) (rw e at h) in
              subst (Granted hash ids request now db) {x = granted_database letter db}
                (ap (λ (p : ReplayDecision × Database A). p.1) k)
                (grant-Granted letter db found allowed was_open)
          | inr e ↦ cc (rw e at h)
        ]

  decide-Granted :
      (db after : Database A) (o : Option (DeadLetterRow A))
      → find_row (of_event request.original_event_id) db.dead_letters ≡ o
      → decide strict valid hash request_hash ids request now db o
        ≡ ok (ReplayDecision.accepted, after)
      → Granted hash ids request now db after
  decide-Granted db after none found h =
      absurd (rejected-accepted db (reject_request ids request now db none) after h)
  decide-Granted db after (some letter) found h =
      elim (Bool-cases (may_replay valid letter letter.original_action)) [
        | inl e ↦
            let (allowed, opened) = may_replay-facts valid letter letter.original_action e in
            authorized_or_throw-Granted letter db after found allowed
              (is_open_lem letter.status opened) (rw e at h)
        | inr e ↦ absurd (
            rejected-accepted db (reject_request ids request now db (some letter)) after
              (rw e at h))
      ]

  decide_once-Granted :
      (db after : Database A) (o : Option (List ReceiptRow))
      → decide_once strict valid hash request_hash ids request now db o
        ≡ ok (ReplayDecision.accepted, after)
      → Granted hash ids request now db after
  decide_once-Granted db after none h = cc
  decide_once-Granted db after (some receipts) h =
      let g =
        decide-Granted (record db { receipts = receipts }) after
          (find_row (of_event request.original_event_id) db.dead_letters) refl h in
      record {
        letter = g.letter;
        found = g.found;
        allowed = g.allowed;
        was_open = g.was_open;
        authorization = g.authorization;
        recorded = g.recorded;
        published = g.published;
        authorizes_delivery = g.authorizes_delivery;
      }

  -- A replay request is accepted only for a dead letter that is open and that allows replay; and then
  -- the outbox has the letter's command, under the request's correlation and of the letter's next
  -- generation, and the store has an authorization of that generation, which a delivery of this command
  -- under the identity of that outbox row satisfies.
  pub admit_replay_request-Granted :
      (delivery : Delivery) (db after : Database A)
      → admit_replay_request strict valid hash request_hash ids request delivery now db
        ≡ ok (ReplayDecision.accepted, after)
      → Granted hash ids request now db after
  unfolding admit_replay_request
  admit_replay_request-Granted delivery db after h =
      decide_once-Granted db after
        (insert_receipt request.envelope.event_id delivery (request_hash request) (some now) now
          db.receipts)
        h
