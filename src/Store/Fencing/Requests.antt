-- ===== src/Store/Fencing/Requests.antt =====
-- What a request for a replay, a dead letter and a quarantine leave of the fence: the leases, and the
-- instance of every operation that is known.
use private_cloud_control_pl.Prelude.{
  ℕ, ◌+◌, ◌||◌, not, any, String, Bool, Option, none, some, List, inl, inr, refl, Bool-cases,
}
use private_cloud_control_pl.Contracts.Events.{EventEnvelope}
use private_cloud_control_pl.Workflow.Stage.{WorkflowAction}
use private_cloud_control_pl.Workflow.Step.{Command}
use private_cloud_control_pl.Store.Table.{find_row}
use private_cloud_control_pl.Store.Rows.{
  Delivery, ReceiptRow, DeadLetterRow, ReplayRequest, ReplayRequestRow, Database,
}
use private_cloud_control_pl.Store.Inbox.{insert_receipt}
use private_cloud_control_pl.Store.Admission.{LifecycleCommand}
use private_cloud_control_pl.Store.Authorization.{
  ReplayIds, ReplayDecision, authorized_request, rejected_request, is_key_conflict, unless_stored,
  replayed_command, of_open_event, reject_request, authorize_request, may_replay,
  authorized_or_throw, decide, decide_once, admit_replay_request, LetterInput, command_letter,
  letter_once, dead_letter_command, quarantine_record,
}
use private_cloud_control_pl.Store.Writes.{of_event}
use private_cloud_control_pl.Store.Fencing.Arrivals.{IsFenced, Fenced}

module _ {A : Type 0} (strict : Bool) (valid : WorkflowAction → Command A → Bool)
    (hash : Command A → ℕ) (request_hash : ReplayRequest → ℕ) (ids : ReplayIds)
    (request : ReplayRequest) (now : ℕ) where
  stored-Fenced :
      (row : ReplayRequestRow) (db before after : Database A) (answer : ReplayDecision)
      → IsFenced db after
      → Fenced db (unless_stored strict valid hash request_hash row before (answer, after))
  stored-Fenced row db before after answer h =
      elim (Bool-cases (any (is_key_conflict row) before.replay_requests)) [
        | inl holds ↦ rw holds tt
        | inr fails ↦ rw fails h
      ]

  authorized_or_throw-Fenced :
      (db before : Database A)
      → IsFenced db before
      → (letter : DeadLetterRow A)
      → Fenced db (authorized_or_throw strict valid hash request_hash ids request now before letter)
  unfolding authorize_request
  authorized_or_throw-Fenced db before h letter =
      let original = letter.original_payload in
      let generation = letter.replay_generation + 1 in
      let command_hash = hash (replayed_command request now original) in
      elim (Bool-cases
        (not strict || any (of_open_event original.envelope.event_id) before.dead_letters)) [
          | inl found ↦ rw found (
              stored-Fenced (authorized_request request generation command_hash ids.outbox_id now)
                db before
                (authorize_request ids request generation command_hash now original before)
                ReplayDecision.accepted h)
          | inr missing ↦ rw missing tt
        ]

  decide-Fenced :
      (db before : Database A)
      → IsFenced db before
      → (o : Option (DeadLetterRow A))
      → Fenced db (decide strict valid hash request_hash ids request now before o)
  unfolding reject_request
  decide-Fenced db before h none =
      stored-Fenced (rejected_request request now) db before
        (reject_request ids request now before none) ReplayDecision.rejected h
  decide-Fenced db before h (some letter) =
      elim (Bool-cases (may_replay valid letter letter.original_action)) [
        | inl holds ↦ rw holds (authorized_or_throw-Fenced db before h letter)
        | inr fails ↦ rw fails (
            stored-Fenced (rejected_request request now) db before
              (reject_request ids request now before (some letter)) ReplayDecision.rejected h)
      ]

  decide_once-Fenced :
      (db : Database A) (o : Option (List ReceiptRow))
      → Fenced db (decide_once strict valid hash request_hash ids request now db o)
  decide_once-Fenced db none = (refl, λ operation i h. h)
  decide_once-Fenced db (some receipts) =
      decide-Fenced db (record db { receipts = receipts }) (refl, λ operation i h. h)
        (find_row (of_event request.original_event_id) db.dead_letters)

  pub admit_replay_request-Fenced :
      (delivery : Delivery) (db : Database A)
      → Fenced db (admit_replay_request strict valid hash request_hash ids request delivery now db)
  unfolding admit_replay_request
  admit_replay_request-Fenced delivery db = decide_once-Fenced db (
      insert_receipt request.envelope.event_id delivery (request_hash request) (some now) now
        db.receipts)

module _ {A : Type 0} where
  letter_once-Fenced :
      (row : DeadLetterRow A) (audit_id now : ℕ) (cause : EventEnvelope) (db : Database A)
      (o : Option (List ReceiptRow))
      → IsFenced db (letter_once row audit_id cause now db o).1
  letter_once-Fenced row audit_id now cause db none = (refl, λ operation i h. h)
  letter_once-Fenced row audit_id now cause db (some receipts) = (refl, λ operation i h. h)

  pub dead_letter_command-Fenced :
      (hash : Command A → ℕ) (input : LifecycleCommand A) (delivery : Delivery)
      (letter : LetterInput) (dead_letter_event_id audit_id now : ℕ) (db : Database A)
      → IsFenced db
          (dead_letter_command hash input delivery letter dead_letter_event_id audit_id now db).1
  unfolding dead_letter_command
  dead_letter_command-Fenced hash input delivery letter dead_letter_event_id audit_id now db =
      letter_once-Fenced (command_letter input delivery letter dead_letter_event_id now) audit_id
        now input.command.envelope db
        (insert_receipt input.command.envelope.event_id delivery (hash input.command) (some now) now
          db.receipts)

  pub quarantine_record-Fenced :
      (delivery : Delivery) (payload_hash : ℕ) (code message : String) (now : ℕ) (db : Database A)
      → IsFenced db (quarantine_record delivery payload_hash code message now db).1
  unfolding quarantine_record
  quarantine_record-Fenced delivery payload_hash code message now db = (refl, λ operation i h. h)
