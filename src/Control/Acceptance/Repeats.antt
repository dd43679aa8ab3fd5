-- ===== src/Control/Acceptance/Repeats.antt =====
-- packages/postgres-adapter/src/control-plane-store.ts: what a repeated request is answered.
use private_cloud_control_pl.Prelude.{
  ◌≡◌, ℕ, ◌==◌, String, str_eq, str_eq_iff, Bool-cases, inl, inr, true, Option, none, some, refl,
  sym, arith, if◌then◌else◌,
}
use private_cloud_control_pl.Store.Table.{find_row}
use private_cloud_control_pl.Control.Transaction.{Tried, done, ◌>>=◌, Ensures-done}
use private_cloud_control_pl.Control.Acceptance.Records.{
  AcceptedMutation, IdempotencyRow, AcceptanceDatabase, Conventions, FreshValues, MutationIdentity,
}
use private_cloud_control_pl.Control.Acceptance.Guards.{
  refuse, is_scope, as_replay, attempt, replayed_response, or_replayed,
}
use private_cloud_control_pl.Control.Acceptance.Methods.{accept_power_action, accept_resize}
use private_cloud_control_pl.Control.Acceptance.Removals.{accept_retention, accept_purge}
use private_cloud_control_pl.Control.Acceptance.Commands.{
  MutationCommand, accept, identity, operation_type, is_confirmed,
}
use private_cloud_control_pl.Control.Acceptance.Outcomes.{accept-Ensures, Commits}

-- A record that answers a request by a mutation, up to whether it is a repetition.
abbrev pub Answers : String → AcceptedMutation → Option IdempotencyRow → Type 0
Answers hash m none = ⊥
Answers hash m (some r) = (r.request_hash ≡ hash) × (as_replay r.response ≡ as_replay m)

abbrev pub record_of : MutationIdentity → String → AcceptanceDatabase → Option IdempotencyRow
record_of by action db = find_row (is_scope by action) db.idempotency_records

abbrev pub IsRecorded : MutationCommand → String → AcceptedMutation × AcceptanceDatabase → Type 0
IsRecorded command hash (m, after) =
    Answers hash m (record_of (identity command) (operation_type command) after)

accepted_IsRecorded :
    (c : Conventions) (command : MutationCommand) (fresh : FreshValues) (hash : String)
    (db after : AcceptanceDatabase) (m : AcceptedMutation)
    → accept c command fresh hash db ≡ done (m, after)
    → IsRecorded command hash (m, after)
unfolding find_row
accepted_IsRecorded c command fresh hash db after m e =
    Ensures-done (IsRecorded command hash) (accept c command fresh hash db) (m, after)
      (accept-Ensures (IsRecorded command hash) c fresh hash db command
        (λ r found same. rw found (same, refl)) recording)
      e
  where
    same_text : (s : String) → str_eq s s ≡ true
    same_text s = (str_eq_iff s s).1 refl

    same_number : (n : ℕ) → (n == n) ≡ true
    same_number n = ground arith

    recording : Commits (IsRecorded command hash) c fresh hash db command
    recording row a idle (by, action, _, _, _) =
        rw
          (
            by,
            action,
            same_text (identity command).subject,
            same_number (identity command).project_id,
            same_text (operation_type command),
            same_text (identity command).idempotency_key,
          )
          (refl, refl)

-- What a request is answered where a mutation is recorded under its scope.
abbrev pub repeated :
    String
    → String
    → AcceptedMutation
    → AcceptanceDatabase
    → Tried (AcceptedMutation × AcceptanceDatabase)
repeated hash again m db =
    if str_eq hash again then done (as_replay m, db) else refuse "IDEMPOTENCY_CONFLICT"

attempt_repeated :
    (by : MutationIdentity) (action hash again : String) (m : AcceptedMutation)
    (db : AcceptanceDatabase) (first : Tried (AcceptedMutation × AcceptanceDatabase))
    → Answers hash m (record_of by action db)
    → attempt by action again db first ≡ repeated hash again m db
unfolding attempt replayed_response
attempt_repeated by action hash again m db first answers =
    by_record (record_of by action db) answers
  where
    by_record :
        (o : Option IdempotencyRow)
        → Answers hash m o
        → replayed_response again o >>= or_replayed first db ≡ repeated hash again m db
    by_record none answered = absurd answered
    by_record (some r) (same, answer) =
        rw (sym same) (elim (Bool-cases (str_eq r.request_hash again)) [
          | inl equal ↦ rw (equal, answer) refl
          | inr differs ↦ rw differs refl
        ])

-- After a command is accepted, every confirmed command of the same scope and operation type, at any
-- later moment, is given the same answer as a repetition and changes nothing if its hash is the same,
-- and is refused as a conflict if not.
pub accept-repeated :
    (c : Conventions) (command again : MutationCommand) (fresh later : FreshValues)
    (hash hash_again : String) (db after : AcceptanceDatabase) (m : AcceptedMutation)
    → accept c command fresh hash db ≡ done (m, after)
    → identity again ≡ identity command
    → operation_type again ≡ operation_type command
    → is_confirmed again ≡ true
    → accept c again later hash_again after ≡ repeated hash hash_again m after
unfolding accept accept_power_action accept_resize accept_retention accept_purge
accept-repeated c command again fresh later hash hash_again db after m e by action confirmed =
    by_command again (rw (by, action) (accepted_IsRecorded c command fresh hash db after m e))
      confirmed
  where
    by_command :
        (command : MutationCommand)
        → IsRecorded command hash (m, after)
        → is_confirmed command ≡ true
        → accept c command later hash_again after ≡ repeated hash hash_again m after
    by_command (MutationCommand.power p) answers sure =
        attempt_repeated (identity (MutationCommand.power p)) "power_instance" hash hash_again m
          after _ answers
    by_command (MutationCommand.resize r) answers sure =
        attempt_repeated (identity (MutationCommand.resize r)) "resize_instance" hash hash_again m
          after _ answers
    by_command (MutationCommand.retain r) answers sure =
        attempt_repeated (identity (MutationCommand.retain r)) "retain_instance" hash hash_again m
          after _ answers
    by_command (MutationCommand.purge p) answers sure = rw sure (
        attempt_repeated (identity (MutationCommand.purge p)) "purge_instance" hash hash_again m
          after _ answers)
