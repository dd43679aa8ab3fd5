-- ===== src/Control/Acceptance/Guards.antt =====
-- packages/postgres-adapter/src/control-plane-store.ts and instance-guard.ts: what comes before an
-- acceptance. The advisory lock of an idempotency scope and the row lock have no effect on a
-- transaction that runs alone.
use private_cloud_control_pl.Prelude.{
  ℕ, ◌==◌, String, str_eq, Bool, true, not, ◌&&◌, Option, none, some, List, [], ◌∷◌, contains,
  if◌then◌else◌,
}
use private_cloud_control_pl.Store.Table.{find_row}
use private_cloud_control_pl.Control.Rows.{InstanceRow}
use private_cloud_control_pl.Control.Transaction.{TransactionError, Tried, done, threw, ◌>>=◌}
use private_cloud_control_pl.Control.Projection.Steps.{instance_is}
use private_cloud_control_pl.Control.Acceptance.Records.{
  AcceptedMutation, IdempotencyRow, AcceptanceDatabase, MutationIdentity,
}

abbrev pub refuse {ℓ} : {A : Type ℓ} → String → Tried A
refuse code = threw (TransactionError.refused code)

-- Whether a record is of an idempotency scope.
abbrev pub is_scope : MutationIdentity → String → IdempotencyRow → Bool
is_scope identity action r =
    str_eq r.actor_id identity.subject
    && r.project_id == identity.project_id
    && str_eq r.operation_type action
    && str_eq r.idempotency_key identity.idempotency_key

abbrev pub as_replay : AcceptedMutation → AcceptedMutation
as_replay m = record m { replayed = true }

-- `findReplayedResponse`, of the record that is found.
unfoldable pub replayed_response : String → Option IdempotencyRow → Tried (Option AcceptedMutation)
replayed_response hash none = done none
replayed_response hash (some previous) =
    if not (str_eq previous.request_hash hash)
    then refuse "IDEMPOTENCY_CONFLICT"
    else done (some (as_replay previous.response))

abbrev pub mutable_lifecycle_states : List String
mutable_lifecycle_states = "active" ∷ "failed" ∷ []

abbrev pub unless_busy {ℓ} : {A : Type ℓ} → Option ℕ → Tried A → Tried A
unless_busy none next = next
unless_busy (some operation_id) next = refuse "INSTANCE_BUSY"

abbrev pub if_mutable : InstanceRow → Tried InstanceRow
if_mutable row =
    if not (contains mutable_lifecycle_states row.lifecycle_state)
    then refuse "INSTANCE_BUSY"
    else done row

abbrev pub guarded : InstanceRow → Tried InstanceRow
guarded row = unless_busy row.active_operation_id (if_mutable row)

abbrev pub existing : Option InstanceRow → Tried InstanceRow
existing none = refuse "INSTANCE_NOT_FOUND"
existing (some row) = done row

-- `lockInstanceForMutation`.
unfoldable pub lock_instance_for_mutation : ℕ → ℕ → List InstanceRow → Tried InstanceRow
lock_instance_for_mutation project_id id rows =
    existing (find_row (λ r. instance_is id r && r.project_id == project_id) rows) >>= guarded

abbrev pub or_replayed :
    Tried (AcceptedMutation × AcceptanceDatabase)
    → AcceptanceDatabase
    → Option AcceptedMutation
    → Tried (AcceptedMutation × AcceptanceDatabase)
or_replayed first db none = first
or_replayed first db (some previous) = done (previous, db)

-- What every acceptance begins with: a repeated request is answered, and changes nothing.
unfoldable pub attempt :
    MutationIdentity
    → String
    → String
    → AcceptanceDatabase
    → Tried (AcceptedMutation × AcceptanceDatabase)
    → Tried (AcceptedMutation × AcceptanceDatabase)
attempt identity action hash db first =
    replayed_response hash (find_row (is_scope identity action) db.idempotency_records)
    >>= or_replayed first db
