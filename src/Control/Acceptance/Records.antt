-- ===== src/Control/Acceptance/Records.antt =====
-- packages/postgres-adapter/src/control-plane-store.ts: the rows that an acceptance reads and writes
-- beside those of the projection, and the commands of the store's port. Moments are milliseconds.
use private_cloud_control_pl.Prelude.{ℕ, String, Bool, Option, List}
use private_cloud_control_pl.Contracts.Events.{
  EventEnvelope, Resources, PowerAction, PowerRequested, ResizeRequested, RetentionRequested,
  PurgeRequested,
}
use private_cloud_control_pl.Control.Rows.{InstanceRow, ControlDatabase}

-- `AcceptedMutation`.
pub record AcceptedMutation : Type 0 where
  pub operation_id : ℕ
  pub target_id : ℕ
  pub accepted_at : ℕ
  pub status_url : String
  pub replayed : Bool

-- A row of `control.idempotency_records`.
pub record IdempotencyRow : Type 0 where
  pub actor_id : String
  pub project_id : ℕ
  pub operation_type : String
  pub idempotency_key : String
  pub target_id : ℕ
  pub request_hash : String
  pub operation_id : ℕ
  pub response : AcceptedMutation
  pub created_at : ℕ
  pub expires_at : ℕ

-- A row of `control.quotas`, with what a resize reads of it.
pub record QuotaRow : Type 0 where
  pub project_id : ℕ
  pub resources : Resources

-- A row of `control.flavors`; its disk size is the minimum.
pub record FlavorRow : Type 0 where
  pub id : String
  pub resources : Resources
  pub enabled : Bool

-- The states that the table's constraint allows.
pub data LeaseState : Type 0 where
  active quarantined released : LeaseState

-- A row of `control.ipv4_leases`.
pub record Ipv4LeaseRow : Type 0 where
  pub id : ℕ
  pub instance_id : ℕ
  pub state : LeaseState
  pub updated_at : ℕ

-- A row of `control.retention_policy`.
pub record RetentionPolicyRow : Type 0 where
  pub retention_hours : ℕ
  pub lease_release_mode : String

-- The payload of `audit.recorded`, which `audit.entries` repeats.
pub record AuditRecorded : Type 0 where
  pub actor_id : String
  pub actor_role : String
  pub action : String
  pub target_type : String
  pub target_id : ℕ
  pub outcome : String
  pub reason_reference : Option ℕ

-- The events that an acceptance appends. A retention's second value is its `leaseReleaseMode`.
pub data ControlPayload : Type 0 where
  power_requested : PowerRequested → ControlPayload
  resize_requested : ResizeRequested → ControlPayload
  retention_requested : RetentionRequested → String → ControlPayload
  purge_requested : PurgeRequested → ControlPayload
  audit_recorded : AuditRecorded → ControlPayload

-- A row of `control.outbox`, whose other columns repeat its event's fields.
pub record ControlOutboxRow : Type 0 where
  pub topic : String
  pub envelope : EventEnvelope
  pub payload : ControlPayload
  pub occurred_at : ℕ

-- A row of `audit.entries`.
pub record AuditEntry : Type 0 where
  pub id : ℕ
  pub project_id : ℕ
  pub recorded : AuditRecorded
  pub operation_id : ℕ
  pub occurred_at : ℕ

pub record AcceptanceDatabase : Type 0 where
  pub control : ControlDatabase
  pub idempotency_records : List IdempotencyRow
  pub quotas : List QuotaRow
  pub flavors : List FlavorRow
  pub ipv4_leases : List Ipv4LeaseRow
  pub retention_policy : Option RetentionPolicyRow
  pub commands : List ControlOutboxRow
  pub audit_entries : List AuditEntry

-- What every command carries. `trace_context` stands for the carrier made of the trace headers.
pub record CommandOrigin : Type 0 where
  pub subject : String
  pub idempotency_key : String
  pub correlation_id : ℕ
  pub traceparent : String
  pub trace_context : ℕ

pub record PowerInstanceCommand : Type 0 where
  pub origin : CommandOrigin
  pub project_id : ℕ
  pub instance_id : ℕ
  pub action : PowerAction

pub record ResizeInstanceCommand : Type 0 where
  pub origin : CommandOrigin
  pub project_id : ℕ
  pub instance_id : ℕ
  pub flavor_id : String
  pub disk_gib : Option ℕ

pub record RetainInstanceCommand : Type 0 where
  pub origin : CommandOrigin
  pub project_id : ℕ
  pub instance_id : ℕ

pub record PurgeInstanceCommand : Type 0 where
  pub origin : CommandOrigin
  pub instance_id : ℕ
  pub confirm_instance_id : ℕ

-- The fields of an operation that no event changes.
pub record OperationRequest : Type 0 where
  pub project_id : ℕ
  pub action : String
  pub target_type : String
  pub target_id : ℕ
  pub accepted_at : ℕ

-- How values that the rows hold in one field are written: identifiers as texts, the unchanging fields
-- of an operation as `request`, and the empty text where an identifier is expected. `strict` is as in
-- the other stores.
pub record Conventions : Type 0 where
  pub strict : Bool
  pub text : ℕ → String
  pub request : OperationRequest → ℕ
  pub empty_id : ℕ

-- What the process's clock and `randomUUID` give to one acceptance.
pub record FreshValues : Type 0 where
  pub now : ℕ
  pub operation_id : ℕ
  pub event_id : ℕ
  pub audit_event_id : ℕ
  pub purge_authorization_id : ℕ

-- `MutationIdentity`.
pub record MutationIdentity : Type 0 where
  pub subject : String
  pub project_id : ℕ
  pub idempotency_key : String

-- What tells one acceptance from another: what `commit` writes.
pub record Acceptance : Type 0 where
  pub origin : CommandOrigin
  pub identity : MutationIdentity
  pub action : String
  pub project_id : ℕ
  pub instance_id : ℕ
  pub status_url : String
  pub payload : ControlPayload
  pub changed : InstanceRow → InstanceRow
  pub leases : List Ipv4LeaseRow → List Ipv4LeaseRow
  pub audit_action : String
  pub actor_role : String
  pub reason_reference : Option ℕ
