-- ===== src/Control/Acceptance/Writes.antt =====
-- packages/postgres-adapter/src/control-plane-store.ts: what every acceptance of a mutation of an
-- instance writes, in one transaction.
use private_cloud_control_pl.Prelude.{ℕ, ◌+◌, String, false, none, some, List, ◌∷◌}
use private_cloud_control_pl.Contracts.Events.{EventEnvelope}
use private_cloud_control_pl.Workflow.Stage.{PersistedStage, WorkflowStage, stage_progress_percent}
use private_cloud_control_pl.Store.Table.{find_row, update_rows}
use private_cloud_control_pl.Control.Rows.{
  InstanceRow, InstanceView, InstanceDocument, OperationRow, OperationView, OperationDocument,
}
use private_cloud_control_pl.Control.Transaction.{Tried, done, ◌>>=◌, update_or_throw}
use private_cloud_control_pl.Control.Projection.Steps.{instance_is, instance_document_is, redrawn}
use private_cloud_control_pl.Control.Projection.Traces.{trace_id_of}
use private_cloud_control_pl.Control.Acceptance.Records.{
  AcceptedMutation, IdempotencyRow, AuditRecorded, ControlPayload, ControlOutboxRow, AuditEntry,
  AcceptanceDatabase, Conventions, FreshValues, OperationRequest, Acceptance,
}

abbrev pub idempotency_record_ttl_ms : ℕ
idempotency_record_ttl_ms = 86400000

abbrev pub busy_view : ℕ → ℕ → InstanceView → InstanceView
busy_view operation_id now view = record view {
  active_operation_id = some operation_id;
  updated_at = now;
}

-- `markInstanceBusyInProjection`.
unfoldable pub mark_instance_busy : ℕ → ℕ → ℕ → List InstanceDocument → List InstanceDocument
mark_instance_busy id operation_id now documents =
    elim (find_row (instance_document_is id) documents) [
      | none ↦ documents
      | some found ↦
          update_rows (instance_document_is id)
            (redrawn (busy_view operation_id now found.document) now) documents
    ]

module _ (c : Conventions) (a : Acceptance) (fresh : FreshValues) where
  abbrev pub operation_request : OperationRequest
  operation_request = record {
    project_id = a.project_id;
    action = a.action;
    target_type = "instance";
    target_id = a.instance_id;
    accepted_at = fresh.now;
  }

  abbrev pub accepted_percent : ℕ
  accepted_percent = stage_progress_percent (PersistedStage.active WorkflowStage.accepted)

  abbrev pub accepted_operation : OperationRow
  accepted_operation = record {
    id = fresh.operation_id;
    request = c.request operation_request;
    state = "accepted";
    stage = "accepted";
    progress_percent = accepted_percent;
    started_at = none;
    updated_at = fresh.now;
    completed_at = none;
    error_category = none;
    error_code = none;
    error_message = none;
    manual_review_required = false;
  }

  abbrev pub accepted_view : OperationView
  accepted_view = record {
    id = fresh.operation_id;
    request = c.request operation_request;
    target_type = "instance";
    target_id = a.instance_id;
    state = "accepted";
    stage = "accepted";
    progress_percent = accepted_percent;
    started_at = none;
    updated_at = fresh.now;
    completed_at = none;
    error_category = none;
    error_code = none;
    error_message = none;
    manual_review_required = false;
  }

  abbrev pub accepted_document : OperationDocument
  accepted_document = record {
    operation_id = fresh.operation_id;
    document = accepted_view;
    updated_at = fresh.now;
    correlation_id = some a.origin.correlation_id;
    causation_id = none;
    trace_id = trace_id_of (some a.origin.traceparent);
    retry_count = 0;
    checkpoint = some "accepted";
    dead_letter_event_id = none;
    provider_task_reference = none;
  }

  abbrev pub accepted_mutation : AcceptedMutation
  accepted_mutation = record {
    operation_id = fresh.operation_id;
    target_id = a.instance_id;
    accepted_at = fresh.now;
    status_url = a.status_url;
    replayed = false;
  }

  abbrev pub idempotency_row : String → IdempotencyRow
  idempotency_row hash = record {
    actor_id = a.identity.subject;
    project_id = a.identity.project_id;
    operation_type = a.action;
    idempotency_key = a.identity.idempotency_key;
    target_id = a.instance_id;
    request_hash = hash;
    operation_id = fresh.operation_id;
    response = accepted_mutation;
    created_at = fresh.now;
    expires_at = fresh.now + idempotency_record_ttl_ms;
  }

  -- The command's event, and its row of the outbox.
  abbrev pub command_envelope : EventEnvelope
  command_envelope = record {
    event_id = fresh.event_id;
    aggregate_id = a.instance_id;
    project_id = a.project_id;
    operation_id = fresh.operation_id;
    correlation_id = a.origin.correlation_id;
    causation_id = fresh.operation_id;
    occurred_at = fresh.now;
    trace_context = a.origin.trace_context;
    partition_key = c.text a.instance_id;
  }

  abbrev pub command_row : ControlOutboxRow
  command_row = record {
    topic = "provisioning.commands.v1";
    envelope = command_envelope;
    payload = a.payload;
    occurred_at = fresh.now;
  }

  -- `auditRecordedEvent`, and the two rows of `writeControlAudit`.
  abbrev pub audit_recorded : AuditRecorded
  audit_recorded = record {
    actor_id = a.origin.subject;
    actor_role = a.actor_role;
    action = a.audit_action;
    target_type = "instance";
    target_id = a.instance_id;
    outcome = "accepted";
    reason_reference = a.reason_reference;
  }

  abbrev pub audit_entry : AuditEntry
  audit_entry = record {
    id = fresh.audit_event_id;
    project_id = a.project_id;
    recorded = audit_recorded;
    operation_id = fresh.operation_id;
    occurred_at = fresh.now;
  }

  abbrev pub audit_row : ControlOutboxRow
  audit_row = record {
    topic = "audit.events.v1";
    envelope = record {
      event_id = fresh.audit_event_id;
      aggregate_id = fresh.audit_event_id;
      project_id = a.project_id;
      operation_id = fresh.operation_id;
      correlation_id = a.origin.correlation_id;
      causation_id = fresh.event_id;
      occurred_at = fresh.now;
      trace_context = a.origin.trace_context;
      partition_key = c.text a.project_id;
    };
    payload = ControlPayload.audit_recorded audit_recorded;
    occurred_at = fresh.now;
  }

  -- The database that an acceptance leaves, with the instances that it has changed.
  abbrev pub committed : String → AcceptanceDatabase → List InstanceRow → AcceptanceDatabase
  committed hash db instances = record db {
    control = record db.control {
      instances = instances;
      operations = accepted_operation ∷ db.control.operations;
      instance_documents =
          mark_instance_busy a.instance_id fresh.operation_id fresh.now
            db.control.instance_documents;
      operation_documents = accepted_document ∷ db.control.operation_documents;
    };
    idempotency_records = idempotency_row hash ∷ db.idempotency_records;
    ipv4_leases = a.leases db.ipv4_leases;
    commands = audit_row ∷ command_row ∷ db.commands;
    audit_entries = audit_entry ∷ db.audit_entries;
  }

  unfoldable pub commit :
      String → AcceptanceDatabase → Tried (AcceptedMutation × AcceptanceDatabase)
  unfolding mark_instance_busy
  commit hash db =
      update_or_throw c.strict (instance_is a.instance_id) a.changed db.control.instances
      >>= λ instances. done (accepted_mutation, committed hash db instances)
