-- ===== src/Audit/Publisher.antt =====
-- apps/api/src/audit/audit-event.publisher.ts and audit.types.ts: the outbox of the audit trail.
pub mod Stored
use etik_bildirim_platformu.Prelude.{
  ℕ, ◌≡◌, refl, Bool, true, false, String, Option, none, some, List, [], ◌∷◌, ◌===◌, string_eq,
  option_eq, Outcome, ok, throw, is_some, if◌then◌else◌, ◌&&◌,
}
use etik_bildirim_platformu.Shared.Enums.{AuditActorType}
use etik_bildirim_platformu.Shared.Errors.{ErrorCode, audit_publish_failed, audit_forbidden_content}
use etik_bildirim_platformu.Storage.Table.{Table, create}
use etik_bildirim_platformu.Audit.Events.{
  AuditEventType, AuditEventCategory, AuditSeverity, AuditOutcome, category_by_type,
  default_severity,
}
use etik_bildirim_platformu.Audit.Metadata.{Json, find_forbidden_audit_metadata_key}

pub data DispatchStatus : Type 0 where
  pending sent failed retrying permanently_failed : DispatchStatus

-- `AuditOutbox` of schema.prisma.
pub record OutboxRow : Type 0 where
  pub id : String
  pub occurred_at : ℕ
  pub event_type : AuditEventType
  pub event_category : AuditEventCategory
  pub severity : AuditSeverity
  pub actor_type : AuditActorType
  pub actor_id : Option String
  pub action : String
  pub outcome : AuditOutcome
  pub resource_type : Option String
  pub resource_id : Option String
  pub case_id : Option String
  pub company_id : Option String
  pub correlation_id : Option String
  pub idempotency_key : Option String
  pub metadata_json : Json
  pub dispatch_status : DispatchStatus
  pub retry_count : ℕ
  pub error_code : Option String
  pub processed_at : Option ℕ

-- `PublishAuditEventInput`; metadata that is left out is `null`.
pub record PublishAuditEventInput : Type 0 where
  pub event_type : AuditEventType
  pub actor_type : AuditActorType
  pub actor_id : Option String
  pub action : String
  pub outcome : AuditOutcome
  pub resource_type : Option String
  pub resource_id : Option String
  pub case_id : Option String
  pub company_id : Option String
  pub correlation_id : Option String
  pub idempotency_key : Option String
  pub metadata : Json
  pub occurred_at : Option ℕ
  pub severity : Option AuditSeverity
  pub event_category : Option AuditEventCategory

abbrev pub or_default {ℓ} : {A : Type ℓ} → Option A → A → A
or_default none d = d
or_default (some a) d = a

-- The row that is created, under a new id and at the present time.
unfoldable pub outbox_row : String → ℕ → PublishAuditEventInput → OutboxRow
outbox_row id now input = record {
  id = id;
  occurred_at = or_default input.occurred_at now;
  event_type = input.event_type;
  event_category = or_default input.event_category (category_by_type input.event_type);
  severity = or_default input.severity (default_severity input.event_type);
  actor_type = input.actor_type;
  actor_id = input.actor_id;
  action = input.action;
  outcome = input.outcome;
  resource_type = input.resource_type;
  resource_id = input.resource_id;
  case_id = input.case_id;
  company_id = input.company_id;
  correlation_id = input.correlation_id;
  idempotency_key = input.idempotency_key;
  metadata_json = input.metadata;
  dispatch_status = pending;
  retry_count = 0;
  error_code = none;
  processed_at = none;
}

-- The unique index on `idempotency_key`; SQL takes two nulls for different.
abbrev pub same_key : OutboxRow → OutboxRow → Bool
same_key a b = is_some a.idempotency_key && a.idempotency_key === b.idempotency_key

abbrev pub or_failed {ℓ} : {A : Type ℓ} → Option A → Outcome ErrorCode A
or_failed none = throw audit_publish_failed
or_failed (some a) = ok a

module _ (outbox : Table OutboxRow) where
  unfoldable pub publish :
      String → ℕ → PublishAuditEventInput → outbox.Store → Outcome ErrorCode outbox.Store
  unfolding outbox_row
  publish id now input store =
      if is_some (find_forbidden_audit_metadata_key input.metadata)
      then throw audit_forbidden_content
      else or_failed (create outbox same_key (outbox_row id now input) store)
