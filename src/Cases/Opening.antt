-- ===== src/Cases/Opening.antt =====
-- apps/api/src/modules/case-management/case.service.ts: `createCaseFromReport`. The reads before the
-- transaction see the state `before`, the transaction runs on `now`.
pub mod Opened
pub mod History
use Prim.Native.String
use etik_bildirim_platformu.Prelude.{
  ℕ, String, Bool, true, false, ◌||◌, not, Option, none, some, List, [], ◌∷◌, ◌===◌, string_eq,
  option_eq, if◌then◌else◌, is_some, truthy, Outcome, ok, throw, ◌>>=◌, ◌>>◌, require,
}
use etik_bildirim_platformu.Shared.Enums.{
  ClearanceLevel, CaseState, report_submitted, open_case, workflow_command_code, AuditActorType,
}
use etik_bildirim_platformu.Shared.Errors.{
  ErrorCode, resource_not_found, validation_failed, case_already_exists, authz_forbidden,
  client_p2002, client_p2025,
}
use etik_bildirim_platformu.Storage.Rows.{CaseRow, ReportRow, TransitionRow}
use etik_bildirim_platformu.Storage.Table.{Table, find_first, create}
use etik_bildirim_platformu.Storage.World.{Tables, World}
use etik_bildirim_platformu.Policy.User.{AuthenticatedUser}
use etik_bildirim_platformu.Policy.Clearance.{is_clearance_sufficient}
use etik_bildirim_platformu.Audit.Events.{case_transition, success}
use etik_bildirim_platformu.Audit.Metadata.{Json, scalar, object, field, end}
use etik_bildirim_platformu.Audit.Publisher.{PublishAuditEventInput, OutboxRow, publish}
use etik_bildirim_platformu.Decision.Requests.{metadata_field}
use etik_bildirim_platformu.Workflow.Engine.{or_throw, find_case, create_transition}

pub record CreateCaseBody : Type 0 where
  pub report_id : String
  pub idempotency_key : String

pub record CreateCaseResponse : Type 0 where
  pub case_id : String
  pub report_id : String
  pub current_state : CaseState
  pub confidentiality_level : ClearanceLevel
  pub company_id : String
  pub opened_at : ℕ
  pub idempotent_replay : Bool

-- The time, and the ids that the database gives.
pub record OpeningFresh : Type 0 where
  pub now : ℕ
  pub case_id : String
  pub transition_id : String
  pub outbox_id : String

abbrev pub opening_key : CreateCaseBody → String
opening_key body = String.◌++◌ "audit:case-open:" body.idempotency_key

abbrev pub response_of : CaseRow → Bool → CreateCaseResponse
response_of row replay = record {
  case_id = row.id;
  report_id = row.report_id;
  current_state = row.current_state;
  confidentiality_level = row.confidentiality_level;
  company_id = row.company_id;
  opened_at = row.opened_at;
  idempotent_replay = replay;
}

unfoldable pub opened_case : OpeningFresh → ReportRow → CaseRow
opened_case fresh report = record {
  id = fresh.case_id;
  report_id = report.id;
  current_state = report_submitted;
  confidentiality_level = report.confidentiality_level;
  company_id = report.company_id;
  assigned_rapporteur_id = none;
  assigned_action_owner_id = none;
  opened_at = fresh.now;
  closed_at = none;
  optimistic_lock_version = 0;
}

unfoldable pub opening_row : OpeningFresh → AuthenticatedUser → CreateCaseBody → TransitionRow
opening_row fresh user body = record {
  id = fresh.transition_id;
  case_id = fresh.case_id;
  from_state = report_submitted;
  to_state = report_submitted;
  command = open_case;
  actor_type = AuditActorType.user;
  performed_by_user_id = some user.id;
  reason_text_masked = none;
  idempotency_key = body.idempotency_key;
  transitioned_at = fresh.now;
}

unfoldable pub opening_event :
    OpeningFresh → AuthenticatedUser → CreateCaseBody → ReportRow → String → PublishAuditEventInput
opening_event fresh user body report correlation_id = record {
  event_type = case_transition;
  actor_type = AuditActorType.user;
  actor_id = some user.id;
  action = "case_opened";
  outcome = success;
  resource_type = some "case";
  resource_id = some fresh.case_id;
  case_id = some fresh.case_id;
  company_id = some report.company_id;
  correlation_id = some correlation_id;
  idempotency_key = some (opening_key body);
  metadata = object (
      field "reportId" (scalar report.id) (
        field "caseId" (scalar fresh.case_id)
          (field "command" (scalar (workflow_command_code open_case)) end)));
  occurred_at = none;
  severity = none;
  event_category = none;
}

-- The unique columns of a case.
abbrev pub same_case : CaseRow → CaseRow → Bool
same_case a b = a.id === b.id || a.report_id === b.report_id

module _ (t : Tables) (report_table : Table ReportRow) where
  pub record OpeningWorld : Type 0 where
    pub world : World t
    pub reports : report_table.Store

  -- The case that the event of the request's key names, for the same report.
  unfoldable pub opened_before : World t → CreateCaseBody → Option CaseRow
  unfolding metadata_field
  opened_before w body =
      elim (find_first t.outbox (λ row. row.idempotency_key === some (opening_key body)) w.outbox) [
        | none ↦ none
        | some event ↦
            if metadata_field "reportId" event.metadata_json === some body.report_id
            then elim (metadata_field "caseId" event.metadata_json) [
              | none ↦ none
              | some id ↦ find_case t w id
            ]
            else none
      ]

  unfoldable pub update_report :
      report_table.Store → String → String → Outcome ErrorCode report_table.Store
  update_report s id case_id = elim (find_first report_table (λ row. row.id === id) s) [
    | none ↦ throw client_p2025
    | some _ ↦ ok (
        report_table.update (λ row. row.id === id) (λ row. record row { case_id = some case_id }) s)
  ]

  module _ (fresh : OpeningFresh) (user : AuthenticatedUser) (body : CreateCaseBody)
      (correlation_id : String) where
    unfoldable pub open_in_transaction :
        OpeningWorld → ReportRow → Outcome ErrorCode (CaseRow × OpeningWorld)
    unfolding opened_case opening_row opening_event create_transition update_report
    open_in_transaction now report = do
      let w = now.world
      let row = opened_case fresh report
      cases ← or_throw client_p2002 (create t.cases same_case row w.cases)
      recorded ← create_transition t (record w { cases = cases }) (opening_row fresh user body)
      linked ← update_report now.reports report.id fresh.case_id
      outbox ←
          publish t.outbox fresh.outbox_id fresh.now
            (opening_event fresh user body report correlation_id) recorded.outbox
      ok (row, record { world = record recorded { outbox = outbox }; reports = linked })

    unfoldable pub create_case_from_report :
        OpeningWorld → OpeningWorld → Outcome ErrorCode (CreateCaseResponse × OpeningWorld)
    unfolding opened_before open_in_transaction
    create_case_from_report before now = elim (opened_before before.world body) [
      | some existing ↦ ok (response_of existing true, now)
      | none ↦ do
        report ←
            or_throw resource_not_found
              (find_first report_table (λ row. row.id === body.report_id) before.reports)
        require (report.status === "SUBMITTED") validation_failed
        require (not (is_some (truthy report.case_id))) case_already_exists
        require (is_clearance_sufficient user.clearance_level report.confidentiality_level)
            authz_forbidden
        opened ← open_in_transaction now report
        ok (response_of opened.0 false, opened.1)
    ]
