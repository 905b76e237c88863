-- ===== src/Examples/TaskRuns.antt =====
-- apps/api/src/modules/task: a database with the review of a report, and its completion by the
-- secretary.

use etik_bildirim_platformu.Shared.Enums.{
  task_type_eq, start_pre_research, pre_research, TaskEventType,
}
use etik_bildirim_platformu.Audit.Events.{AuditEventType, success}
use etik_bildirim_platformu.Audit.Metadata.{Json, null, scalar, object, field, end}
use etik_bildirim_platformu.Audit.Publisher.{PublishAuditEventInput}
use etik_bildirim_platformu.Tasks.Records.{TaskEventRow}
use etik_bildirim_platformu.Tasks.Catalog.{resolve_tasks_for_transition}
use etik_bildirim_platformu.Sla.Calculator.{calculate_due_at}
use etik_bildirim_platformu.Workflow.Engine.{apply_transition}
use etik_bildirim_platformu.Audit.Metadata.{find_forbidden}
use etik_bildirim_platformu.Audit.Metadata.{find_forbidden_audit_metadata_key}
use etik_bildirim_platformu.Audit.Publisher.{outbox_row}
use etik_bildirim_platformu.Audit.Publisher.{publish}
use etik_bildirim_platformu.Decision.Unanimity.{eligible_ids}
use etik_bildirim_platformu.Shared.Enums.{case_state_code}
use etik_bildirim_platformu.Shared.Enums.{workflow_command_code}
use etik_bildirim_platformu.Tasks.Records.{task_type_code}
use etik_bildirim_platformu.Tasks.Requests.{completion_event}
use etik_bildirim_platformu.Workflow.Records.{assign}
use etik_bildirim_platformu.Workflow.Records.{moved}
use etik_bildirim_platformu.Workflow.Records.{transition_row}
use etik_bildirim_platformu.Workflow.Text.{is_blank}
use etik_bildirim_platformu.Policy.Scope.{build_task_scope}
use etik_bildirim_platformu.Policy.Abac.{resolve_effective_abac_rule}
use etik_bildirim_platformu.Policy.Abac.{get_abac_rule_for_role_and_resource}
use etik_bildirim_platformu.Tasks.Requests.{assert_task_type_allows_completion}
use etik_bildirim_platformu.Tasks.Requests.{assert_task_completable}
use etik_bildirim_platformu.Tasks.Requests.{assert_user_can_complete_task}
use etik_bildirim_platformu.Tasks.Catalog.{resolve_task_completion_command}
use etik_bildirim_platformu.Workflow.Engine.{execute_in_transaction}
use etik_bildirim_platformu.Tasks.Requests.{completion_input}
use etik_bildirim_platformu.Workflow.Engine.{transition_case}
use etik_bildirim_platformu.Workflow.Map.{resolve_transition}
use etik_bildirim_platformu.Workflow.Validators.{validate}
use etik_bildirim_platformu.Workflow.Validators.{is_system_actor_allowed}
use etik_bildirim_platformu.Policy.Clearance.{is_clearance_sufficient}
use etik_bildirim_platformu.Workflow.Validators.{validate_preconditions}
use etik_bildirim_platformu.Workflow.Engine.{validate_async_preconditions}
use etik_bildirim_platformu.Prelude.{
  ◌≡◌, refl, true, false, String, none, some, [], ◌∷◌, ok, Outcome, string_eq,
}
use etik_bildirim_platformu.Shared.Enums.{
  Role, council_secretary, council_member, secretariat_review, normal, strictly_confidential,
  AuditActorType, secretariat_review_task, pre_research_task, member_approval_task, TaskStatus,
  TaskType,
}
use etik_bildirim_platformu.Shared.Errors.{ErrorCode}
use etik_bildirim_platformu.Storage.Rows.{CaseRow, TransitionRow, UserRow}
use etik_bildirim_platformu.Storage.World.{Tables, World, list_tables}
use etik_bildirim_platformu.Policy.User.{AuthenticatedUser}
use etik_bildirim_platformu.Sla.Calculator.{SlaPolicyRow}
use etik_bildirim_platformu.Workflow.Engine.{SideEffects}
use etik_bildirim_platformu.Tasks.Records.{TaskRow, TaskTables, all_tables, list_task_tables}
use etik_bildirim_platformu.Tasks.Requests.{CompleteTaskBody, DelegateTaskBody, TaskFilter}
use etik_bildirim_platformu.Tasks.Creation.{Supply, EffectPorts, transition_side_effects}
use etik_bildirim_platformu.Tasks.Service.{RequestFresh, TaskPorts, complete_task}

abbrev pub tables : Tables
tables = list_tables Unit

abbrev pub task_tables : TaskTables
task_tables = list_task_tables Unit

abbrev pub Database : Type 0
Database = World (all_tables tables task_tables)

-- A filter that lets everything through.
abbrev pub open_filter : TaskFilter
open_filter = record {
  matches = λ scope row c. true;
  matches-same = λ scope a b c d p q r s u. refl;
}

abbrev pub effect_ports : EffectPorts tables task_tables
effect_ports = record {
  apply_transition_grants = λ w c r. ok tt;
  enqueue_transition_notifications = λ w c r stubs. ok tt;
}

abbrev pub supply : Supply
supply = record { now = λ i. 5000; task_id = λ i. "k2" }

abbrev pub effects : SideEffects (all_tables tables task_tables)
effects = transition_side_effects tables task_tables effect_ports supply

abbrev pub ports : TaskPorts tables task_tables open_filter
ports = record {
  enqueue_task_completed = λ w row user body. ok tt;
  enqueue_task_delegated = λ w row body. ok tt;
}

abbrev pub fresh : RequestFresh
fresh = record {
  now = 5000;
  transition = record { now = 5000; transition_id = "t2"; outbox_id = "o2" };
  outbox_id = "o3";
  task_id = "k3";
}

abbrev pub secretary : String → AuthenticatedUser
secretary id = record {
  id = id;
  email = "";
  display_name = "";
  roles = council_secretary ∷ [];
  clearance_level = strictly_confidential;
  company_id = none;
  company_name = none;
  function_id = none;
  location_id = none;
  is_general_secretary = false;
}

abbrev pub case_entity : CaseRow
case_entity = record {
  id = "c1";
  current_state = secretariat_review;
  confidentiality_level = normal;
  company_id = "co1";
  report_id = "p1";
  opened_at = 0;
  assigned_rapporteur_id = none;
  assigned_action_owner_id = none;
  closed_at = none;
  optimistic_lock_version = 1;
}

abbrev pub review : TaskRow
review = record {
  id = "k1";
  case_id = "c1";
  task_type = secretariat_review_task;
  status = TaskStatus.pending;
  assigned_role = council_secretary;
  assigned_user_id = none;
  assigned_company_id = none;
  assigned_function_id = none;
  due_at = none;
  sla_policy_id = none;
  created_by_transition_id = "t1";
  completed_by_user_id = none;
  completed_at = none;
  outcome = none;
  delegated_from_task_id = none;
  created_by = none;
}

abbrev pub policy : TaskType → SlaPolicyRow
policy type = record {
  id = "p1";
  task_type = type;
  sla_duration = 24;
  sla_unit = "calendar_hours";
  is_active = true;
}

abbrev pub holder : String → Role → UserRow
holder id role = record {
  id = id;
  is_active = true;
  clearance_level = strictly_confidential;
  roles_assigned = record { role_code = role; is_active = true } ∷ [];
}

abbrev pub start : Database
start = record {
  cases = case_entity ∷ [];
  transitions = [];
  users =
      holder "u2" council_secretary ∷ holder "m2" council_member ∷ holder "m1" council_member ∷ [];
  votes = [];
  outbox = [];
  rest = record {
    tasks = review ∷ [];
    task_events = [];
    policies =
        policy secretariat_review_task
        ∷ policy pre_research_task
        ∷ policy member_approval_task
        ∷ [];
    calendar = [];
    other = tt;
  };
}

abbrev pub completion : CompleteTaskBody
completion = record { outcome = some "done"; idempotency_key = "x1" }

abbrev pub delegation : DelegateTaskBody
delegation = record { delegate_to_user_id = "u2"; reason = "leave" }

abbrev pub run : Outcome ErrorCode (TaskRow × Database)
run =
    complete_task tables task_tables open_filter effects ports fresh (secretary "u1") "r1" start
      start completion "k1"

abbrev pub completed_review : TaskRow
completed_review = record review {
  status = TaskStatus.completed;
  completed_by_user_id = some "u1";
  completed_at = some 5000;
  outcome = some "done";
}

abbrev pub outbox_event : String → AuditEventType → String → PublishAuditEventInput
outbox_event id type action = record {
  event_type = type;
  actor_type = AuditActorType.user;
  actor_id = some "u1";
  action = action;
  outcome = success;
  resource_type = some "task";
  resource_id = some id;
  case_id = some "c1";
  company_id = some "co1";
  correlation_id = some "r1";
  idempotency_key = none;
  metadata = null;
  occurred_at = none;
  severity = none;
  event_category = none;
}

abbrev pub task_event : String → TaskEventType → Json → TaskEventRow
task_event id type metadata = record {
  task_id = id;
  event_type = type;
  actor_type = AuditActorType.user;
  actor_user_id = some "u1";
  metadata_json = metadata;
}

abbrev pub started : TransitionRow
started = record {
  id = "t2";
  case_id = "c1";
  from_state = secretariat_review;
  to_state = pre_research;
  command = start_pre_research;
  actor_type = AuditActorType.user;
  performed_by_user_id = some "u1";
  reason_text_masked = some "[REDACTED]";
  idempotency_key = "task-complete:x1";
  transitioned_at = 5000;
}

abbrev pub research : TaskRow
research = record review {
  id = "k2";
  task_type = pre_research_task;
  due_at = some 86405000;
  sla_policy_id = some "p1";
  created_by_transition_id = "t2";
}

-- After the completion: the case has moved on and the next task waits.
abbrev pub completed_world : Database
completed_world = record start {
  cases = record case_entity { current_state = pre_research; optimistic_lock_version = 2 } ∷ [];
  transitions = started ∷ [];
  outbox =
      outbox_row "o2" 5000
        (record (outbox_event "c1" AuditEventType.case_transition "case_transition") {
          resource_type = some "case";
          idempotency_key = some "audit:task-complete:x1";
          metadata = object (
              field "fromState" (scalar "secretariat_review") (
                field "toState" (scalar "pre_research") (
                  field "command" (scalar "start_pre_research")
                    (field "transitionId" (scalar "t2") end))));
        })
      ∷ outbox_row "o3" 5000
          (record (outbox_event "k1" AuditEventType.task_completed "task_completed") {
            idempotency_key = some "audit:task-completed:x1";
            metadata = object (
                field "taskId" (scalar "k1") (
                  field "caseId" (scalar "c1")
                    (field "taskType" (scalar "secretariat_review_task") end)));
          })
      ∷ [];
  rest = record start.rest {
    tasks = completed_review ∷ research ∷ [];
    task_events =
        task_event "k2" TaskEventType.created (
          object (
            field "transitionId" (scalar "t2")
              (field "taskType" (scalar "pre_research_task") (field "assignedUserId" null end))))
        ∷ task_event "k1" TaskEventType.task_completed null
        ∷ [];
  };
}

pub run-ok : run ≡ ok (completed_review, completed_world)
unfolding complete_task apply_transition find_forbidden find_forbidden_audit_metadata_key publish
    eligible_ids case_state_code workflow_command_code task_type_code completion_event assign moved
    transition_row is_blank build_task_scope resolve_effective_abac_rule
    get_abac_rule_for_role_and_resource assert_task_type_allows_completion assert_task_completable
    assert_user_can_complete_task resolve_task_completion_command execute_in_transaction
    completion_input transition_case resolve_transition validate is_system_actor_allowed
    is_clearance_sufficient validate_preconditions validate_async_preconditions
    resolve_tasks_for_transition calculate_due_at transition_side_effects
run-ok = refl
