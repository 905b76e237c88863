-- ===== src/Tasks/Requests.antt =====
-- apps/api/src/modules/task/task.service.ts: the checks of `completeTask` and `delegateTask`, and the
-- rows and events that they make of a request.
use Prim.Native.String
use etik_bildirim_platformu.Prelude.{
  ℕ, ◌≡◌, String, Bool, not, ◌||◌, Option, none, some, [], ◌===◌, string_eq, includes, truthy,
  Outcome, require,
}
use etik_bildirim_platformu.Shared.Enums.{
  Role-discrete, role_eq, WorkflowCommand, AuditActorType, TaskType, TaskType-discrete,
  task_type_eq, TaskStatus, TaskStatus-discrete, task_status_eq, TaskEventType,
}
use etik_bildirim_platformu.Shared.Errors.{
  ErrorCode, task_not_found, task_invalid_state, task_completion_not_allowed, authz_forbidden,
}
use etik_bildirim_platformu.Storage.Rows.{CaseRow}
use etik_bildirim_platformu.Policy.User.{AuthenticatedUser}
use etik_bildirim_platformu.Policy.Scope.{ScopeWhere}
use etik_bildirim_platformu.Audit.Events.{AuditEventType, success}
use etik_bildirim_platformu.Audit.Metadata.{null, scalar, object, field, end}
use etik_bildirim_platformu.Audit.Publisher.{PublishAuditEventInput}
use etik_bildirim_platformu.Sla.Calculator.{SlaDueCalculation}
use etik_bildirim_platformu.Workflow.Records.{ExecuteTransitionInput}
use etik_bildirim_platformu.Tasks.Catalog.{task_types_without_completion}
use etik_bildirim_platformu.Tasks.Records.{TaskRow, TaskEventRow, task_type_code, text_or_null}

-- The client's reading of a filter on tasks, each beside its case.
pub record TaskFilter : Type 0 where
  pub matches : ScopeWhere → TaskRow → CaseRow → Bool
  -- It looks at the id and the assignment of a task, and at the confidentiality of its case.
  pub matches-same :
      (scope : ScopeWhere) (a b : TaskRow) (c d : CaseRow)
      → a.id ≡ b.id
      → a.assigned_user_id ≡ b.assigned_user_id
      → a.assigned_company_id ≡ b.assigned_company_id
      → a.assigned_function_id ≡ b.assigned_function_id
      → c.confidentiality_level ≡ d.confidentiality_level
      → matches scope a c ≡ matches scope b d

pub record CompleteTaskBody : Type 0 where
  pub outcome : Option String
  pub idempotency_key : String

pub record DelegateTaskBody : Type 0 where
  pub delegate_to_user_id : String
  pub reason : String

unfoldable pub assert_task_completable : TaskStatus → Outcome ErrorCode (Unit {0})
unfolding TaskStatus-discrete
assert_task_completable status =
    require (status === TaskStatus.pending || status === TaskStatus.in_progress) task_invalid_state

unfoldable pub assert_task_delegatable : TaskStatus → Outcome ErrorCode (Unit {0})
unfolding TaskStatus-discrete
assert_task_delegatable status =
    require (status === TaskStatus.pending || status === TaskStatus.in_progress) task_invalid_state

unfoldable pub assert_user_can_complete_task :
    AuthenticatedUser → TaskRow → Outcome ErrorCode (Unit {0})
unfolding Role-discrete
assert_user_can_complete_task user task = elim (truthy task.assigned_user_id) [
  | some id ↦ require (id === user.id) task_not_found
  | none ↦ require (includes task.assigned_role user.roles) authz_forbidden
]

unfoldable pub assert_user_can_delegate_task :
    AuthenticatedUser → TaskRow → Outcome ErrorCode (Unit {0})
unfolding Role-discrete
assert_user_can_delegate_task user task = elim (truthy task.assigned_user_id) [
  | some id ↦ require (id === user.id) task_not_found
  | none ↦ require (includes task.assigned_role user.roles) authz_forbidden
]

unfoldable pub assert_task_type_allows_completion : TaskType → Outcome ErrorCode (Unit {0})
unfolding TaskType-discrete
assert_task_type_allows_completion task_type =
    require (not (includes task_type task_types_without_completion)) task_completion_not_allowed

abbrev pub completion_key : CompleteTaskBody → String
completion_key body = String.◌++◌ "task-complete:" body.idempotency_key

unfoldable pub completion_input :
    AuthenticatedUser
    → CompleteTaskBody
    → String
    → String
    → WorkflowCommand
    → ExecuteTransitionInput
completion_input user body correlation_id case_id command = record {
  case_id = case_id;
  command = command;
  actor = record {
    kind = AuditActorType.user;
    user_id = some user.id;
    roles = user.roles;
    clearance_level = user.clearance_level;
  };
  idempotency_key = completion_key body;
  correlation_id = correlation_id;
  reason = body.outcome;
  metadata = [];
}

abbrev pub completed_row : ℕ → AuthenticatedUser → CompleteTaskBody → TaskRow → TaskRow
completed_row now user body row = record row {
  status = TaskStatus.completed;
  completed_at = some now;
  completed_by_user_id = some user.id;
  outcome = body.outcome;
}

abbrev pub user_event : AuthenticatedUser → String → TaskEventType → TaskEventRow
user_event user task_id event_type = record {
  task_id = task_id;
  event_type = event_type;
  actor_type = AuditActorType.user;
  actor_user_id = some user.id;
  metadata_json = null;
}

unfoldable pub completion_event :
    AuthenticatedUser
    → CompleteTaskBody
    → String
    → String
    → TaskRow
    → CaseRow
    → PublishAuditEventInput
completion_event user body correlation_id task_id task case_entity = record {
  event_type = AuditEventType.task_completed;
  actor_type = AuditActorType.user;
  actor_id = some user.id;
  action = "task_completed";
  outcome = success;
  resource_type = some "task";
  resource_id = some task_id;
  case_id = some task.case_id;
  company_id = some case_entity.company_id;
  correlation_id = some correlation_id;
  idempotency_key = some (String.◌++◌ "audit:task-completed:" body.idempotency_key);
  metadata = object (
      field "taskId" (scalar task_id) (
        field "caseId" (scalar task.case_id)
          (field "taskType" (scalar (task_type_code task.task_type)) end)));
  occurred_at = none;
  severity = none;
  event_category = none;
}

unfoldable pub delegation_event :
    AuthenticatedUser
    → DelegateTaskBody
    → String
    → String
    → TaskRow
    → TaskRow
    → CaseRow
    → PublishAuditEventInput
delegation_event user body correlation_id task_id task new case_entity = record {
  event_type = AuditEventType.task_delegated;
  actor_type = AuditActorType.user;
  actor_id = some user.id;
  action = "task_delegated";
  outcome = success;
  resource_type = some "task";
  resource_id = some new.id;
  case_id = some new.case_id;
  company_id = some case_entity.company_id;
  correlation_id = some correlation_id;
  idempotency_key = some (
      String.◌++◌ "audit:task-delegated:"
        (String.◌++◌ task_id (String.◌++◌ ":" body.delegate_to_user_id)));
  metadata = object (
      field "originalTaskId" (scalar task_id) (
        field "newTaskId" (scalar new.id) (
          field "fromUserId" (text_or_null task.assigned_user_id) (
            field "toUserId" (scalar body.delegate_to_user_id) (
              field "caseId" (scalar new.case_id)
                (field "taskType" (scalar (task_type_code new.task_type)) end))))));
  occurred_at = none;
  severity = none;
  event_category = none;
}

-- The row of the one to whom the task is delegated.
abbrev pub delegated_row :
    String → AuthenticatedUser → DelegateTaskBody → SlaDueCalculation → String → TaskRow → TaskRow
delegated_row id user body sla task_id task = record {
  id = id;
  case_id = task.case_id;
  task_type = task.task_type;
  status = TaskStatus.pending;
  assigned_role = task.assigned_role;
  assigned_user_id = some body.delegate_to_user_id;
  assigned_company_id = task.assigned_company_id;
  assigned_function_id = task.assigned_function_id;
  due_at = some sla.due_at;
  sla_policy_id = some sla.sla_policy_id;
  created_by_transition_id = task.created_by_transition_id;
  completed_by_user_id = none;
  completed_at = none;
  outcome = none;
  delegated_from_task_id = some task_id;
  created_by = some user.id;
}
