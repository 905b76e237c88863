-- ===== src/Workflow/Records.antt =====
-- apps/api/src/modules/case-management/transition/transition.types.ts, and the rows, results and
-- events that transition.service.ts makes of a request.
use Prim.Native.String
use etik_bildirim_platformu.Prelude.{
  ℕ, ◌+◌, String, Bool, Option, none, some, List, ◌===◌, string_eq, option_eq, if◌then◌else◌,
}
use etik_bildirim_platformu.Shared.Enums.{
  Role, role_eq, CaseState, case_state_eq, WorkflowCommand, workflow_command_eq, assign_rapporteur,
  assign_action, follow_up_reassign, case_state_code, workflow_command_code, TaskType,
}
use etik_bildirim_platformu.Storage.Rows.{CaseRow, TransitionRow}
use etik_bildirim_platformu.Audit.Events.{case_transition, success}
use etik_bildirim_platformu.Audit.Metadata.{scalar, object, field, end}
use etik_bildirim_platformu.Audit.Publisher.{PublishAuditEventInput}
use etik_bildirim_platformu.Workflow.Map.{TransitionDefinition}
use etik_bildirim_platformu.Workflow.Validators.{Metadata, metadata_text, TransitionActor, has_text}

pub record ExecuteTransitionInput : Type 0 where
  pub case_id : String
  pub command : WorkflowCommand
  pub actor : TransitionActor
  pub idempotency_key : String
  pub correlation_id : String
  pub reason : Option String
  pub metadata : Metadata

pub record TransitionTaskStub : Type 0 where
  pub id : String
  pub task_type : TaskType
  pub assigned_role : Role
  pub assigned_user_id : Option String

pub record TransitionResult : Type 0 where
  pub case_id : String
  pub transition_id : String
  pub from_state : CaseState
  pub to_state : CaseState
  pub command : WorkflowCommand
  pub transitioned_at : ℕ
  pub optimistic_lock_version : ℕ
  pub idempotent_replay : Bool
  pub tasks_created : List TransitionTaskStub

-- What was read of the case before the transaction.
pub record Snapshot : Type 0 where
  pub snapshot_state : CaseState
  pub snapshot_version : ℕ
  pub company_id : String

-- The time, and the ids that the database gives.
pub record Fresh : Type 0 where
  pub now : ℕ
  pub transition_id : String
  pub outbox_id : String

unfoldable pub to_result : TransitionRow → ℕ → Bool → List TransitionTaskStub → TransitionResult
to_result transition version replay tasks = record {
  case_id = transition.case_id;
  transition_id = transition.id;
  from_state = transition.from_state;
  to_state = transition.to_state;
  command = transition.command;
  transitioned_at = transition.transitioned_at;
  optimistic_lock_version = version;
  idempotent_replay = replay;
  tasks_created = tasks;
}

abbrev pub or_kept : Option String → Option String → Option String
or_kept none old = old
or_kept (some new) old = some new

-- `buildAssignmentUpdate`, as the change of the row.
unfoldable pub assign : WorkflowCommand → Metadata → CaseRow → CaseRow
assign assign_rapporteur metadata row = record row {
  assigned_rapporteur_id =
      or_kept (metadata_text metadata "rapporteurUserId") row.assigned_rapporteur_id;
}
assign assign_action metadata row = record row {
  assigned_action_owner_id =
      or_kept (metadata_text metadata "actionOwnerUserId") row.assigned_action_owner_id;
}
assign follow_up_reassign metadata row = record row {
  assigned_action_owner_id =
      or_kept (metadata_text metadata "actionOwnerUserId") row.assigned_action_owner_id;
}
assign _ metadata row = row

-- The `data` of the update of the case.
unfoldable pub moved : ℕ → ExecuteTransitionInput → TransitionDefinition → CaseRow → CaseRow
unfolding assign
moved now input definition row =
    let assigned = assign input.command input.metadata row in
    record assigned {
      current_state = definition.to_state;
      optimistic_lock_version = row.optimistic_lock_version + 1;
      closed_at = if definition.closes_case then some now else row.closed_at;
    }

unfoldable pub transition_row :
    Fresh → ExecuteTransitionInput → TransitionDefinition → CaseState → TransitionRow
transition_row fresh input definition from_state = record {
  id = fresh.transition_id;
  case_id = input.case_id;
  from_state = from_state;
  to_state = definition.to_state;
  command = input.command;
  actor_type = input.actor.kind;
  performed_by_user_id = input.actor.user_id;
  reason_text_masked = if has_text input.reason then some "[REDACTED]" else none;
  idempotency_key = input.idempotency_key;
  transitioned_at = fresh.now;
}

-- The `publish` of the audit event.
unfoldable pub transition_event :
    ExecuteTransitionInput → Snapshot → TransitionRow → PublishAuditEventInput
transition_event input snapshot row = record {
  event_type = case_transition;
  actor_type = input.actor.kind;
  actor_id = input.actor.user_id;
  action = "case_transition";
  outcome = success;
  resource_type = some "case";
  resource_id = some input.case_id;
  case_id = some input.case_id;
  company_id = some snapshot.company_id;
  correlation_id = some input.correlation_id;
  idempotency_key = some (String.◌++◌ "audit:" input.idempotency_key);
  metadata = object (
      field "fromState" (scalar (case_state_code row.from_state)) (
        field "toState" (scalar (case_state_code row.to_state)) (
          field "command" (scalar (workflow_command_code input.command))
            (field "transitionId" (scalar row.id) end))));
  occurred_at = none;
  severity = none;
  event_category = none;
}

abbrev pub same_transition_key : TransitionRow → TransitionRow → Bool
same_transition_key a b = a.idempotency_key === b.idempotency_key
