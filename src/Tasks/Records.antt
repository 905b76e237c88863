-- ===== src/Tasks/Records.antt =====
-- apps/api/src/modules/task and the task tables of apps/api/prisma/schema.prisma: the rows, the
-- tables beside those of a transition, and the events of a task.
use etik_bildirim_platformu.Prelude.{ℕ, String, Option, none, some, Bool, ◌===◌, string_eq}
use etik_bildirim_platformu.Shared.Enums.{
  Role, TaskType, secretariat_review_task, pre_research_task, chair_gate_task,
  rapporteur_assign_task, rapporteur_report_task, member_approval_task, decision_draft_task,
  board_review_task, implementation_letter_task, action_response_task, follow_up_review_task,
  TaskStatus, TaskEventType, AuditActorType,
}
use etik_bildirim_platformu.Storage.Table.{Table, list_table}
use etik_bildirim_platformu.Storage.World.{Tables}
use etik_bildirim_platformu.Audit.Metadata.{Json, null, scalar}
use etik_bildirim_platformu.Sla.Calculator.{SlaPolicyRow, CalendarEntryRow}

-- `Task`, less the columns that the modelled operations leave alone.
pub record TaskRow : Type 0 where
  pub id : String
  pub case_id : String
  pub task_type : TaskType
  pub status : TaskStatus
  pub assigned_role : Role
  pub assigned_user_id : Option String
  pub assigned_company_id : Option String
  pub assigned_function_id : Option String
  pub due_at : Option ℕ
  pub sla_policy_id : Option String
  pub created_by_transition_id : String
  pub completed_by_user_id : Option String
  pub completed_at : Option ℕ
  pub outcome : Option String
  pub delegated_from_task_id : Option String
  pub created_by : Option String

-- `TaskEvent`, which is also the input of `recordTaskEvent`; metadata left out is `null`.
pub record TaskEventRow : Type 0 where
  pub task_id : String
  pub event_type : TaskEventType
  pub actor_type : AuditActorType
  pub actor_user_id : Option String
  pub metadata_json : Json

-- The tables that the side effects of a transition use. What grants and notifications write is
-- `Other`.
pub record TaskTables : Type 1 where
  pub tasks : Table TaskRow
  pub task_events : Table TaskEventRow
  pub policies : Table SlaPolicyRow
  pub calendar : Table CalendarEntryRow
  pub Other : Type 0

pub record TaskStores (k : TaskTables) : Type 0 where
  pub tasks : k.tasks.Store
  pub task_events : k.task_events.Store
  pub policies : k.policies.Store
  pub calendar : k.calendar.Store
  pub other : k.Other

-- The tables of a transition, with those of the tasks as what its side effects write.
abbrev pub all_tables : Tables → TaskTables → Tables
all_tables t k = record t { Rest = TaskStores k }

abbrev pub list_task_tables : Type 0 → TaskTables
list_task_tables Other = record {
  tasks = list_table TaskRow;
  task_events = list_table TaskEventRow;
  policies = list_table SlaPolicyRow;
  calendar = list_table CalendarEntryRow;
  Other = Other;
}

unfoldable pub task_type_code : TaskType → String
task_type_code secretariat_review_task = "secretariat_review_task"
task_type_code pre_research_task = "pre_research_task"
task_type_code chair_gate_task = "chair_gate_task"
task_type_code rapporteur_assign_task = "rapporteur_assign_task"
task_type_code rapporteur_report_task = "rapporteur_report_task"
task_type_code member_approval_task = "member_approval_task"
task_type_code decision_draft_task = "decision_draft_task"
task_type_code board_review_task = "board_review_task"
task_type_code implementation_letter_task = "implementation_letter_task"
task_type_code action_response_task = "action_response_task"
task_type_code follow_up_review_task = "follow_up_review_task"

abbrev pub text_or_null : Option String → Json
text_or_null none = null
text_or_null (some text) = scalar text

abbrev pub has_task_id : String → TaskRow → Bool
has_task_id id row = row.id === id

-- `recordTaskEvent`
abbrev pub record_task_event : (k : TaskTables) → TaskEventRow → TaskStores k → TaskStores k
record_task_event k event s = record s { task_events = k.task_events.insert event s.task_events }
