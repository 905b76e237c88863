-- ===== src/Tasks/Creation.antt =====
-- apps/api/src/modules/task/task.service.ts, `createTasksForTransition`, and
-- apps/api/src/modules/case-management/transition/transition.side-effects.ts.
pub mod Created
use Prim.Native.Nat.{Ordering}
use Prim.Native.String.{compare as compare_text}
use etik_bildirim_platformu.Prelude.{
  ℕ, ◌+◌, String, Bool, true, false, Option, none, some, List, [], ◌∷◌, ◌++◌, map, ◌===◌, length,
  if◌then◌else◌, Outcome, ok, throw, ◌>>=◌,
}
use etik_bildirim_platformu.Shared.Enums.{
  AuditActorType, TaskType, TaskType-discrete, task_type_eq, member_approval_task, TaskStatus,
  TaskEventType, created,
}
use etik_bildirim_platformu.Shared.Errors.{ErrorCode}
use etik_bildirim_platformu.Storage.Rows.{CaseRow, TransitionRow}
use etik_bildirim_platformu.Storage.World.{Tables, World}
use etik_bildirim_platformu.Audit.Metadata.{scalar, object, field, end}
use etik_bildirim_platformu.Sla.Calculator.{SlaDueCalculation, calculate_due_at}
use etik_bildirim_platformu.Decision.Unanimity.{list_eligible_council_member_ids}
use etik_bildirim_platformu.Workflow.Records.{ExecuteTransitionInput, TransitionTaskStub}
use etik_bildirim_platformu.Workflow.Validators.{TransitionActor, TransitionValidationContext}
use etik_bildirim_platformu.Workflow.Engine.{SideEffects}
use etik_bildirim_platformu.Tasks.Catalog.{TaskCreationDefinition, resolve_tasks_for_transition}
use etik_bildirim_platformu.Tasks.Records.{
  TaskRow, TaskEventRow, TaskTables, TaskStores, all_tables, task_type_code, text_or_null,
  record_task_event,
}

-- The times of the clock and the ids that the database gives, for the first task that is created,
-- the second, and so on.
pub record Supply : Type 0 where
  pub now : ℕ → ℕ
  pub task_id : ℕ → String

abbrev not_after : String → String → Bool
not_after a b = elim (compare_text a b) [ Ordering.gt ↦ false | _ ↦ true ]

abbrev place : String → List String → List String
place id [] = id ∷ []
place id (first ∷ ids) =
    let rest = place id ids in if not_after id first then id ∷ first ∷ ids else first ∷ rest

-- `orderBy: { id: 'asc' }`
unfoldable pub in_order : List String → List String
in_order [] = []
in_order (id ∷ ids) = place id (in_order ids)

abbrev pub task_row :
    String
    → CaseRow
    → TransitionRow
    → TaskCreationDefinition
    → Option String
    → SlaDueCalculation
    → TaskRow
task_row id case_entity transition definition assignee sla = record {
  id = id;
  case_id = case_entity.id;
  task_type = definition.task_type;
  status = TaskStatus.pending;
  assigned_role = definition.assigned_role;
  assigned_user_id = assignee;
  assigned_company_id = definition.assigned_company_id;
  assigned_function_id = definition.assigned_function_id;
  due_at = some sla.due_at;
  sla_policy_id = some sla.sla_policy_id;
  created_by_transition_id = transition.id;
  completed_by_user_id = none;
  completed_at = none;
  outcome = none;
  delegated_from_task_id = none;
  created_by = none;
}

abbrev pub created_event : TransitionActor → TransitionRow → TaskRow → TaskEventRow
created_event actor transition row = record {
  task_id = row.id;
  event_type = created;
  actor_type = actor.kind;
  actor_user_id = actor.user_id;
  metadata_json = object (
      field "transitionId" (scalar transition.id) (
        field "taskType" (scalar (task_type_code row.task_type))
          (field "assignedUserId" (text_or_null row.assigned_user_id) end)));
}

abbrev pub stub_of : TaskRow → TransitionTaskStub
stub_of row = record {
  id = row.id;
  task_type = row.task_type;
  assigned_role = row.assigned_role;
  assigned_user_id = row.assigned_user_id;
}

module _ (t : Tables) (k : TaskTables) where
  module _ (supply : Supply) (members : List String) (case_entity : CaseRow)
      (transition : TransitionRow) (actor : TransitionActor) where
    -- One task: its deadline, its row and its event.
    unfoldable pub create_task :
        ℕ
        → TaskCreationDefinition
        → Option String
        → TaskStores k
        → Outcome ErrorCode (TaskRow × TaskStores k)
    create_task i definition assignee s = do
      sla ←
          calculate_due_at (k.policies.rows s.policies) (k.calendar.rows s.calendar)
            definition.task_type (supply.now i)
      let row = task_row (supply.task_id i) case_entity transition definition assignee sla
      ok (
        row,
        record_task_event k (created_event actor transition row)
            (record s { tasks = k.tasks.insert row s.tasks }),
      )

    unfoldable pub for_assignees :
        ℕ
        → TaskCreationDefinition
        → List (Option String)
        → TaskStores k
        → Outcome ErrorCode (List TaskRow × TaskStores k)
    unfolding create_task
    for_assignees i definition [] s = ok ([], s)
    for_assignees i definition (assignee ∷ assignees) s = do
      first ← create_task i definition assignee s
      rest ← for_assignees (i + 1) definition assignees first.1
      ok (first.0 ∷ rest.0, rest.1)

    unfoldable pub assignees_of : TaskCreationDefinition → List (Option String)
    unfolding TaskType-discrete
    assignees_of definition =
        if definition.task_type === member_approval_task
        then map some members
        else definition.assigned_user_id ∷ []

    unfoldable pub for_definitions :
        ℕ
        → List TaskCreationDefinition
        → TaskStores k
        → Outcome ErrorCode (List TaskRow × TaskStores k)
    unfolding for_assignees assignees_of
    for_definitions i [] s = ok ([], s)
    for_definitions i (definition ∷ definitions) s = do
      first ← for_assignees i definition (assignees_of definition) s
      rest ← for_definitions (i + length first.0) definitions first.1
      ok (first.0 ++ rest.0, rest.1)

  unfoldable pub create_tasks_for_transition :
      Supply
      → World (all_tables t k)
      → CaseRow
      → TransitionRow
      → TransitionActor
      → Outcome ErrorCode (List TransitionTaskStub × TaskStores k)
  unfolding for_definitions in_order
  create_tasks_for_transition supply w case_entity transition actor = do
    made ←
        for_definitions supply (in_order (list_eligible_council_member_ids (all_tables t k) w))
          case_entity transition actor 0 (resolve_tasks_for_transition case_entity transition)
          w.rest
    ok (map stub_of made.0, made.1)

  -- What grants access to documents and what enqueues notifications, in the same transaction.
  pub record EffectPorts : Type 0 where
    pub apply_transition_grants :
        World (all_tables t k)
        → TransitionValidationContext
        → TransitionRow
        → Outcome ErrorCode k.Other
    pub enqueue_transition_notifications :
        World (all_tables t k)
        → TransitionValidationContext
        → TransitionRow
        → List TransitionTaskStub
        → Outcome ErrorCode k.Other

  abbrev pub with_rest : World (all_tables t k) → TaskStores k → World (all_tables t k)
  with_rest w s = record w { rest = s }

  -- `apply`
  unfoldable pub transition_side_effects : EffectPorts → Supply → SideEffects (all_tables t k)
  unfolding create_tasks_for_transition
  transition_side_effects ports supply w input context transition = do
    granted ← ports.apply_transition_grants w context transition
    let w₁ = with_rest w (record w.rest { other = granted })
    made ← create_tasks_for_transition supply w₁ context.case_entity transition context.actor
    notified ←
        ports.enqueue_transition_notifications (with_rest w₁ made.1) context transition made.0
    ok (made.0, record made.1 { other = notified })
