-- ===== src/Tasks/Service.antt =====
-- apps/api/src/modules/task/task.service.ts: `completeTask` and `delegateTask`. The reads before
-- the transaction see `before`; the transaction, which waits for the case's advisory lock, runs on
-- `now`. The answer is the row; its mapping to the response type is left out.
pub mod Guards
pub mod Finished
pub mod Completed
pub mod Keys
pub mod Scoped
pub mod Delegated
pub mod Again
pub mod Refused
use etik_bildirim_platformu.Prelude.{
  ℕ, String, Bool, true, false, not, ◌&&◌, Option, none, some, List, [], ◌∷◌, ◌===◌, string_eq,
  find, any, if◌then◌else◌, Outcome, ok, throw, ◌>>=◌, ◌>>◌, require, is_some,
}
use etik_bildirim_platformu.Shared.Enums.{
  Role, Role-discrete, role_eq, TaskStatus, TaskStatus-discrete, task_status_eq, TaskEventType,
  created, task_completed, task_delegated, WorkflowCommand,
}
use etik_bildirim_platformu.Shared.Errors.{
  ErrorCode, task_not_found, task_already_completed, task_completion_not_allowed,
  task_delegation_not_allowed, task_delegation_invalid_target, client_p2025,
}
use etik_bildirim_platformu.Storage.Rows.{CaseRow, UserRow, RoleAssignment}
use etik_bildirim_platformu.Storage.Table.{find_first}
use etik_bildirim_platformu.Storage.World.{Tables, World}
use etik_bildirim_platformu.Policy.User.{AuthenticatedUser}
use etik_bildirim_platformu.Policy.Scope.{ScopeWhere, id_is, build_task_scope}
use etik_bildirim_platformu.Audit.Metadata.{scalar, object, field, end}
use etik_bildirim_platformu.Audit.Publisher.{publish}
use etik_bildirim_platformu.Sla.Calculator.{calculate_due_at}
use etik_bildirim_platformu.Workflow.Records.{Snapshot, Fresh}
use etik_bildirim_platformu.Workflow.Engine.{
  or_throw, find_case, find_transition, execute_in_transaction, SideEffects,
}
use etik_bildirim_platformu.Tasks.Catalog.{resolve_task_completion_command}
use etik_bildirim_platformu.Tasks.Records.{
  TaskRow, TaskEventRow, TaskTables, TaskStores, all_tables, has_task_id, task_type_code,
  text_or_null, record_task_event,
}
use etik_bildirim_platformu.Tasks.Requests.{
  CompleteTaskBody, DelegateTaskBody, TaskFilter, assert_task_completable, assert_task_delegatable,
  assert_user_can_complete_task, assert_user_can_delegate_task, assert_task_type_allows_completion,
  completion_key, completion_input, completed_row, user_event, completion_event, delegated_row,
  delegation_event,
}

-- The ids and the time of one request.
pub record RequestFresh : Type 0 where
  pub now : ℕ
  pub transition : Fresh
  pub outbox_id : String
  pub task_id : String

-- `{ id, ...scope }`: the id of a scope takes the place of the one that is asked for.
abbrev pub asked_id : ScopeWhere → String → String
asked_id (id_is other) id = other
asked_id _ id = id

module _ (t : Tables) (k : TaskTables) (filter : TaskFilter) where
  abbrev pub is_selected : World (all_tables t k) → ScopeWhere → String → TaskRow → Bool
  is_selected w scope id row =
      has_task_id (asked_id scope id) row && elim (find_case (all_tables t k) w row.case_id) [
        | none ↦ false
        | some case_entity ↦ filter.matches scope row case_entity
      ]

  -- The task with its case, in the scope of the user.
  unfoldable pub find_task_within_scope :
      World (all_tables t k) → AuthenticatedUser → String → Outcome ErrorCode (TaskRow × CaseRow)
  find_task_within_scope w user id = do
    row ←
        or_throw task_not_found
          (find (is_selected w (build_task_scope user) id) (k.tasks.rows w.rest.tasks))
    case_entity ← or_throw task_not_found (find_case (all_tables t k) w row.case_id)
    ok (row, case_entity)

  -- What enqueues the notifications of a completion and of a delegation.
  pub record TaskPorts : Type 0 where
    pub enqueue_task_completed :
        World (all_tables t k)
        → TaskRow
        → AuthenticatedUser
        → CompleteTaskBody
        → Outcome ErrorCode k.Other
    pub enqueue_task_delegated :
        World (all_tables t k) → TaskRow → DelegateTaskBody → Outcome ErrorCode k.Other

  module _ (side_effects : SideEffects (all_tables t k)) (ports : TaskPorts) (fresh : RequestFresh)
      (user : AuthenticatedUser) (correlation_id : String) where
    -- `update`: the changed row, and the error P2025 where there is none.
    unfoldable pub update_task :
        String → (TaskRow → TaskRow) → TaskStores k → Outcome ErrorCode (TaskRow × TaskStores k)
    update_task id change s = elim (find_first k.tasks (has_task_id id) s.tasks) [
      | none ↦ throw client_p2025
      | some row ↦
          ok (change row, record s { tasks = k.tasks.update (has_task_id id) change s.tasks })
    ]

    -- The last writes of a completion, after its transition.
    unfoldable pub finish_completion :
        World (all_tables t k)
        → CompleteTaskBody
        → String
        → CaseRow
        → Outcome ErrorCode (TaskRow × World (all_tables t k))
    unfolding completion_event update_task
    finish_completion w body task_id case_entity = do
      updated ← update_task task_id (completed_row fresh.now user body) w.rest
      let s = record_task_event k (user_event user task_id task_completed) updated.1
      outbox ←
          publish t.outbox fresh.outbox_id fresh.now
            (completion_event user body correlation_id task_id updated.0 case_entity) w.outbox
      notified ←
          ports.enqueue_task_completed (record w { rest = s; outbox = outbox }) updated.0 user body
      ok (updated.0, record w { rest = record s { other = notified }; outbox = outbox })

    -- The transaction, with the case as it was read before.
    unfoldable pub complete_in_transaction :
        World (all_tables t k)
        → CompleteTaskBody
        → String
        → CaseRow
        → WorkflowCommand
        → Outcome ErrorCode (TaskRow × World (all_tables t k))
    unfolding find_task_within_scope finish_completion TaskStatus-discrete
    complete_in_transaction now body task_id read command = do
      current ← find_task_within_scope now user task_id
      if current.0.status === TaskStatus.completed then ok (current.0, now) else (do
        moved ←
            execute_in_transaction (all_tables t k) side_effects fresh.transition
              (completion_input user body correlation_id current.0.case_id command) now
              (record {
                snapshot_state = read.current_state;
                snapshot_version = read.optimistic_lock_version;
                company_id = current.1.company_id;
              })
        finish_completion moved.1 body task_id current.1)

    unfoldable pub complete_unfinished :
        World (all_tables t k)
        → World (all_tables t k)
        → CompleteTaskBody
        → String
        → Outcome ErrorCode (TaskRow × World (all_tables t k))
    unfolding complete_in_transaction TaskStatus-discrete
    complete_unfinished before now body task_id = do
      scoped ← find_task_within_scope before user task_id
      require (not (scoped.0.status === TaskStatus.completed)) task_already_completed
      assert_task_type_allows_completion scoped.0.task_type
      assert_task_completable scoped.0.status
      assert_user_can_complete_task user scoped.0
      command ←
          or_throw task_completion_not_allowed (resolve_task_completion_command scoped.0.task_type)
      complete_in_transaction now body task_id scoped.1 command

    unfoldable pub complete_task :
        World (all_tables t k)
        → World (all_tables t k)
        → CompleteTaskBody
        → String
        → Outcome ErrorCode (TaskRow × World (all_tables t k))
    unfolding complete_unfinished find_task_within_scope TaskStatus-discrete
    complete_task before now body task_id =
        elim (find_transition (all_tables t k) before (completion_key body)) [
          | none ↦ complete_unfinished before now body task_id
          | some existing ↦ do
            task ← find_task_within_scope before user task_id
            if task.0.status === TaskStatus.completed
                then ok (task.0, now)
                else complete_unfinished before now body task_id
        ]

    -- An active user with the role of the task; whether the assignment of the role is active is not
    -- asked.
    unfoldable pub is_delegate_target : World (all_tables t k) → String → Role → Bool
    unfolding Role-discrete
    is_delegate_target w id role = is_some (
        find_first t.users
          (λ row.
            row.id === id
            && row.is_active
            && any (λ (held : RoleAssignment). held.role_code === role) row.roles_assigned)
          w.users)

    abbrev pub mark_delegated : TaskRow → TaskRow
    mark_delegated row = record row { status = TaskStatus.delegated }

    -- The new row and the two events.
    abbrev pub written_delegation :
        String → TaskRow → TaskRow → DelegateTaskBody → TaskStores k → TaskStores k
    written_delegation task_id task new body s =
        let delegation = record (user_event user task_id task_delegated) {
          metadata_json = object (
              field "fromUserId" (text_or_null task.assigned_user_id) (
                field "toUserId" (scalar body.delegate_to_user_id)
                  (field "newTaskId" (scalar new.id) end)));
        } in
        let creation = record (user_event user new.id created) {
          metadata_json = object (
              field "delegatedFromTaskId" (scalar task_id)
                (field "taskType" (scalar (task_type_code task.task_type)) end));
        } in
        record_task_event k creation
          (record_task_event k delegation (record s { tasks = k.tasks.insert new s.tasks }))

    -- The writes of a delegation.
    unfoldable pub finish_delegation :
        World (all_tables t k)
        → DelegateTaskBody
        → String
        → TaskRow
        → CaseRow
        → Outcome ErrorCode (TaskRow × World (all_tables t k))
    unfolding delegation_event update_task
    finish_delegation w body task_id task case_entity = do
      sla ←
          calculate_due_at (k.policies.rows w.rest.policies) (k.calendar.rows w.rest.calendar)
            task.task_type fresh.now
      let new = delegated_row fresh.task_id user body sla task_id task
      updated ← update_task task_id mark_delegated w.rest
      let s = written_delegation task_id task new body updated.1
      outbox ←
          publish t.outbox fresh.outbox_id fresh.now
            (delegation_event user body correlation_id task_id task new case_entity) w.outbox
      notified ← ports.enqueue_task_delegated (record w { rest = s; outbox = outbox }) new body
      ok (new, record w { rest = record s { other = notified }; outbox = outbox })

    unfoldable pub delegate_task :
        World (all_tables t k)
        → World (all_tables t k)
        → DelegateTaskBody
        → String
        → Outcome ErrorCode (TaskRow × World (all_tables t k))
    unfolding find_task_within_scope is_delegate_target finish_delegation
    delegate_task before now body task_id = do
      scoped ← find_task_within_scope before user task_id
      assert_task_delegatable scoped.0.status
      assert_user_can_delegate_task user scoped.0
      require (not (body.delegate_to_user_id === user.id)) task_delegation_not_allowed
      require (is_delegate_target before body.delegate_to_user_id scoped.0.assigned_role)
          task_delegation_invalid_target
      current ← find_task_within_scope now user task_id
      assert_task_delegatable current.0.status
      finish_delegation now body task_id current.0 current.1
