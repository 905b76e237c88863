-- ===== src/Tasks/Service/Refused.antt =====
-- apps/api/src/modules/task/task.service.ts: the error of each request to complete a task that is
-- refused before the transaction.
use etik_bildirim_platformu.Prelude.{
  ◌≡◌, ◌≢◌, refl, ◌∙◌, ◌⊎◌, inl, inr, String, Bool, true, false, Option, none, some, ◌===◌, ===_iff,
  string_eq, In, includes, includes_iff, truthy, Outcome, ok, throw,
}
use etik_bildirim_platformu.Shared.Enums.{
  Role-discrete, role_eq, TaskType, TaskType-discrete, task_type_eq, TaskStatus,
  TaskStatus-discrete, task_status_eq,
}
use etik_bildirim_platformu.Shared.Errors.{
  ErrorCode, task_not_found, task_already_completed, task_completion_not_allowed,
  task_invalid_state, authz_forbidden,
}
use etik_bildirim_platformu.Storage.Rows.{CaseRow, TransitionRow}
use etik_bildirim_platformu.Storage.World.{Tables, World}
use etik_bildirim_platformu.Policy.User.{AuthenticatedUser}
use etik_bildirim_platformu.Workflow.Engine.{SideEffects, find_transition}
use etik_bildirim_platformu.Tasks.Catalog.{task_types_without_completion}
use etik_bildirim_platformu.Tasks.Records.{TaskRow, TaskTables, all_tables}
use etik_bildirim_platformu.Tasks.Requests.{
  CompleteTaskBody, TaskFilter, completion_key, assert_task_completable,
  assert_user_can_complete_task, assert_task_type_allows_completion,
}
use etik_bildirim_platformu.Tasks.Service.{
  RequestFresh, TaskPorts, find_task_within_scope, complete_unfinished, complete_task,
}
use etik_bildirim_platformu.Tasks.Service.Guards.{IsOpen, assert_task_completable_iff}
use etik_bildirim_platformu.Tasks.Service.Again.{complete_task-unfinished}

-- Why a task that the scope finds is not to be completed, and the code of the error; `recorded` is
-- the transition of the request's key.
pub data IsRefused (user : AuthenticatedUser) (task : TaskRow) (recorded : Option TransitionRow)
    : ErrorCode → Type 0 where
  already :
      task.status ≡ TaskStatus.completed
      → recorded ≡ none
      → IsRefused user task recorded task_already_completed
  by_votes :
      task.status ≢ TaskStatus.completed
      → In task.task_type task_types_without_completion
      → IsRefused user task recorded task_completion_not_allowed
  ended :
      (task.status ≡ TaskStatus.cancelled) ⊎ (task.status ≡ TaskStatus.delegated)
      → (In task.task_type task_types_without_completion → ⊥)
      → IsRefused user task recorded task_invalid_state
  of_another :
      (assignee : String)
      → IsOpen task.status
      → (In task.task_type task_types_without_completion → ⊥)
      → truthy task.assigned_user_id ≡ some assignee
      → assignee ≢ user.id
      → IsRefused user task recorded task_not_found
  without_role :
      IsOpen task.status
      → (In task.task_type task_types_without_completion → ⊥)
      → truthy task.assigned_user_id ≡ none
      → (In task.assigned_role user.roles → ⊥)
      → IsRefused user task recorded authz_forbidden

unequal : {A : Type 0} (b : Bool) → (b ≡ true → A → ⊥) → A → b ≡ false
unequal true h a = absurd (h refl a)
unequal false h a = refl

open_unfinished : (status : TaskStatus) → IsOpen status → (status === TaskStatus.completed) ≡ false
unfolding TaskStatus-discrete
open_unfinished status (inl e) = rw e refl
open_unfinished status (inr e) = rw e refl

ended_unfinished :
    (status : TaskStatus)
    → (status ≡ TaskStatus.cancelled) ⊎ (status ≡ TaskStatus.delegated)
    → ((status === TaskStatus.completed) ≡ false)
      × (assert_task_completable status ≡ throw task_invalid_state)
unfolding TaskStatus-discrete assert_task_completable
ended_unfinished status (inl e) = (rw e refl, rw e refl)
ended_unfinished status (inr e) = (rw e refl, rw e refl)

allowed :
    (type : TaskType)
    → (In type task_types_without_completion → ⊥)
    → assert_task_type_allows_completion type ≡ ok tt
unfolding assert_task_type_allows_completion TaskType-discrete
allowed type h =
    let out : includes type task_types_without_completion ≡ false =
      unequal _ (λ e u. h ((includes_iff type task_types_without_completion).0 e)) tt in
    rw out refl

module _ (t : Tables) (k : TaskTables) (filter : TaskFilter)
    (side_effects : SideEffects (all_tables t k)) (ports : TaskPorts t k filter)
    (fresh : RequestFresh) (user : AuthenticatedUser) (correlation_id : String)
    (before now : World (all_tables t k)) (body : CompleteTaskBody) (task_id : String) where
  abbrev complete : Outcome ErrorCode (TaskRow × World (all_tables t k))
  complete =
      complete_task t k filter side_effects ports fresh user correlation_id before now body task_id

  abbrev unfinished : Outcome ErrorCode (TaskRow × World (all_tables t k))
  unfinished =
      complete_unfinished t k filter side_effects ports fresh user correlation_id before now body
        task_id

  module _ (task : TaskRow × CaseRow)
      (found : find_task_within_scope t k filter before user task_id ≡ ok task) where
    already-eq :
        (task.0.status === TaskStatus.completed) ≡ true
        → find_transition (all_tables t k) before (completion_key body) ≡ none
        → complete ≡ throw task_already_completed
    unfolding complete_task complete_unfinished TaskStatus-discrete
    already-eq e n = rw (complete_task, n, complete_unfinished, found, e) refl

    by_votes-eq :
        (task.0.status === TaskStatus.completed) ≡ false
        → includes task.0.task_type task_types_without_completion ≡ true
        → unfinished ≡ throw task_completion_not_allowed
    unfolding complete_unfinished assert_task_type_allows_completion TaskStatus-discrete
        TaskType-discrete
    by_votes-eq e i = rw (complete_unfinished, found, e, assert_task_type_allows_completion, i) refl

    ended-eq :
        (task.0.status === TaskStatus.completed) ≡ false
        → assert_task_type_allows_completion task.0.task_type ≡ ok tt
        → assert_task_completable task.0.status ≡ throw task_invalid_state
        → unfinished ≡ throw task_invalid_state
    unfolding complete_unfinished TaskStatus-discrete
    ended-eq e a c = rw (complete_unfinished, found, e, a, c) refl

    not_for_user-eq :
        (code : ErrorCode)
        → (task.0.status === TaskStatus.completed) ≡ false
        → assert_task_type_allows_completion task.0.task_type ≡ ok tt
        → assert_task_completable task.0.status ≡ ok tt
        → assert_user_can_complete_task user task.0 ≡ throw code
        → unfinished ≡ throw code
    unfolding complete_unfinished TaskStatus-discrete
    not_for_user-eq code e a c u = rw (complete_unfinished, found, e, a, c, u) refl

    -- A request to complete a task that the user's scope finds fails, before anything is written,
    -- with the code of its refusal: a completed task under a new key, a type that votes complete, a
    -- task that was cancelled or delegated, one that is assigned to another user, or one of a role
    -- that the user does not hold.
    pub complete_task-IsRefused :
        (code : ErrorCode)
        → IsRefused user task.0 (find_transition (all_tables t k) before (completion_key body)) code
        → complete_task t k filter side_effects ports fresh user correlation_id before now body
            task_id
          ≡ throw code
    unfolding TaskStatus-discrete TaskType-discrete assert_user_can_complete_task Role-discrete
    complete_task-IsRefused code (already s n) = already-eq (rw s refl) n
    complete_task-IsRefused code (by_votes s i) =
        let open_still : (task.0.status === TaskStatus.completed) ≡ false =
          unequal _ (λ e u. s ((===_iff task.0.status TaskStatus.completed).0 e)) tt in
        complete_task-unfinished t k filter side_effects ports fresh user correlation_id before now
          body task_id task found open_still
        ∙ by_votes-eq open_still ((includes_iff task.0.task_type task_types_without_completion).1 i)
    complete_task-IsRefused code (ended s a) =
        let (open_still, c) = ended_unfinished task.0.status s in
        complete_task-unfinished t k filter side_effects ports fresh user correlation_id before now
          body task_id task found open_still
        ∙ ended-eq open_still (allowed task.0.task_type a) c
    complete_task-IsRefused code (of_another assignee s a assigned other) =
        let open_still = open_unfinished task.0.status s in
        let apart : (assignee === user.id) ≡ false =
          unequal _ (λ e u. other ((===_iff assignee user.id).0 e)) tt in
        complete_task-unfinished t k filter side_effects ports fresh user correlation_id before now
          body task_id task found open_still
        ∙ not_for_user-eq task_not_found open_still (allowed task.0.task_type a)
            ((assert_task_completable_iff task.0.status).1 s)
            (rw (assert_user_can_complete_task, assigned, apart) refl)
    complete_task-IsRefused code (without_role s a assigned lacking) =
        let open_still = open_unfinished task.0.status s in
        let out : includes task.0.assigned_role user.roles ≡ false =
          unequal _ (λ e u. lacking ((includes_iff task.0.assigned_role user.roles).0 e)) tt in
        complete_task-unfinished t k filter side_effects ports fresh user correlation_id before now
          body task_id task found open_still
        ∙ not_for_user-eq authz_forbidden open_still (allowed task.0.task_type a)
            ((assert_task_completable_iff task.0.status).1 s)
            (rw (assert_user_can_complete_task, assigned, out) refl)
