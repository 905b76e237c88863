-- ===== src/Tasks/Service/Guards.antt =====
-- apps/api/src/modules/task/task.service.ts: who passes the checks of a completion and of a
-- delegation, and the error of each check.
use etik_bildirim_platformu.Prelude.{
  ◌≡◌, ◌↔◌, ◌⊎◌, refl, String, true, Option, none, some, ◌===◌, ===_iff, string_eq, includes,
  includes_iff, In, truthy, ok, require, arith, require-eq-ok,
}
use etik_bildirim_platformu.Shared.Enums.{
  Role-discrete, role_eq, TaskStatus, TaskStatus-discrete, task_status_eq, task_type_eq,
}
use etik_bildirim_platformu.Shared.Errors.{task_not_found, authz_forbidden}
use etik_bildirim_platformu.Policy.User.{AuthenticatedUser}
use etik_bildirim_platformu.Tasks.Records.{TaskRow}
use etik_bildirim_platformu.Tasks.Requests.{
  assert_task_completable, assert_task_delegatable, assert_user_can_complete_task,
  assert_user_can_delegate_task,
}

-- A task that waits or is being worked on.
abbrev pub IsOpen : TaskStatus → Type 0
IsOpen status = (status ≡ TaskStatus.pending) ⊎ (status ≡ TaskStatus.in_progress)

-- The user to whom the task is assigned, or, where it is assigned to nobody, a holder of its role.
pub data MayAct (user : AuthenticatedUser) (task : TaskRow) : Type 0 where
  as_assignee : truthy task.assigned_user_id ≡ some user.id → MayAct user task
  as_holder :
      truthy task.assigned_user_id ≡ none → In task.assigned_role user.roles → MayAct user task

pub assert_task_completable_iff :
    (status : TaskStatus) → (assert_task_completable status ≡ ok tt) ↔ IsOpen status
unfolding assert_task_completable TaskStatus-discrete
assert_task_completable_iff status =
    ground (arith, ===_iff status TaskStatus.pending, ===_iff status TaskStatus.in_progress)

pub assert_task_delegatable_iff :
    (status : TaskStatus) → (assert_task_delegatable status ≡ ok tt) ↔ IsOpen status
unfolding assert_task_delegatable TaskStatus-discrete
assert_task_delegatable_iff status =
    ground (arith, ===_iff status TaskStatus.pending, ===_iff status TaskStatus.in_progress)

checked_iff :
    (user : AuthenticatedUser) (task : TaskRow) (assignee : Option String)
    → truthy task.assigned_user_id ≡ assignee
    → ((elim assignee [
      | some id ↦ require (id === user.id) task_not_found
      | none ↦ require (includes task.assigned_role user.roles) authz_forbidden
    ])
        ≡ ok tt)
      ↔ MayAct user task
unfolding Role-discrete
checked_iff user task (some id) e = (
  λ h. let same = (===_iff id user.id).0 (require-eq-ok _ _ h) in as_assignee (rw same at e),
  elim [
    | as_assignee a ↦ let same : (id === user.id) ≡ true = (===_iff id user.id).1 cc in rw same refl
    | as_holder n i ↦ cc
  ],
)
checked_iff user task none e = (
  λ h. as_holder e ((includes_iff task.assigned_role user.roles).0 (require-eq-ok _ _ h)),
  elim [
    | as_assignee a ↦ cc
    | as_holder n i ↦ let there = (includes_iff task.assigned_role user.roles).1 i in rw there refl
  ],
)

pub assert_user_can_complete_task_iff :
    (user : AuthenticatedUser) (task : TaskRow)
    → (assert_user_can_complete_task user task ≡ ok tt) ↔ MayAct user task
unfolding assert_user_can_complete_task Role-discrete
assert_user_can_complete_task_iff user task =
    checked_iff user task (truthy task.assigned_user_id) refl

pub assert_user_can_delegate_task_iff :
    (user : AuthenticatedUser) (task : TaskRow)
    → (assert_user_can_delegate_task user task ≡ ok tt) ↔ MayAct user task
unfolding assert_user_can_delegate_task Role-discrete
assert_user_can_delegate_task_iff user task =
    checked_iff user task (truthy task.assigned_user_id) refl
