-- ===== src/Tasks/Service/Delegated.antt =====
-- apps/api/src/modules/task/task.service.ts: what a delegation that returns has checked and done.
use etik_bildirim_platformu.Prelude.{
  ◌≡◌, refl, ap, sym, ◌∙◌, subst, ◌≢◌, String, Bool, true, false, not, [], ◌∷◌, ◌++◌, ◌===◌,
  string_eq, ok, require, require-eq-ok, >>=-elim, ok-injective, ne_of_test,
}
use etik_bildirim_platformu.Shared.Enums.{task_status_eq}
use etik_bildirim_platformu.Shared.Errors.{
  task_delegation_not_allowed, task_delegation_invalid_target,
}
use etik_bildirim_platformu.Storage.Rows.{CaseRow}
use etik_bildirim_platformu.Storage.Table.{update_rows}
use etik_bildirim_platformu.Storage.World.{Tables, World}
use etik_bildirim_platformu.Policy.User.{AuthenticatedUser}
use etik_bildirim_platformu.Audit.Publisher.{publish}
use etik_bildirim_platformu.Sla.Calculator.{SlaDueCalculation, calculate_due_at}
use etik_bildirim_platformu.Workflow.Engine.{SideEffects}
use etik_bildirim_platformu.Tasks.Records.{TaskRow, TaskTables, TaskStores, all_tables, has_task_id}
use etik_bildirim_platformu.Tasks.Requests.{
  DelegateTaskBody, TaskFilter, assert_task_delegatable, assert_user_can_delegate_task,
  delegated_row, delegation_event,
}
use etik_bildirim_platformu.Tasks.Service.{
  RequestFresh, TaskPorts, find_task_within_scope, update_task, is_delegate_target, mark_delegated,
  finish_delegation, delegate_task,
}
use etik_bildirim_platformu.Tasks.Service.Guards.{
  IsOpen, MayAct, assert_task_delegatable_iff, assert_user_can_delegate_task_iff,
}
use etik_bildirim_platformu.Tasks.Service.Finished.{update_task-eq-ok}

false_of_not : (b : Bool) → not b ≡ true → b ≡ false
false_of_not true h = sym h
false_of_not false h = refl

module _ (t : Tables) (k : TaskTables) (filter : TaskFilter)
    (side_effects : SideEffects (all_tables t k)) (ports : TaskPorts t k filter)
    (fresh : RequestFresh) (user : AuthenticatedUser) (correlation_id : String) where
  -- The checks of a delegation that was carried out, and what is new.
  pub record IsDelegated (before now : World (all_tables t k)) (body : DelegateTaskBody)
      (task_id : String) (row : TaskRow) (w' : World (all_tables t k)) : Type 0 where
    pub read : TaskRow × CaseRow
    pub found_before : find_task_within_scope t k filter before user task_id ≡ ok read
    pub may_act : MayAct user read.0
    pub to_another : body.delegate_to_user_id ≢ user.id
    pub has_role :
        is_delegate_target t k filter side_effects ports fresh user correlation_id before
          body.delegate_to_user_id read.0.assigned_role
        ≡ true
    pub current : TaskRow × CaseRow
    pub found_now : find_task_within_scope t k filter now user task_id ≡ ok current
    pub open_now : IsOpen current.0.status
    pub sla : SlaDueCalculation
    pub answer : row ≡ delegated_row fresh.task_id user body sla task_id current.0
    pub tasks :
        k.tasks.rows w'.rest.tasks
        ≡ update_rows
            (has_task_id task_id)
            (mark_delegated t k filter side_effects ports fresh user correlation_id)
            (k.tasks.rows now.rest.tasks)
          ++ row ∷ []
    pub cases : w'.cases ≡ now.cases
    pub transitions : w'.transitions ≡ now.transitions

  finish_delegation-IsDelegated :
      (before now : World (all_tables t k)) (body : DelegateTaskBody) (task_id : String)
      (read current : TaskRow × CaseRow) {row : TaskRow} {w' : World (all_tables t k)}
      → find_task_within_scope t k filter before user task_id ≡ ok read
      → MayAct user read.0
      → body.delegate_to_user_id ≢ user.id
      → is_delegate_target t k filter side_effects ports fresh user correlation_id before
          body.delegate_to_user_id read.0.assigned_role
        ≡ true
      → find_task_within_scope t k filter now user task_id ≡ ok current
      → IsOpen current.0.status
      → finish_delegation t k filter side_effects ports fresh user correlation_id now body task_id
          current.0 current.1
        ≡ ok (row, w')
      → IsDelegated before now body task_id row w'
  unfolding finish_delegation
  finish_delegation-IsDelegated before now body task_id read current found may another target
        found_now open_now h =
      >>=-elim
        (calculate_due_at (k.policies.rows now.rest.policies) (k.calendar.rows now.rest.calendar)
          current.0.task_type fresh.now)
        _ h
        λ sla a h₁.
          >>=-elim
            (update_task t k filter side_effects ports fresh user correlation_id task_id
              (mark_delegated t k filter side_effects ports fresh user correlation_id) now.rest)
            _ h₁
            λ updated b h₂.
              >>=-elim
                (publish t.outbox fresh.outbox_id fresh.now
                  (delegation_event user body correlation_id task_id current.0
                    (delegated_row fresh.task_id user body sla task_id current.0) current.1)
                  now.outbox)
                _ h₂
                λ outbox c h₃.
                  >>=-elim
                    (ports.enqueue_task_delegated _
                      (delegated_row fresh.task_id user body sla task_id current.0) body)
                    _ h₃
                    λ notified d h₄.
                      let (old, was, _, stored) =
                        update_task-eq-ok t k filter side_effects ports fresh user correlation_id
                          task_id
                          (mark_delegated t k filter side_effects ports fresh user correlation_id)
                          now.rest b in
                      let new = delegated_row fresh.task_id user body sla task_id current.0 in
                      subst
                        (λ (p : TaskRow × World (all_tables t k)).
                          IsDelegated before now body task_id p.0 p.1)
                        (ok-injective h₄)
                        (record {
                          read = read;
                          found_before = found;
                          may_act = may;
                          to_another = another;
                          has_role = target;
                          current = current;
                          found_now = found_now;
                          open_now = open_now;
                          sla = sla;
                          answer = refl;
                          tasks =
                              k.tasks.rows-insert new updated.1.tasks
                              ∙ ap (λ (s : TaskStores k). k.tasks.rows s.tasks ++ new ∷ []) stored
                              ∙ ap (λ rows. rows ++ new ∷ [])
                                  (k.tasks.rows-update (has_task_id task_id)
                                    (mark_delegated t k filter side_effects ports fresh user
                                      correlation_id)
                                    now.rest.tasks);
                          cases = refl;
                          transitions = refl;
                        })

  -- A delegation that returns was asked for by a user who may act on the task, for another active
  -- user with its role; the task was open when the transaction had its lock. The old row is then
  -- marked as delegated and the answer is a new pending row of the same kind for the other user,
  -- which names the old one; the cases and their transitions stay as they were.
  pub delegate_task-IsDelegated :
      (before now w' : World (all_tables t k)) (body : DelegateTaskBody) (task_id : String)
      (row : TaskRow)
      → delegate_task t k filter side_effects ports fresh user correlation_id before now body
          task_id
        ≡ ok (row, w')
      → IsDelegated before now body task_id row w'
  unfolding delegate_task
  delegate_task-IsDelegated before now w' body task_id row h =
      >>=-elim (find_task_within_scope t k filter before user task_id) _ h λ read a h₁.
        >>=-elim (assert_task_delegatable read.0.status) _ h₁ λ _ b h₂.
          >>=-elim (assert_user_can_delegate_task user read.0) _ h₂ λ _ c h₃.
            >>=-elim
              (require (not (body.delegate_to_user_id === user.id)) task_delegation_not_allowed) _
              h₃
              λ _ d h₄.
                >>=-elim
                  (require
                    (is_delegate_target t k filter side_effects ports fresh user correlation_id
                      before body.delegate_to_user_id read.0.assigned_role)
                    task_delegation_invalid_target)
                  _ h₄
                  λ _ e h₅.
                    >>=-elim (find_task_within_scope t k filter now user task_id) _ h₅
                      λ current f h₆.
                        >>=-elim (assert_task_delegatable current.0.status) _ h₆ λ _ g h₇.
                          finish_delegation-IsDelegated before now body task_id read current a
                            ((assert_user_can_delegate_task_iff user read.0).0 c)
                            (ne_of_test body.delegate_to_user_id user.id
                              (false_of_not _ (require-eq-ok _ _ d)))
                            (require-eq-ok _ _ e) f
                            ((assert_task_delegatable_iff current.0.status).0 g) h₇
