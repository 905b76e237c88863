-- ===== src/Tasks/Service/Again.antt =====
-- apps/api/src/modules/task/task.service.ts: a delegated task can be neither delegated nor completed
-- any more.
use etik_bildirim_platformu.Prelude.{
  ◌≡◌, refl, ap, sym, ◌∙◌, subst, inl, inr, String, true, false, some, [], ◌∷◌, ◌++◌, ◌===◌,
  string_eq, find, ok, throw, Option-cases,
}
use etik_bildirim_platformu.Shared.Enums.{TaskStatus, TaskStatus-discrete, task_status_eq}
use etik_bildirim_platformu.Shared.Errors.{task_invalid_state}
use etik_bildirim_platformu.Storage.Rows.{CaseRow}
use etik_bildirim_platformu.Storage.Table.{find_first, update_rows}
use etik_bildirim_platformu.Storage.Finding.{find-test, find-++-some, find-update_rows}
use etik_bildirim_platformu.Storage.World.{Tables, World}
use etik_bildirim_platformu.Policy.User.{AuthenticatedUser}
use etik_bildirim_platformu.Policy.Scope.{build_task_scope}
use etik_bildirim_platformu.Workflow.Engine.{SideEffects, find_transition}
use etik_bildirim_platformu.Tasks.Records.{TaskRow, TaskTables, all_tables, has_task_id}
use etik_bildirim_platformu.Tasks.Requests.{
  CompleteTaskBody, completion_key, assert_task_completable, assert_task_type_allows_completion,
  DelegateTaskBody, TaskFilter, assert_task_delegatable,
}
use etik_bildirim_platformu.Tasks.Service.{
  RequestFresh, TaskPorts, complete_task, complete_unfinished, asked_id, find_task_within_scope,
  is_selected, mark_delegated, delegate_task,
}
use etik_bildirim_platformu.Tasks.Service.Scoped.{
  find_task_within_scope-eq-ok, found_of_rows, is_selected-marked, and_left,
}
use etik_bildirim_platformu.Tasks.Service.Delegated.{IsDelegated, delegate_task-IsDelegated}

module _ (t : Tables) (k : TaskTables) (filter : TaskFilter)
    (side_effects : SideEffects (all_tables t k)) (ports : TaskPorts t k filter)
    (fresh : RequestFresh) (user : AuthenticatedUser) (correlation_id : String) where
  -- After a delegation that was carried out, the scope finds the old task, delegated.
  delegated-found :
      (before now w' : World (all_tables t k)) (body : DelegateTaskBody) (task_id : String)
      (row : TaskRow)
      → asked_id (build_task_scope user) task_id ≡ task_id
      → IsDelegated t k filter side_effects ports fresh user correlation_id before now body task_id
          row w'
      → (task : TaskRow) × (case_entity : CaseRow) × (row.task_type ≡ task.task_type)
        × (find_task_within_scope t k filter w' user task_id
            ≡ ok (record task { status = TaskStatus.delegated }, case_entity))
  delegated-found before now w' body task_id row scoped done =
      let (task, case_entity) = done.current in
      let (found, of_case) =
        find_task_within_scope-eq-ok t k filter now user task_id done.current.0 done.current.1
          done.found_now in
      let scope = build_task_scope user in
      let mark = mark_delegated t k filter side_effects ports fresh user correlation_id in
      let chosen : has_task_id task_id done.current.0 ≡ true =
        subst (λ i. has_task_id i done.current.0 ≡ true) scoped
          (and_left _ _ (
            find-test (is_selected t k filter now scope task_id) (k.tasks.rows now.rest.tasks)
              found)) in
      let marked : find (is_selected t k filter now scope task_id)
            (update_rows (has_task_id task_id) mark (k.tasks.rows now.rest.tasks))
          ≡ some (mark done.current.0) =
        find-update_rows (is_selected t k filter now scope task_id) (has_task_id task_id) mark
          (k.tasks.rows now.rest.tasks)
          (is_selected-marked t k filter now scope task_id TaskStatus.delegated) found chosen in
      let kept = find-++-some (is_selected t k filter now scope task_id) _ (row ∷ []) marked in
      (
        done.current.0,
        done.current.1,
        ap (λ (r : TaskRow). r.task_type) done.answer,
        found_of_rows t k filter w' user task_id (mark done.current.0) done.current.1
            (subst
              (λ rows.
                find (is_selected t k filter w' scope task_id) rows ≡ some (mark done.current.0))
              (sym done.tasks)
              (subst
                (λ cases.
                  find (is_selected t k filter (record now { cases = cases }) scope task_id) (
                    update_rows (has_task_id task_id) mark (k.tasks.rows now.rest.tasks)
                    ++ row ∷ [])
                  ≡ some (mark done.current.0))
                (sym done.cases) kept))
            (ap
                (λ cases.
                  find_first t.cases (λ (r : CaseRow). r.id === done.current.0.case_id) cases)
                done.cases
              ∙ of_case),
      )

  -- A key that was used before makes no difference for a task that is not completed.
  pub complete_task-unfinished :
      (before now : World (all_tables t k)) (completion : CompleteTaskBody) (task_id : String)
      (task : TaskRow × CaseRow)
      → find_task_within_scope t k filter before user task_id ≡ ok task
      → (task.0.status === TaskStatus.completed) ≡ false
      → complete_task t k filter side_effects ports fresh user correlation_id before now completion
          task_id
        ≡ complete_unfinished t k filter side_effects ports fresh user correlation_id before now
            completion task_id
  unfolding complete_task TaskStatus-discrete
  complete_task-unfinished before now completion task_id task found unfinished =
      elim (Option-cases (find_transition (all_tables t k) before (completion_key completion))) [
        | inl e ↦ rw (complete_task, e) refl
        | inr (existing, e) ↦ rw (complete_task, e, found, unfinished) refl
      ]

  unfinished-refused :
      (w : World (all_tables t k)) (completion : CompleteTaskBody) (task_id : String)
      (task : TaskRow) (case_entity : CaseRow)
      → assert_task_type_allows_completion task.task_type ≡ ok tt
      → find_task_within_scope t k filter w user task_id
        ≡ ok (record task { status = TaskStatus.delegated }, case_entity)
      → complete_unfinished t k filter side_effects ports fresh user correlation_id w w completion
          task_id
        ≡ throw task_invalid_state
  unfolding complete_unfinished assert_task_completable TaskStatus-discrete
  unfinished-refused w completion task_id task case_entity typed found =
      rw (complete_unfinished, found, typed) refl

  -- After a delegation that was carried out, the user who asked for it can neither delegate the
  -- old task again nor complete it: both fail with TASK_INVALID_STATE. The type of the task is one
  -- that can be completed, and the user's scope is not the deny-all filter.
  pub delegate_task-again :
      (before now w' : World (all_tables t k)) (body next : DelegateTaskBody)
      (completion : CompleteTaskBody) (task_id : String) (row : TaskRow)
      → asked_id (build_task_scope user) task_id ≡ task_id
      → assert_task_type_allows_completion row.task_type ≡ ok tt
      → delegate_task t k filter side_effects ports fresh user correlation_id before now body
          task_id
        ≡ ok (row, w')
      → (delegate_task t k filter side_effects ports fresh user correlation_id w' w' next task_id
          ≡ throw task_invalid_state)
        × (complete_task t k filter side_effects ports fresh user correlation_id w' w' completion
              task_id
            ≡ throw task_invalid_state)
  unfolding delegate_task assert_task_delegatable TaskStatus-discrete
  delegate_task-again before now w' body next completion task_id row scoped allowed h =
      let done =
        delegate_task-IsDelegated t k filter side_effects ports fresh user correlation_id before now
          w' body task_id row h in
      let (task, case_entity, same_type, found) =
        delegated-found before now w' body task_id row scoped done in
      let typed : assert_task_type_allows_completion task.task_type ≡ ok tt =
        subst (λ type. assert_task_type_allows_completion type ≡ ok tt) same_type allowed in
      let refused = unfinished-refused w' completion task_id task case_entity typed found in
      (
        rw (delegate_task, found) refl,
        complete_task-unfinished w' w' completion task_id _ found refl ∙ refused,
      )
