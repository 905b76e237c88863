-- ===== src/Tasks/Service/Scoped.antt =====
-- apps/api/src/modules/task/task.service.ts: a task that `findTaskWithinScope` finds.
use etik_bildirim_platformu.Prelude.{
  ◌≡◌, refl, ap, ◌∙◌, subst, String, Bool, true, false, ◌&&◌, Option, none, some, string_eq, find,
  ok, >>=-elim, ok-injective,
}
use etik_bildirim_platformu.Shared.Enums.{TaskStatus, task_status_eq}
use etik_bildirim_platformu.Shared.Errors.{task_not_found}
use etik_bildirim_platformu.Storage.Rows.{CaseRow}
use etik_bildirim_platformu.Storage.World.{Tables, World}
use etik_bildirim_platformu.Policy.User.{AuthenticatedUser}
use etik_bildirim_platformu.Policy.Scope.{ScopeWhere, build_task_scope}
use etik_bildirim_platformu.Workflow.Engine.{or_throw, find_case}
use etik_bildirim_platformu.Tasks.Records.{TaskRow, TaskTables, all_tables, has_task_id}
use etik_bildirim_platformu.Tasks.Requests.{TaskFilter}
use etik_bildirim_platformu.Tasks.Service.{asked_id, find_task_within_scope, is_selected}
use etik_bildirim_platformu.Tasks.Service.Finished.{or_throw_ok}

pub and_left : (a b : Bool) → (a && b) ≡ true → a ≡ true
and_left true b h = refl
and_left false b h = h

same_match :
    (found : Option CaseRow) (f g : CaseRow → Bool)
    → ((c : CaseRow) → f c ≡ g c)
    → ◌≡◌ {A = Bool}
        (elim found [ none ↦ false | some c ↦ f c ])
        (elim found [ none ↦ false | some c ↦ g c ])
same_match none f g h = refl
same_match (some c) f g h = h c

module _ (t : Tables) (k : TaskTables) (filter : TaskFilter) where
  -- The rows behind a task that was found.
  pub find_task_within_scope-eq-ok :
      (w : World (all_tables t k)) (user : AuthenticatedUser) (id : String) (row : TaskRow)
      (case_entity : CaseRow)
      → find_task_within_scope t k filter w user id ≡ ok (row, case_entity)
      → (find (is_selected t k filter w (build_task_scope user) id) (k.tasks.rows w.rest.tasks)
          ≡ some row)
        × (find_case (all_tables t k) w row.case_id ≡ some case_entity)
  unfolding find_task_within_scope
  find_task_within_scope-eq-ok w user id row case_entity h =
      >>=-elim
        (or_throw task_not_found
          (find (is_selected t k filter w (build_task_scope user) id) (k.tasks.rows w.rest.tasks)))
        _ h
        λ r a h₁.
          >>=-elim (or_throw task_not_found (find_case (all_tables t k) w r.case_id)) _ h₁ λ c b h₂.
            let same = ok-injective h₂ in
            let is_row : r ≡ row = ap (λ (p : TaskRow × CaseRow). p.0) same in
            let is_case : c ≡ case_entity = ap (λ (p : TaskRow × CaseRow). p.1) same in
            (
              or_throw_ok _ _ a ∙ ap some is_row,
              subst (λ (r' : TaskRow). find_case (all_tables t k) w r'.case_id ≡ some case_entity)
                  is_row (or_throw_ok _ _ b ∙ ap some is_case),
            )

  pub found_of_rows :
      (w : World (all_tables t k)) (user : AuthenticatedUser) (id : String) (row : TaskRow)
      (case_entity : CaseRow)
      → find (is_selected t k filter w (build_task_scope user) id) (k.tasks.rows w.rest.tasks)
        ≡ some row
      → find_case (all_tables t k) w row.case_id ≡ some case_entity
      → find_task_within_scope t k filter w user id ≡ ok (row, case_entity)
  unfolding find_task_within_scope
  found_of_rows w user id row case_entity a b = rw (find_task_within_scope, a, b) refl

  -- A mark on a task leaves it where the scope finds it.
  pub is_selected-marked :
      (w : World (all_tables t k)) (scope : ScopeWhere) (id : String) (status : TaskStatus)
      (row : TaskRow)
      → is_selected t k filter w scope id (record row { status = status })
        ≡ is_selected t k filter w scope id row
  is_selected-marked w scope id status row =
      ap (λ m. has_task_id (asked_id scope id) row && m)
        (same_match (find_case (all_tables t k) w row.case_id)
          (filter.matches scope (record row { status = status })) (filter.matches scope row)
          (λ c.
            filter.matches-same scope (record row { status = status }) row c c refl refl refl refl
              refl))
