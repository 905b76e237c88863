-- ===== src/Tasks/Service/Finished.antt =====
-- apps/api/src/modules/task/task.service.ts: the last writes of a completion.
use Prim.Native.String
use etik_bildirim_platformu.Prelude.{
  ◌≡◌, refl, ap, sym, ◌∙◌, subst, inl, inr, String, Option, none, some, [], ◌∷◌, ◌++◌, string_eq,
  Outcome, ok, throw, >>=-elim, ok-injective, Option-cases,
}
use etik_bildirim_platformu.Shared.Enums.{task_status_eq}
use etik_bildirim_platformu.Shared.Errors.{ErrorCode, client_p2025}
use etik_bildirim_platformu.Storage.Rows.{CaseRow}
use etik_bildirim_platformu.Storage.Table.{find_first, update_rows}
use etik_bildirim_platformu.Storage.World.{Tables, World}
use etik_bildirim_platformu.Policy.User.{AuthenticatedUser}
use etik_bildirim_platformu.Audit.Publisher.{publish, outbox_row, OutboxRow}
use etik_bildirim_platformu.Audit.Publisher.Stored.{publish_iff, IsUnused}
use etik_bildirim_platformu.Workflow.Engine.{or_throw, SideEffects}
use etik_bildirim_platformu.Tasks.Records.{TaskRow, TaskTables, TaskStores, all_tables, has_task_id}
use etik_bildirim_platformu.Tasks.Requests.{
  CompleteTaskBody, TaskFilter, completed_row, completion_event,
}
use etik_bildirim_platformu.Tasks.Service.{RequestFresh, TaskPorts, update_task, finish_completion}

pub or_throw_ok {ℓ} :
    {A : Type ℓ} (e : ErrorCode) (o : Option A) {a : A} → or_throw e o ≡ ok a → o ≡ some a
or_throw_ok e none h = cc
or_throw_ok e (some a) h = cc

module _ (t : Tables) (k : TaskTables) (filter : TaskFilter)
    (side_effects : SideEffects (all_tables t k)) (ports : TaskPorts t k filter)
    (fresh : RequestFresh) (user : AuthenticatedUser) (correlation_id : String) where
  pub update_task-eq-ok :
      (id : String) (change : TaskRow → TaskRow) (s : TaskStores k) {row : TaskRow}
      {after : TaskStores k}
      → update_task t k filter side_effects ports fresh user correlation_id id change s
        ≡ ok (row, after)
      → (old : TaskRow) × (find_first k.tasks (has_task_id id) s.tasks ≡ some old)
        × (row ≡ change old)
        × (after ≡ record s { tasks = k.tasks.update (has_task_id id) change s.tasks })
  unfolding update_task
  update_task-eq-ok id change s {row} {after} h =
      elim (Option-cases (find_first k.tasks (has_task_id id) s.tasks)) [
        | inl e ↦
            let bad : ◌≡◌ {A = Outcome ErrorCode (TaskRow × TaskStores k)} (throw client_p2025)
                (ok (row, after)) =
              rw (update_task, e) at h in
            cc
        | inr (old, e) ↦
            let same = ok-injective (rw (update_task, e) at h) in
            (
              old,
              e,
              ap (λ (p : TaskRow × TaskStores k). p.0) (sym same),
              ap (λ (p : TaskRow × TaskStores k). p.1) (sym same),
            )
      ]

  -- The last writes: the row of the task, and one event of the completion under a key that no event
  -- of the outbox had.
  pub record IsFinished (w : World (all_tables t k)) (body : CompleteTaskBody) (task_id : String)
      (row : TaskRow) (w' : World (all_tables t k)) : Type 0 where
    pub old : TaskRow
    pub was : find_first k.tasks (has_task_id task_id) w.rest.tasks ≡ some old
    pub answer : row ≡ completed_row fresh.now user body old
    pub tasks :
        k.tasks.rows w'.rest.tasks
        ≡ update_rows
            (has_task_id task_id)
            (completed_row fresh.now user body)
            (k.tasks.rows w.rest.tasks)
    pub unused :
        IsUnused
          (some (String.◌++◌ "audit:task-completed:" body.idempotency_key))
          (t.outbox.rows w.outbox)
    pub published :
        (event : OutboxRow) × (event.idempotency_key
          ≡ some (String.◌++◌ "audit:task-completed:" body.idempotency_key))
        × (t.outbox.rows w'.outbox ≡ t.outbox.rows w.outbox ++ event ∷ [])

  pub finish_completion-IsFinished :
      (w : World (all_tables t k)) (body : CompleteTaskBody) (task_id : String)
      (case_entity : CaseRow) {row : TaskRow} {w' : World (all_tables t k)}
      → finish_completion t k filter side_effects ports fresh user correlation_id w body task_id
          case_entity
        ≡ ok (row, w')
      → IsFinished w body task_id row w'
  unfolding finish_completion completion_event outbox_row
  finish_completion-IsFinished w body task_id case_entity h =
      >>=-elim
        (update_task t k filter side_effects ports fresh user correlation_id task_id
          (completed_row fresh.now user body) w.rest)
        _ h
        λ updated a h₁.
          >>=-elim
            (publish t.outbox fresh.outbox_id fresh.now
              (completion_event user body correlation_id task_id updated.0 case_entity) w.outbox)
            _ h₁
            λ outbox b h₂.
              >>=-elim (ports.enqueue_task_completed _ updated.0 user body) _ h₂ λ notified c h₃.
                let (old, was, answer, stored) =
                  update_task-eq-ok task_id (completed_row fresh.now user body) w.rest a in
                let (clean, unused, put) =
                  (publish_iff t.outbox fresh.outbox_id fresh.now
                      (completion_event user body correlation_id task_id updated.0 case_entity)
                      w.outbox outbox).0
                    b in
                subst (λ (p : TaskRow × World (all_tables t k)). IsFinished w body task_id p.0 p.1)
                  (ok-injective h₃)
                  (record {
                    old = old;
                    was = was;
                    answer = answer;
                    tasks =
                        ap (λ (s : TaskStores k). k.tasks.rows s.tasks) stored
                        ∙ k.tasks.rows-update (has_task_id task_id)
                            (completed_row fresh.now user body) w.rest.tasks;
                    unused = unused;
                    published = (
                      outbox_row fresh.outbox_id fresh.now
                          (completion_event user body correlation_id task_id updated.0 case_entity),
                      refl,
                      ap t.outbox.rows put ∙ t.outbox.rows-insert _ w.outbox,
                    );
                  })
