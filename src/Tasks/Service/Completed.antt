-- ===== src/Tasks/Service/Completed.antt =====
-- apps/api/src/modules/task/task.service.ts: what a completion that returns has checked and done.
use etik_bildirim_platformu.Prelude.{
  ◌≡◌, refl, ap, sym, subst, ◌⊎◌, inl, inr, String, true, false, not, some, ◌===◌, ===_iff,
  string_eq, Outcome, ok, require, >>=-elim, ok-injective, Bool-cases, Option-cases,
}
use etik_bildirim_platformu.Shared.Enums.{
  WorkflowCommand, TaskStatus, TaskStatus-discrete, task_status_eq,
}
use etik_bildirim_platformu.Shared.Errors.{
  ErrorCode, task_already_completed, task_completion_not_allowed,
}
use etik_bildirim_platformu.Storage.Rows.{CaseRow, TransitionRow}
use etik_bildirim_platformu.Storage.World.{Tables, World}
use etik_bildirim_platformu.Policy.User.{AuthenticatedUser}
use etik_bildirim_platformu.Workflow.Map.{TransitionDefinition, resolve_transition}
use etik_bildirim_platformu.Workflow.Records.{
  ExecuteTransitionInput, Snapshot, TransitionResult, moved as moved_case,
}
use etik_bildirim_platformu.Workflow.Engine.Effects.{execute_in_transaction-find_case}
use etik_bildirim_platformu.Workflow.Engine.History.{execute_in_transaction-recorded}
use etik_bildirim_platformu.Workflow.Engine.{
  or_throw, SideEffects, find_case, find_transition, execute_in_transaction,
}
use etik_bildirim_platformu.Tasks.Catalog.{resolve_task_completion_command}
use etik_bildirim_platformu.Tasks.Records.{TaskRow, TaskTables, all_tables}
use etik_bildirim_platformu.Tasks.Requests.{
  CompleteTaskBody, TaskFilter, assert_task_completable, assert_user_can_complete_task,
  assert_task_type_allows_completion, completion_key, completion_input,
}
use etik_bildirim_platformu.Tasks.Service.{
  RequestFresh, TaskPorts, find_task_within_scope, complete_in_transaction, complete_unfinished,
  complete_task,
}
use etik_bildirim_platformu.Tasks.Service.Guards.{
  IsOpen, MayAct, assert_task_completable_iff, assert_user_can_complete_task_iff,
}
use etik_bildirim_platformu.Tasks.Service.Finished.{
  or_throw_ok, IsFinished, finish_completion-IsFinished,
}

module _ (t : Tables) (k : TaskTables) (filter : TaskFilter)
    (side_effects : SideEffects (all_tables t k)) (ports : TaskPorts t k filter)
    (fresh : RequestFresh) (user : AuthenticatedUser) (correlation_id : String) where
  abbrev pub snapshot_of : CaseRow → CaseRow → Snapshot
  snapshot_of read current = record {
    snapshot_state = read.current_state;
    snapshot_version = read.optimistic_lock_version;
    company_id = current.company_id;
  }

  -- The transition either moves the case by the definition that the map has for the command, or
  -- its key is recorded already and nothing is written.
  abbrev pub IsMoved :
      World (all_tables t k)
      → ExecuteTransitionInput
      → TransitionResult × World (all_tables t k)
      → Type 0
  IsMoved now input moved =
      ((moved.0.idempotent_replay ≡ false)
        × (case_entity : CaseRow) × (definition : TransitionDefinition) × (find_case
              (all_tables t k) now input.case_id
            ≡ some case_entity)
        × (resolve_transition case_entity.current_state input.command ≡ some definition)
        × (find_case (all_tables t k) moved.1 input.case_id
            ≡ some (moved_case fresh.transition.now input definition case_entity)))
      ⊎ ((existing : TransitionRow) × (find_transition (all_tables t k) now input.idempotency_key
            ≡ some existing)
          × (moved.1 ≡ now))

  execute-IsMoved :
      (now : World (all_tables t k)) (input : ExecuteTransitionInput) (snapshot : Snapshot)
      (moved : TransitionResult × World (all_tables t k))
      → execute_in_transaction (all_tables t k) side_effects fresh.transition input now snapshot
        ≡ ok moved
      → IsMoved now input moved
  execute-IsMoved now input snapshot moved h = elim (Bool-cases moved.0.idempotent_replay) [
    | inl again ↦ inr (
        execute_in_transaction-recorded (all_tables t k) side_effects fresh.transition input now
          moved.1 snapshot moved.0 h again)
    | inr first ↦
        let (_, this) =
          execute_in_transaction-find_case (all_tables t k) side_effects fresh.transition input now
            moved.1 snapshot moved.0 h first in
        let (row, definition, found, mapped, now_found) = this in
        inl (first, row, definition, found, mapped, now_found)
  ]

  -- A completion that is no replay: the task was open and for the user when it was read, the command
  -- is that of its type, the transition is carried out on the case in the state and version that
  -- were read, and the task was not completed when the transaction had its lock.
  pub record IsCarriedOut (before now : World (all_tables t k)) (body : CompleteTaskBody)
      (task_id : String) (row : TaskRow) (w' : World (all_tables t k)) : Type 0 where
    pub read : TaskRow × CaseRow
    pub found_before : find_task_within_scope t k filter before user task_id ≡ ok read
    pub open_before : IsOpen read.0.status
    pub may_act : MayAct user read.0
    pub command : WorkflowCommand
    pub mapped : resolve_task_completion_command read.0.task_type ≡ some command
    pub current : TaskRow × CaseRow
    pub found_now : find_task_within_scope t k filter now user task_id ≡ ok current
    pub unfinished : (current.0.status === TaskStatus.completed) ≡ false
    pub moved : TransitionResult × World (all_tables t k)
    pub transition :
        execute_in_transaction
          (all_tables t k)
          side_effects
          fresh.transition
          (completion_input user body correlation_id current.0.case_id command)
          now
          (snapshot_of read.1 current.1)
        ≡ ok moved
    pub is_moved :
        IsMoved now (completion_input user body correlation_id current.0.case_id command) moved
    pub finished :
        IsFinished t k filter side_effects ports fresh user correlation_id moved.1 body task_id row
          w'

  abbrev pub IsDone :
      World (all_tables t k)
      → World (all_tables t k)
      → CompleteTaskBody
      → String
      → TaskRow
      → World (all_tables t k)
      → Type 0
  IsDone before now body task_id row w' =
      ((row.status ≡ TaskStatus.completed) × (w' ≡ now))
      ⊎ IsCarriedOut before now body task_id row w'

  -- The answer is a task that is completed already, and nothing is written.
  replayed :
      (task row : TaskRow) (now w' : World (all_tables t k))
      → (task.status === TaskStatus.completed) ≡ true
      → ◌≡◌ {A = Outcome ErrorCode (TaskRow × World (all_tables t k))}
          (ok (task, now))
          (ok (row, w'))
      → (row.status ≡ TaskStatus.completed) × (w' ≡ now)
  replayed task row now w' e h =
      let same = ok-injective h in
      (
        subst (λ (r : TaskRow). r.status ≡ TaskStatus.completed)
            (ap (λ (p : TaskRow × World (all_tables t k)). p.0) same)
            ((===_iff task.status TaskStatus.completed).0 e),
        ap (λ (p : TaskRow × World (all_tables t k)). p.1) (sym same),
      )

  module _ (before now : World (all_tables t k)) (body : CompleteTaskBody) (task_id : String) where
    complete_in_transaction-IsDone :
        (read : TaskRow × CaseRow) (command : WorkflowCommand)
        → find_task_within_scope t k filter before user task_id ≡ ok read
        → IsOpen read.0.status
        → MayAct user read.0
        → resolve_task_completion_command read.0.task_type ≡ some command
        → {row : TaskRow} {w' : World (all_tables t k)}
        → complete_in_transaction t k filter side_effects ports fresh user correlation_id now body
            task_id read.1 command
          ≡ ok (row, w')
        → IsDone before now body task_id row w'
    unfolding complete_in_transaction TaskStatus-discrete
    complete_in_transaction-IsDone read command found open_before may mapped {row} {w'} h =
        >>=-elim (find_task_within_scope t k filter now user task_id) _ h λ current a h₁.
          elim (Bool-cases (current.0.status === TaskStatus.completed)) [
            | inl e ↦ inl (replayed current.0 row now w' e (rw e at h₁))
            | inr e ↦
                >>=-elim
                  (execute_in_transaction (all_tables t k) side_effects fresh.transition
                    (completion_input user body correlation_id current.0.case_id command) now
                    (snapshot_of read.1 current.1))
                  _ (rw e at h₁)
                  λ moved b h₂. inr (record {
                    read = read;
                    found_before = found;
                    open_before = open_before;
                    may_act = may;
                    command = command;
                    mapped = mapped;
                    current = current;
                    found_now = a;
                    unfinished = e;
                    moved = moved;
                    transition = b;
                    is_moved = execute-IsMoved now _ (snapshot_of read.1 current.1) moved b;
                    finished =
                        finish_completion-IsFinished t k filter side_effects ports fresh user
                          correlation_id moved.1 body task_id current.1 h₂;
                  })
          ]

    complete_unfinished-IsDone :
        {row : TaskRow} {w' : World (all_tables t k)}
        → complete_unfinished t k filter side_effects ports fresh user correlation_id before now
            body task_id
          ≡ ok (row, w')
        → IsDone before now body task_id row w'
    unfolding complete_unfinished TaskStatus-discrete
    complete_unfinished-IsDone h =
        >>=-elim (find_task_within_scope t k filter before user task_id) _ h λ read a h₁.
          >>=-elim (require (not (read.0.status === TaskStatus.completed)) task_already_completed) _
            h₁
            λ _ b h₂. >>=-elim (assert_task_type_allows_completion read.0.task_type) _ h₂ λ _ c h₃.
              >>=-elim (assert_task_completable read.0.status) _ h₃ λ _ d h₄.
                >>=-elim (assert_user_can_complete_task user read.0) _ h₄ λ _ e h₅.
                  >>=-elim
                    (or_throw task_completion_not_allowed
                      (resolve_task_completion_command read.0.task_type))
                    _ h₅
                    λ command f h₆.
                      complete_in_transaction-IsDone read command a
                        ((assert_task_completable_iff read.0.status).0 d)
                        ((assert_user_can_complete_task_iff user read.0).0 e) (or_throw_ok _ _ f) h₆

    pub complete_task-IsDone :
        (row : TaskRow) (w' : World (all_tables t k))
        → complete_task t k filter side_effects ports fresh user correlation_id before now body
            task_id
          ≡ ok (row, w')
        → (row.status ≡ TaskStatus.completed) × IsDone before now body task_id row w'
    unfolding complete_task TaskStatus-discrete
    complete_task-IsDone row w' h =
        let done : IsDone before now body task_id row w' =
          elim (Option-cases (find_transition (all_tables t k) before (completion_key body))) [
            | inl e ↦ complete_unfinished-IsDone (rw (complete_task, e) at h)
            | inr (existing, e) ↦
                >>=-elim (find_task_within_scope t k filter before user task_id) _
                  (rw (complete_task, e) at h)
                  λ task a h₁. elim (Bool-cases (task.0.status === TaskStatus.completed)) [
                    | inl q ↦ inl (replayed task.0 row now w' q (rw q at h₁))
                    | inr q ↦ complete_unfinished-IsDone (rw q at h₁)
                  ]
          ] in
        (
          elim done [
            | inl (s, _) ↦ s
            | inr carried ↦
                subst (λ (r : TaskRow). r.status ≡ TaskStatus.completed)
                  (sym carried.finished.answer) refl
          ],
          done,
        )
