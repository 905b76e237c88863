-- ===== src/Tasks/Catalog/Completion.antt =====
-- apps/api/src/modules/task/task-transition-catalog.ts and
-- packages/shared/src/constants/task-completion-commands.ts: the command that completes a task,
-- against the transition map and the validators.
use etik_bildirim_platformu.Prelude.{
  ◌≡◌, refl, ◌≢◌, ◌↔◌, ◌⊎◌, inl, inr, Option, none, some, [], arith, In, All, All-In, throw,
}
use etik_bildirim_platformu.Shared.Enums.{
  role_eq, CaseState, agenda_ready, secretariat_review, pre_research, chair_gate,
  rapporteur_assigned, member_approval, decision_draft, board_chair_review, board_approved,
  action_assigned, follow_up_decision, WorkflowCommand, return_to_agenda, board_veto,
  begin_action_response, TaskType, rapporteur_assign_task, rapporteur_report_task,
  decision_draft_task,
}
use etik_bildirim_platformu.Shared.Errors.{validation_failed}
use etik_bildirim_platformu.Storage.Rows.{CaseRow, TransitionRow}
use etik_bildirim_platformu.Workflow.Map.{TransitionDefinition, resolve_transition}
use etik_bildirim_platformu.Workflow.Validators.{validate_preconditions, metadata_text}
use etik_bildirim_platformu.Tasks.Catalog.{
  TaskCreationDefinition, tasks_for, resolve_task_completion_command, enrich_assignment,
  resolve_tasks_for_transition,
}

-- The command of the task is mapped in the state, for the task's role or by an assignment.
abbrev pub CompletedBy : CaseState → TaskCreationDefinition → WorkflowCommand → Type 0
CompletedBy state task command =
    (definition : TransitionDefinition) × (resolve_transition state command ≡ some definition)
    × ((In task.assigned_role definition.required_roles) ⊎ (definition.requires_assignment ≢ none))

-- Completing a task sends the command without metadata. The validators refuse that exactly for
-- the assignment of a rapporteur, the rapporteur's report and the draft of a decision.
pub completion-validate_preconditions :
    (type : TaskType) (command : WorkflowCommand)
    → resolve_task_completion_command type ≡ some command
    → (validate_preconditions command [] ≡ throw validation_failed) ↔ (
        (type ≡ rapporteur_assign_task)
        ⊎ ((type ≡ rapporteur_report_task) ⊎ (type ≡ decision_draft_task)))
unfolding resolve_task_completion_command validate_preconditions metadata_text
completion-validate_preconditions type command e = ground arith

-- What completes the task, if anything does, is a command for its holder: at once, or after the
-- system has begun the action response.
abbrev pub Completes : CaseState → TaskCreationDefinition → Option WorkflowCommand → Type 0
Completes state task none = Unit
Completes state task (some command) =
    CompletedBy state task command
    ⊎ ((begun : TransitionDefinition) × (resolve_transition state begin_action_response
          ≡ some begun)
        × CompletedBy begun.to_state task command)

abbrev pub IsCompletable : CaseState → TaskCreationDefinition → Type 0
IsCompletable state task = Completes state task (resolve_task_completion_command task.task_type)

every_task :
    (row : CaseRow) (state : CaseState) (command : WorkflowCommand)
    → All (IsCompletable state) (tasks_for row state command)
unfolding tasks_for enrich_assignment resolve_task_completion_command resolve_transition
every_task row agenda_ready return_to_agenda = (inl (_, refl, inl (inl refl)), tt)
every_task row agenda_ready board_veto = (inl (_, refl, inl (inl refl)), tt)
every_task row agenda_ready _ = tt
every_task row secretariat_review command = (inl (_, refl, inl (inl refl)), tt)
every_task row pre_research command = (inl (_, refl, inl (inl refl)), tt)
every_task row chair_gate command = (inl (_, refl, inl (inl refl)), tt)
every_task row rapporteur_assigned command = (inl (_, refl, inr (λ e. cc)), tt)
every_task row member_approval command = (tt, tt)
every_task row decision_draft command = (inl (_, refl, inl (inl refl)), tt)
every_task row board_chair_review command = (inl (_, refl, inl (inl refl)), tt)
every_task row board_approved command = (inl (_, refl, inl (inl refl)), tt)
every_task row action_assigned command = (inr (_, refl, (_, refl, inr (λ e. cc))), tt)
every_task row follow_up_decision command = (inl (_, refl, inl (inl refl)), tt)
every_task row _ command = tt

-- Every task that a transition creates can be completed by its holder: the command that completes
-- it, if it has one, is mapped in the state that the transition led to, or in the one that the
-- system's start of the action response leads to, and asks for the task's role or for an
-- assignment to the case.
pub resolve_tasks-IsCompletable :
    (row : CaseRow) (transition : TransitionRow) (task : TaskCreationDefinition)
    → In task (resolve_tasks_for_transition row transition)
    → IsCompletable transition.to_state task
unfolding resolve_tasks_for_transition
resolve_tasks-IsCompletable row transition task =
    All-In (IsCompletable transition.to_state) _ task
      (every_task row transition.to_state transition.command)
