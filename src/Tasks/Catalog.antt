-- ===== src/Tasks/Catalog.antt =====
-- apps/api/src/modules/task/task-transition-catalog.ts and
-- packages/shared/src/constants/task-completion-commands.ts.
pub mod Completion
use etik_bildirim_platformu.Prelude.{String, Option, none, some, List, [], ◌∷◌}
use etik_bildirim_platformu.Shared.Enums.{
  Role, council_secretary, council_chair, council_member, rapporteur, board_chair, action_owner,
  CaseState, secretariat_review, pre_research, chair_gate, agenda_ready, rapporteur_assigned,
  member_approval, decision_draft, board_chair_review, board_approved, action_assigned,
  follow_up_decision, WorkflowCommand, return_to_agenda, board_veto, start_pre_research,
  submit_to_chair_gate, approve_agenda, assign_rapporteur, submit_rapporteur_report,
  submit_to_board_review, board_approve, prepare_implementation_letter, submit_action_response,
  follow_up_close, TaskType, secretariat_review_task, pre_research_task, chair_gate_task,
  rapporteur_assign_task, rapporteur_report_task, member_approval_task, decision_draft_task,
  board_review_task, implementation_letter_task, action_response_task, follow_up_review_task,
}
use etik_bildirim_platformu.Storage.Rows.{CaseRow, TransitionRow}

pub record TaskCreationDefinition : Type 0 where
  pub task_type : TaskType
  pub assigned_role : Role
  pub assigned_user_id : Option String
  pub assigned_company_id : Option String
  pub assigned_function_id : Option String

abbrev for_role : TaskType → Role → TaskCreationDefinition
for_role type role = record {
  task_type = type;
  assigned_role = role;
  assigned_user_id = none;
  assigned_company_id = none;
  assigned_function_id = none;
}

-- `STATE_TASK_MAP`
unfoldable pub state_task_map : CaseState → Option TaskCreationDefinition
state_task_map secretariat_review = some (for_role secretariat_review_task council_secretary)
state_task_map pre_research = some (for_role pre_research_task council_secretary)
state_task_map chair_gate = some (for_role chair_gate_task council_chair)
state_task_map rapporteur_assigned = some (for_role rapporteur_report_task rapporteur)
state_task_map member_approval = some (for_role member_approval_task council_member)
state_task_map decision_draft = some (for_role decision_draft_task council_secretary)
state_task_map board_chair_review = some (for_role board_review_task board_chair)
state_task_map board_approved = some (for_role implementation_letter_task council_secretary)
state_task_map action_assigned = some (for_role action_response_task action_owner)
state_task_map follow_up_decision = some (for_role follow_up_review_task council_secretary)
state_task_map _ = none

enriched : TaskType → TaskCreationDefinition → CaseRow → TaskCreationDefinition
enriched rapporteur_report_task definition case_entity = record definition {
  assigned_user_id = case_entity.assigned_rapporteur_id;
}
enriched action_response_task definition case_entity = record definition {
  assigned_user_id = case_entity.assigned_action_owner_id;
  assigned_company_id = some case_entity.company_id;
}
enriched _ definition case_entity = definition

unfoldable pub enrich_assignment : TaskCreationDefinition → CaseRow → TaskCreationDefinition
unfolding enriched
enrich_assignment definition case_entity = enriched definition.task_type definition case_entity

-- The tasks of a state that the case comes to by a command.
unfoldable pub tasks_for : CaseRow → CaseState → WorkflowCommand → List TaskCreationDefinition
unfolding enrich_assignment state_task_map
tasks_for case_entity agenda_ready return_to_agenda =
    for_role rapporteur_assign_task council_secretary ∷ []
tasks_for case_entity agenda_ready board_veto =
    for_role rapporteur_assign_task council_secretary ∷ []
tasks_for case_entity agenda_ready _ = []
tasks_for case_entity to_state command = elim (state_task_map to_state) [
  | none ↦ []
  | some definition ↦ enrich_assignment definition case_entity ∷ []
]

unfoldable pub resolve_tasks_for_transition : CaseRow → TransitionRow → List TaskCreationDefinition
unfolding tasks_for
resolve_tasks_for_transition case_entity transition =
    tasks_for case_entity transition.to_state transition.command

-- `TASK_COMPLETION_COMMAND` and its lookup.
unfoldable pub resolve_task_completion_command : TaskType → Option WorkflowCommand
resolve_task_completion_command secretariat_review_task = some start_pre_research
resolve_task_completion_command pre_research_task = some submit_to_chair_gate
resolve_task_completion_command chair_gate_task = some approve_agenda
resolve_task_completion_command rapporteur_assign_task = some assign_rapporteur
resolve_task_completion_command rapporteur_report_task = some submit_rapporteur_report
resolve_task_completion_command decision_draft_task = some submit_to_board_review
resolve_task_completion_command board_review_task = some board_approve
resolve_task_completion_command implementation_letter_task = some prepare_implementation_letter
resolve_task_completion_command action_response_task = some submit_action_response
resolve_task_completion_command follow_up_review_task = some follow_up_close
resolve_task_completion_command _ = none

abbrev pub task_types_without_completion : List TaskType
task_types_without_completion = member_approval_task ∷ []
