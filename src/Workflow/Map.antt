-- ===== src/Workflow/Map.antt =====
-- apps/api/src/modules/case-management/transition/transition.commands.ts and the definition type
-- of transition.types.ts.
use etik_bildirim_platformu.Prelude.{
  Bool, true, false, Option, none, some, List, [], ◌∷◌, ◌++◌, map, ◌===◌, if◌then◌else◌, is_some,
}
use etik_bildirim_platformu.Shared.Enums.{
  Role, council_secretary, council_chair, council_member, board_chair, CaseState, report_submitted,
  secretariat_review, pre_research, chair_gate, not_on_agenda_closed, agenda_ready,
  rapporteur_assigned, rapporteur_report_submitted, member_approval, decision_draft,
  board_chair_review, board_approved, implementation_letter_prepared, action_assigned,
  action_response_pending, follow_up_decision, closed_archived, WorkflowCommand,
  WorkflowCommand-discrete, workflow_command_eq, acknowledge_report, start_pre_research,
  submit_to_chair_gate, approve_agenda, close_not_on_agenda, assign_rapporteur,
  submit_rapporteur_report, return_to_agenda, submit_to_member_approval, member_objection,
  create_decision_draft, submit_to_board_review, board_approve, board_veto,
  prepare_implementation_letter, assign_action, begin_action_response, submit_action_response,
  submit_follow_up_review, follow_up_close, follow_up_reassign,
}

pub data AssignmentScope : Type 0 where
  rapporteur_scope action_owner_scope : AssignmentScope

-- An optional flag that is left out is `false`, and left-out roles are the empty list: the source
-- treats both alike.
pub record TransitionDefinition : Type 0 where
  pub to_state : CaseState
  pub required_roles : List Role
  pub requires_assignment : Option AssignmentScope
  pub requires_reason : Bool
  pub is_system_command : Bool
  pub system_allowed : Bool
  pub closes_case : Bool

abbrev pub by_role : CaseState → Role → TransitionDefinition
by_role to role = record {
  to_state = to;
  required_roles = role ∷ [];
  requires_assignment = none;
  requires_reason = false;
  is_system_command = false;
  system_allowed = false;
  closes_case = false;
}

abbrev pub by_assignment : CaseState → AssignmentScope → TransitionDefinition
by_assignment to scope = record {
  to_state = to;
  required_roles = [];
  requires_assignment = some scope;
  requires_reason = false;
  is_system_command = false;
  system_allowed = false;
  closes_case = false;
}

-- `TRANSITION_MAP`: the commands of a state with their definitions, in the source's order.
unfoldable pub transition_map : CaseState → List (WorkflowCommand × TransitionDefinition)
transition_map report_submitted =
    (acknowledge_report, by_role secretariat_review council_secretary) ∷ []
transition_map secretariat_review =
    (start_pre_research, by_role pre_research council_secretary) ∷ []
transition_map pre_research = (submit_to_chair_gate, by_role chair_gate council_secretary) ∷ []
transition_map chair_gate =
    (approve_agenda, by_role agenda_ready council_chair)
    ∷ (
      close_not_on_agenda,
      record (by_role not_on_agenda_closed council_chair) {
        requires_reason = true;
        closes_case = true;
      },
    )
    ∷ []
transition_map agenda_ready =
    (assign_rapporteur, by_role rapporteur_assigned council_secretary)
    ∷ (submit_to_member_approval, by_role member_approval council_secretary)
    ∷ (submit_follow_up_review, by_role follow_up_decision council_secretary)
    ∷ []
transition_map rapporteur_assigned =
    (submit_rapporteur_report, by_assignment rapporteur_report_submitted rapporteur_scope) ∷ []
transition_map rapporteur_report_submitted =
    (return_to_agenda, by_role agenda_ready council_secretary) ∷ []
transition_map member_approval =
    (
      create_decision_draft,
      record (by_role decision_draft council_secretary) { system_allowed = true },
    )
    ∷ (member_objection, by_role member_approval council_member)
    ∷ []
transition_map decision_draft =
    (submit_to_board_review, by_role board_chair_review council_secretary) ∷ []
transition_map board_chair_review =
    (board_approve, by_role board_approved board_chair)
    ∷ (board_veto, record (by_role agenda_ready board_chair) { requires_reason = true })
    ∷ []
transition_map board_approved =
    (prepare_implementation_letter, by_role implementation_letter_prepared council_secretary) ∷ []
transition_map implementation_letter_prepared =
    (assign_action, by_role action_assigned council_secretary) ∷ []
transition_map action_assigned =
    (
      begin_action_response,
      record {
        to_state = action_response_pending;
        required_roles = [];
        requires_assignment = none;
        requires_reason = false;
        is_system_command = true;
        system_allowed = false;
        closes_case = false;
      },
    )
    ∷ []
transition_map action_response_pending =
    (submit_action_response, by_assignment agenda_ready action_owner_scope) ∷ []
transition_map follow_up_decision =
    (follow_up_close, record (by_role closed_archived council_secretary) { closes_case = true })
    ∷ (follow_up_reassign, by_role action_assigned council_secretary)
    ∷ []
transition_map not_on_agenda_closed = []
transition_map closed_archived = []

unfoldable pub definition_of :
    WorkflowCommand → List (WorkflowCommand × TransitionDefinition) → Option TransitionDefinition
definition_of command [] = none
definition_of command ((key, definition) ∷ entries) =
    if key === command then some definition else definition_of command entries

unfoldable pub resolve_transition : CaseState → WorkflowCommand → Option TransitionDefinition
unfolding transition_map definition_of WorkflowCommand-discrete
resolve_transition from_state command = definition_of command (transition_map from_state)

unfoldable pub is_valid_transition : CaseState → WorkflowCommand → Bool
unfolding resolve_transition
is_valid_transition from_state command = is_some (resolve_transition from_state command)

unfoldable pub list_transitions_from_state : CaseState → List WorkflowCommand
unfolding transition_map
list_transitions_from_state from_state = map (λ entry. entry.0) (transition_map from_state)

-- The keys of `TRANSITION_MAP`.
abbrev pub mapped_states : List CaseState
mapped_states =
    report_submitted ∷ secretariat_review ∷ pre_research ∷ chair_gate ∷ agenda_ready
    ∷ rapporteur_assigned ∷ rapporteur_report_submitted ∷ member_approval ∷ decision_draft
    ∷ board_chair_review ∷ board_approved ∷ implementation_letter_prepared ∷ action_assigned
    ∷ action_response_pending ∷ follow_up_decision ∷ []

pub record MappedTransition : Type 0 where
  pub from_state : CaseState
  pub command : WorkflowCommand
  pub definition : TransitionDefinition

abbrev pub entries_from :
    CaseState → List (WorkflowCommand × TransitionDefinition) → List MappedTransition
entries_from state [] = []
entries_from state ((key, found) ∷ entries) =
    record { from_state = state; command = key; definition = found } ∷ entries_from state entries

collect_from : List CaseState → List MappedTransition
unfolding transition_map
collect_from [] = []
collect_from (state ∷ states) = entries_from state (transition_map state) ++ collect_from states

unfoldable pub collect_all_mapped_transitions : List MappedTransition
unfolding collect_from
collect_all_mapped_transitions = collect_from mapped_states
