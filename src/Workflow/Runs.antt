-- ===== src/Workflow/Runs.antt =====
-- apps/api/src/modules/case-management/transition/transition.commands.ts: sequences of commands.
use etik_bildirim_platformu.Prelude.{◌≡◌, refl, inl, inr, Option, none, some, List, [], ◌∷◌}
use etik_bildirim_platformu.Shared.Enums.{
  CaseState, report_submitted, secretariat_review, pre_research, chair_gate, not_on_agenda_closed,
  agenda_ready, rapporteur_assigned, rapporteur_report_submitted, member_approval, decision_draft,
  board_chair_review, board_approved, implementation_letter_prepared, action_assigned,
  action_response_pending, follow_up_decision, closed_archived, WorkflowCommand, acknowledge_report,
  start_pre_research, submit_to_chair_gate, approve_agenda, close_not_on_agenda, assign_rapporteur,
  submit_rapporteur_report, return_to_agenda, submit_to_member_approval, create_decision_draft,
  submit_to_board_review, board_approve, board_veto, prepare_implementation_letter, assign_action,
  begin_action_response, submit_action_response, submit_follow_up_review, follow_up_close,
}
use etik_bildirim_platformu.Workflow.Map.{resolve_transition}
use etik_bildirim_platformu.Workflow.Graph.{IsTerminal}

-- The state after a sequence of commands, if each is mapped in the state that it meets.
unfoldable pub run : CaseState → List WorkflowCommand → Option CaseState
run state [] = some state
run state (command ∷ commands) = elim (resolve_transition state command) [
  | none ↦ none
  | some definition ↦ run definition.to_state commands
]

abbrev to_agenda : List WorkflowCommand → List WorkflowCommand
to_agenda rest =
    acknowledge_report ∷ start_pre_research ∷ submit_to_chair_gate ∷ approve_agenda ∷ rest

abbrev to_board : List WorkflowCommand → List WorkflowCommand
to_board rest = to_agenda (
    submit_to_member_approval ∷ create_decision_draft ∷ submit_to_board_review ∷ board_approve
    ∷ rest)

-- One sequence of commands that leads to each state.
abbrev pub path_to : CaseState → List WorkflowCommand
path_to report_submitted = []
path_to secretariat_review = acknowledge_report ∷ []
path_to pre_research = acknowledge_report ∷ start_pre_research ∷ []
path_to chair_gate = acknowledge_report ∷ start_pre_research ∷ submit_to_chair_gate ∷ []
path_to not_on_agenda_closed =
    acknowledge_report ∷ start_pre_research ∷ submit_to_chair_gate ∷ close_not_on_agenda ∷ []
path_to agenda_ready = to_agenda []
path_to rapporteur_assigned = to_agenda (assign_rapporteur ∷ [])
path_to rapporteur_report_submitted = to_agenda (assign_rapporteur ∷ submit_rapporteur_report ∷ [])
path_to member_approval = to_agenda (submit_to_member_approval ∷ [])
path_to decision_draft = to_agenda (submit_to_member_approval ∷ create_decision_draft ∷ [])
path_to board_chair_review =
    to_agenda (submit_to_member_approval ∷ create_decision_draft ∷ submit_to_board_review ∷ [])
path_to board_approved = to_board []
path_to implementation_letter_prepared = to_board (prepare_implementation_letter ∷ [])
path_to action_assigned = to_board (prepare_implementation_letter ∷ assign_action ∷ [])
path_to action_response_pending =
    to_board (prepare_implementation_letter ∷ assign_action ∷ begin_action_response ∷ [])
path_to follow_up_decision = to_agenda (submit_follow_up_review ∷ [])
path_to closed_archived = to_agenda (submit_follow_up_review ∷ follow_up_close ∷ [])

-- Every state is reached from a submitted report by some sequence of mapped commands.
pub every_state_reached :
    (state : CaseState)
    → (commands : List WorkflowCommand) × (run report_submitted commands ≡ some state)
unfolding run resolve_transition
every_state_reached report_submitted = (path_to report_submitted, refl)
every_state_reached secretariat_review = (path_to secretariat_review, refl)
every_state_reached pre_research = (path_to pre_research, refl)
every_state_reached chair_gate = (path_to chair_gate, refl)
every_state_reached not_on_agenda_closed = (path_to not_on_agenda_closed, refl)
every_state_reached agenda_ready = (path_to agenda_ready, refl)
every_state_reached rapporteur_assigned = (path_to rapporteur_assigned, refl)
every_state_reached rapporteur_report_submitted = (path_to rapporteur_report_submitted, refl)
every_state_reached member_approval = (path_to member_approval, refl)
every_state_reached decision_draft = (path_to decision_draft, refl)
every_state_reached board_chair_review = (path_to board_chair_review, refl)
every_state_reached board_approved = (path_to board_approved, refl)
every_state_reached implementation_letter_prepared = (path_to implementation_letter_prepared, refl)
every_state_reached action_assigned = (path_to action_assigned, refl)
every_state_reached action_response_pending = (path_to action_response_pending, refl)
every_state_reached follow_up_decision = (path_to follow_up_decision, refl)
every_state_reached closed_archived = (path_to closed_archived, refl)

abbrev finish : List WorkflowCommand
finish = submit_follow_up_review ∷ follow_up_close ∷ []

-- From every state some sequence of mapped commands leads to a closed state: no state is a dead
-- end.
pub every_state_closes :
    (state : CaseState)
    → (commands : List WorkflowCommand) × (last : CaseState) × (run state commands ≡ some last)
      × IsTerminal last
unfolding run resolve_transition
every_state_closes report_submitted = (path_to closed_archived, closed_archived, refl, inr refl)
every_state_closes secretariat_review = (
  start_pre_research ∷ submit_to_chair_gate ∷ approve_agenda ∷ finish,
  closed_archived,
  refl,
  inr refl,
)
every_state_closes pre_research =
    (submit_to_chair_gate ∷ approve_agenda ∷ finish, closed_archived, refl, inr refl)
every_state_closes chair_gate = (approve_agenda ∷ finish, closed_archived, refl, inr refl)
every_state_closes not_on_agenda_closed = ([], not_on_agenda_closed, refl, inl refl)
every_state_closes agenda_ready = (finish, closed_archived, refl, inr refl)
every_state_closes rapporteur_assigned =
    (submit_rapporteur_report ∷ return_to_agenda ∷ finish, closed_archived, refl, inr refl)
every_state_closes rapporteur_report_submitted =
    (return_to_agenda ∷ finish, closed_archived, refl, inr refl)
every_state_closes member_approval = (
  create_decision_draft ∷ submit_to_board_review ∷ board_veto ∷ finish,
  closed_archived,
  refl,
  inr refl,
)
every_state_closes decision_draft =
    (submit_to_board_review ∷ board_veto ∷ finish, closed_archived, refl, inr refl)
every_state_closes board_chair_review = (board_veto ∷ finish, closed_archived, refl, inr refl)
every_state_closes board_approved = (
  prepare_implementation_letter ∷ assign_action ∷ begin_action_response ∷ submit_action_response
      ∷ finish,
  closed_archived,
  refl,
  inr refl,
)
every_state_closes implementation_letter_prepared = (
  assign_action ∷ begin_action_response ∷ submit_action_response ∷ finish,
  closed_archived,
  refl,
  inr refl,
)
every_state_closes action_assigned =
    (begin_action_response ∷ submit_action_response ∷ finish, closed_archived, refl, inr refl)
every_state_closes action_response_pending =
    (submit_action_response ∷ finish, closed_archived, refl, inr refl)
every_state_closes follow_up_decision = (follow_up_close ∷ [], closed_archived, refl, inr refl)
every_state_closes closed_archived = ([], closed_archived, refl, inr refl)
