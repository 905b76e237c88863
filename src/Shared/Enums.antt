-- ===== src/Shared/Enums.antt =====
-- packages/shared/src/enums: the enumerations, each with its `===`.
use etik_bildirim_platformu.Prelude.{String, Eq, eq_by}

pub data Role : Type 0 where
  council_secretary council_chair council_member rapporteur board_chair action_owner admin : Role

pub data ClearanceLevel : Type 0 where
  normal sensitive strictly_confidential : ClearanceLevel

pub data CaseState : Type 0 where
  report_submitted secretariat_review pre_research chair_gate not_on_agenda_closed agenda_ready
        rapporteur_assigned rapporteur_report_submitted member_approval decision_draft
        board_chair_review board_approved implementation_letter_prepared action_assigned
        action_response_pending follow_up_decision closed_archived :
      CaseState

pub data WorkflowCommand : Type 0 where
  open_case acknowledge_report start_pre_research submit_to_chair_gate approve_agenda
        close_not_on_agenda assign_rapporteur submit_rapporteur_report return_to_agenda
        submit_to_member_approval member_objection create_decision_draft submit_to_board_review
        board_approve board_veto prepare_implementation_letter assign_action begin_action_response
        submit_action_response submit_follow_up_review follow_up_close follow_up_reassign :
      WorkflowCommand

pub data AuditActorType : Type 0 where
  user system anonymous : AuditActorType

unfoldable pub Role-discrete : Discrete Role
Role-discrete = hlevel

unfoldable pub ClearanceLevel-discrete : Discrete ClearanceLevel
ClearanceLevel-discrete = hlevel

unfoldable pub CaseState-discrete : Discrete CaseState
CaseState-discrete = hlevel

unfoldable pub WorkflowCommand-discrete : Discrete WorkflowCommand
WorkflowCommand-discrete = hlevel

instance abbrev pub role_eq : Eq Role
role_eq = eq_by Role-discrete

instance abbrev pub clearance_level_eq : Eq ClearanceLevel
clearance_level_eq = eq_by ClearanceLevel-discrete

instance abbrev pub case_state_eq : Eq CaseState
case_state_eq = eq_by CaseState-discrete

instance abbrev pub workflow_command_eq : Eq WorkflowCommand
workflow_command_eq = eq_by WorkflowCommand-discrete

pub data VoteType : Type 0 where
  approve reject silent_acceptance : VoteType

pub data TaskType : Type 0 where
  secretariat_review_task pre_research_task chair_gate_task rapporteur_assign_task
        rapporteur_report_task member_approval_task decision_draft_task board_review_task
        implementation_letter_task action_response_task follow_up_review_task :
      TaskType

pub data TaskStatus : Type 0 where
  pending in_progress completed cancelled delegated : TaskStatus

pub data TaskEventType : Type 0 where
  created started task_completed task_cancelled task_delegated sla_warned sla_breached paused
        resumed :
      TaskEventType

unfoldable pub VoteType-discrete : Discrete VoteType
VoteType-discrete = hlevel

unfoldable pub TaskType-discrete : Discrete TaskType
TaskType-discrete = hlevel

unfoldable pub TaskStatus-discrete : Discrete TaskStatus
TaskStatus-discrete = hlevel

instance abbrev pub vote_type_eq : Eq VoteType
vote_type_eq = eq_by VoteType-discrete

instance abbrev pub task_type_eq : Eq TaskType
task_type_eq = eq_by TaskType-discrete

instance abbrev pub task_status_eq : Eq TaskStatus
task_status_eq = eq_by TaskStatus-discrete

-- The texts of the codes.
unfoldable pub case_state_code : CaseState → String
case_state_code report_submitted = "report_submitted"
case_state_code secretariat_review = "secretariat_review"
case_state_code pre_research = "pre_research"
case_state_code chair_gate = "chair_gate"
case_state_code not_on_agenda_closed = "not_on_agenda_closed"
case_state_code agenda_ready = "agenda_ready"
case_state_code rapporteur_assigned = "rapporteur_assigned"
case_state_code rapporteur_report_submitted = "rapporteur_report_submitted"
case_state_code member_approval = "member_approval"
case_state_code decision_draft = "decision_draft"
case_state_code board_chair_review = "board_chair_review"
case_state_code board_approved = "board_approved"
case_state_code implementation_letter_prepared = "implementation_letter_prepared"
case_state_code action_assigned = "action_assigned"
case_state_code action_response_pending = "action_response_pending"
case_state_code follow_up_decision = "follow_up_decision"
case_state_code closed_archived = "closed_archived"

unfoldable pub workflow_command_code : WorkflowCommand → String
workflow_command_code open_case = "open_case"
workflow_command_code acknowledge_report = "acknowledge_report"
workflow_command_code start_pre_research = "start_pre_research"
workflow_command_code submit_to_chair_gate = "submit_to_chair_gate"
workflow_command_code approve_agenda = "approve_agenda"
workflow_command_code close_not_on_agenda = "close_not_on_agenda"
workflow_command_code assign_rapporteur = "assign_rapporteur"
workflow_command_code submit_rapporteur_report = "submit_rapporteur_report"
workflow_command_code return_to_agenda = "return_to_agenda"
workflow_command_code submit_to_member_approval = "submit_to_member_approval"
workflow_command_code member_objection = "member_objection"
workflow_command_code create_decision_draft = "create_decision_draft"
workflow_command_code submit_to_board_review = "submit_to_board_review"
workflow_command_code board_approve = "board_approve"
workflow_command_code board_veto = "board_veto"
workflow_command_code prepare_implementation_letter = "prepare_implementation_letter"
workflow_command_code assign_action = "assign_action"
workflow_command_code begin_action_response = "begin_action_response"
workflow_command_code submit_action_response = "submit_action_response"
workflow_command_code submit_follow_up_review = "submit_follow_up_review"
workflow_command_code follow_up_close = "follow_up_close"
workflow_command_code follow_up_reassign = "follow_up_reassign"
