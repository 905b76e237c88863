-- ===== src/Examples/WorkflowExamples.antt =====
-- apps/api/src/modules/case-management/transition: the transition map and the validators.
use etik_bildirim_platformu.Prelude.{◌≡◌, refl, inl, true, none, some, List, [], ◌∷◌, In}
use etik_bildirim_platformu.Shared.Enums.{
  AuditActorType, council_secretary, council_chair, sensitive, strictly_confidential, CaseState,
  report_submitted, chair_gate, not_on_agenda_closed, agenda_ready, member_approval, board_approved,
  WorkflowCommand, workflow_command_eq, approve_agenda, close_not_on_agenda, assign_rapporteur,
  create_decision_draft, board_approve,
}
use etik_bildirim_platformu.Storage.Rows.{CaseRow}
use etik_bildirim_platformu.Workflow.Map.{TransitionDefinition, by_role, resolve_transition}
use etik_bildirim_platformu.Workflow.Graph.{IsTerminal}
use etik_bildirim_platformu.Workflow.Runs.{run, path_to, every_state_closes}
use etik_bildirim_platformu.Workflow.Gates.{approval_needs_all}
use etik_bildirim_platformu.Workflow.Validators.{TransitionActor, TransitionValidationContext, text}

abbrev closing : TransitionDefinition
closing = record (by_role not_on_agenda_closed council_chair) {
  requires_reason = true;
  closes_case = true;
}

closing_mapped : resolve_transition chair_gate close_not_on_agenda ≡ some closing
unfolding resolve_transition
closing_mapped = refl

every_state_closes_example :
    (commands : List WorkflowCommand) × (last : CaseState) × (run member_approval commands
      ≡ some last)
    × IsTerminal last
every_state_closes_example = every_state_closes member_approval

approved : run report_submitted (path_to board_approved) ≡ some board_approved
unfolding run resolve_transition
approved = refl

approval_needs_all_example :
    In approve_agenda (path_to board_approved)
    × In create_decision_draft (path_to board_approved)
    × In board_approve (path_to board_approved)
approval_needs_all_example =
    approval_needs_all (path_to board_approved) board_approved approved (inl refl)

abbrev on_agenda : CaseRow
on_agenda = record {
  id = "c1";
  current_state = agenda_ready;
  confidentiality_level = sensitive;
  company_id = "co1";
  report_id = "p1";
  opened_at = 0;
  assigned_rapporteur_id = none;
  assigned_action_owner_id = none;
  closed_at = none;
  optimistic_lock_version = 4;
}

-- The secretary assigns a rapporteur.
abbrev assigning : TransitionValidationContext
assigning = record {
  case_entity = on_agenda;
  command = assign_rapporteur;
  definition = by_role CaseState.rapporteur_assigned council_secretary;
  actor = record {
    kind = AuditActorType.user;
    user_id = some "u1";
    roles = council_secretary ∷ [];
    clearance_level = strictly_confidential;
  };
  reason = none;
  metadata = ("rapporteurUserId", text "cl9ebqhxk00003b600tymydho") ∷ [];
}

abbrev chairing : TransitionActor
chairing = record {
  kind = AuditActorType.user;
  user_id = some "u2";
  roles = council_chair ∷ [];
  clearance_level = strictly_confidential;
}
