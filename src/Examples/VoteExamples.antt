-- ===== src/Examples/VoteExamples.antt =====
-- apps/api/src/modules/decision: the last of two members of the council votes.

use etik_bildirim_platformu.Decision.Voting.{SilentPort}
use etik_bildirim_platformu.Decision.Requests.{silent_row}
use etik_bildirim_platformu.Decision.Requests.{SilentAcceptanceInput}
use etik_bildirim_platformu.Workflow.Engine.{find_transition}
use etik_bildirim_platformu.Decision.Unanimity.{vote_by_member}
use etik_bildirim_platformu.Audit.Spread.{get_field}
use etik_bildirim_platformu.Decision.Requests.{draft_input}
use etik_bildirim_platformu.Decision.Requests.{objection_input}
use etik_bildirim_platformu.Decision.Unanimity.{is_unanimity_complete}
use etik_bildirim_platformu.Decision.Voting.{assert_case_accessible}
use etik_bildirim_platformu.Decision.Voting.{cast_new}
use etik_bildirim_platformu.Decision.Voting.{complete_member_approval_task}
use etik_bildirim_platformu.Shared.Enums.{case_state_code}
use etik_bildirim_platformu.Shared.Enums.{workflow_command_code}
use etik_bildirim_platformu.Workflow.Engine.{apply_transition}
use etik_bildirim_platformu.Workflow.Engine.{check_assignee}
use etik_bildirim_platformu.Workflow.Engine.{create_transition}
use etik_bildirim_platformu.Workflow.Engine.{execute_in_transaction}
use etik_bildirim_platformu.Workflow.Engine.{transition_case}
use etik_bildirim_platformu.Workflow.Engine.{update_case}
use etik_bildirim_platformu.Workflow.Engine.{validate_async_preconditions}
use etik_bildirim_platformu.Workflow.Map.{definition_of}
use etik_bildirim_platformu.Workflow.Map.{resolve_transition}
use etik_bildirim_platformu.Workflow.Map.{transition_map}
use etik_bildirim_platformu.Workflow.Records.{assign}
use etik_bildirim_platformu.Workflow.Records.{moved}
use etik_bildirim_platformu.Workflow.Text.{trim}
use etik_bildirim_platformu.Workflow.Validators.{is_system_actor_allowed}
use etik_bildirim_platformu.Workflow.Validators.{require_metadata_user_id}
use etik_bildirim_platformu.Workflow.Validators.{validate}
use etik_bildirim_platformu.Workflow.Validators.{validate_preconditions}
use etik_bildirim_platformu.Workflow.Validators.{validate_reason}
use etik_bildirim_platformu.Workflow.Validators.{validate_role}
use etik_bildirim_platformu.Policy.Scope.{build_case_scope}
use etik_bildirim_platformu.Policy.Abac.{resolve_effective_abac_rule}
use etik_bildirim_platformu.Policy.Abac.{get_abac_rule_for_role_and_resource}
use etik_bildirim_platformu.Policy.Clearance.{get_allowed_clearance_levels}
use etik_bildirim_platformu.Shared.Enums.{ClearanceLevel-discrete}
use etik_bildirim_platformu.Policy.Clearance.{is_clearance_sufficient}
use etik_bildirim_platformu.Decision.Unanimity.{find_active_member_approval_transition}
use etik_bildirim_platformu.Audit.Publisher.{publish}
use etik_bildirim_platformu.Audit.Metadata.{find_forbidden_audit_metadata_key}
use etik_bildirim_platformu.Decision.Voting.{advance_to_decision_draft_if_unanimous}
use etik_bildirim_platformu.Decision.Unanimity.{is_unanimity_complete_for_transition}
use etik_bildirim_platformu.Decision.Unanimity.{is_unanimous}
use etik_bildirim_platformu.Decision.Unanimity.{list_eligible_council_member_ids}
use etik_bildirim_platformu.Decision.Unanimity.{is_eligible}
use etik_bildirim_platformu.Prelude.{
  ◌≡◌, refl, ap, ◌⊎◌, inl, inr, true, false, String, none, some, List, [], ◌∷◌, ok, Outcome,
  string_eq,
}
use etik_bildirim_platformu.Shared.Enums.{
  council_member, CaseState, member_approval, decision_draft, rapporteur_report_submitted, normal,
  strictly_confidential, submit_to_member_approval, create_decision_draft, AuditActorType, approve,
}
use etik_bildirim_platformu.Shared.Errors.{ErrorCode}
use etik_bildirim_platformu.Storage.Rows.{CaseRow, TransitionRow, UserRow, VoteRow}
use etik_bildirim_platformu.Storage.World.{Tables, World, list_tables}
use etik_bildirim_platformu.Policy.User.{AuthenticatedUser}
use etik_bildirim_platformu.Audit.Events.{AuditEventType, success}
use etik_bildirim_platformu.Audit.Metadata.{scalar, object, field, end}
use etik_bildirim_platformu.Audit.Publisher.{PublishAuditEventInput, outbox_row}
use etik_bildirim_platformu.Decision.Requests.{CastVoteBody, cast_row, cast_event}
use etik_bildirim_platformu.Decision.Voting.{VoteFresh, cast_vote, recorded_vote}
use etik_bildirim_platformu.Decision.Voting.Cast.{IsCast, cast_vote-IsCast}
use etik_bildirim_platformu.Decision.Voting.Silent.{
  IsSettled, IsUnchanged, create_silent_acceptance_vote-IsUnchanged,
}
use etik_bildirim_platformu.Decision.Voting.Result.{next_state, is_round_unanimous, cast_vote-state}
use etik_bildirim_platformu.Workflow.Engine.{SideEffects, find_case}
use etik_bildirim_platformu.Workflow.Records.{transition_row}
use etik_bildirim_platformu.Tasks.Records.{TaskTables, all_tables, list_task_tables}
use etik_bildirim_platformu.Examples.PolicyExamples.{case_filter}

abbrev tables : Tables
tables = list_tables Unit

abbrev task_tables : TaskTables
task_tables = list_task_tables Unit

abbrev Database : Type 0
Database = World (all_tables tables task_tables)

abbrev no_effects : SideEffects (all_tables tables task_tables)
no_effects w input context created = ok ([], w.rest)

abbrev encrypt : String → Outcome ErrorCode String
encrypt text = ok "cipher"

abbrev fresh : VoteFresh
fresh = record {
  now = 9000;
  vote_id = "v2";
  outbox_id = "o2";
  transition = record { now = 9000; transition_id = "t2"; outbox_id = "o3" };
}

abbrev member : AuthenticatedUser
member = record {
  id = "m2";
  email = "";
  display_name = "";
  roles = council_member ∷ [];
  clearance_level = strictly_confidential;
  company_id = none;
  company_name = none;
  function_id = none;
  location_id = none;
  is_general_secretary = false;
}

abbrev case_entity : CaseRow
case_entity = record {
  id = "c1";
  current_state = member_approval;
  confidentiality_level = normal;
  company_id = "co1";
  report_id = "p1";
  opened_at = 0;
  assigned_rapporteur_id = none;
  assigned_action_owner_id = none;
  closed_at = none;
  optimistic_lock_version = 4;
}

abbrev round : TransitionRow
round = record {
  id = "t1";
  case_id = "c1";
  from_state = rapporteur_report_submitted;
  to_state = member_approval;
  command = submit_to_member_approval;
  actor_type = AuditActorType.user;
  performed_by_user_id = some "u1";
  reason_text_masked = none;
  idempotency_key = "x1";
  transitioned_at = 5000;
}

abbrev holder : String → UserRow
holder id = record {
  id = id;
  is_active = true;
  clearance_level = strictly_confidential;
  roles_assigned = record { role_code = council_member; is_active = true } ∷ [];
}

abbrev vote_of : String → String → VoteRow
vote_of id voter = record {
  id = id;
  case_id = "c1";
  transition_id = "t1";
  voter_user_id = voter;
  vote_type = approve;
  reason_text = none;
  is_silent_acceptance = false;
  created_by_system = false;
  voted_at = 9000;
}

abbrev start : Database
start = record {
  cases = case_entity ∷ [];
  transitions = round ∷ [];
  users = holder "m1" ∷ holder "m2" ∷ [];
  votes = vote_of "v1" "m1" ∷ [];
  outbox = [];
  rest = record { tasks = []; task_events = []; policies = []; calendar = []; other = tt };
}

abbrev body : CastVoteBody
body = record { vote_type = approve; reason = none; idempotency_key = "x2" }

abbrev drafted : TransitionRow
drafted = record {
  id = "t2";
  case_id = "c1";
  from_state = member_approval;
  to_state = decision_draft;
  command = create_decision_draft;
  actor_type = AuditActorType.system;
  performed_by_user_id = none;
  reason_text_masked = none;
  idempotency_key = "decision-unanimity:t1";
  transitioned_at = 9000;
}

abbrev draft_event : PublishAuditEventInput
draft_event = record {
  event_type = AuditEventType.case_transition;
  actor_type = AuditActorType.system;
  actor_id = none;
  action = "case_transition";
  outcome = success;
  resource_type = some "case";
  resource_id = some "c1";
  case_id = some "c1";
  company_id = some "co1";
  correlation_id = some "r1";
  idempotency_key = some "audit:decision-unanimity:t1";
  metadata = object (
      field "fromState" (scalar "member_approval") (
        field "toState" (scalar "decision_draft") (
          field "command" (scalar "create_decision_draft")
            (field "transitionId" (scalar "t2") end))));
  occurred_at = none;
  severity = none;
  event_category = none;
}

-- The second approval makes the round unanimous.
abbrev voted : Database
voted = record start {
  cases = record case_entity { current_state = decision_draft; optimistic_lock_version = 5 } ∷ [];
  transitions = round ∷ drafted ∷ [];
  votes = vote_of "v1" "m1" ∷ vote_of "v2" "m2" ∷ [];
  outbox =
      outbox_row "o2" 9000 (cast_event member body (vote_of "v2" "m2") "co1" "r1")
      ∷ outbox_row "o3" 9000 draft_event
      ∷ [];
}

voted-ok :
    cast_vote tables task_tables no_effects fresh case_filter encrypt start start member "c1" body
      "r1"
    ≡ ok (vote_of "v2" "m2", voted)
unfolding cast_vote vote_by_member get_field draft_input is_unanimity_complete
    assert_case_accessible cast_new complete_member_approval_task case_state_code
    workflow_command_code apply_transition check_assignee create_transition execute_in_transaction
    transition_case update_case validate_async_preconditions definition_of resolve_transition
    transition_map assign moved trim is_system_actor_allowed require_metadata_user_id validate
    validate_preconditions validate_reason validate_role build_case_scope
    resolve_effective_abac_rule get_abac_rule_for_role_and_resource get_allowed_clearance_levels
    ClearanceLevel-discrete is_clearance_sufficient find_active_member_approval_transition publish
    find_forbidden_audit_metadata_key advance_to_decision_draft_if_unanimous
    is_unanimity_complete_for_transition is_unanimous list_eligible_council_member_ids is_eligible
    cast_row cast_event transition_row
voted-ok = refl

abbrev WasCast : Type 0
WasCast =
    IsCast tables task_tables no_effects fresh case_filter encrypt start start member "c1" body "r1"
      (vote_of "v2" "m2") voted

cast_vote-IsCast_example :
    ((recorded_vote tables task_tables start "c1" body ≡ some (vote_of "v2" "m2"))
      × (voted ≡ start))
    ⊎ WasCast
cast_vote-IsCast_example =
    cast_vote-IsCast tables task_tables no_effects fresh case_filter encrypt start start member "c1"
      body "r1" (vote_of "v2" "m2") voted voted-ok

abbrev state_of : List CaseRow → CaseState
state_of [] = member_approval
state_of (row ∷ rows) = row.current_state

was_cast : WasCast
was_cast =
    elim (cast_vote-IsCast tables task_tables no_effects fresh case_filter encrypt start start
      member "c1" body "r1" (vote_of "v2" "m2") voted voted-ok) [
        | inl (_, same) ↦
            let moved : decision_draft ≡ member_approval =
              ap (λ (w : Database). state_of w.cases) same in
            cc
        | inr new ↦ new
      ]

unused_draft :
    find_transition
      (all_tables tables task_tables)
      start
      (draft_input "c1" "t1" "r1").idempotency_key
    ≡ none
unfolding draft_input
unused_draft = refl

unused_objection :
    find_transition
      (all_tables tables task_tables)
      start
      (objection_input member body "c1" "t1" "r1").idempotency_key
    ≡ none
unfolding objection_input
unused_objection = refl

cast_vote-state_example :
    (row : CaseRow) × (find_case (all_tables tables task_tables) voted "c1" ≡ some row)
    × (row.current_state
        ≡ next_state false
            (is_round_unanimous tables task_tables no_effects fresh voted (vote_of "v2" "m2")))
cast_vote-state_example =
    cast_vote-state tables task_tables no_effects fresh case_filter encrypt start start member "c1"
      body "r1" (vote_of "v2" "m2") voted was_cast unused_draft unused_objection

abbrev nothing_sent : SilentPort tables task_tables
nothing_sent w input = ok w.rest.other

abbrev silence : SilentAcceptanceInput
silence = record {
  case_id = "c1";
  transition_id = "t1";
  voter_user_id = "m2";
  company_id = "co1";
  correlation_id = "r1";
}

-- The member of the example has voted, so silence is no new vote.
m2-IsSettled : IsSettled tables task_tables silence voted
m2-IsSettled = IsSettled.voted fresh (unfold silent_row in refl)

create_silent_acceptance_vote-IsUnchanged_example :
    IsUnchanged tables task_tables fresh nothing_sent silence voted
create_silent_acceptance_vote-IsUnchanged_example =
    create_silent_acceptance_vote-IsUnchanged tables task_tables silence fresh nothing_sent voted
      m2-IsSettled
