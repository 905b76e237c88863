-- ===== src/Decision/Requests.antt =====
-- apps/api/src/modules/decision/decision.service.ts: the rows, events and transitions that a vote
-- makes.
use Prim.Native.String
use etik_bildirim_platformu.Prelude.{
  ℕ, String, Bool, true, false, ◌&&◌, Option, none, some, [], ◌∷◌, ◌===◌, string_eq,
}
use etik_bildirim_platformu.Shared.Enums.{
  strictly_confidential, AuditActorType, member_objection, create_decision_draft, VoteType, approve,
  reject, silent_acceptance,
}
use etik_bildirim_platformu.Storage.Rows.{VoteRow}
use etik_bildirim_platformu.Policy.User.{AuthenticatedUser}
use etik_bildirim_platformu.Audit.Events.{AuditEventType, success}
use etik_bildirim_platformu.Audit.Metadata.{Json, scalar, object, field, end}
use etik_bildirim_platformu.Audit.Spread.{get_field, text_of}
use etik_bildirim_platformu.Audit.Publisher.{PublishAuditEventInput}
use etik_bildirim_platformu.Workflow.Records.{ExecuteTransitionInput}
use etik_bildirim_platformu.Workflow.Validators.{text}

pub record CastVoteBody : Type 0 where
  pub vote_type : VoteType
  pub reason : Option String
  pub idempotency_key : String

-- The input of `createSilentAcceptanceVote`.
pub record SilentAcceptanceInput : Type 0 where
  pub case_id : String
  pub transition_id : String
  pub voter_user_id : String
  pub company_id : String
  pub correlation_id : String

unfoldable pub vote_type_code : VoteType → String
vote_type_code approve = "APPROVE"
vote_type_code reject = "REJECT"
vote_type_code silent_acceptance = "SILENT_ACCEPTANCE"

abbrev pub vote_key : CastVoteBody → String
vote_key body = String.◌++◌ "decision-vote:" body.idempotency_key

abbrev pub silent_key : SilentAcceptanceInput → String
silent_key input =
    String.◌++◌ "silent-acceptance:"
      (String.◌++◌ input.transition_id (String.◌++◌ ":" input.voter_user_id))

-- The unique index on the transition of a round and the voter.
abbrev pub same_voter : VoteRow → VoteRow → Bool
same_voter a b = a.transition_id === b.transition_id && a.voter_user_id === b.voter_user_id

-- `metadata[name]` of an object, if it is a text.
unfoldable pub metadata_field : String → Json → Option String
unfolding get_field
metadata_field name (object fields) = text_of (get_field name fields)
metadata_field name _ = none

unfoldable pub cast_row :
    String → ℕ → AuthenticatedUser → String → String → CastVoteBody → Option String → VoteRow
cast_row id now user case_id transition_id body reason_text = record {
  id = id;
  case_id = case_id;
  transition_id = transition_id;
  voter_user_id = user.id;
  vote_type = body.vote_type;
  reason_text = reason_text;
  is_silent_acceptance = false;
  created_by_system = false;
  voted_at = now;
}

unfoldable pub silent_row : String → ℕ → SilentAcceptanceInput → VoteRow
silent_row id now input = record {
  id = id;
  case_id = input.case_id;
  transition_id = input.transition_id;
  voter_user_id = input.voter_user_id;
  vote_type = silent_acceptance;
  reason_text = none;
  is_silent_acceptance = true;
  created_by_system = true;
  voted_at = now;
}

unfoldable pub cast_event :
    AuthenticatedUser → CastVoteBody → VoteRow → String → String → PublishAuditEventInput
unfolding vote_type_code
cast_event user body vote company_id correlation_id = record {
  event_type = AuditEventType.decision_vote_cast;
  actor_type = AuditActorType.user;
  actor_id = some user.id;
  action = "decision_vote_cast";
  outcome = success;
  resource_type = some "decision_vote";
  resource_id = some vote.id;
  case_id = some vote.case_id;
  company_id = some company_id;
  correlation_id = some correlation_id;
  idempotency_key = some (vote_key body);
  metadata = object (
      field "caseId" (scalar vote.case_id) (
        field "voteId" (scalar vote.id) (
          field "voterUserId" (scalar user.id) (
            field "voteType" (scalar (vote_type_code body.vote_type)) (
              field "isSilentAcceptance" (scalar "false")
                (field "transitionId" (scalar vote.transition_id) end))))));
  occurred_at = none;
  severity = none;
  event_category = none;
}

unfoldable pub silent_event : SilentAcceptanceInput → VoteRow → PublishAuditEventInput
unfolding vote_type_code
silent_event input vote = record {
  event_type = AuditEventType.silent_acceptance_created;
  actor_type = AuditActorType.system;
  actor_id = none;
  action = "silent_acceptance_created";
  outcome = success;
  resource_type = some "decision_vote";
  resource_id = some vote.id;
  case_id = some input.case_id;
  company_id = some input.company_id;
  correlation_id = some input.correlation_id;
  idempotency_key = some (silent_key input);
  metadata = object (
      field "caseId" (scalar input.case_id) (
        field "voteId" (scalar vote.id) (
          field "voterUserId" (scalar input.voter_user_id) (
            field "voteType" (scalar (vote_type_code silent_acceptance)) (
              field "isSilentAcceptance" (scalar "true") (
                field "transitionId" (scalar input.transition_id)
                  (field "reason" (scalar "timeout") end)))))));
  occurred_at = none;
  severity = none;
  event_category = none;
}

unfoldable pub objection_input :
    AuthenticatedUser → CastVoteBody → String → String → String → ExecuteTransitionInput
objection_input user body case_id transition_id correlation_id = record {
  case_id = case_id;
  command = member_objection;
  actor = record {
    kind = AuditActorType.user;
    user_id = some user.id;
    roles = user.roles;
    clearance_level = user.clearance_level;
  };
  idempotency_key = String.◌++◌ "member-objection:" (
      String.◌++◌ transition_id
        (String.◌++◌ ":" (String.◌++◌ user.id (String.◌++◌ ":" body.idempotency_key))));
  correlation_id = correlation_id;
  reason = none;
  metadata = ("objectionSummary", text "[REDACTED]") ∷ [];
}

unfoldable pub draft_input : String → String → String → ExecuteTransitionInput
draft_input case_id transition_id correlation_id = record {
  case_id = case_id;
  command = create_decision_draft;
  actor = record {
    kind = AuditActorType.system;
    user_id = none;
    roles = [];
    clearance_level = strictly_confidential;
  };
  idempotency_key = String.◌++◌ "decision-unanimity:" transition_id;
  correlation_id = correlation_id;
  reason = none;
  metadata = [];
}
