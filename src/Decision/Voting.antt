-- ===== src/Decision/Voting.antt =====
-- apps/api/src/modules/decision/decision.service.ts: `castVote`, `createSilentAcceptanceVote` and
-- `advanceToDecisionDraftIfUnanimous`. The reads before the transaction see `before`; the
-- transaction runs on `now`. The mapping of the answer and the list of votes are left out.
pub mod Voted
pub mod Cast
mod Recording
pub mod Silent
mod Moving
pub mod Result
use etik_bildirim_platformu.Prelude.{
  ℕ, String, Bool, true, false, ◌&&◌, ◌||◌, Option, none, some, List, [], ◌∷◌, ◌===◌, string_eq,
  option_eq, find, includes, if◌then◌else◌, Outcome, ok, throw, ◌>>=◌, ◌>>◌, require, is_some,
}
use etik_bildirim_platformu.Shared.Enums.{
  Role, council_member, Role-discrete, role_eq, CaseState, member_approval, CaseState-discrete,
  case_state_eq, AuditActorType, VoteType, VoteType-discrete, reject, approve, TaskType,
  member_approval_task, TaskType-discrete, task_type_eq, TaskStatus, TaskStatus-discrete,
  task_status_eq, TaskEventType, task_completed,
}
use etik_bildirim_platformu.Shared.Errors.{
  ErrorCode, resource_not_found, authz_forbidden, decision_vote_invalid_state,
  decision_vote_already_cast, client_p2002, client_p2025,
}
use etik_bildirim_platformu.Storage.Rows.{CaseRow, VoteRow, TransitionRow}
use etik_bildirim_platformu.Storage.Table.{find_first, create}
use etik_bildirim_platformu.Storage.World.{Tables, World}
use etik_bildirim_platformu.Policy.Clearance.{is_clearance_sufficient}
use etik_bildirim_platformu.Policy.User.{AuthenticatedUser}
use etik_bildirim_platformu.Policy.Scope.{build_case_scope}
use etik_bildirim_platformu.Policy.Scope.CaseAccess.{CaseFilter}
use etik_bildirim_platformu.Audit.Metadata.{Json, scalar, object, field, end}
use etik_bildirim_platformu.Audit.Publisher.{OutboxRow, publish}
use etik_bildirim_platformu.Decision.Unanimity.{
  find_active_member_approval_transition, is_unanimity_complete_for_transition,
}
use etik_bildirim_platformu.Decision.Requests.{
  CastVoteBody, SilentAcceptanceInput, vote_key, silent_key, same_voter, metadata_field, cast_row,
  silent_row, cast_event, silent_event, objection_input, draft_input,
}
use etik_bildirim_platformu.Workflow.Records.{Snapshot, Fresh}
use etik_bildirim_platformu.Workflow.Validators.{has_text}
use etik_bildirim_platformu.Workflow.Engine.{
  or_throw, SideEffects, find_case, execute_in_transaction,
}
use etik_bildirim_platformu.Tasks.Records.{
  TaskRow, TaskTables, TaskStores, all_tables, has_task_id, record_task_event,
}

-- The ids and the time of one vote.
pub record VoteFresh : Type 0 where
  pub now : ℕ
  pub vote_id : String
  pub outbox_id : String
  pub transition : Fresh

abbrev pub snapshot_of : CaseRow → Snapshot
snapshot_of row = record {
  snapshot_state = member_approval;
  snapshot_version = row.optimistic_lock_version;
  company_id = row.company_id;
}

-- `catch`: the client's P2002 is reported as a vote that was cast already.
abbrev pub already_cast {ℓ} : {A : Type ℓ} → Outcome ErrorCode A → Outcome ErrorCode A
already_cast (throw client_p2002) = throw decision_vote_already_cast
already_cast result = result

abbrev pub is_reject : VoteType → Bool
is_reject reject = true
is_reject _ = false

module _ (t : Tables) (k : TaskTables) where
  abbrev is_open_approval : String → String → String → TaskRow → Bool
  unfolding TaskType-discrete TaskStatus-discrete
  is_open_approval case_id transition_id user_id row =
      row.case_id === case_id
      && row.task_type === member_approval_task
      && row.created_by_transition_id === transition_id
      && row.assigned_user_id === some user_id
      && (row.status === TaskStatus.pending || row.status === TaskStatus.in_progress)

  abbrev voted_row : ℕ → String → TaskRow → TaskRow
  voted_row now user_id row = record row {
    status = TaskStatus.completed;
    completed_by_user_id = some user_id;
    completed_at = some now;
    outcome = some "APPROVE";
  }

  abbrev actor_id_of : AuditActorType → String → Option String
  actor_id_of AuditActorType.user id = some id
  actor_id_of _ id = none

  unfoldable pub complete_member_approval_task :
      ℕ → String → String → String → AuditActorType → TaskStores k → TaskStores k
  unfolding is_open_approval
  complete_member_approval_task now case_id transition_id user_id actor_type s =
      elim (find_first k.tasks (is_open_approval case_id transition_id user_id) s.tasks) [
        | none ↦ s
        | some task ↦
            record_task_event k
              (record {
                task_id = task.id;
                event_type = task_completed;
                actor_type = actor_type;
                actor_user_id = actor_id_of actor_type user_id;
                metadata_json = object (field "via" (scalar "decision_vote") end);
              })
              (record s {
                tasks = k.tasks.update (has_task_id task.id) (voted_row now user_id) s.tasks;
              })
      ]

  unfoldable pub find_vote : World (all_tables t k) → String → Option VoteRow
  find_vote w id = find_first t.votes (λ row. row.id === id) w.votes

  unfoldable pub find_event : World (all_tables t k) → String → Option OutboxRow
  find_event w key = find_first t.outbox (λ row. row.idempotency_key === some key) w.outbox

  -- The vote that the event of a key names, for the case.
  unfoldable pub recorded_vote : World (all_tables t k) → String → CastVoteBody → Option VoteRow
  unfolding find_event find_vote metadata_field
  recorded_vote w case_id body = elim (find_event w (vote_key body)) [
    | none ↦ none
    | some event ↦
        if metadata_field "caseId" event.metadata_json === some case_id
        then elim (metadata_field "voteId" event.metadata_json) [
          | none ↦ none
          | some id ↦ find_vote w id
        ]
        else none
  ]

  module _ (side_effects : SideEffects (all_tables t k)) (fresh : VoteFresh) where
    unfoldable pub advance_to_decision_draft_if_unanimous :
        World (all_tables t k)
        → String
        → String
        → String
        → Outcome ErrorCode (Bool × World (all_tables t k))
    unfolding CaseState-discrete
    advance_to_decision_draft_if_unanimous w case_id transition_id correlation_id =
        if is_unanimity_complete_for_transition (all_tables t k) w case_id transition_id
        then (do
          row ← or_throw client_p2025 (find_case (all_tables t k) w case_id)
          let moved =
              execute_in_transaction (all_tables t k) side_effects fresh.transition
                (draft_input case_id transition_id correlation_id) w (snapshot_of row)
          if row.current_state === member_approval
              then moved >>= (λ m. ok (true, m.1))
              else ok (false, w))
        else ok (false, w)

    -- The vote, its event and the voter's task.
    unfoldable pub record_vote :
        World (all_tables t k)
        → AuthenticatedUser
        → CastVoteBody
        → VoteRow
        → String
        → String
        → Outcome ErrorCode (World (all_tables t k))
    record_vote w user body vote company_id correlation_id = do
      votes ← or_throw client_p2002 (create t.votes same_voter vote w.votes)
      outbox ←
          publish t.outbox fresh.outbox_id fresh.now
            (cast_event user body vote company_id correlation_id) w.outbox
      ok (record w {
        votes = votes;
        outbox = outbox;
        rest =
            complete_member_approval_task fresh.now vote.case_id vote.transition_id user.id
              AuditActorType.user w.rest;
      })

    unfoldable pub vote_in_transaction :
        World (all_tables t k)
        → AuthenticatedUser
        → CastVoteBody
        → VoteRow
        → String
        → String
        → Outcome ErrorCode (VoteRow × World (all_tables t k))
    unfolding record_vote CaseState-discrete
    vote_in_transaction now user body vote company_id correlation_id = do
      current ← or_throw client_p2025 (find_case (all_tables t k) now vote.case_id)
      require (current.current_state === member_approval) decision_vote_invalid_state
      recorded ← record_vote now user body vote company_id correlation_id
      let objected =
          execute_in_transaction (all_tables t k) side_effects fresh.transition
            (objection_input user body vote.case_id vote.transition_id correlation_id) recorded
            (snapshot_of current)
      let advanced =
          advance_to_decision_draft_if_unanimous recorded vote.case_id vote.transition_id
            correlation_id
      if is_reject body.vote_type
          then objected >>= (λ m. ok (vote, m.1))
          else advanced >>= (λ m. ok (vote, m.1))

    module _ (filter : CaseFilter) (encrypt_trimmed : String → Outcome ErrorCode String) where
      unfoldable pub assert_case_accessible :
          World (all_tables t k) → AuthenticatedUser → String → Outcome ErrorCode (Unit {0})
      assert_case_accessible w user case_id =
          require
            (is_some (
              find_first t.cases
                (λ row. row.id === case_id && filter.matches (build_case_scope user) row) w.cases))
            resource_not_found

      -- The reason of a rejecting vote, encrypted.
      abbrev pub reason_text : CastVoteBody → Outcome ErrorCode (Option String)
      reason_text body =
          if is_reject body.vote_type && has_text body.reason
          then elim body.reason [
            | none ↦ ok none
            | some reason ↦ encrypt_trimmed reason >>= (λ text. ok (some text))
          ]
          else ok none

      unfoldable pub cast_new :
          World (all_tables t k)
          → World (all_tables t k)
          → AuthenticatedUser
          → String
          → CastVoteBody
          → String
          → Outcome ErrorCode (VoteRow × World (all_tables t k))
      unfolding vote_in_transaction assert_case_accessible CaseState-discrete
      cast_new before now user case_id body correlation_id = do
        assert_case_accessible before user case_id
        row ← or_throw resource_not_found (find_case (all_tables t k) before case_id)
        require (row.current_state === member_approval) decision_vote_invalid_state
        require (is_clearance_sufficient user.clearance_level row.confidentiality_level)
            authz_forbidden
        active ←
            or_throw decision_vote_invalid_state
              (find_active_member_approval_transition (all_tables t k) before case_id)
        reason ← reason_text body
        already_cast (
            vote_in_transaction now user body
              (cast_row fresh.vote_id fresh.now user case_id active.id body reason) row.company_id
              correlation_id)

      unfoldable pub cast_vote :
          World (all_tables t k)
          → World (all_tables t k)
          → AuthenticatedUser
          → String
          → CastVoteBody
          → String
          → Outcome ErrorCode (VoteRow × World (all_tables t k))
      unfolding cast_new recorded_vote Role-discrete
      cast_vote before now user case_id body correlation_id = do
        require (includes council_member user.roles) authz_forbidden
        elim (recorded_vote before case_id body) [
          | some vote ↦ ok (vote, now)
          | none ↦ cast_new before now user case_id body correlation_id
        ]

  -- What enqueues the notification of a silent acceptance.
  abbrev pub SilentPort : Type 0
  SilentPort = World (all_tables t k) → SilentAcceptanceInput → Outcome ErrorCode k.Other

  -- The id of the vote that the event of the input's key names.
  unfoldable pub named_vote : World (all_tables t k) → SilentAcceptanceInput → Option String
  unfolding find_event metadata_field
  named_vote w input = elim (find_event w (silent_key input)) [
    | none ↦ none
    | some event ↦ metadata_field "voteId" event.metadata_json
  ]

  -- The id of the vote, and whether it is new.
  unfoldable pub create_silent_acceptance_vote :
      VoteFresh
      → SilentPort
      → World (all_tables t k)
      → SilentAcceptanceInput
      → Outcome ErrorCode ((Bool × String) × World (all_tables t k))
  unfolding named_vote
  create_silent_acceptance_vote fresh notify w input =
      let vote = silent_row fresh.vote_id fresh.now input in
      elim (named_vote w input) [
        | some id ↦ ok ((false, id), w)
        | none ↦ elim (find_first t.votes (same_voter vote) w.votes) [
          | some existing ↦ ok ((false, existing.id), w)
          | none ↦ do
            votes ← or_throw client_p2002 (create t.votes same_voter vote w.votes)
            outbox ← publish t.outbox fresh.outbox_id fresh.now (silent_event input vote) w.outbox
            let voted = record w {
              votes = votes;
              outbox = outbox;
              rest =
                  complete_member_approval_task fresh.now input.case_id input.transition_id
                    input.voter_user_id AuditActorType.system w.rest;
            }
            notified ← notify voted input
            ok ((true, vote.id), record voted { rest = record voted.rest { other = notified } })
        ]
      ]
