-- ===== src/Decision/Voting/Cast.antt =====
-- apps/api/src/modules/decision/decision.service.ts: what a vote that is cast has checked and
-- written.
use etik_bildirim_platformu.Prelude.{
  ◌≡◌, ap, sym, ◌∙◌, subst, ◌⊎◌, inl, inr, String, true, Option, some, ◌===◌, string_eq, In,
  includes, includes_iff, Outcome, ok, require, require-eq-ok, >>=-elim, ok-injective, Option-cases,
}
use etik_bildirim_platformu.Shared.Enums.{
  council_member, Role-discrete, role_eq, member_approval, CaseState-discrete, case_state_eq,
}
use etik_bildirim_platformu.Shared.Errors.{
  ErrorCode, resource_not_found, authz_forbidden, decision_vote_invalid_state,
}
use etik_bildirim_platformu.Storage.Rows.{CaseRow, VoteRow, TransitionRow}
use etik_bildirim_platformu.Storage.World.{Tables, World}
use etik_bildirim_platformu.Policy.Clearance.{is_clearance_sufficient}
use etik_bildirim_platformu.Policy.User.{AuthenticatedUser}
use etik_bildirim_platformu.Policy.Scope.CaseAccess.{CaseFilter}
use etik_bildirim_platformu.Decision.Unanimity.{find_active_member_approval_transition}
use etik_bildirim_platformu.Decision.Requests.{CastVoteBody, cast_row}
use etik_bildirim_platformu.Decision.Voting.{
  VoteFresh, recorded_vote, assert_case_accessible, reason_text, cast_new, cast_vote,
}
use etik_bildirim_platformu.Workflow.Engine.{or_throw, SideEffects, find_case}
use etik_bildirim_platformu.Tasks.Records.{TaskTables, all_tables}
use etik_bildirim_platformu.Tasks.Service.Finished.{or_throw_ok}
use etik_bildirim_platformu.Decision.Voting.Voted.{
  already_cast-eq-ok, IsVoted, vote_in_transaction-IsVoted,
}

module _ (t : Tables) (k : TaskTables) (side_effects : SideEffects (all_tables t k))
    (fresh : VoteFresh) where
  module _ (filter : CaseFilter) (encrypt_trimmed : String → Outcome ErrorCode String) where
    -- A vote that is new: by a member of the council, with the clearance for the case, in the round
    -- that was active, as the voter's first one in it.
    pub record IsCast (before now : World (all_tables t k)) (user : AuthenticatedUser)
        (case_id : String) (body : CastVoteBody) (correlation_id : String) (vote : VoteRow)
        (w' : World (all_tables t k)) : Type 0 where
      pub by_member : In council_member user.roles
      pub read : CaseRow
      pub was : find_case (all_tables t k) before case_id ≡ some read
      pub cleared : is_clearance_sufficient user.clearance_level read.confidentiality_level ≡ true
      pub round : TransitionRow
      pub active :
          find_active_member_approval_transition (all_tables t k) before case_id ≡ some round
      pub reason : Option String
      pub is_vote : vote ≡ cast_row fresh.vote_id fresh.now user case_id round.id body reason
      pub voted : IsVoted t k side_effects fresh now user body vote correlation_id w'

    cast_new-IsCast :
        (before now : World (all_tables t k)) (user : AuthenticatedUser) (case_id : String)
        (body : CastVoteBody) (correlation_id : String) {vote : VoteRow}
        {w' : World (all_tables t k)}
        → In council_member user.roles
        → cast_new t k side_effects fresh filter encrypt_trimmed before now user case_id body
            correlation_id
          ≡ ok (vote, w')
        → IsCast before now user case_id body correlation_id vote w'
    unfolding cast_new CaseState-discrete
    cast_new-IsCast before now user case_id body correlation_id {vote} {w'} member h =
        >>=-elim
          (assert_case_accessible t k side_effects fresh filter encrypt_trimmed before user case_id)
          _ h
          λ _ a h₁.
            >>=-elim (or_throw resource_not_found (find_case (all_tables t k) before case_id)) _ h₁
              λ read b h₂.
                >>=-elim
                  (require (read.current_state === member_approval) decision_vote_invalid_state) _
                  h₂
                  λ _ c h₃.
                    >>=-elim
                      (require
                        (is_clearance_sufficient user.clearance_level read.confidentiality_level)
                        authz_forbidden)
                      _ h₃
                      λ _ d h₄.
                        >>=-elim
                          (or_throw decision_vote_invalid_state (
                            find_active_member_approval_transition (all_tables t k) before case_id))
                          _ h₄
                          λ round e h₅.
                            >>=-elim
                              (reason_text t k side_effects fresh filter encrypt_trimmed body) _ h₅
                              λ reason f h₆.
                                let (same, voted) =
                                  vote_in_transaction-IsVoted t k side_effects fresh now user body
                                    (cast_row fresh.vote_id fresh.now user case_id round.id body
                                      reason)
                                    read.company_id correlation_id (already_cast-eq-ok _ h₆) in
                                record {
                                  by_member = member;
                                  read = read;
                                  was = or_throw_ok _ _ b;
                                  cleared = require-eq-ok _ _ d;
                                  round = round;
                                  active = or_throw_ok _ _ e;
                                  reason = reason;
                                  is_vote = same;
                                  voted =
                                      subst
                                        (λ v.
                                          IsVoted t k side_effects fresh now user body v
                                            correlation_id w')
                                        (sym same) voted;
                                }

    -- A request to vote that returns is either one whose vote is recorded already, and then nothing
    -- is written, or it casts a new vote.
    pub cast_vote-IsCast :
        (before now : World (all_tables t k)) (user : AuthenticatedUser) (case_id : String)
        (body : CastVoteBody) (correlation_id : String) (vote : VoteRow)
        (w' : World (all_tables t k))
        → cast_vote t k side_effects fresh filter encrypt_trimmed before now user case_id body
            correlation_id
          ≡ ok (vote, w')
        → ((recorded_vote t k before case_id body ≡ some vote) × (w' ≡ now))
          ⊎ IsCast before now user case_id body correlation_id vote w'
    unfolding cast_vote Role-discrete
    cast_vote-IsCast before now user case_id body correlation_id vote w' h =
        >>=-elim (require (includes council_member user.roles) authz_forbidden) _ h λ _ a h₁.
          elim (Option-cases (recorded_vote t k before case_id body)) [
            | inl e ↦ inr (
                cast_new-IsCast before now user case_id body correlation_id
                  ((includes_iff council_member user.roles).0 (require-eq-ok _ _ a)) (rw e at h₁))
            | inr (found, e) ↦
                let same : ◌≡◌ {A = Outcome ErrorCode (VoteRow × World (all_tables t k))}
                    (ok (found, now)) (ok (vote, w')) =
                  rw e at h₁ in
                let pair = ok-injective same in
                inl (
                  e ∙ ap some (ap (λ (p : VoteRow × World (all_tables t k)). p.0) pair),
                  ap (λ (p : VoteRow × World (all_tables t k)). p.1) (sym pair),
                )
          ]
