-- ===== src/Decision/Voting/Voted.antt =====
-- apps/api/src/modules/decision/decision.service.ts: what `castVote` writes in its transaction.
use etik_bildirim_platformu.Prelude.{
  ◌≡◌, refl, ap, sym, ◌∙◌, subst, inl, inr, String, Bool, true, false, some, [], ◌∷◌, ◌++◌, ◌===◌,
  ===_iff, string_eq, any, Outcome, ok, throw, require, require-eq-ok, >>=-elim, ok-injective,
  Bool-cases,
}
use etik_bildirim_platformu.Shared.Enums.{
  role_eq, member_approval, CaseState-discrete, case_state_eq,
}
use etik_bildirim_platformu.Shared.Errors.{
  ErrorCode, decision_vote_invalid_state, client_p2002, client_p2025,
}
use etik_bildirim_platformu.Storage.Finding.{create-eq-some}
use etik_bildirim_platformu.Storage.Rows.{CaseRow, VoteRow}
use etik_bildirim_platformu.Storage.Table.{create}
use etik_bildirim_platformu.Storage.World.{Tables, World}
use etik_bildirim_platformu.Policy.User.{AuthenticatedUser}
use etik_bildirim_platformu.Audit.Publisher.{publish}
use etik_bildirim_platformu.Decision.Requests.{
  CastVoteBody, same_voter, cast_event, objection_input,
}
use etik_bildirim_platformu.Decision.Voting.{
  VoteFresh, snapshot_of, already_cast, is_reject, record_vote,
  advance_to_decision_draft_if_unanimous, vote_in_transaction,
}
use etik_bildirim_platformu.Workflow.Records.{TransitionResult}
use etik_bildirim_platformu.Workflow.Engine.{
  or_throw, SideEffects, find_case, execute_in_transaction,
}
use etik_bildirim_platformu.Tasks.Records.{TaskTables, all_tables}
use etik_bildirim_platformu.Tasks.Service.Finished.{or_throw_ok}

pub already_cast-eq-ok {ℓ} :
    {A : Type ℓ} (m : Outcome ErrorCode A) {a : A} → already_cast m ≡ ok a → m ≡ ok a
already_cast-eq-ok (throw client_p2002) h = cc
already_cast-eq-ok (throw _) h = h
already_cast-eq-ok (ok a) h = h

module _ (t : Tables) (k : TaskTables) (side_effects : SideEffects (all_tables t k))
    (fresh : VoteFresh) where
  -- What the vote itself writes, before the case moves on.
  pub record IsRecorded (now : World (all_tables t k)) (vote : VoteRow)
      (recorded : World (all_tables t k)) : Type 0 where
    pub first : any (same_voter vote) (t.votes.rows now.votes) ≡ false
    pub votes : t.votes.rows recorded.votes ≡ t.votes.rows now.votes ++ vote ∷ []
    pub cases : recorded.cases ≡ now.cases
    pub transitions : recorded.transitions ≡ now.transitions
    pub users : recorded.users ≡ now.users

  record_vote-IsRecorded :
      (now : World (all_tables t k)) (user : AuthenticatedUser) (body : CastVoteBody)
      (vote : VoteRow) (company_id correlation_id : String) {recorded : World (all_tables t k)}
      → record_vote t k side_effects fresh now user body vote company_id correlation_id
        ≡ ok recorded
      → IsRecorded now vote recorded
  unfolding record_vote
  record_vote-IsRecorded now user body vote company_id correlation_id h =
      >>=-elim (or_throw client_p2002 (create t.votes same_voter vote now.votes)) _ h λ votes a h₁.
        >>=-elim
          (publish t.outbox fresh.outbox_id fresh.now
            (cast_event user body vote company_id correlation_id) now.outbox)
          _ h₁
          λ outbox b h₂.
            let (first, stored) =
              create-eq-some t.votes same_voter vote now.votes (or_throw_ok _ _ a) in
            subst (IsRecorded now vote) (ok-injective h₂) (record {
              first = first;
              votes = ap t.votes.rows stored ∙ t.votes.rows-insert vote now.votes;
              cases = refl;
              transitions = refl;
              users = refl;
            })

  -- Where the case goes: to the objection of a rejecting vote, and else to the draft of the
  -- decision if the round is unanimous.
  pub data Moves (recorded : World (all_tables t k)) (user : AuthenticatedUser)
      (body : CastVoteBody) (vote : VoteRow) (correlation_id : String) (current : CaseRow)
      (w' : World (all_tables t k)) : Type 0 where
    objected :
        is_reject body.vote_type ≡ true
        → (r : TransitionResult)
        → execute_in_transaction
            (all_tables t k)
            side_effects
            fresh.transition
            (objection_input user body vote.case_id vote.transition_id correlation_id)
            recorded
            (snapshot_of current)
          ≡ ok (r, w')
        → Moves recorded user body vote correlation_id current w'
    accepted :
        is_reject body.vote_type ≡ false
        → (advanced : Bool)
        → advance_to_decision_draft_if_unanimous t k side_effects fresh recorded vote.case_id
            vote.transition_id correlation_id
          ≡ ok (advanced, w')
        → Moves recorded user body vote correlation_id current w'

  pub record IsVoted (now : World (all_tables t k)) (user : AuthenticatedUser) (body : CastVoteBody)
      (vote : VoteRow) (correlation_id : String) (w' : World (all_tables t k)) : Type 0 where
    pub current : CaseRow
    pub found : find_case (all_tables t k) now vote.case_id ≡ some current
    pub in_approval : current.current_state ≡ member_approval
    pub recorded : World (all_tables t k)
    pub is_recorded : IsRecorded now vote recorded
    pub moves : Moves recorded user body vote correlation_id current w'

  pub vote_in_transaction-IsVoted :
      (now : World (all_tables t k)) (user : AuthenticatedUser) (body : CastVoteBody)
      (vote : VoteRow) (company_id correlation_id : String) {answer : VoteRow}
      {w' : World (all_tables t k)}
      → vote_in_transaction t k side_effects fresh now user body vote company_id correlation_id
        ≡ ok (answer, w')
      → (answer ≡ vote) × IsVoted now user body vote correlation_id w'
  unfolding vote_in_transaction CaseState-discrete
  vote_in_transaction-IsVoted now user body vote company_id correlation_id {answer} {w'} h =
      >>=-elim (or_throw client_p2025 (find_case (all_tables t k) now vote.case_id)) _ h
        λ current a h₁.
          >>=-elim (require (current.current_state === member_approval) decision_vote_invalid_state)
            _ h₁
            λ _ b h₂.
              >>=-elim
                (record_vote t k side_effects fresh now user body vote company_id correlation_id) _
                h₂
                λ recorded c h₃.
                  let state =
                    (===_iff current.current_state member_approval).0 (require-eq-ok _ _ b) in
                  let done =
                    record_vote-IsRecorded now user body vote company_id correlation_id c in
                  elim (Bool-cases (is_reject body.vote_type)) [
                    | inl e ↦
                        >>=-elim
                          (execute_in_transaction (all_tables t k) side_effects fresh.transition
                            (objection_input user body vote.case_id vote.transition_id
                              correlation_id)
                            recorded (snapshot_of current))
                          _ (rw e at h₃)
                          λ m d h₄.
                            let same = ok-injective h₄ in
                            let is_last : m.1 ≡ w' =
                              ap (λ (p : VoteRow × World (all_tables t k)). p.1) same in
                            (
                              ap (λ (p : VoteRow × World (all_tables t k)). p.0) (sym same),
                              record {
                                current = current;
                                found = or_throw_ok _ _ a;
                                in_approval = state;
                                recorded = recorded;
                                is_recorded = done;
                                moves =
                                    subst (Moves recorded user body vote correlation_id current)
                                      is_last (objected e m.0 d);
                              },
                            )
                    | inr e ↦
                        >>=-elim
                          (advance_to_decision_draft_if_unanimous t k side_effects fresh recorded
                            vote.case_id vote.transition_id correlation_id)
                          _ (rw e at h₃)
                          λ m d h₄.
                            let same = ok-injective h₄ in
                            let is_last : m.1 ≡ w' =
                              ap (λ (p : VoteRow × World (all_tables t k)). p.1) same in
                            (
                              ap (λ (p : VoteRow × World (all_tables t k)). p.0) (sym same),
                              record {
                                current = current;
                                found = or_throw_ok _ _ a;
                                in_approval = state;
                                recorded = recorded;
                                is_recorded = done;
                                moves =
                                    subst (Moves recorded user body vote correlation_id current)
                                      is_last (accepted e m.0 d);
                              },
                            )
                  ]
