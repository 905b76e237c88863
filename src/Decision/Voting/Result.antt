-- ===== src/Decision/Voting/Result.antt =====
-- apps/api/src/modules/decision/decision.service.ts: where a vote leaves the case.
use etik_bildirim_platformu.Prelude.{
  ◌≡◌, ap, sym, ◌∙◌, subst, inl, inr, String, Bool, true, false, none, some, ◌===◌, ===_iff,
  string_eq, find, filter, Outcome, ok, >>=-elim, ok-injective, Bool-cases, if◌then◌else◌,
}
use etik_bildirim_platformu.Shared.Enums.{
  CaseState, member_approval, decision_draft, CaseState-discrete, case_state_eq, member_objection,
  create_decision_draft, workflow_command_eq,
}
use etik_bildirim_platformu.Shared.Errors.{ErrorCode}
use etik_bildirim_platformu.Storage.Rows.{CaseRow, VoteRow, TransitionRow}
use etik_bildirim_platformu.Storage.World.{Tables, World}
use etik_bildirim_platformu.Policy.User.{AuthenticatedUser}
use etik_bildirim_platformu.Policy.Scope.CaseAccess.{CaseFilter}
use etik_bildirim_platformu.Decision.Unanimity.{
  is_unanimity_complete_for_transition, eligible_ids, is_unanimous, of_round,
  list_eligible_council_member_ids,
}
use etik_bildirim_platformu.Decision.Requests.{CastVoteBody, cast_row, objection_input, draft_input}
use etik_bildirim_platformu.Decision.Voting.{
  VoteFresh, snapshot_of, is_reject, advance_to_decision_draft_if_unanimous,
}
use etik_bildirim_platformu.Decision.Voting.Voted.{Moves, objected, accepted, IsVoted}
use etik_bildirim_platformu.Decision.Voting.Cast.{IsCast}
use etik_bildirim_platformu.Decision.Voting.Recording.{Moves-votes}
use etik_bildirim_platformu.Workflow.Map.{resolve_transition}
use etik_bildirim_platformu.Workflow.Engine.{
  SideEffects, find_case, find_transition, execute_in_transaction,
}
use etik_bildirim_platformu.Tasks.Records.{TaskTables, all_tables}
use etik_bildirim_platformu.Decision.Voting.Moving.{
  execute-state, execute-users, objection_target, draft_target,
}

-- A rejection starts the round anew; else the case goes on exactly when the round is unanimous.
abbrev pub next_state : Bool → Bool → CaseState
next_state rejects unanimous =
    if rejects then member_approval else (if unanimous then decision_draft else member_approval)

module _ (t : Tables) (k : TaskTables) (side_effects : SideEffects (all_tables t k))
    (fresh : VoteFresh) where
  -- The round of a vote is unanimous.
  abbrev pub is_round_unanimous : World (all_tables t k) → VoteRow → Bool
  is_round_unanimous w vote =
      is_unanimity_complete_for_transition (all_tables t k) w vote.case_id vote.transition_id

  advance-state :
      (w w' : World (all_tables t k)) (vote : VoteRow) (correlation_id : String) (current : CaseRow)
      (advanced : Bool)
      → find_transition
          (all_tables t k)
          w
          (draft_input vote.case_id vote.transition_id correlation_id).idempotency_key
        ≡ none
      → find_case (all_tables t k) w vote.case_id ≡ some current
      → current.current_state ≡ member_approval
      → advance_to_decision_draft_if_unanimous t k side_effects fresh w vote.case_id
          vote.transition_id correlation_id
        ≡ ok (advanced, w')
      → (row : CaseRow) × (find_case (all_tables t k) w' vote.case_id ≡ some row)
        × (row.current_state ≡ next_state false (is_round_unanimous w vote))
        × (w'.users ≡ w.users)
  unfolding advance_to_decision_draft_if_unanimous CaseState-discrete draft_input
  advance-state w w' vote correlation_id current advanced unused found state h =
      elim (Bool-cases (is_round_unanimous w vote)) [
        | inr e ↦
            let same : w ≡ w' =
              ap (λ (p : Bool × World (all_tables t k)). p.1)
                (ok-injective (rw (advance_to_decision_draft_if_unanimous, e) at h)) in
            rw e (
              current,
              subst
                  (λ (v : World (all_tables t k)).
                    find_case (all_tables t k) v vote.case_id ≡ some current)
                  same found,
              state,
              ap (λ (v : World (all_tables t k)). v.users) (sym same),
            )
        | inl e ↦
            let there : (current.current_state === member_approval) ≡ true =
              (===_iff current.current_state member_approval).1 state in
            >>=-elim
              (execute_in_transaction (all_tables t k) side_effects fresh.transition
                (draft_input vote.case_id vote.transition_id correlation_id) w
                (snapshot_of current))
              _ (rw (advance_to_decision_draft_if_unanimous, e, found, there) at h)
              λ m a h₁.
                let is_last : m.1 ≡ w' =
                  ap (λ (p : Bool × World (all_tables t k)). p.1) (ok-injective h₁) in
                let (d, mapped, target) = draft_target in
                let (row, after, at_target) =
                  execute-state (all_tables t k) side_effects fresh.transition
                    (draft_input vote.case_id vote.transition_id correlation_id) w m.1
                    (snapshot_of current) m.0 current d unused found
                    (ap (λ s. resolve_transition s create_decision_draft) state ∙ mapped) a in
                let users =
                  execute-users (all_tables t k) side_effects fresh.transition
                    (draft_input vote.case_id vote.transition_id correlation_id) w m.1
                    (snapshot_of current) m.0 a in
                rw e (
                  row,
                  subst
                      (λ (v : World (all_tables t k)).
                        find_case (all_tables t k) v vote.case_id ≡ some row)
                      is_last after,
                  at_target ∙ target,
                  subst (λ (v : World (all_tables t k)). v.users ≡ w.users) is_last users,
                )
      ]

  Moves-state :
      (recorded w' : World (all_tables t k)) (user : AuthenticatedUser) (body : CastVoteBody)
      (vote : VoteRow) (correlation_id : String) (current : CaseRow)
      → find_transition
          (all_tables t k)
          recorded
          (draft_input vote.case_id vote.transition_id correlation_id).idempotency_key
        ≡ none
      → find_transition
          (all_tables t k)
          recorded
          (objection_input user body vote.case_id vote.transition_id correlation_id).idempotency_key
        ≡ none
      → find_case (all_tables t k) recorded vote.case_id ≡ some current
      → current.current_state ≡ member_approval
      → Moves t k side_effects fresh recorded user body vote correlation_id current w'
      → (row : CaseRow) × (find_case (all_tables t k) w' vote.case_id ≡ some row)
        × (row.current_state
            ≡ next_state (is_reject body.vote_type) (is_round_unanimous recorded vote))
        × (w'.users ≡ recorded.users)
  unfolding objection_input
  Moves-state recorded w' user body vote correlation_id current no_draft no_objection found state
        (objected e r h) =
      let input = objection_input user body vote.case_id vote.transition_id correlation_id in
      let (d, mapped, target) = objection_target in
      let (row, after, at_target) =
        execute-state (all_tables t k) side_effects fresh.transition input recorded w'
          (snapshot_of current) r current d no_objection found
          (ap (λ s. resolve_transition s member_objection) state ∙ mapped) h in
      rw e (
        row,
        after,
        at_target ∙ target,
        execute-users (all_tables t k) side_effects fresh.transition input recorded w'
            (snapshot_of current) r h,
      )
  Moves-state recorded w' user body vote correlation_id current no_draft no_objection found state
        (accepted e advanced h) =
      rw e (advance-state recorded w' vote correlation_id current advanced no_draft found state h)

  unanimous-same :
      (a b : World (all_tables t k)) (vote : VoteRow)
      → a.users ≡ b.users
      → a.votes ≡ b.votes
      → is_round_unanimous a vote ≡ is_round_unanimous b vote
  unfolding is_unanimity_complete_for_transition list_eligible_council_member_ids
  unanimous-same a b vote users votes =
      ap
        (λ (s : t.users.Store).
          is_unanimous (eligible_ids (t.users.rows s))
            (filter (of_round vote.case_id vote.transition_id) (t.votes.rows a.votes)))
        users
      ∙ ap
          (λ (s : t.votes.Store).
            is_unanimous (eligible_ids (t.users.rows b.users))
              (filter (of_round vote.case_id vote.transition_id) (t.votes.rows s)))
          votes

  voted-state :
      (now w' : World (all_tables t k)) (user : AuthenticatedUser) (body : CastVoteBody)
      (vote : VoteRow) (correlation_id : String)
      → find_transition
          (all_tables t k)
          now
          (draft_input vote.case_id vote.transition_id correlation_id).idempotency_key
        ≡ none
      → find_transition
          (all_tables t k)
          now
          (objection_input user body vote.case_id vote.transition_id correlation_id).idempotency_key
        ≡ none
      → IsVoted t k side_effects fresh now user body vote correlation_id w'
      → (row : CaseRow) × (find_case (all_tables t k) w' vote.case_id ≡ some row)
        × (row.current_state ≡ next_state (is_reject body.vote_type) (is_round_unanimous w' vote))
  voted-state now w' user body vote correlation_id no_draft no_objection voted =
      let recorded = voted.recorded in
      let kept : (key : String)
          → find_transition (all_tables t k) recorded key
            ≡ find_transition (all_tables t k) now key =
        λ key.
          ap
            (λ (s : t.transitions.Store).
              find (λ (r : TransitionRow). r.idempotency_key === key) (t.transitions.rows s))
            voted.is_recorded.transitions in
      let same_case : find_case (all_tables t k) recorded vote.case_id
          ≡ find_case (all_tables t k) now vote.case_id =
        ap (λ (s : t.cases.Store). find (λ (r : CaseRow). r.id === vote.case_id) (t.cases.rows s))
          voted.is_recorded.cases in
      let (row, after, state, users) =
        Moves-state recorded w' user body vote correlation_id voted.current (kept _ ∙ no_draft)
          (kept _ ∙ no_objection) (same_case ∙ voted.found) voted.in_approval voted.moves in
      let votes =
        Moves-votes t k side_effects fresh recorded user body vote correlation_id voted.current w'
          voted.moves in
      (
        row,
        after,
        state
            ∙ ap (next_state (is_reject body.vote_type))
                (sym (unanimous-same w' recorded vote users votes)),
      )

  -- After a new vote the case stays in the members' approval if the vote rejects, and else is in the
  -- decision's draft exactly when the round is unanimous with it. The keys of the objection and of
  -- the draft have not been used.
  pub cast_vote-state :
      (filter : CaseFilter) (encrypt_trimmed : String → Outcome ErrorCode String)
      (before now : World (all_tables t k)) (user : AuthenticatedUser) (case_id : String)
      (body : CastVoteBody) (correlation_id : String) (vote : VoteRow) (w' : World (all_tables t k))
      → IsCast t k side_effects fresh filter encrypt_trimmed before now user case_id body
          correlation_id vote w'
      → find_transition
          (all_tables t k)
          now
          (draft_input vote.case_id vote.transition_id correlation_id).idempotency_key
        ≡ none
      → find_transition
          (all_tables t k)
          now
          (objection_input user body vote.case_id vote.transition_id correlation_id).idempotency_key
        ≡ none
      → (row : CaseRow) × (find_case (all_tables t k) w' case_id ≡ some row)
        × (row.current_state ≡ next_state (is_reject body.vote_type) (is_round_unanimous w' vote))
  unfolding cast_row
  cast_vote-state filter encrypt_trimmed before now user case_id body correlation_id vote w' new
        no_draft no_objection =
      let of_case : vote.case_id ≡ case_id = ap (λ (v : VoteRow). v.case_id) new.is_vote in
      let (row, after, state) =
        voted-state now w' user body vote correlation_id no_draft no_objection new.voted in
      (
        row,
        subst (λ (id : String). find_case (all_tables t k) w' id ≡ some row) of_case after,
        state,
      )
