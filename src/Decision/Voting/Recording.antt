-- ===== src/Decision/Voting/Recording.antt =====
-- apps/api/src/modules/decision/decision.service.ts: the transitions of a vote leave the votes as they are.
use etik_bildirim_platformu.Prelude.{
  ◌≡◌, ap, sym, subst, ◌⊎◌, inl, inr, String, Bool, true, ◌===◌, string_eq, ok, >>=-elim,
  ok-injective, Bool-cases,
}
use etik_bildirim_platformu.Shared.Enums.{member_approval, CaseState-discrete, case_state_eq}
use etik_bildirim_platformu.Shared.Errors.{client_p2025}
use etik_bildirim_platformu.Storage.Rows.{VoteRow, CaseRow}
use etik_bildirim_platformu.Storage.World.{Tables, World}
use etik_bildirim_platformu.Policy.User.{AuthenticatedUser}
use etik_bildirim_platformu.Decision.Unanimity.{is_unanimity_complete_for_transition}
use etik_bildirim_platformu.Decision.Requests.{CastVoteBody, draft_input}
use etik_bildirim_platformu.Decision.Voting.{
  VoteFresh, snapshot_of, advance_to_decision_draft_if_unanimous,
}
use etik_bildirim_platformu.Decision.Voting.Voted.{Moves, objected, accepted}
use etik_bildirim_platformu.Workflow.Records.{
  ExecuteTransitionInput, Snapshot, TransitionResult, Fresh,
}
use etik_bildirim_platformu.Workflow.Engine.{
  or_throw, SideEffects, find_case, execute_in_transaction,
}
use etik_bildirim_platformu.Workflow.Engine.Accepted.{execute_in_transaction_sound}
use etik_bildirim_platformu.Workflow.Engine.History.{execute_in_transaction-replay}
use etik_bildirim_platformu.Tasks.Records.{TaskTables, all_tables}

-- A transition leaves the votes as they are.
pub execute-votes :
    (t : Tables) (side_effects : SideEffects t) (fresh : Fresh) (input : ExecuteTransitionInput)
    (w w' : World t) (snapshot : Snapshot) (r : TransitionResult)
    → execute_in_transaction t side_effects fresh input w snapshot ≡ ok (r, w')
    → w'.votes ≡ w.votes
execute-votes t side_effects fresh input w w' snapshot r h = elim (Bool-cases r.idempotent_replay) [
  | inl again ↦
      ap (λ (v : World t). v.votes)
        (execute_in_transaction-replay t side_effects fresh input w w' snapshot r h again)
  | inr first ↦
      let (row, definition, _, _, _, written) =
        execute_in_transaction_sound t side_effects fresh input w w' snapshot r h first in
      written.votes
]

module _ (t : Tables) (k : TaskTables) (side_effects : SideEffects (all_tables t k)) where
  pub advance-cases :
      (fresh : VoteFresh) (w : World (all_tables t k))
      (case_id transition_id correlation_id : String) {advanced : Bool}
      {w' : World (all_tables t k)}
      → advance_to_decision_draft_if_unanimous t k side_effects fresh w case_id transition_id
          correlation_id
        ≡ ok (advanced, w')
      → (w' ≡ w)
        ⊎ ((row : CaseRow) × (r : TransitionResult) × (is_unanimity_complete_for_transition
                (all_tables t k)
                w
                case_id
                transition_id
              ≡ true)
            × (execute_in_transaction
                  (all_tables t k)
                  side_effects
                  fresh.transition
                  (draft_input case_id transition_id correlation_id)
                  w
                  (snapshot_of row)
                ≡ ok (r, w')))
  unfolding advance_to_decision_draft_if_unanimous CaseState-discrete
  advance-cases fresh w case_id transition_id correlation_id {advanced} {w'} h =
      elim (Bool-cases
        (is_unanimity_complete_for_transition (all_tables t k) w case_id transition_id)) [
          | inr e ↦ inl (
              ap (λ (p : Bool × World (all_tables t k)). p.1)
                (sym (ok-injective (rw (advance_to_decision_draft_if_unanimous, e) at h))))
          | inl e ↦
              >>=-elim (or_throw client_p2025 (find_case (all_tables t k) w case_id)) _
                (rw (advance_to_decision_draft_if_unanimous, e) at h)
                λ row a h₁. elim (Bool-cases (row.current_state === member_approval)) [
                  | inr q ↦ inl (
                      ap (λ (p : Bool × World (all_tables t k)). p.1)
                        (sym (ok-injective (rw q at h₁))))
                  | inl q ↦
                      >>=-elim
                        (execute_in_transaction (all_tables t k) side_effects fresh.transition
                          (draft_input case_id transition_id correlation_id) w (snapshot_of row))
                        _ (rw q at h₁)
                        λ m b h₂.
                          let is_last : m.1 ≡ w' =
                            ap (λ (p : Bool × World (all_tables t k)). p.1) (ok-injective h₂) in
                          inr (
                            row,
                            m.0,
                            e,
                            subst
                                (λ v.
                                  execute_in_transaction (all_tables t k) side_effects
                                    fresh.transition
                                    (draft_input case_id transition_id correlation_id) w
                                    (snapshot_of row)
                                  ≡ ok (m.0, v))
                                is_last b,
                          )
                ]
        ]

  pub Moves-votes :
      (fresh : VoteFresh) (recorded : World (all_tables t k)) (user : AuthenticatedUser)
      (body : CastVoteBody) (vote : VoteRow) (correlation_id : String) (current : CaseRow)
      (w' : World (all_tables t k))
      → Moves t k side_effects fresh recorded user body vote correlation_id current w'
      → w'.votes ≡ recorded.votes
  Moves-votes fresh recorded user body vote correlation_id current w' (objected e r h) =
      execute-votes (all_tables t k) side_effects fresh.transition _ recorded w' _ r h
  Moves-votes fresh recorded user body vote correlation_id current w' (accepted e advanced h) =
      elim (advance-cases fresh recorded vote.case_id vote.transition_id correlation_id h) [
        | inl same ↦ ap (λ (v : World (all_tables t k)). v.votes) same
        | inr (row, r, _, moved) ↦
            execute-votes (all_tables t k) side_effects fresh.transition _ recorded w' _ r moved
      ]
