-- ===== src/Decision/Unanimity.antt =====
-- apps/api/src/modules/decision/decision.service.ts: `isUnanimityComplete`,
-- `isUnanimityCompleteForTransition`, `findActiveMemberApprovalTransition` and
-- `listEligibleCouncilMemberIds`.
pub mod Votes
use etik_bildirim_platformu.Prelude.{
  ℕ, String, Bool, true, false, ◌&&◌, ◌||◌, Option, none, some, List, [], ◌∷◌, map, ◌===◌,
  string_eq, ltb, leb, if◌then◌else◌, any, all, filter, find, length,
}
use etik_bildirim_platformu.Shared.Enums.{
  Role, council_member, Role-discrete, role_eq, CaseState, member_approval, CaseState-discrete,
  case_state_eq, VoteType, approve, silent_acceptance,
}
use etik_bildirim_platformu.Storage.Rows.{CaseRow, TransitionRow, RoleAssignment, UserRow, VoteRow}
use etik_bildirim_platformu.Storage.Table.{find_first}
use etik_bildirim_platformu.Storage.World.{Tables, World}

abbrev pub holds_role : Role → RoleAssignment → Bool
holds_role role held = held.role_code === role && held.is_active

unfoldable pub is_eligible : UserRow → Bool
unfolding Role-discrete
is_eligible row = row.is_active && any (holds_role council_member) row.roles_assigned

-- The ids are ordered by the source; no use of them here depends on the order.
unfoldable pub eligible_ids : List UserRow → List String
eligible_ids rows = map (λ row. row.id) (filter is_eligible rows)

-- `new Map(votes)`, which keeps the last vote of a voter.
unfoldable pub vote_by_member : String → List VoteRow → Option VoteType
vote_by_member id [] = none
vote_by_member id (vote ∷ votes) = elim (vote_by_member id votes) [
  | some later ↦ some later
  | none ↦ if vote.voter_user_id === id then some vote.vote_type else none
]

abbrev pub is_consent : Option VoteType → Bool
is_consent (some approve) = true
is_consent (some silent_acceptance) = true
is_consent _ = false

-- The tests of `isUnanimityCompleteForTransition` on the members and the votes of the round.
unfoldable pub is_unanimous : List String → List VoteRow → Bool
is_unanimous [] votes = false
is_unanimous (member ∷ members) votes =
    if ltb (length votes) (length (member ∷ members))
    then false
    else all (λ id. is_consent (vote_by_member id votes)) (member ∷ members)

abbrev pub of_round : String → String → VoteRow → Bool
of_round case_id transition_id vote =
    vote.case_id === case_id && vote.transition_id === transition_id

-- Of rows with the greatest `transitionedAt`, the last one created.
abbrev later_of : Option TransitionRow → TransitionRow → Option TransitionRow
later_of none row = some row
later_of (some best) row =
    if ltb row.transitioned_at best.transitioned_at then some best else some row

latest : Option TransitionRow → List TransitionRow → Option TransitionRow
latest best [] = best
latest best (row ∷ rows) = latest (later_of best row) rows

abbrev is_approval_of : String → TransitionRow → Bool
is_approval_of case_id row = row.case_id === case_id && row.to_state === member_approval

module _ (t : Tables) where
  unfoldable pub list_eligible_council_member_ids : World t → List String
  unfolding eligible_ids
  list_eligible_council_member_ids w = eligible_ids (t.users.rows w.users)

  unfoldable pub find_active_member_approval_transition : World t → String → Option TransitionRow
  unfolding latest CaseState-discrete
  find_active_member_approval_transition w case_id =
      latest none (filter (is_approval_of case_id) (t.transitions.rows w.transitions))

  unfoldable pub is_unanimity_complete_for_transition : World t → String → String → Bool
  is_unanimity_complete_for_transition w case_id transition_id =
      is_unanimous (list_eligible_council_member_ids w)
        (filter (of_round case_id transition_id) (t.votes.rows w.votes))

  unfoldable pub is_unanimity_complete : World t → String → Bool
  unfolding CaseState-discrete
  is_unanimity_complete w case_id = elim (find_first t.cases (λ row. row.id === case_id) w.cases) [
    | none ↦ false
    | some row ↦
        if row.current_state === member_approval
        then elim (find_active_member_approval_transition w case_id) [
          | none ↦ false
          | some active ↦ is_unanimity_complete_for_transition w case_id active.id
        ]
        else false
  ]
