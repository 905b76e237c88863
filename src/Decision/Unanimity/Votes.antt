-- ===== src/Decision/Unanimity/Votes.antt =====
-- apps/api/src/modules/decision/decision.service.ts: when a round of votes is unanimous.
use etik_bildirim_platformu.Prelude.{
  ◌≡◌, refl, sym, ◌≢◌, ◌↔◌, ◌⊎◌, inl, inr, ◌≤◌, String, true, Option, none, some, List, [], ◌∷◌,
  map, arith, ===_iff, ◌===◌, string_eq, all, In, Distinct, length, length-map,
  length-le_of_Distinct, Bool-cases, Option-cases,
}
use etik_bildirim_platformu.Shared.Enums.{VoteType, approve, silent_acceptance}
use etik_bildirim_platformu.Storage.Rows.{VoteRow}
use etik_bildirim_platformu.Decision.Unanimity.{vote_by_member, is_consent, is_unanimous}

-- The member's counting vote approves, or is a silent acceptance.
abbrev pub Consents : List VoteRow → String → Type 0
Consents votes id =
    (vote_by_member id votes ≡ some approve) ⊎ (vote_by_member id votes ≡ some silent_acceptance)

is_consent_iff :
    (vote : Option VoteType)
    → (is_consent vote ≡ true) ↔ ((vote ≡ some approve) ⊎ (vote ≡ some silent_acceptance))
is_consent_iff vote = ground arith

all_iff :
    (votes : List VoteRow) (ids : List String)
    → (all (λ id. is_consent (vote_by_member id votes)) ids ≡ true)
      ↔ ((id : String) → In id ids → Consents votes id)
all_iff votes [] = ((λ h id i. elim i [ ]), (λ h. refl))
all_iff votes (first ∷ ids) = (
  λ h.
      let here : is_consent (vote_by_member first votes) ≡ true = ground arith in
      let later : all (λ id. is_consent (vote_by_member id votes)) ids ≡ true = ground arith in
      λ id. elim [
        | inl e ↦ rw e ((is_consent_iff (vote_by_member first votes)).0 here)
        | inr i ↦ (all_iff votes ids).0 later id i
      ],
  λ h.
      let here = (is_consent_iff (vote_by_member first votes)).1 (h first (inl refl)) in
      rw here ((all_iff votes ids).1 (λ id i. h id (inr i))),
)

-- Who has a counting vote is among the voters.
voter_of_vote :
    (id : String) (votes : List VoteRow)
    → vote_by_member id votes ≢ none
    → In id (map (λ vote. vote.voter_user_id) votes)
unfolding vote_by_member
voter_of_vote id [] h = absurd (h refl)
voter_of_vote id (vote ∷ votes) h = elim (Option-cases (vote_by_member id votes)) [
  | inr (later, e) ↦ inr (voter_of_vote id votes (λ n. cc (e, n)))
  | inl e ↦ elim (Bool-cases (vote.voter_user_id === id)) [
    | inl same ↦ inl (sym ((===_iff vote.voter_user_id id).0 same))
    | inr other ↦ absurd (h (rw (e, vote_by_member) (rw other)))
  ]
]

enough_votes :
    (ids : List String) (votes : List VoteRow)
    → Distinct ids
    → ((id : String) → In id ids → Consents votes id)
    → length ids ≤ length votes
enough_votes ids votes d h = omega (
  arith,
  length-le_of_Distinct ids (map (λ vote. vote.voter_user_id) votes) d (λ id i.
      voter_of_vote id votes (λ n. elim (h id i) [ inl e ↦ cc (e, n) | inr e ↦ cc (e, n) ])),
  length-map {0, 0} (λ (vote : VoteRow). vote.voter_user_id) votes,
)

-- A round is unanimous exactly when there is an eligible member and every eligible member's vote
-- in the round approves or is a silent acceptance. The member ids are distinct; the count of the
-- votes, which the code tests first, is then never what decides.
pub is_unanimous_iff :
    (members : List String) (votes : List VoteRow)
    → Distinct members
    → (is_unanimous members votes ≡ true)
      ↔ ((members ≢ []) × ((id : String) → In id members → Consents votes id))
unfolding is_unanimous
is_unanimous_iff [] votes d = ground arith
is_unanimous_iff (member ∷ members) votes d = (
  λ h.
      let tested : all (λ id. is_consent (vote_by_member id votes)) (member ∷ members) ≡ true =
        ground arith in
      ((λ n. cc), (all_iff votes (member ∷ members)).0 tested),
  λ (some_member, h).
      let enough = enough_votes (member ∷ members) votes d h in
      let tested = (all_iff votes (member ∷ members)).1 h in ground (arith, tested),
)
