-- ===== src/Decision/Voting/Silent.antt =====
-- apps/api/src/modules/decision/decision.service.ts: a silent acceptance that is asked for again.
use etik_bildirim_platformu.Prelude.{
  ◌≡◌, refl, ap, sym, ◌∙◌, subst, inl, inr, String, Bool, true, false, List, [], ◌∷◌, ◌++◌,
  ===_refl, string_eq, any, any_of_In, In-append-last, find, ok, >>=-elim, ok-injective,
  Option-cases,
}
use etik_bildirim_platformu.Shared.Errors.{client_p2002}
use etik_bildirim_platformu.Storage.Rows.{VoteRow}
use etik_bildirim_platformu.Storage.Table.{create}
use etik_bildirim_platformu.Storage.Finding.{create-eq-some, find_of_any}
use etik_bildirim_platformu.Storage.World.{Tables, World}
use etik_bildirim_platformu.Audit.Publisher.{publish}
use etik_bildirim_platformu.Decision.Requests.{
  SilentAcceptanceInput, same_voter, silent_row, silent_event,
}
use etik_bildirim_platformu.Decision.Voting.{
  VoteFresh, SilentPort, named_vote, create_silent_acceptance_vote,
}
use etik_bildirim_platformu.Workflow.Engine.{or_throw}
use etik_bildirim_platformu.Tasks.Records.{TaskTables, all_tables}
use etik_bildirim_platformu.Tasks.Service.Finished.{or_throw_ok}

module _ (t : Tables) (k : TaskTables) (fresh : VoteFresh) (notify : SilentPort t k)
    (input : SilentAcceptanceInput) where
  -- The member has a vote in the round.
  abbrev pub HasVoted : World (all_tables t k) → Type 0
  HasVoted w =
      any (same_voter (silent_row fresh.vote_id fresh.now input)) (t.votes.rows w.votes) ≡ true

  -- An answer that reports no new vote and writes nothing.
  abbrev pub IsUnchanged : World (all_tables t k) → Type 0
  IsUnchanged w =
      (id : String) × (create_silent_acceptance_vote t k fresh notify w input ≡ ok ((false, id), w))

  voted-IsUnchanged : (w : World (all_tables t k)) → HasVoted w → IsUnchanged w
  unfolding create_silent_acceptance_vote
  voted-IsUnchanged w counted =
      let vote = silent_row fresh.vote_id fresh.now input in
      elim (Option-cases (named_vote t k w input)) [
        | inr (id, e) ↦ (id, rw (create_silent_acceptance_vote, e) refl)
        | inl e ↦
            let (existing, f) = find_of_any (same_voter vote) (t.votes.rows w.votes) counted in
            (existing.id, rw (create_silent_acceptance_vote, e, f) refl)
      ]

module _ (t : Tables) (k : TaskTables) (input : SilentAcceptanceInput) where
  -- The member has a vote in the round, or a silent acceptance was answered last.
  pub data IsSettled (w : World (all_tables t k)) : Type 0 where
    voted :
        (fresh : VoteFresh)
        → any (same_voter (silent_row fresh.vote_id fresh.now input)) (t.votes.rows w.votes) ≡ true
        → IsSettled w
    answered :
        (fresh : VoteFresh) (notify : SilentPort t k) (before : World (all_tables t k))
        (answer : Bool × String)
        → create_silent_acceptance_vote t k fresh notify before input ≡ ok (answer, w)
        → IsSettled w

  same_member :
      (fresh later : VoteFresh) (rows : List VoteRow)
      → any (same_voter (silent_row fresh.vote_id fresh.now input)) rows ≡ true
      → any (same_voter (silent_row later.vote_id later.now input)) rows ≡ true
  unfolding silent_row
  same_member fresh later rows h = h

  answered-IsUnchanged :
      (fresh later : VoteFresh) (notify later_notify : SilentPort t k)
      (w w' : World (all_tables t k)) (answer : Bool × String)
      → create_silent_acceptance_vote t k fresh notify w input ≡ ok (answer, w')
      → IsUnchanged t k later later_notify input w'
  unfolding create_silent_acceptance_vote silent_row
  answered-IsUnchanged fresh later notify later_notify w w' answer h =
      let vote = silent_row fresh.vote_id fresh.now input in
      elim (Option-cases (named_vote t k w input)) [
        | inr (id, e) ↦
            let same : w ≡ w' =
              ap (λ (p : (Bool × String) × World (all_tables t k)). p.1)
                (ok-injective (rw (create_silent_acceptance_vote, e) at h)) in
            subst (IsUnchanged t k later later_notify input) same
              (id, rw (create_silent_acceptance_vote, e) refl)
        | inl e ↦ elim (Option-cases (find (same_voter vote) (t.votes.rows w.votes))) [
          | inr (existing, f) ↦
              let same : w ≡ w' =
                ap (λ (p : (Bool × String) × World (all_tables t k)). p.1)
                  (ok-injective (rw (create_silent_acceptance_vote, e, f) at h)) in
              subst (IsUnchanged t k later later_notify input) same
                (existing.id, rw (create_silent_acceptance_vote, e, f) refl)
          | inl f ↦
              >>=-elim (or_throw client_p2002 (create t.votes same_voter vote w.votes)) _
                (rw (create_silent_acceptance_vote, e, f) at h)
                λ votes a h₁.
                  >>=-elim
                    (publish t.outbox fresh.outbox_id fresh.now (silent_event input vote) w.outbox)
                    _ h₁
                    λ outbox b h₂. >>=-elim (notify _ input) _ h₂ λ notified c h₃.
                      let (first, stored) =
                        create-eq-some t.votes same_voter vote w.votes (or_throw_ok _ _ a) in
                      let put : t.votes.rows votes ≡ t.votes.rows w.votes ++ vote ∷ [] =
                        ap t.votes.rows stored ∙ t.votes.rows-insert vote w.votes in
                      let last : votes ≡ w'.votes =
                        ap (λ (p : (Bool × String) × World (all_tables t k)). p.1.votes)
                          (ok-injective h₃) in
                      let now_put : t.votes.rows w'.votes ≡ t.votes.rows w.votes ++ vote ∷ [] =
                        ap t.votes.rows (sym last) ∙ put in
                      let mine = same_voter (silent_row later.vote_id later.now input) in
                      let counted : any mine (t.votes.rows w.votes ++ vote ∷ []) ≡ true =
                        any_of_In mine (t.votes.rows w.votes ++ vote ∷ []) vote
                          (In-append-last vote (t.votes.rows w.votes))
                          (rw (===_refl input.transition_id, ===_refl input.voter_user_id) refl) in
                      voted-IsUnchanged t k later later_notify input w'
                        (subst (λ rows. any mine rows ≡ true) (sym now_put) counted)
        ]
      ]

  -- A silent acceptance for a member who has a vote in the round, of whichever kind, or for whom the
  -- last call was a silent acceptance that was answered, reports no new vote and writes nothing.
  pub create_silent_acceptance_vote-IsUnchanged :
      (later : VoteFresh) (notify : SilentPort t k) (w : World (all_tables t k))
      → IsSettled w
      → IsUnchanged t k later notify input w
  create_silent_acceptance_vote-IsUnchanged later notify w (voted fresh h) =
      voted-IsUnchanged t k later notify input w (same_member fresh later (t.votes.rows w.votes) h)
  create_silent_acceptance_vote-IsUnchanged later notify w (answered fresh first before answer h) =
      answered-IsUnchanged fresh later first notify before w answer h
