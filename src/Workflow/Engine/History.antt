-- ===== src/Workflow/Engine/History.antt =====
-- apps/api/src/modules/case-management/transition/transition.service.ts: what every sequence of
-- transactions keeps of the cases and their recorded transitions.
use etik_bildirim_platformu.Prelude.{
  ◌≡◌, refl, sym, ap, ◌∙◌, ◌≢◌, inl, inr, true, false, String, none, some, List, ◌++◌, [], ◌∷◌,
  filter, ◌===◌, ===_iff, ===_refl, string_eq, Bool-cases, Option-cases, ok, throw, ok-injective,
  some-injective, subst,
}
use etik_bildirim_platformu.Shared.Enums.{CaseState, report_submitted, open_case}
use etik_bildirim_platformu.Shared.Errors.{resource_not_found}
use etik_bildirim_platformu.Storage.Rows.{CaseRow, TransitionRow}
use etik_bildirim_platformu.Storage.Finding.{find-test, filter-++, filter-++-other}
use etik_bildirim_platformu.Storage.World.{Tables, World}
use etik_bildirim_platformu.Workflow.Map.{TransitionDefinition, resolve_transition}
use etik_bildirim_platformu.Workflow.Records.{
  ExecuteTransitionInput, TransitionResult, Snapshot, Fresh, moved, transition_row, to_result,
}
use etik_bildirim_platformu.Workflow.Engine.{
  SideEffects, find_case, find_transition, transition_case, execute_in_transaction,
}
use etik_bildirim_platformu.Workflow.Engine.Outcomes.{Written}
use etik_bildirim_platformu.Workflow.Engine.Accepted.{
  execute_in_transaction_sound, transition_case_ok,
}
use etik_bildirim_platformu.Workflow.Engine.Effects.{Written-this, Written-other}

-- The recorded transitions of a case: its opening, and then transitions that lead to its state along
-- the transition map.
pub data Journey : List TransitionRow → CaseState → Type 0 where
  set_out : (row : TransitionRow) → row.command ≡ open_case → Journey (row ∷ []) report_submitted
  go_on :
      (rows : List TransitionRow) (row : TransitionRow) (definition : TransitionDefinition)
      → Journey rows row.from_state
      → resolve_transition row.from_state row.command ≡ some definition
      → row.to_state ≡ definition.to_state
      → Journey (rows ++ row ∷ []) row.to_state

module _ (t : Tables) (side_effects : SideEffects t) where
  abbrev pub transitions_of : World t → String → List TransitionRow
  transitions_of w id = filter (λ row. row.case_id === id) (t.transitions.rows w.transitions)

  -- Every case is in the state to which its recorded transitions lead, and transitions are recorded
  -- of cases alone.
  pub record HasHistory (w : World t) : Type 0 where
    pub journey :
        (id : String) (row : CaseRow)
        → find_case t w id ≡ some row
        → Journey (transitions_of w id) row.current_state
    pub of_cases : (id : String) → find_case t w id ≡ none → transitions_of w id ≡ []

  -- A replay answers for a transition that is recorded, and changes nothing.
  pub execute_in_transaction-recorded :
      (fresh : Fresh) (input : ExecuteTransitionInput) (w w' : World t) (snapshot : Snapshot)
      (r : TransitionResult)
      → execute_in_transaction t side_effects fresh input w snapshot ≡ ok (r, w')
      → r.idempotent_replay ≡ true
      → (existing : TransitionRow) × (find_transition t w input.idempotency_key ≡ some existing)
        × (w' ≡ w)
  unfolding execute_in_transaction
  execute_in_transaction-recorded fresh input w w' snapshot r h again =
      elim (Option-cases (find_transition t w input.idempotency_key)) [
        | inr (existing, e) ↦ elim (Option-cases (find_case t w existing.case_id)) [
          | inl e₂ ↦
              let bad : throw resource_not_found ≡ ok (r, w') =
                rw (e, e₂, execute_in_transaction) at h in
              cc
          | inr (row, e₂) ↦
              let replay : ok (to_result existing row.optimistic_lock_version true [], w)
                  ≡ ok (r, w') =
                rw (e, e₂, execute_in_transaction) at h in
              (
                existing,
                e,
                sym (ap (λ (p : TransitionResult × World t). p.1) (ok-injective replay)),
              )
        ]
        | inl e ↦ elim (Option-cases (find_case t w input.case_id)) [
          | inl e₂ ↦
              let bad : throw resource_not_found ≡ ok (r, w') =
                rw (e, e₂, execute_in_transaction) at h in
              cc
          | inr (row, e₂) ↦
              let carried_out : transition_case t side_effects fresh input w snapshot row
                  ≡ ok (r, w') =
                rw (e, e₂, execute_in_transaction) at h in
              let (definition, checked, written) =
                transition_case_ok t side_effects fresh input w w' snapshot row r carried_out in
              let first : r.idempotent_replay ≡ false = written.first in cc
        ]
      ]

  pub execute_in_transaction-replay :
      (fresh : Fresh) (input : ExecuteTransitionInput) (w w' : World t) (snapshot : Snapshot)
      (r : TransitionResult)
      → execute_in_transaction t side_effects fresh input w snapshot ≡ ok (r, w')
      → r.idempotent_replay ≡ true
      → w' ≡ w
  execute_in_transaction-replay fresh input w w' snapshot r h again =
      let (existing, recorded, same) =
        execute_in_transaction-recorded fresh input w w' snapshot r h again in
      same

  Journey-this :
      (fresh : Fresh) (input : ExecuteTransitionInput) (w w' : World t) (row : CaseRow)
      (definition : TransitionDefinition) (r : TransitionResult)
      → resolve_transition row.current_state input.command ≡ some definition
      → Written t side_effects fresh input w row definition r w'
      → Journey (transitions_of w input.case_id) row.current_state
      → Journey (transitions_of w' input.case_id) definition.to_state
  unfolding transition_row
  Journey-this fresh input w w' row definition r mapped written journey = rw written.transitions (
      rw
        (filter-++ (λ row. row.case_id === input.case_id) (t.transitions.rows w.transitions)
          (transition_row fresh input definition row.current_state ∷ []))
        (rw (===_refl input.case_id) (
          go_on _ (transition_row fresh input definition row.current_state) definition journey
            mapped refl)))

  transitions_of-other :
      (fresh : Fresh) (input : ExecuteTransitionInput) (w w' : World t) (row : CaseRow)
      (definition : TransitionDefinition) (r : TransitionResult) (id : String)
      → id ≢ input.case_id
      → Written t side_effects fresh input w row definition r w'
      → transitions_of w' id ≡ transitions_of w id
  unfolding transition_row
  transitions_of-other fresh input w w' row definition r id other written =
      let apart : (input.case_id === id) ≡ false = elim (Bool-cases (input.case_id === id)) [
        | inl e ↦ absurd (other (sym ((===_iff input.case_id id).0 e)))
        | inr e ↦ e
      ] in
      rw written.transitions (
        filter-++-other (λ row. row.case_id === id) (t.transitions.rows w.transitions)
          (transition_row fresh input definition row.current_state) apart)

  Journey-found :
      (fresh : Fresh) (input : ExecuteTransitionInput) (w w' : World t) (snapshot : Snapshot)
      (r : TransitionResult)
      → execute_in_transaction t side_effects fresh input w snapshot ≡ ok (r, w')
      → r.idempotent_replay ≡ false
      → HasHistory w
      → (id : String) (found : CaseRow) → find_case t w' id ≡ some found
      → Journey (transitions_of w' id) found.current_state
  unfolding moved
  Journey-found fresh input w w' snapshot r h first history id found e =
      let (row, definition, _, found_row, checked, written) =
        execute_in_transaction_sound t side_effects fresh input w w' snapshot r h first in
      let same : row.id ≡ input.case_id =
        (===_iff row.id input.case_id).0 (find-test _ (t.cases.rows w.cases) found_row) in
      elim (Bool-cases (id === input.case_id)) [
        | inl this ↦
            let here : id ≡ input.case_id = (===_iff id input.case_id).0 this in
            let now_found : find_case t w' input.case_id ≡ some found = rw (← here) e in
            let moved_found =
              Written-this t side_effects fresh input w w' row definition r found_row written in
            let is_moved : moved fresh.now input definition row ≡ found =
              some-injective (sym moved_found ∙ now_found) in
            let journey =
              Journey-this fresh input w w' row definition r checked.mapped written
                (history.journey input.case_id row found_row) in
            rw here (
              subst (λ (row : CaseRow). Journey (transitions_of w' input.case_id) row.current_state)
                is_moved journey)
        | inr other ↦
            let apart : id ≢ input.case_id =
              λ e. let yes_it_is = (===_iff id input.case_id).1 e in cc in
            rw (transitions_of-other fresh input w w' row definition r id apart written) (
              history.journey id found (
                sym (
                  Written-other t side_effects fresh input w w' row definition r id
                    (λ e. apart (e ∙ same)) written)
                ∙ e))
      ]

  of_cases-kept :
      (fresh : Fresh) (input : ExecuteTransitionInput) (w w' : World t) (snapshot : Snapshot)
      (r : TransitionResult)
      → execute_in_transaction t side_effects fresh input w snapshot ≡ ok (r, w')
      → r.idempotent_replay ≡ false
      → HasHistory w
      → (id : String) → find_case t w' id ≡ none
      → transitions_of w' id ≡ []
  of_cases-kept fresh input w w' snapshot r h first history id e =
      let (row, definition, _, found_row, checked, written) =
        execute_in_transaction_sound t side_effects fresh input w w' snapshot r h first in
      let same : row.id ≡ input.case_id =
        (===_iff row.id input.case_id).0 (find-test _ (t.cases.rows w.cases) found_row) in
      elim (Bool-cases (id === input.case_id)) [
        | inl this ↦
            let here : id ≡ input.case_id = (===_iff id input.case_id).0 this in
            let now_none : find_case t w' input.case_id ≡ none = rw (← here) e in
            let moved_found =
              Written-this t side_effects fresh input w w' row definition r found_row written in
            let bad : none ≡ some (moved fresh.now input definition row) =
              sym now_none ∙ moved_found in
            cc
        | inr other ↦
            let apart : id ≢ input.case_id =
              λ e. let yes_it_is = (===_iff id input.case_id).1 e in cc in
            transitions_of-other fresh input w w' row definition r id apart written
            ∙ history.of_cases id (
                sym (
                  Written-other t side_effects fresh input w w' row definition r id
                    (λ e. apart (e ∙ same)) written)
                ∙ e)
      ]

  -- Every transaction, a replay included, keeps it that the recorded transitions of each case
  -- are its opening and then such as lead along the transition map to the state it is in.
  pub execute_in_transaction-HasHistory :
      (fresh : Fresh) (input : ExecuteTransitionInput) (w w' : World t) (snapshot : Snapshot)
      (r : TransitionResult)
      → execute_in_transaction t side_effects fresh input w snapshot ≡ ok (r, w')
      → HasHistory w
      → HasHistory w'
  execute_in_transaction-HasHistory fresh input w w' snapshot r h history =
      elim (Bool-cases r.idempotent_replay) [
        | inl again ↦
            subst HasHistory
              (sym (execute_in_transaction-replay fresh input w w' snapshot r h again)) history
        | inr first ↦ record {
          journey = Journey-found fresh input w w' snapshot r h first history;
          of_cases = of_cases-kept fresh input w w' snapshot r h first history;
        }
      ]
