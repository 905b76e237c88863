-- ===== src/Decision/Voting/Moving.antt =====
-- apps/api/src/modules/decision/decision.service.ts: the two transitions that a vote carries out.
use etik_bildirim_platformu.Prelude.{
  ◌≡◌, refl, ap, sym, ◌∙◌, inl, inr, false, none, some, string_eq, Outcome, ok, throw,
  some-injective, Bool-cases, Option-cases,
}
use etik_bildirim_platformu.Shared.Enums.{
  member_approval, decision_draft, case_state_eq, member_objection, create_decision_draft,
  WorkflowCommand-discrete, workflow_command_eq,
}
use etik_bildirim_platformu.Shared.Errors.{ErrorCode, resource_not_found}
use etik_bildirim_platformu.Storage.Rows.{CaseRow}
use etik_bildirim_platformu.Storage.World.{Tables, World}
use etik_bildirim_platformu.Workflow.Map.{TransitionDefinition, resolve_transition, transition_map}
use etik_bildirim_platformu.Workflow.Records.{
  ExecuteTransitionInput, Snapshot, TransitionResult, Fresh, moved,
}
use etik_bildirim_platformu.Workflow.Engine.{
  SideEffects, find_case, find_transition, execute_in_transaction,
}
use etik_bildirim_platformu.Workflow.Engine.Accepted.{
  execute_in_transaction_sound, transition_case_ok,
}
use etik_bildirim_platformu.Workflow.Engine.Effects.{execute_in_transaction-find_case}
use etik_bildirim_platformu.Workflow.Engine.History.{execute_in_transaction-replay}

moved-state :
    (fresh : Fresh) (input : ExecuteTransitionInput) (d : TransitionDefinition) (row : CaseRow)
    → (moved fresh.now input d row).current_state ≡ d.to_state
unfolding moved
moved-state fresh input d row = refl

module _ (t : Tables) (side_effects : SideEffects t) (fresh : Fresh)
    (input : ExecuteTransitionInput) where
  -- A key that is not recorded is that of no replay.
  new_key-first :
      (w w' : World t) (snapshot : Snapshot) (r : TransitionResult)
      → find_transition t w input.idempotency_key ≡ none
      → execute_in_transaction t side_effects fresh input w snapshot ≡ ok (r, w')
      → r.idempotent_replay ≡ false
  unfolding execute_in_transaction
  new_key-first w w' snapshot r e h = elim (Option-cases (find_case t w input.case_id)) [
    | inl n ↦
        let bad : ◌≡◌ {A = Outcome ErrorCode (TransitionResult × World t)}
            (throw resource_not_found) (ok (r, w')) =
          rw (e, n, execute_in_transaction) at h in
        cc
    | inr (row, n) ↦
        let (definition, checked, written) =
          transition_case_ok t side_effects fresh input w w' snapshot row r
            (rw (e, n, execute_in_transaction) at h) in
        written.first
  ]

  -- The state of the case after a transition under a new key.
  pub execute-state :
      (w w' : World t) (snapshot : Snapshot) (r : TransitionResult) (row : CaseRow)
      (d : TransitionDefinition)
      → find_transition t w input.idempotency_key ≡ none
      → find_case t w input.case_id ≡ some row
      → resolve_transition row.current_state input.command ≡ some d
      → execute_in_transaction t side_effects fresh input w snapshot ≡ ok (r, w')
      → (after : CaseRow) × (find_case t w' input.case_id ≡ some after)
        × (after.current_state ≡ d.to_state)
  execute-state w w' snapshot r row d e found mapped h =
      let (old, definition, was, resolved, now) =
        (execute_in_transaction-find_case t side_effects fresh input w w' snapshot r h
          (new_key-first w w' snapshot r e h)).1 in
      let same : old ≡ row = some-injective (sym was ∙ found) in
      let same_d : definition ≡ d = some-injective (
        sym resolved
        ∙ ap (λ (c : CaseRow). resolve_transition c.current_state input.command) same
        ∙ mapped) in
      (
        moved fresh.now input definition old,
        now,
        moved-state fresh input definition old
            ∙ ap (λ (x : TransitionDefinition). x.to_state) same_d,
      )

  pub execute-users :
      (w w' : World t) (snapshot : Snapshot) (r : TransitionResult)
      → execute_in_transaction t side_effects fresh input w snapshot ≡ ok (r, w')
      → w'.users ≡ w.users
  execute-users w w' snapshot r h = elim (Bool-cases r.idempotent_replay) [
    | inl again ↦
        ap (λ (v : World t). v.users)
          (execute_in_transaction-replay t side_effects fresh input w w' snapshot r h again)
    | inr first ↦
        let (row, definition, _, _, _, written) =
          execute_in_transaction_sound t side_effects fresh input w w' snapshot r h first in
        written.users
  ]

pub objection_target :
    (d : TransitionDefinition) × (resolve_transition member_approval member_objection ≡ some d)
    × (d.to_state ≡ member_approval)
unfolding resolve_transition WorkflowCommand-discrete transition_map
objection_target = (_, refl, refl)

pub draft_target :
    (d : TransitionDefinition) × (resolve_transition member_approval create_decision_draft ≡ some d)
    × (d.to_state ≡ decision_draft)
unfolding resolve_transition WorkflowCommand-discrete transition_map
draft_target = (_, refl, refl)
