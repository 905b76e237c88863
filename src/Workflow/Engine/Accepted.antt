-- ===== src/Workflow/Engine/Accepted.antt =====
-- apps/api/src/modules/case-management/transition/transition.service.ts: what a transition that
-- is carried out has checked, and what it has written.
use etik_bildirim_platformu.Prelude.{
  ◌≡◌, inl, inr, true, false, ◌&&◌, Option, none, some, [], arith, ◌===◌, ===_iff, string_eq,
  nat_beq, ok, throw, require, require-eq-ok, >>=-elim, ok-injective, ap, subst, Option-cases,
}
use etik_bildirim_platformu.Shared.Enums.{CaseState-discrete, case_state_eq}
use etik_bildirim_platformu.Shared.Errors.{
  ErrorCode, resource_not_found, case_invalid_transition, case_optimistic_lock,
}
use etik_bildirim_platformu.Storage.Rows.{CaseRow, TransitionRow}
use etik_bildirim_platformu.Storage.World.{Tables, World}
use etik_bildirim_platformu.Audit.Publisher.{publish}
use etik_bildirim_platformu.Audit.Publisher.Stored.{publish_iff}
use etik_bildirim_platformu.Workflow.Map.{TransitionDefinition, resolve_transition}
use etik_bildirim_platformu.Workflow.Validators.{TransitionValidationContext, validate}
use etik_bildirim_platformu.Workflow.Validators.Allowed.{validate_iff}
use etik_bildirim_platformu.Workflow.Records.{
  ExecuteTransitionInput, TransitionResult, transition_event, Snapshot, Fresh, to_result, moved,
  transition_row,
}
use etik_bildirim_platformu.Workflow.Engine.{
  or_throw, SideEffects, find_case, find_transition, validate_async_preconditions, update_case,
  create_transition, context_of, apply_transition, transition_case, execute_in_transaction,
}
use etik_bildirim_platformu.Workflow.Engine.Outcomes.{
  Written, Checked, update_case_ok, create_transition_ok, to_result-Written,
}

or_throw_ok {ℓ} :
    {A : Type ℓ} (e : ErrorCode) (o : Option A) {a : A} → or_throw e o ≡ ok a → o ≡ some a
or_throw_ok e none h = cc
or_throw_ok e (some a) h = cc

module _ (t : Tables) (side_effects : SideEffects t) (fresh : Fresh)
    (input : ExecuteTransitionInput) where
  apply_Written :
      (w w' : World t) (snapshot : Snapshot) (definition : TransitionDefinition) (row : CaseRow)
      (r : TransitionResult)
      → apply_transition t side_effects fresh input w snapshot definition row ≡ ok (r, w')
      → Written t side_effects fresh input w row definition r w'
  unfolding apply_transition
  apply_Written w w' snapshot definition row r h =
      >>=-elim (update_case t w row (moved fresh.now input definition)) _ h λ updated a h₁.
        >>=-elim (create_transition t updated created) _ h₁ λ recorded b h₂.
          >>=-elim (side_effects recorded input context created) _ h₂ λ effects c h₃.
            >>=-elim
              (publish t.outbox fresh.outbox_id fresh.now (transition_event input snapshot created)
                recorded.outbox)
              _ h₃
              λ outbox d h₄.
                subst
                  (λ (p : TransitionResult × World t).
                    Written t side_effects fresh input w row definition p.0 p.1)
                  (ok-injective h₄)
                  (to_result-Written t side_effects fresh input w updated recorded snapshot
                    definition row effects.0 outbox effects.1
                    (update_case_ok t side_effects fresh input w updated row _ a)
                    (create_transition_ok t side_effects fresh input updated recorded created b)
                    ((publish_iff t.outbox fresh.outbox_id fresh.now
                        (transition_event input snapshot created) recorded.outbox outbox).0
                      d).2)
    where
      created : TransitionRow
      created = transition_row fresh input definition row.current_state

      context : TransitionValidationContext
      context = context_of t side_effects fresh input definition row

  pub transition_case_ok :
      (w w' : World t) (snapshot : Snapshot) (row : CaseRow) (r : TransitionResult)
      → transition_case t side_effects fresh input w snapshot row ≡ ok (r, w')
      → (definition : TransitionDefinition) × Checked t side_effects fresh input w snapshot row
          definition
        × Written t side_effects fresh input w row definition r w'
  unfolding transition_case CaseState-discrete
  transition_case_ok w w' snapshot row r h =
      >>=-elim
        (require
          (row.current_state === snapshot.snapshot_state
            && nat_beq row.optimistic_lock_version snapshot.snapshot_version)
          case_optimistic_lock)
        _ h
        λ _ a h₁.
          >>=-elim
            (or_throw case_invalid_transition (resolve_transition row.current_state input.command))
            _ h₁
            λ definition b h₂.
              >>=-elim (validate (context_of t side_effects fresh input definition row)) _ h₂
                λ _ c h₃.
                  >>=-elim (validate_async_preconditions t w input.command input.metadata row) _ h₃
                    λ _ d h₄.
                      let current = require-eq-ok _ _ a in
                      (
                        definition,
                        record {
                          same_state =
                              ground (arith, ===_iff row.current_state snapshot.snapshot_state);
                          same_version = ground arith;
                          mapped = or_throw_ok _ _ b;
                          allowed = (validate_iff _).0 c;
                          assignee = d;
                        },
                        apply_Written w w' snapshot definition row r h₄,
                      )

  -- A transition that is carried out, and is no replay, moves the case of its input: the case was
  -- there in the state and version of the snapshot, the map has the command in that state, the
  -- validators and the checks of the assignee passed; the rows of the case and of the transition
  -- are written as the definition says, one event of the transition is published to the audit
  -- outbox, and the result reports the transition.
  pub execute_in_transaction_sound :
      (w w' : World t) (snapshot : Snapshot) (r : TransitionResult)
      → execute_in_transaction t side_effects fresh input w snapshot ≡ ok (r, w')
      → r.idempotent_replay ≡ false
      → (row : CaseRow) × (definition : TransitionDefinition) × (find_transition t w
            input.idempotency_key
          ≡ none)
        × (find_case t w input.case_id ≡ some row)
        × Checked t side_effects fresh input w snapshot row definition
        × Written t side_effects fresh input w row definition r w'
  unfolding execute_in_transaction to_result
  execute_in_transaction_sound w w' snapshot r h first =
      elim (Option-cases (find_transition t w input.idempotency_key)) [
        | inr (existing, e) ↦ elim (Option-cases (find_case t w existing.case_id)) [
          | inl e₂ ↦
              let bad : throw resource_not_found ≡ ok (r, w') =
                rw (e, e₂, execute_in_transaction) at h in
              cc
          | inr (row, e₂) ↦
              let replay : ok (to_result existing row.optimistic_lock_version true [], w)
                  ≡ ok (r, w') =
                rw (e, e₂, execute_in_transaction) at h in
              let same : true ≡ r.idempotent_replay =
                ap (λ (p : TransitionResult × World t). p.0.idempotent_replay)
                  (ok-injective replay) in
              cc
        ]
        | inl e ↦ elim (Option-cases (find_case t w input.case_id)) [
          | inl e₂ ↦
              let bad : throw resource_not_found ≡ ok (r, w') =
                rw (e, e₂, execute_in_transaction) at h in
              cc
          | inr (row, e₂) ↦
              let carried_out : transition_case t side_effects fresh input w snapshot row
                  ≡ ok (r, w') =
                rw (e, e₂, execute_in_transaction) at h in
              let (definition, checked, written) =
                transition_case_ok w w' snapshot row r carried_out in
              (row, definition, e, e₂, checked, written)
        ]
      ]
