-- ===== src/Workflow/Engine/Competing.antt =====
-- apps/api/src/modules/case-management/transition/transition.service.ts: two requests that read a
-- case before either holds its lock.
use etik_bildirim_platformu.Prelude.{
  ◌+◌, ◌≡◌, refl, sym, ap, ◌∙◌, ◌≢◌, inl, inr, true, false, String, ◌&&◌, none, some, [], arith,
  ◌===◌, ===_iff, string_eq, nat_beq, Bool-cases, Option-cases, Outcome, ok, throw, ok-injective,
}
use etik_bildirim_platformu.Shared.Enums.{CaseState-discrete, case_state_eq}
use etik_bildirim_platformu.Shared.Errors.{
  ErrorCode, case_optimistic_lock, client_p2025, resource_not_found, validation_failed,
}
use etik_bildirim_platformu.Storage.Rows.{CaseRow}
use etik_bildirim_platformu.Storage.Finding.{find-++-none}
use etik_bildirim_platformu.Storage.World.{Tables, World}
use etik_bildirim_platformu.Workflow.Map.{TransitionDefinition}
use etik_bildirim_platformu.Workflow.Records.{
  ExecuteTransitionInput, TransitionResult, Snapshot, Fresh, moved, transition_row, to_result,
}
use etik_bildirim_platformu.Workflow.Engine.{
  SideEffects, find_case, find_transition, transition_case, execute_in_transaction, execute,
  lock_lost, snapshot_of,
}
use etik_bildirim_platformu.Workflow.Engine.Outcomes.{Written}
use etik_bildirim_platformu.Workflow.Engine.Accepted.{execute_in_transaction_sound}
use etik_bildirim_platformu.Workflow.Engine.Effects.{Written-this}

module _ (t : Tables) (side_effects : SideEffects t) where
  lock_lost-ok {ℓ} :
      {A : Type ℓ} (fresh : Fresh) (input : ExecuteTransitionInput) (m : Outcome ErrorCode A)
      {a : A}
      → lock_lost t side_effects fresh input m ≡ ok a
      → m ≡ ok a
  lock_lost-ok fresh input (ok b) h = h
  lock_lost-ok fresh input (throw client_p2025) h = cc
  lock_lost-ok fresh input (throw _) h = cc

  -- A request that was carried out ran its transaction on the snapshot that it had read.
  execute_sound :
      (fresh : Fresh) (input : ExecuteTransitionInput) (before now w' : World t)
      (r : TransitionResult)
      → execute t side_effects fresh input before now ≡ ok (r, w')
      → r.idempotent_replay ≡ false
      → (row : CaseRow) × (find_case t before input.case_id ≡ some row)
        × (execute_in_transaction t side_effects fresh input now
              (snapshot_of t side_effects fresh input row)
            ≡ ok (r, w'))
  unfolding execute to_result
  execute_sound fresh input before now w' r h first =
      elim (Option-cases (find_transition t before input.idempotency_key)) [
        | inr (existing, e) ↦ elim (Option-cases (find_case t before existing.case_id)) [
          | inl e₂ ↦ let bad : throw validation_failed ≡ ok (r, w') = rw (e, e₂, execute) at h in cc
          | inr (row, e₂) ↦ elim (Bool-cases (row.id === input.case_id)) [
            | inl e₃ ↦
                let replay : ok (to_result existing row.optimistic_lock_version true [], now)
                    ≡ ok (r, w') =
                  rw (e, e₂, e₃, execute) at h in
                let same : true ≡ r.idempotent_replay =
                  ap (λ (p : TransitionResult × World t). p.0.idempotent_replay)
                    (ok-injective replay) in
                cc
            | inr e₃ ↦
                let bad : throw validation_failed ≡ ok (r, w') = rw (e, e₂, e₃, execute) at h in cc
          ]
        ]
        | inl e ↦ elim (Option-cases (find_case t before input.case_id)) [
          | inl e₂ ↦
              let bad : throw resource_not_found ≡ ok (r, w') = rw (e, e₂, execute) at h in cc
          | inr (row, e₂) ↦ (row, e₂, lock_lost-ok fresh input _ (rw (e, e₂, execute) at h))
        ]
      ]

  transition_case-stale :
      (fresh : Fresh) (input : ExecuteTransitionInput) (w : World t) (snapshot : Snapshot)
      (row : CaseRow)
      → nat_beq row.optimistic_lock_version snapshot.snapshot_version ≡ false
      → transition_case t side_effects fresh input w snapshot row ≡ throw case_optimistic_lock
  unfolding transition_case CaseState-discrete
  transition_case-stale fresh input w snapshot row h =
      let stale : (row.current_state === snapshot.snapshot_state
            && nat_beq row.optimistic_lock_version snapshot.snapshot_version)
          ≡ false =
        ground (arith, h) in
      rw stale refl

  -- A request whose key is new, on the case that it read and the case that it finds under the lock.
  execute-new :
      (fresh : Fresh) (input : ExecuteTransitionInput) (before now : World t) (read row : CaseRow)
      → find_transition t before input.idempotency_key ≡ none
      → find_case t before input.case_id ≡ some read
      → find_transition t now input.idempotency_key ≡ none
      → find_case t now input.case_id ≡ some row
      → execute t side_effects fresh input before now
        ≡ lock_lost t side_effects fresh input (
            transition_case t side_effects fresh input now
              (snapshot_of t side_effects fresh input read)
              row)
  unfolding execute execute_in_transaction
  execute-new fresh input before now read row e₁ e₂ e₃ e₄ =
      rw (e₁, e₂, e₃, e₄, execute, execute_in_transaction) refl

  find_transition-Written-other :
      (fresh : Fresh) (input : ExecuteTransitionInput) (w w' : World t) (row : CaseRow)
      (definition : TransitionDefinition) (r : TransitionResult) (key : String)
      → Written t side_effects fresh input w row definition r w'
      → key ≢ input.idempotency_key
      → find_transition t w key ≡ none
      → find_transition t w' key ≡ none
  unfolding transition_row
  find_transition-Written-other fresh input w w' row definition r key written other unused =
      let apart : (input.idempotency_key === key) ≡ false =
        elim (Bool-cases (input.idempotency_key === key)) [
          | inl e ↦ absurd (other (sym ((===_iff input.idempotency_key key).0 e)))
          | inr e ↦ e
        ] in
      rw written.transitions
        (find-++-none _ (t.transitions.rows w.transitions) _ unused ∙ rw apart refl)

  -- Of two requests with different keys for one case that both read it before either was carried
  -- out, the second fails with a lost lock after the first was carried out, and changes nothing.
  pub execute-competing :
      (fresh later : Fresh) (a b : ExecuteTransitionInput) (before now w' : World t)
      (r : TransitionResult)
      → execute t side_effects fresh a before now ≡ ok (r, w')
      → r.idempotent_replay ≡ false
      → a.case_id ≡ b.case_id
      → b.idempotency_key ≢ a.idempotency_key
      → find_transition t before b.idempotency_key ≡ none
      → find_transition t now b.idempotency_key ≡ none
      → execute t side_effects later b before w' ≡ throw case_optimistic_lock
  unfolding moved
  execute-competing fresh later a b before now w' r h first same_case other unread unused =
      let (read, found_read, carried_out) = execute_sound fresh a before now w' r h first in
      let (row, definition, _, found, checked, written) =
        execute_in_transaction_sound t side_effects fresh a now w' _ r carried_out first in
      let gone =
        find_transition-Written-other fresh a now w' row definition r b.idempotency_key written
          other unused in
      let this = Written-this t side_effects fresh a now w' row definition r found written in
      let same : row.optimistic_lock_version ≡ read.optimistic_lock_version =
        checked.same_version in
      let stale : nat_beq (row.optimistic_lock_version + 1) read.optimistic_lock_version ≡ false =
        ground (arith, same) in
      execute-new later b before w' read (moved fresh.now a definition row) unread
        (rw (← same_case) found_read) gone (rw (← same_case) this)
      ∙ ap (lock_lost t side_effects later b) (
          transition_case-stale later b w' (snapshot_of t side_effects later b read)
            (moved fresh.now a definition row) stale)
