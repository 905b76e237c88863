-- ===== src/Workflow/Engine/Replay.antt =====
-- apps/api/src/modules/case-management/transition/transition.service.ts: a request that is sent
-- again, and requests that compete for a case.
use etik_bildirim_platformu.Prelude.{
  ◌≡◌, refl, sym, ap, ◌∙◌, true, false, none, some, [], ◌===◌, ===_refl, string_eq, ok,
}
use etik_bildirim_platformu.Storage.Rows.{CaseRow, TransitionRow}
use etik_bildirim_platformu.Storage.Finding.{find-test, find-++-none}
use etik_bildirim_platformu.Storage.World.{Tables, World}
use etik_bildirim_platformu.Workflow.Map.{TransitionDefinition}
use etik_bildirim_platformu.Workflow.Records.{
  ExecuteTransitionInput, TransitionResult, Snapshot, Fresh, moved, transition_row, to_result,
}
use etik_bildirim_platformu.Workflow.Engine.{
  SideEffects, find_case, find_transition, execute_in_transaction, execute,
}
use etik_bildirim_platformu.Workflow.Engine.Outcomes.{Written}
use etik_bildirim_platformu.Workflow.Engine.Accepted.{execute_in_transaction_sound}
use etik_bildirim_platformu.Workflow.Engine.Effects.{id-moved, Written-this}

module _ (t : Tables) (side_effects : SideEffects t) (fresh : Fresh)
    (input : ExecuteTransitionInput) where
  execute-replay :
      (later : Fresh) (before now : World t) (existing : TransitionRow) (row : CaseRow)
      → find_transition t before input.idempotency_key ≡ some existing
      → find_case t before existing.case_id ≡ some row
      → row.id === input.case_id ≡ true
      → execute t side_effects later input before now
        ≡ ok (to_result existing row.optimistic_lock_version true [], now)
  unfolding execute
  execute-replay later before now existing row e₁ e₂ e₃ = rw (e₁, e₂, e₃, execute) refl

  -- The recorded transition is what its key finds afterwards.
  pub find_transition-Written :
      (w w' : World t) (row : CaseRow) (definition : TransitionDefinition) (r : TransitionResult)
      → find_transition t w input.idempotency_key ≡ none
      → Written t side_effects fresh input w row definition r w'
      → find_transition t w' input.idempotency_key
        ≡ some (transition_row fresh input definition row.current_state)
  unfolding transition_row
  find_transition-Written w w' row definition r unused written = rw written.transitions (
      find-++-none _ (t.transitions.rows w.transitions) _ unused
      ∙ rw (===_refl input.idempotency_key) refl)

  -- A request that is sent again after it was carried out answers with the recorded transition, as
  -- a replay that creates no tasks, and changes nothing, whatever ids and time it is given.
  pub execute-again :
      (w w' : World t) (snapshot : Snapshot) (r : TransitionResult)
      → execute_in_transaction t side_effects fresh input w snapshot ≡ ok (r, w')
      → r.idempotent_replay ≡ false
      → (later : Fresh)
      → execute t side_effects later input w' w'
        ≡ ok (record r { idempotent_replay = true; tasks_created = [] }, w')
  unfolding execute moved transition_row to_result
  execute-again w w' snapshot r h first later =
      let (row, definition, unused, found, checked, written) =
        execute_in_transaction_sound t side_effects fresh input w w' snapshot r h first in
      let this = Written-this t side_effects fresh input w w' row definition r found written in
      let recorded = find_transition-Written w w' row definition r unused written in
      let same : (moved fresh.now input definition row).id === input.case_id ≡ true =
        ap (λ id. id === input.case_id) (id-moved fresh.now input definition row)
        ∙ find-test _ (t.cases.rows w.cases) found in
      execute-replay later w' w' _ _ recorded this same
      ∙ ap
          (λ (r : TransitionResult).
            ok (record r { idempotent_replay = true; tasks_created = [] }, w'))
          (sym written.result)
