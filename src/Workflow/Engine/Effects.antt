-- ===== src/Workflow/Engine/Effects.antt =====
-- apps/api/src/modules/case-management/transition/transition.service.ts: which cases a transition
-- changes, and how.
use etik_bildirim_platformu.Prelude.{
  ℕ, ◌≡◌, refl, sym, ap, ◌∙◌, ◌≢◌, inl, inr, true, false, String, some, arith, ◌===◌, ===_iff,
  ===_refl, string_eq, Bool-cases, ok,
}
use etik_bildirim_platformu.Shared.Enums.{WorkflowCommand, assign_rapporteur}
use etik_bildirim_platformu.Storage.Rows.{CaseRow}
use etik_bildirim_platformu.Storage.Finding.{find-test, find-update_rows, find-update_rows-other}
use etik_bildirim_platformu.Storage.World.{Tables, World}
use etik_bildirim_platformu.Workflow.Map.{TransitionDefinition, resolve_transition}
use etik_bildirim_platformu.Workflow.Validators.{Metadata}
use etik_bildirim_platformu.Workflow.Records.{
  ExecuteTransitionInput, TransitionResult, Snapshot, Fresh, assign, moved,
}
use etik_bildirim_platformu.Workflow.Engine.{SideEffects, find_case, execute_in_transaction}
use etik_bildirim_platformu.Workflow.Engine.Outcomes.{is_version_of, Written}
use etik_bildirim_platformu.Workflow.Engine.Accepted.{execute_in_transaction_sound}

id-assign :
    (command : WorkflowCommand) (metadata : Metadata) (row : CaseRow)
    → (assign command metadata row).id ≡ row.id
unfolding assign
id-assign assign_rapporteur metadata row = refl
id-assign _ metadata row = refl

pub id-moved :
    (now : ℕ) (input : ExecuteTransitionInput) (definition : TransitionDefinition) (row : CaseRow)
    → (moved now input definition row).id ≡ row.id
unfolding moved
id-moved now input definition row = id-assign input.command input.metadata row

pub is_version_of_refl : (row : CaseRow) → is_version_of row row ≡ true
is_version_of_refl row = ground (arith, ===_refl row.id)

is_version_of-id :
    (row : CaseRow) (id : String)
    → id ≢ row.id
    → (r : CaseRow) → is_version_of row r ≡ true
    → (r.id === id) ≡ false
is_version_of-id row id other r c = elim (Bool-cases (r.id === id)) [
  | inl e ↦
      let same : r.id ≡ row.id = ground (arith, ===_iff r.id row.id) in
      absurd (other (sym ((===_iff r.id id).0 e) ∙ same))
  | inr e ↦ e
]

module _ (t : Tables) (side_effects : SideEffects t) (fresh : Fresh)
    (input : ExecuteTransitionInput) where
  pub Written-this :
      (w w' : World t) (row : CaseRow) (definition : TransitionDefinition) (r : TransitionResult)
      → find_case t w input.case_id ≡ some row
      → Written t side_effects fresh input w row definition r w'
      → find_case t w' input.case_id ≡ some (moved fresh.now input definition row)
  Written-this w w' row definition r found written = rw written.cases (
      find-update_rows _ (is_version_of row) (moved fresh.now input definition)
        (t.cases.rows w.cases)
        (λ other. ap (λ id. id === input.case_id) (id-moved fresh.now input definition other)) found
        (is_version_of_refl row))

  pub Written-other :
      (w w' : World t) (row : CaseRow) (definition : TransitionDefinition) (r : TransitionResult)
      (id : String)
      → id ≢ row.id
      → Written t side_effects fresh input w row definition r w'
      → find_case t w' id ≡ find_case t w id
  Written-other w w' row definition r id other written = rw written.cases (
      find-update_rows-other _ (is_version_of row) (moved fresh.now input definition)
        (t.cases.rows w.cases) (is_version_of-id row id other)
        (λ r. ap (λ found. found === id) (id-moved fresh.now input definition r)))

  -- A transition that is carried out, and is no replay, leaves every case but its input's as it
  -- was, and its input's case is the old one with the update of the definition that the map has
  -- for the command in the case's old state.
  pub execute_in_transaction-find_case :
      (w w' : World t) (snapshot : Snapshot) (r : TransitionResult)
      → execute_in_transaction t side_effects fresh input w snapshot ≡ ok (r, w')
      → r.idempotent_replay ≡ false
      → ((id : String) → id ≢ input.case_id → find_case t w' id ≡ find_case t w id)
        × ((row : CaseRow) × (definition : TransitionDefinition) × (find_case t w input.case_id
              ≡ some row)
            × (resolve_transition row.current_state input.command ≡ some definition)
            × (find_case t w' input.case_id ≡ some (moved fresh.now input definition row)))
  execute_in_transaction-find_case w w' snapshot r h first =
      let (row, definition, fresh_key, found, checked, written) =
        execute_in_transaction_sound t side_effects fresh input w w' snapshot r h first in
      let same : row.id ≡ input.case_id =
        (===_iff row.id input.case_id).0 (find-test _ (t.cases.rows w.cases) found) in
      (
        λ id other. Written-other w w' row definition r id (λ e. other (e ∙ same)) written,
        (row, definition, found, checked.mapped, Written-this w w' row definition r found written),
      )
