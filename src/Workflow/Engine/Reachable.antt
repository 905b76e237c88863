-- ===== src/Workflow/Engine/Reachable.antt =====
-- apps/api/src/modules/case-management/transition/transition.service.ts: the database after any
-- sequence of transactions.
use etik_bildirim_platformu.Prelude.{
  find, filter, ◌≡◌, refl, sym, ap, ◌∙◌, ◌≢◌, inl, inr, String, none, some, List, [], ◌∷◌, ◌++◌,
  map, Bool-cases, Option-cases, some-injective, ok, ◌===◌, ===_iff, string_eq,
}
use etik_bildirim_platformu.Shared.Enums.{CaseState, report_submitted, WorkflowCommand, open_case}
use etik_bildirim_platformu.Storage.Rows.{CaseRow, ReportRow, TransitionRow}
use etik_bildirim_platformu.Storage.Table.{Table}
use etik_bildirim_platformu.Policy.User.{AuthenticatedUser}
use etik_bildirim_platformu.Cases.Opening.{
  CreateCaseBody, CreateCaseResponse, OpeningFresh, OpeningWorld, create_case_from_report,
}
use etik_bildirim_platformu.Cases.Opening.History.{
  create_case_from_report-HasHistory, create_case_from_report-find_case,
}
use etik_bildirim_platformu.Storage.World.{Tables, World}
use etik_bildirim_platformu.Workflow.Map.{TransitionDefinition, resolve_transition}
use etik_bildirim_platformu.Workflow.Graph.{IsTerminal}
use etik_bildirim_platformu.Workflow.Runs.{run}
use etik_bildirim_platformu.Workflow.Records.{
  ExecuteTransitionInput, TransitionResult, Snapshot, Fresh,
}
use etik_bildirim_platformu.Workflow.Engine.{SideEffects, find_case, execute_in_transaction}
use etik_bildirim_platformu.Workflow.Engine.Effects.{execute_in_transaction-find_case}
use etik_bildirim_platformu.Workflow.Engine.History.{
  Journey, set_out, go_on, transitions_of, HasHistory, execute_in_transaction-HasHistory,
  execute_in_transaction-replay,
}

abbrev pub commands_of : List TransitionRow → List WorkflowCommand
commands_of = map (λ (row : TransitionRow). row.command)

run-++ :
    (start middle : CaseState) (commands : List WorkflowCommand) (command : WorkflowCommand)
    (definition : TransitionDefinition)
    → run start commands ≡ some middle
    → resolve_transition middle command ≡ some definition
    → run start (commands ++ command ∷ []) ≡ some definition.to_state
unfolding run
run-++ start middle [] command definition h e =
    let here : resolve_transition start command ≡ some definition = rw (some-injective h) e in
    rw (here, run) refl
run-++ start middle (c ∷ commands) command definition h e =
    elim (Option-cases (resolve_transition start c)) [
      | inl missing ↦ let bad : none ≡ some middle = rw (missing, run) at h in cc
      | inr (found, there) ↦
          rw (there, run)
            (run-++ found.to_state middle commands command definition (rw (there, run) at h) e)
    ]

map-++ :
    (rows : List TransitionRow) (row : TransitionRow)
    → commands_of (rows ++ row ∷ []) ≡ commands_of rows ++ row.command ∷ []
map-++ [] row = refl
map-++ (r ∷ rows) row = ap (λ rest. r.command ∷ rest) (map-++ rows row)

-- The commands after the opening.
Journey-run :
    (last : CaseState) (rows : List TransitionRow)
    → Journey rows last
    → (opening : TransitionRow) × (later : List TransitionRow) × (rows ≡ opening ∷ later)
      × (opening.command ≡ open_case)
      × (run report_submitted (commands_of later) ≡ some last)
unfolding run
Journey-run last rows (set_out row opens) = (row, [], refl, opens, refl)
Journey-run last rows (go_on before row definition journey mapped to) =
    let (opening, later, parts, opens, ran) = Journey-run row.from_state before journey in
    (
      opening,
      later ++ row ∷ [],
      ap (λ rows. rows ++ row ∷ []) parts,
      opens,
      rw (map-++ later row, to)
          (run-++ report_submitted row.from_state (commands_of later) row.command definition ran
            mapped),
    )

terminal-unmapped :
    (state : CaseState) (command : WorkflowCommand) (definition : TransitionDefinition)
    → IsTerminal state
    → resolve_transition state command ≢ some definition
unfolding resolve_transition
terminal-unmapped state command definition (inl e) h =
    let bad : none ≡ some definition = rw e at h in cc
terminal-unmapped state command definition (inr e) h =
    let bad : none ≡ some definition = rw e at h in cc

module _ (t : Tables) (side_effects : SideEffects t) where
  -- One transaction that is committed, of the transition service or of the opening of a case.
  pub data Step (w : World t) : World t → Type 1 where
    committed :
        (fresh : Fresh) (input : ExecuteTransitionInput) (snapshot : Snapshot)
        (r : TransitionResult) (w' : World t)
        → execute_in_transaction t side_effects fresh input w snapshot ≡ ok (r, w')
        → Step w w'
    opened :
        (report_table : Table ReportRow) (fresh : OpeningFresh) (user : AuthenticatedUser)
        (body : CreateCaseBody) (correlation_id : String) (before : OpeningWorld t report_table)
        (reports : report_table.Store) (response : CreateCaseResponse)
        (after : OpeningWorld t report_table)
        → create_case_from_report t report_table fresh user body correlation_id before
            (record { world = w; reports = reports })
          ≡ ok (response, after)
        → Step w after.world

  pub data Reachable (start : World t) : World t → Type 1 where
    at_start : Reachable start start
    after : (w w' : World t) → Reachable start w → Step w w' → Reachable start w'

  -- No case, and no transition.
  abbrev pub IsEmpty : World t → Type 0
  IsEmpty w = (t.cases.rows w.cases ≡ []) × (t.transitions.rows w.transitions ≡ [])

  pub IsEmpty-HasHistory : (w : World t) → IsEmpty w → HasHistory t side_effects w
  IsEmpty-HasHistory w (no_case, no_transition) = record {
    journey = λ id row found.
        let bad : none ≡ some row =
          ap (find (λ (r : CaseRow). r.id === id)) (sym no_case) ∙ found in
        cc;
    of_cases = λ id missing. ap (filter (λ (r : TransitionRow). r.case_id === id)) no_transition;
  }

  pub Step-HasHistory :
      (w w' : World t) → Step w w' → HasHistory t side_effects w → HasHistory t side_effects w'
  Step-HasHistory w _ (committed fresh input snapshot r w' h) history =
      execute_in_transaction-HasHistory t side_effects fresh input w w' snapshot r h history
  Step-HasHistory w _
        (opened report_table fresh user body correlation_id before reports response now h) history =
      create_case_from_report-HasHistory t side_effects report_table fresh user body correlation_id
        before (record { world = w; reports = reports }) response now h history

  Reachable-HasHistory :
      (start w : World t) → IsEmpty start → Reachable start w → HasHistory t side_effects w
  Reachable-HasHistory start w empty at_start = IsEmpty-HasHistory start empty
  Reachable-HasHistory start w empty (after before _ reached step) =
      Step-HasHistory before w step (Reachable-HasHistory start before empty reached)

  -- After any sequence of openings of cases and of committed transitions on a database without
  -- cases, the recorded transitions of a case are its opening and then others whose commands, run
  -- along the transition map from the submitted report, lead to the case's current state.
  pub Reachable-run :
      (start w : World t) (id : String) (row : CaseRow)
      → IsEmpty start
      → Reachable start w
      → find_case t w id ≡ some row
      → (opening : TransitionRow) × (later : List TransitionRow) × (transitions_of t side_effects w
            id
          ≡ opening ∷ later)
        × (opening.command ≡ open_case)
        × (run report_submitted (commands_of later) ≡ some row.current_state)
  Reachable-run start w id row empty reached found =
      Journey-run _ _ ((Reachable-HasHistory start w empty reached).journey id row found)

  -- A committed transaction of the transition service, or one that opens a case, leaves a case that
  -- is closed as it was.
  pub Step-closed :
      (w w' : World t) (id : String) (row : CaseRow)
      → Step w w'
      → find_case t w id ≡ some row
      → IsTerminal row.current_state
      → find_case t w' id ≡ some row
  Step-closed w _ id row
        (opened report_table fresh user body correlation_id before reports response now h) found
        closed =
      create_case_from_report-find_case t side_effects report_table fresh user body correlation_id
        before (record { world = w; reports = reports }) response now id row h found
  Step-closed w w' id row (committed fresh input snapshot r _ h) found closed =
      elim (Bool-cases r.idempotent_replay) [
        | inl again ↦
            rw (execute_in_transaction-replay t side_effects fresh input w w' snapshot r h again)
              found
        | inr first ↦
            let (others, this) =
              execute_in_transaction-find_case t side_effects fresh input w w' snapshot r h first in
            elim (Bool-cases (id === input.case_id)) [
              | inl same ↦
                  let here : id ≡ input.case_id = (===_iff id input.case_id).0 same in
                  let (mapped_row, definition, found_row, mapped, moved) = this in
                  let found' : find_case t w input.case_id ≡ some row = rw (← here) found in
                  let same_row : mapped_row ≡ row = some-injective (sym found_row ∙ found') in
                  absurd (
                    terminal-unmapped row.current_state input.command definition closed
                      (rw (← same_row) mapped))
              | inr other ↦
                  others id (λ e. let is_it = (===_iff id input.case_id).1 e in cc) ∙ found
            ]
      ]
