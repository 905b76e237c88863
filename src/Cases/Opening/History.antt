-- ===== src/Cases/Opening/History.antt =====
-- apps/api/src/modules/case-management/case.service.ts: the history of a case that is opened.
use etik_bildirim_platformu.Prelude.{
  ◌≡◌, refl, ap, sym, ◌∙◌, subst, inl, inr, String, true, false, none, some, List, [], ◌∷◌, any,
  find, filter, ◌===◌, ===_iff, ===_refl, string_eq, ok, Bool-cases, some-injective,
}
use etik_bildirim_platformu.Storage.Rows.{CaseRow, ReportRow}
use etik_bildirim_platformu.Storage.Table.{Table}
use etik_bildirim_platformu.Storage.Finding.{
  find-++-some, find-++-none, find-++-other, filter-++, filter-++-other,
}
use etik_bildirim_platformu.Storage.World.{Tables}
use etik_bildirim_platformu.Policy.User.{AuthenticatedUser}
use etik_bildirim_platformu.Workflow.Engine.{SideEffects, find_case}
use etik_bildirim_platformu.Workflow.Engine.History.{Journey, set_out, transitions_of, HasHistory}
use etik_bildirim_platformu.Cases.Opening.{
  CreateCaseBody, CreateCaseResponse, OpeningFresh, OpeningWorld, opened_case, opening_row,
  same_case, create_case_from_report,
}
use etik_bildirim_platformu.Cases.Opening.Opened.{IsWritten, create_case_from_report-IsOpened}

find-no_case :
    (row : CaseRow) (rows : List CaseRow)
    → any (same_case row) rows ≡ false
    → find (λ (r : CaseRow). r.id === row.id) rows ≡ none
find-no_case row [] h = refl
find-no_case row (r ∷ rows) h = elim (Bool-cases (row.id === r.id)) [
  | inl e ↦ let bad : true ≡ false = rw e at h in cc
  | inr e ↦
      let apart : (r.id === row.id) ≡ false = elim (Bool-cases (r.id === row.id)) [
        | inl q ↦ let bad = (===_iff row.id r.id).1 (sym ((===_iff r.id row.id).0 q)) in cc
        | inr q ↦ q
      ] in
      elim (Bool-cases (row.report_id === r.report_id)) [
        | inl q ↦ let bad : true ≡ false = rw (e, q) at h in cc
        | inr q ↦ rw apart (find-no_case row rows (rw (e, q) at h))
      ]
]

module _ (t : Tables) (side_effects : SideEffects t) (report_table : Table ReportRow)
    (fresh : OpeningFresh) (user : AuthenticatedUser) (body : CreateCaseBody)
    (correlation_id : String) where
  IsWritten-HasHistory :
      (now after : OpeningWorld t report_table) (report : ReportRow)
      → IsWritten t report_table fresh user body correlation_id now report after
      → HasHistory t side_effects now.world
      → HasHistory t side_effects after.world
  unfolding opened_case opening_row
  IsWritten-HasHistory now after report written history =
      let opened = opened_case fresh report in
      let opening = opening_row fresh user body in
      let unused : find_case t now.world fresh.case_id ≡ none =
        find-no_case opened (t.cases.rows now.world.cases) written.first_case in
      let same_find : (id : String)
          → (fresh.case_id === id) ≡ false
          → find_case t after.world id ≡ find_case t now.world id =
        λ id apart.
          ap (find (λ (r : CaseRow). r.id === id)) written.cases
          ∙ find-++-other (λ (r : CaseRow). r.id === id) (t.cases.rows now.world.cases) opened
              apart in
      let same_rows : (id : String)
          → (fresh.case_id === id) ≡ false
          → transitions_of t side_effects after.world id
            ≡ transitions_of t side_effects now.world id =
        λ id apart.
          ap (filter (λ r. r.case_id === id)) written.transitions
          ∙ filter-++-other (λ r. r.case_id === id) (t.transitions.rows now.world.transitions)
              opening apart in
      let here_find : find_case t after.world fresh.case_id ≡ some opened =
        ap (find (λ (r : CaseRow). r.id === fresh.case_id)) written.cases
        ∙ find-++-none (λ (r : CaseRow). r.id === fresh.case_id) (t.cases.rows now.world.cases)
            (opened ∷ []) unused
        ∙ rw (===_refl fresh.case_id) refl in
      let here_rows : transitions_of t side_effects after.world fresh.case_id ≡ opening ∷ [] =
        ap (filter (λ r. r.case_id === fresh.case_id)) written.transitions
        ∙ filter-++ (λ r. r.case_id === fresh.case_id) (t.transitions.rows now.world.transitions)
            (opening ∷ [])
        ∙ rw (history.of_cases fresh.case_id unused, ===_refl fresh.case_id) refl in
      record {
        journey = λ id row found. elim (Bool-cases (fresh.case_id === id)) [
          | inl e ↦
              let same : fresh.case_id ≡ id = (===_iff fresh.case_id id).0 e in
              let there : some opened ≡ some row =
                sym here_find ∙ ap (find_case t after.world) same ∙ found in
              let row_is : opened ≡ row = some-injective there in
              let rows_are : opening ∷ [] ≡ transitions_of t side_effects after.world id =
                sym here_rows ∙ ap (transitions_of t side_effects after.world) same in
              subst (λ rows. Journey rows row.current_state) rows_are
                (subst (λ (r : CaseRow). Journey (opening ∷ []) r.current_state) row_is
                  (set_out opening refl))
          | inr e ↦ rw (same_rows id e) (history.journey id row (sym (same_find id e) ∙ found))
        ];
        of_cases = λ id missing. elim (Bool-cases (fresh.case_id === id)) [
          | inl e ↦
              let same : fresh.case_id ≡ id = (===_iff fresh.case_id id).0 e in
              let bad : some opened ≡ none =
                sym here_find ∙ ap (find_case t after.world) same ∙ missing in
              cc
          | inr e ↦ same_rows id e ∙ history.of_cases id (sym (same_find id e) ∙ missing)
        ];
      }

  pub create_case_from_report-HasHistory :
      (before now : OpeningWorld t report_table) (response : CreateCaseResponse)
      (after : OpeningWorld t report_table)
      → create_case_from_report t report_table fresh user body correlation_id before now
        ≡ ok (response, after)
      → HasHistory t side_effects now.world
      → HasHistory t side_effects after.world
  create_case_from_report-HasHistory before now response after h history =
      elim (create_case_from_report-IsOpened t report_table fresh user body correlation_id before
        now response after h) [
          | inl (_, _, _, same) ↦
              subst (λ (v : OpeningWorld t report_table). HasHistory t side_effects v.world)
                (sym same) history
          | inr new ↦ IsWritten-HasHistory now after new.report new.written history
        ]

  -- A case that there is stays as it is.
  pub create_case_from_report-find_case :
      (before now : OpeningWorld t report_table) (response : CreateCaseResponse)
      (after : OpeningWorld t report_table) (id : String) (row : CaseRow)
      → create_case_from_report t report_table fresh user body correlation_id before now
        ≡ ok (response, after)
      → find_case t now.world id ≡ some row
      → find_case t after.world id ≡ some row
  create_case_from_report-find_case before now response after id row h found =
      elim (create_case_from_report-IsOpened t report_table fresh user body correlation_id before
        now response after h) [
          | inl (_, _, _, same) ↦
              ap (λ (v : OpeningWorld t report_table). find_case t v.world id) same ∙ found
          | inr new ↦
              ap (find (λ (r : CaseRow). r.id === id)) new.written.cases
              ∙ find-++-some (λ (r : CaseRow). r.id === id) (t.cases.rows now.world.cases) _ found
        ]
