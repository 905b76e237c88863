-- ===== src/Cases/Opening/Opened.antt =====
-- apps/api/src/modules/case-management/case.service.ts: what a request to open a case has done.
use etik_bildirim_platformu.Prelude.{
  none_of_test, ◌≡◌, ap, sym, ◌∙◌, subst, ◌⊎◌, inl, inr, String, true, false, none, some, [], ◌∷◌,
  ◌++◌, any, ◌===◌, ===_iff, string_eq, not, is_some, truthy, require, ok, throw, >>=-elim,
  require-eq-ok, ok-injective, Option-cases, arith,
}
use etik_bildirim_platformu.Shared.Errors.{
  resource_not_found, validation_failed, case_already_exists, authz_forbidden, client_p2002,
}
use etik_bildirim_platformu.Storage.Rows.{CaseRow, ReportRow, TransitionRow}
use etik_bildirim_platformu.Storage.Table.{Table, find_first, create, update_rows}
use etik_bildirim_platformu.Storage.World.{Tables, World}
use etik_bildirim_platformu.Policy.User.{AuthenticatedUser}
use etik_bildirim_platformu.Policy.Clearance.{is_clearance_sufficient}
use etik_bildirim_platformu.Audit.Publisher.{outbox_row, publish}
use etik_bildirim_platformu.Audit.Publisher.Stored.{publish_iff}
use etik_bildirim_platformu.Storage.Finding.{create-eq-some}
use etik_bildirim_platformu.Tasks.Service.Finished.{or_throw_ok}
use etik_bildirim_platformu.Workflow.Records.{same_transition_key}
use etik_bildirim_platformu.Workflow.Engine.{or_throw, create_transition}
use etik_bildirim_platformu.Cases.Opening.{
  CreateCaseBody, CreateCaseResponse, OpeningFresh, OpeningWorld, response_of, opened_case,
  opening_row, opening_event, same_case, opened_before, update_report, open_in_transaction,
  create_case_from_report,
}

module _ (t : Tables) (report_table : Table ReportRow) (fresh : OpeningFresh)
    (user : AuthenticatedUser) (body : CreateCaseBody) (correlation_id : String) where
  -- What a transaction that opens a case for a report writes.
  pub record IsWritten (now : OpeningWorld t report_table) (report : ReportRow)
      (after : OpeningWorld t report_table) : Type 0 where
    pub first_case :
        any (same_case (opened_case fresh report)) (t.cases.rows now.world.cases) ≡ false
    pub cases :
        t.cases.rows after.world.cases
        ≡ t.cases.rows now.world.cases ++ opened_case fresh report ∷ []
    pub unused_key :
        any
          (same_transition_key (opening_row fresh user body))
          (t.transitions.rows now.world.transitions)
        ≡ false
    pub transitions :
        t.transitions.rows after.world.transitions
        ≡ t.transitions.rows now.world.transitions ++ opening_row fresh user body ∷ []
    pub linked :
        report_table.rows after.reports
        ≡ update_rows
            (λ row. row.id === report.id)
            (λ row. record row { case_id = some fresh.case_id })
            (report_table.rows now.reports)
    pub published :
        t.outbox.rows after.world.outbox
        ≡ t.outbox.rows now.world.outbox
          ++ outbox_row fresh.outbox_id fresh.now
              (opening_event fresh user body report correlation_id)
            ∷ []
    pub users : after.world.users ≡ now.world.users
    pub votes : after.world.votes ≡ now.world.votes
    pub rest : after.world.rest ≡ now.world.rest

  -- A case that is opened: for a submitted report without a case that the user is cleared for.
  pub record IsOpened (before now : OpeningWorld t report_table) (response : CreateCaseResponse)
      (after : OpeningWorld t report_table) : Type 0 where
    pub report : ReportRow
    pub found :
        find_first report_table (λ row. row.id === body.report_id) before.reports ≡ some report
    pub submitted : report.status ≡ "SUBMITTED"
    pub without_case : truthy report.case_id ≡ none
    pub cleared : is_clearance_sufficient user.clearance_level report.confidentiality_level ≡ true
    pub written : IsWritten now report after
    pub answer : response ≡ response_of (opened_case fresh report) false

  update_report-ok :
      (s : report_table.Store) (id case_id : String) {linked : report_table.Store}
      → update_report t report_table s id case_id ≡ ok linked
      → linked
        ≡ report_table.update
            (λ row. row.id === id)
            (λ row. record row { case_id = some case_id })
            s
  unfolding update_report
  update_report-ok s id case_id h = ground arith

  create_transition-first :
      (w : World t) (row : TransitionRow) {w' : World t}
      → create_transition t w row ≡ ok w'
      → (any (same_transition_key row) (t.transitions.rows w.transitions) ≡ false)
        × (w' ≡ record w { transitions = t.transitions.insert row w.transitions })
  unfolding create_transition
  create_transition-first w row {w'} h =
      elim (Option-cases (create t.transitions same_transition_key row w.transitions)) [
        | inl e ↦ let bad : throw client_p2002 ≡ ok w' = rw (create_transition, e) at h in cc
        | inr (stored, e) ↦
            let (first, same) =
              create-eq-some t.transitions same_transition_key row w.transitions e in
            let recorded : ok (record w { transitions = stored }) ≡ ok w' =
              rw (create_transition, e) at h in
            (
              first,
              sym (ok-injective recorded)
                  ∙ ap (λ (s : t.transitions.Store). record w { transitions = s }) same,
            )
      ]

  open_in_transaction-IsWritten :
      (now : OpeningWorld t report_table) (report : ReportRow) {row : CaseRow}
      {after : OpeningWorld t report_table}
      → open_in_transaction t report_table fresh user body correlation_id now report
        ≡ ok (row, after)
      → IsWritten now report after × (row ≡ opened_case fresh report)
  unfolding open_in_transaction
  open_in_transaction-IsWritten now report {row} {after} h =
      let w = now.world in
      let opened = opened_case fresh report in
      >>=-elim (or_throw client_p2002 (create t.cases same_case opened w.cases)) _ h λ cases a h₁.
        >>=-elim (create_transition t (record w { cases = cases }) (opening_row fresh user body)) _
          h₁
          λ recorded b h₂.
            >>=-elim (update_report t report_table now.reports report.id fresh.case_id) _ h₂
              λ linked c h₃.
                >>=-elim
                  (publish t.outbox fresh.outbox_id fresh.now
                    (opening_event fresh user body report correlation_id) recorded.outbox)
                  _ h₃
                  λ outbox d h₄.
                    let (first, stored) =
                      create-eq-some t.cases same_case opened w.cases (or_throw_ok _ _ a) in
                    let (unused, same) = create_transition-first (record w { cases = cases }) _ b in
                    let (_, _, sent) = (publish_iff t.outbox _ _ _ recorded.outbox outbox).0 d in
                    let result = ok-injective h₄ in
                    let last : record {
                      world = record recorded { outbox = outbox };
                      reports = linked;
                    }
                        ≡ after =
                      ap (λ (p : CaseRow × OpeningWorld t report_table). p.1) result in
                    (
                      subst (IsWritten now report) last record {
                        first_case = first;
                        cases =
                            ap (λ (v : World t). t.cases.rows v.cases) same
                            ∙ ap t.cases.rows stored
                            ∙ t.cases.rows-insert opened w.cases;
                        unused_key = unused;
                        transitions =
                            ap (λ (v : World t). t.transitions.rows v.transitions) same
                            ∙ t.transitions.rows-insert (opening_row fresh user body) w.transitions;
                        linked =
                            ap report_table.rows
                              (update_report-ok now.reports report.id fresh.case_id c)
                            ∙ report_table.rows-update _ _ now.reports;
                        published =
                            ap t.outbox.rows sent
                            ∙ t.outbox.rows-insert _ recorded.outbox
                            ∙ ap
                                (λ (v : World t).
                                  t.outbox.rows v.outbox
                                  ++ outbox_row fresh.outbox_id fresh.now
                                      (opening_event fresh user body report correlation_id)
                                    ∷ [])
                                same;
                        users = ap (λ (v : World t). v.users) same;
                        votes = ap (λ (v : World t). v.votes) same;
                        rest = ap (λ (v : World t). v.rest) same;
                      },
                      ap (λ (p : CaseRow × OpeningWorld t report_table). p.0) (sym result),
                    )

  -- A request to open a case that returns either finds the case that its key opened for the same
  -- report and writes nothing, or opens a case: for a submitted report that has none, by a user
  -- who is cleared for it, in the first state, with the transition that records the opening, the
  -- link of the report and the event of the audit, where no case has the id or the report of the
  -- new one.
  pub create_case_from_report-IsOpened :
      (before now : OpeningWorld t report_table) (response : CreateCaseResponse)
      (after : OpeningWorld t report_table)
      → create_case_from_report t report_table fresh user body correlation_id before now
        ≡ ok (response, after)
      → ((existing : CaseRow) × (opened_before t report_table before.world body ≡ some existing)
          × (response ≡ response_of existing true)
          × (after ≡ now))
        ⊎ IsOpened before now response after
  unfolding create_case_from_report
  create_case_from_report-IsOpened before now response after h =
      elim (Option-cases (opened_before t report_table before.world body)) [
        | inr (existing, e) ↦
            let replay : ok (response_of existing true, now) ≡ ok (response, after) =
              rw (create_case_from_report, e) at h in
            let pair = ok-injective replay in
            inl (
              existing,
              e,
              ap (λ (p : CreateCaseResponse × OpeningWorld t report_table). p.0) (sym pair),
              ap (λ (p : CreateCaseResponse × OpeningWorld t report_table). p.1) (sym pair),
            )
        | inl e ↦
            >>=-elim
              (or_throw resource_not_found
                (find_first report_table (λ row. row.id === body.report_id) before.reports))
              _ (rw (create_case_from_report, e) at h)
              λ report a h₁.
                >>=-elim (require (report.status === "SUBMITTED") validation_failed) _ h₁ λ _ b h₂.
                  >>=-elim (require (not (is_some (truthy report.case_id))) case_already_exists) _
                    h₂
                    λ _ c h₃.
                      >>=-elim
                        (require
                          (is_clearance_sufficient user.clearance_level
                            report.confidentiality_level)
                          authz_forbidden)
                        _ h₃
                        λ _ d h₄.
                          >>=-elim
                            (open_in_transaction t report_table fresh user body correlation_id now
                              report)
                            _ h₄
                            λ opened f h₅.
                              let result = ok-injective h₅ in
                              let (written, is_opened) =
                                open_in_transaction-IsWritten now report f in
                              inr (record {
                                report = report;
                                found = or_throw_ok _ _ a;
                                submitted =
                                    (===_iff report.status "SUBMITTED").0 (require-eq-ok _ _ b);
                                without_case =
                                    none_of_test (truthy report.case_id) (require-eq-ok _ _ c);
                                cleared = require-eq-ok _ _ d;
                                written =
                                    subst (IsWritten now report)
                                      (ap
                                        (λ (p : CreateCaseResponse × OpeningWorld t report_table).
                                          p.1)
                                        result)
                                      written;
                                answer =
                                    ap
                                      (λ (p : CreateCaseResponse × OpeningWorld t report_table).
                                        p.0)
                                      (sym result)
                                    ∙ ap (λ row. response_of row false) is_opened;
                              })
      ]
