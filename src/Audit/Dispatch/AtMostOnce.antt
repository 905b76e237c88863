-- ===== src/Audit/Dispatch/AtMostOnce.antt =====
-- apps/worker/src/jobs/audit-outbox-dispatch.job.ts: what any number of dispatchers do to the
-- outbox and the trail, one transaction after the other.
use etik_bildirim_platformu.Prelude.{
  ℕ, ◌+◌, ◌≤◌, ◌≡◌, refl, ap, sym, ◌∙◌, subst, inl, inr, String, Bool, true, false, none, some, [],
  ◌∷◌, ◌===◌, ===_iff, ===_refl, string_eq, option_eq, arith, filter, find, if◌then◌else◌,
  Bool-cases, Option-cases, leb,
}
use etik_bildirim_platformu.Storage.Table.{Table}
use etik_bildirim_platformu.Storage.Finding.{
  find-test, filter_of_find-none, length-filter-some, filter-++, filter-++-other,
}
use etik_bildirim_platformu.Audit.Publisher.{
  OutboxRow, pending, sent, failed, permanently_failed, outbox_row,
}
use etik_bildirim_platformu.Audit.Publisher.Stored.{publish_iff}
use etik_bildirim_platformu.Audit.Spread.{source-build_audit_event_metadata}
use etik_bildirim_platformu.Audit.Dispatch.{
  AuditEventRow, Queue, is_pending, event_of, has_source, has_id, mark_sent, mark_failed,
  dispatch_outbox_record, dispatch_single, mark_failed_standalone,
}
use etik_bildirim_platformu.Audit.Dispatch.Steps.{
  stored, count_from, Step, published, dispatched, marked, updated-cases, published-stored,
  mark_failed_standalone-eq-some,
}

failed-sent : (last : Bool) → (if last then permanently_failed else failed) ≡ sent → ⊥
failed-sent true h = cc
failed-sent false h = cc

has_source-event_of :
    (id event_id : String) (row : OutboxRow)
    → has_source id (event_of event_id row) ≡ (row.id === id)
unfolding event_of
has_source-event_of id event_id row = rw (source-build_audit_event_metadata row) refl

module _ (outbox : Table OutboxRow) (events : Table AuditEventRow) where
  -- No row has two events, and a row that is marked as sent has one.
  pub record IsDelivering (q : Queue outbox events) : Type 0 where
    pub at_most_one : (id : String) → count_from outbox events q id ≤ 1
    pub sent_once :
        (id : String) (row : OutboxRow)
        → stored outbox events q id ≡ some row
        → row.dispatch_status ≡ sent
        → count_from outbox events q id ≡ 1

  marked-IsDelivering :
      (q : Queue outbox events) (id : String) (change : OutboxRow → OutboxRow) {row : OutboxRow}
      → ((r : OutboxRow) → (change r).id ≡ r.id)
      → stored outbox events q id ≡ some row
      → ((change row).dispatch_status ≡ sent → count_from outbox events q id ≡ 1)
      → IsDelivering q
      → IsDelivering (record q { rows = outbox.update (has_id id) change q.rows })
  marked-IsDelivering q id change {row} keeps h counted inv = record {
    at_most_one = inv.at_most_one;
    sent_once = λ other found k s. elim (updated-cases outbox events q id other change keeps h k) [
      | inl (e, same) ↦
          subst (λ i. count_from outbox events q i ≡ 1) e
            (counted (ap (λ (r : OutboxRow). r.dispatch_status) (sym same) ∙ s))
      | inr old ↦ inv.sent_once other found old s
    ];
  }

  -- The event is new, and the row is the one of its id.
  count-insert :
      (q : Queue outbox events) (event_id id : String) (row : OutboxRow)
      → find (has_source row.id) (events.rows q.log) ≡ none
      → count_from outbox events (record q { log = events.insert (event_of event_id row) q.log }) id
        ≡ (if row.id === id then 1 else count_from outbox events q id)
  count-insert q event_id id row h = elim (Bool-cases (row.id === id)) [
    | inl e ↦
        let same = (===_iff row.id id).0 e in
        let is_of : has_source id (event_of event_id row) ≡ true =
          has_source-event_of id event_id row ∙ e in
        let none_yet : filter (has_source id) (events.rows q.log) ≡ [] =
          filter_of_find-none (has_source id) (events.rows q.log) (rw same at h) in
        rw
          (
            e,
            events.rows-insert (event_of event_id row) q.log,
            filter-++ (has_source id) (events.rows q.log) (event_of event_id row ∷ []),
            none_yet,
            is_of,
          )
          refl
    | inr e ↦
        let is_not : has_source id (event_of event_id row) ≡ false =
          has_source-event_of id event_id row ∙ e in
        rw
          (
            e,
            events.rows-insert (event_of event_id row) q.log,
            filter-++-other (has_source id) (events.rows q.log) (event_of event_id row) is_not,
          )
          refl
  ]

  inserted-IsDelivering :
      (q : Queue outbox events) (event_id : String) (row : OutboxRow)
      → find (has_source row.id) (events.rows q.log) ≡ none
      → IsDelivering q
      → IsDelivering (record q { log = events.insert (event_of event_id row) q.log })
  inserted-IsDelivering q event_id row h inv = record {
    at_most_one = λ id. ground (arith, count-insert q event_id id row h, inv.at_most_one id);
    sent_once = λ id found k s.
        ground (arith, count-insert q event_id id row h, inv.sent_once id found k s);
  }

  recorded-IsDelivering :
      (q : Queue outbox events) (event_id : String) (now : ℕ) {row : OutboxRow}
      → stored outbox events q row.id ≡ some row
      → IsDelivering q
      → IsDelivering (dispatch_outbox_record outbox events event_id now row q).1
  unfolding dispatch_outbox_record
  recorded-IsDelivering q event_id now {row} h inv =
      elim (Option-cases (find (has_source row.id) (events.rows q.log))) [
        | inl e ↦
            rw (dispatch_outbox_record, e)
              (marked-IsDelivering (record q { log = events.insert (event_of event_id row) q.log })
                row.id (mark_sent now) (λ r. refl) h
                (λ s. ground (arith, count-insert q event_id row.id row e, ===_refl row.id))
                (inserted-IsDelivering q event_id row e inv))
        | inr (event, e) ↦
            rw (dispatch_outbox_record, e)
              (marked-IsDelivering q row.id (mark_sent now) (λ r. refl) h
                (λ s. omega (
                  arith,
                  inv.at_most_one row.id,
                  length-filter-some (has_source row.id) (events.rows q.log) e,
                ))
                inv)
      ]

  published-IsDelivering :
      (q : Queue outbox events) (new : OutboxRow)
      → new.dispatch_status ≡ pending
      → IsDelivering q
      → IsDelivering (record q { rows = outbox.insert new q.rows })
  published-IsDelivering q new is_new inv = record {
    at_most_one = inv.at_most_one;
    sent_once = λ id found k s. elim (published-stored outbox events q new id k) [
      | inl e ↦
          let bad : pending ≡ sent =
            sym is_new ∙ ap (λ (r : OutboxRow). r.dispatch_status) (sym e) ∙ s in
          cc
      | inr old ↦ inv.sent_once id found old s
    ];
  }

  pub Step-IsDelivering :
      (max : ℕ) {q after : Queue outbox events}
      → Step outbox events max q after
      → IsDelivering q
      → IsDelivering after
  unfolding dispatch_single mark_failed_standalone mark_failed outbox_row
  Step-IsDelivering max (published id now input q store h) inv =
      let same = ((publish_iff outbox id now input q.rows store).0 h).2 in
      subst (λ s. IsDelivering (record q { rows = s })) (sym same)
        (published-IsDelivering q (outbox_row id now input) refl inv)
  Step-IsDelivering max (dispatched event_id now id q) inv =
      elim (Option-cases (stored outbox events q id)) [
        | inl e ↦ rw (dispatch_single, e) inv
        | inr (row, e) ↦ elim (Bool-cases (is_pending row.dispatch_status)) [
          | inl p ↦
              let same : row.id ≡ id =
                (===_iff row.id id).0 (find-test (has_id id) (outbox.rows q.rows) e) in
              rw (dispatch_single, e, p)
                (recorded-IsDelivering q event_id now
                  (subst (λ i. stored outbox events q i ≡ some row) (sym same) e) inv)
          | inr p ↦ rw (dispatch_single, e, p) inv
        ]
      ]
  Step-IsDelivering max (marked id count error q after h) inv =
      let (row, e, same) = mark_failed_standalone-eq-some outbox events max id count error q h in
      subst IsDelivering (sym same) (
        marked-IsDelivering q id (mark_failed max count error) (λ r. refl) e
          (λ s. absurd (failed-sent (leb max (count + 1)) s)) inv)
