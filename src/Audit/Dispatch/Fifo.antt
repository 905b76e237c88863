-- ===== src/Audit/Dispatch/Fifo.antt =====
-- apps/worker/src/jobs/audit-outbox-dispatch.job.ts: a batch whose transactions all commit, seen as
-- a queue of ids.
use Prim.Native.Nat.{suc, zero}
use etik_bildirim_platformu.Prelude.{
  append-nil, append_assoc, map-append, ℕ, ◌≡◌, refl, ap, sym, ◌∙◌, subst, inl, String, true, false,
  Option, none, some, List, [], ◌∷◌, ◌++◌, map, ◌===◌, string_eq, option_eq, filter, find, In,
  Distinct,
}
use etik_bildirim_platformu.Storage.Table.{Table, update_rows}
use etik_bildirim_platformu.Storage.Finding.{find-++-none}
use etik_bildirim_platformu.Audit.Publisher.{OutboxRow}
use etik_bildirim_platformu.Audit.Spread.{source_outbox_id, source-build_audit_event_metadata}
use etik_bildirim_platformu.Audit.Dispatch.Marking.{
  waits, id_of, source_of, waits-In, map-id-update_rows, find-first, filter-update_rows,
  waits-update_rows, apart_sym,
}
use etik_bildirim_platformu.Audit.Dispatch.{
  AuditEventRow, Queue, Fate, commits, is_pending, has_id, has_source, mark_sent, event_of,
  dispatch_outbox_record, dispatch_single, process_rows, process_pending_batch, take,
}

abbrev pub drop {ℓ} : {A : Type ℓ} → ℕ → List A → List A
drop zero xs = xs
drop (suc n) [] = []
drop (suc n) (x ∷ xs) = drop n xs

-- The ids that wait, the oldest first, and the sources of the events, in the order of their
-- creation.
pub record Deliveries : Type 0 where
  pub waiting : List String
  pub delivered : List (Option String)

-- The first `n` that wait are delivered, in their order.
abbrev pub deliver : ℕ → Deliveries → Deliveries
deliver n d = record {
  waiting = drop n d.waiting;
  delivered = d.delivered ++ map some (take n d.waiting);
}

module _ (outbox : Table OutboxRow) (events : Table AuditEventRow) where
  abbrev pub view : Queue outbox events → Deliveries
  view q = record {
    waiting =
        map (λ (row : OutboxRow). row.id)
          (filter (λ row. is_pending row.dispatch_status) (outbox.rows q.rows));
    delivered =
        map (λ (event : AuditEventRow). source_outbox_id event.metadata_json) (events.rows q.log);
  }

  -- The ids are distinct, and a row that waits has no event yet.
  pub record IsReady (q : Queue outbox events) : Type 0 where
    pub distinct : Distinct (map (λ (row : OutboxRow). row.id) (outbox.rows q.rows))
    pub undelivered :
        (row : OutboxRow)
        → In row (outbox.rows q.rows)
        → is_pending row.dispatch_status ≡ true
        → find (has_source row.id) (events.rows q.log) ≡ none

  module _ (event_id : String) (now : ℕ) (q : Queue outbox events) (row : OutboxRow) where
    abbrev after_sending : Queue outbox events
    after_sending = record {
      rows = outbox.update (has_id row.id) (mark_sent now) q.rows;
      log = events.insert (event_of event_id row) q.log;
    }

    dispatch_single-first :
        (rest : List OutboxRow)
        → filter waits (outbox.rows q.rows) ≡ row ∷ rest
        → IsReady q
        → (dispatch_single outbox events event_id now row.id q).1 ≡ after_sending
    unfolding dispatch_single dispatch_outbox_record
    dispatch_single-first rest h ready =
        let (found, w) = find-first row rest now (outbox.rows q.rows) h ready.distinct in
        let i = waits-In row (outbox.rows q.rows) (subst (In row) (sym h) (inl refl)) in
        let new = ready.undelivered row i w in
        rw (dispatch_single, found, w, dispatch_outbox_record, new) refl

    has_source-new :
        (id : String) → (row.id === id) ≡ false → has_source id (event_of event_id row) ≡ false
    unfolding event_of
    has_source-new id h = rw (source-build_audit_event_metadata row) h

    after_sending-IsReady : IsReady q → IsReady after_sending
    after_sending-IsReady ready = record {
      distinct =
          rw
            (
              outbox.rows-update (has_id row.id) (mark_sent now) q.rows,
              map-id-update_rows row.id now (outbox.rows q.rows),
            )
            ready.distinct;
      undelivered = λ r i w.
          let j : In r (update_rows (has_id row.id) (mark_sent now) (outbox.rows q.rows)) =
            rw (outbox.rows-update (has_id row.id) (mark_sent now) q.rows) at i in
          let (old, apart) = waits-update_rows row.id now r (outbox.rows q.rows) j w in
          rw
            (
              events.rows-insert (event_of event_id row) q.log,
              find-++-none (has_source r.id) (events.rows q.log) (event_of event_id row ∷ [])
                  (ready.undelivered r old w),
              has_source-new r.id (apart_sym r.id row.id apart),
            )
            refl;
    }

  abbrev all_commit : (OutboxRow → String) → (OutboxRow → ℕ) → OutboxRow → Fate
  all_commit ids times row = commits (ids row) (times row)

  view-after_sending :
      (event_id : String) (now n : ℕ) (q : Queue outbox events) (row : OutboxRow)
      (rest : List OutboxRow)
      → filter waits (outbox.rows q.rows) ≡ row ∷ rest
      → IsReady q
      → deliver n (view (after_sending event_id now q row)) ≡ deliver (suc n) (view q)
  unfolding event_of
  view-after_sending event_id now n q row rest h ready =
      let sources = map source_of (events.rows q.log) in
      rw
        (
          h,
          outbox.rows-update (has_id row.id) (mark_sent now) q.rows,
          filter-update_rows row rest now (outbox.rows q.rows) h ready.distinct,
          events.rows-insert (event_of event_id row) q.log,
          map-append source_of (events.rows q.log) (event_of event_id row ∷ []),
          source-build_audit_event_metadata row,
          append_assoc sources (some row.id ∷ []) (map some (take n (map id_of rest))),
        )
        refl

  module _ (max processed : ℕ) (ids : OutboxRow → String) (times : OutboxRow → ℕ) where
    abbrev run : List OutboxRow → Queue outbox events → Queue outbox events
    run rows q = (process_rows outbox events max (all_commit ids times) processed rows q).1

    run-next :
        (row : OutboxRow) (rows : List OutboxRow) (q : Queue outbox events)
        → run (row ∷ rows) q
          ≡ run rows (dispatch_single outbox events (ids row) (times row) row.id q).1
    unfolding process_rows
    run-next row rows q = refl

    run-end : (q : Queue outbox events) → run [] q ≡ q
    unfolding process_rows
    run-end q = refl

    abbrev Delivers : ℕ → Queue outbox events → List OutboxRow → Type 0
    Delivers n q rows = view (run (take n rows) q) ≡ deliver n (view q)

    deliver-zero : (d : Deliveries) → deliver 0 d ≡ d
    deliver-zero d = rw (append-nil d.delivered) refl

    run-first :
        (n : ℕ) (q : Queue outbox events) (row : OutboxRow) (rest : List OutboxRow)
        → filter waits (outbox.rows q.rows) ≡ row ∷ rest
        → IsReady q
        → ((next : Queue outbox events)
            → IsReady next
            → Delivers n next (filter waits (outbox.rows next.rows)))
        → Delivers (suc n) q (row ∷ rest)
    run-first n q row rest h ready later =
        let next = after_sending (ids row) (times row) q row in
        let left : filter waits (outbox.rows next.rows) ≡ rest =
          ap (filter waits) (outbox.rows-update (has_id row.id) (mark_sent (times row)) q.rows)
          ∙ filter-update_rows row rest (times row) (outbox.rows q.rows) h ready.distinct in
        let moved : run (row ∷ take n rest) q ≡ run (take n rest) next =
          run-next row (take n rest) q
          ∙ ap (run (take n rest))
              (dispatch_single-first (ids row) (times row) q row rest h ready) in
        ap view moved
        ∙ subst (Delivers n next) left
            (later next (after_sending-IsReady (ids row) (times row) q row ready))
        ∙ view-after_sending (ids row) (times row) n q row rest h ready

    run-rows :
        (n : ℕ) (q : Queue outbox events) (rows : List OutboxRow)
        → filter waits (outbox.rows q.rows) ≡ rows
        → IsReady q
        → ((next : Queue outbox events)
            → IsReady next
            → Delivers n next (filter waits (outbox.rows next.rows)))
        → Delivers (suc n) q rows
    run-rows n q [] h ready later =
        ap view (run-end q) ∙ rw (h, append-nil (map source_of (events.rows q.log))) refl
    run-rows n q (row ∷ rest) h ready later = run-first n q row rest h ready later

    run-view :
        (n : ℕ) (q : Queue outbox events)
        → IsReady q
        → Delivers n q (filter waits (outbox.rows q.rows))
    run-view zero q ready = ap view (run-end q) ∙ sym (deliver-zero (view q))
    run-view (suc n) q ready =
        run-rows n q (filter waits (outbox.rows q.rows)) refl ready (run-view n)

  -- When every transaction of a batch commits, the ids are distinct and no row that waits has an
  -- event, the batch delivers the oldest rows that wait, at most as many as its size, each once and
  -- in their order, and the others wait on.
  pub process_pending_batch-deliver :
      (max batch_size : ℕ) (ids : OutboxRow → String) (times : OutboxRow → ℕ)
      (q : Queue outbox events)
      → IsReady q
      → view
          (process_pending_batch outbox events max batch_size
            (λ row. commits (ids row) (times row))
            q).1
        ≡ deliver batch_size (view q)
  unfolding process_pending_batch
  process_pending_batch-deliver max batch_size ids times q ready =
      run-view max _ ids times batch_size q ready
