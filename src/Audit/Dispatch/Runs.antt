-- ===== src/Audit/Dispatch/Runs.antt =====
-- apps/worker/src/jobs/audit-outbox-dispatch.job.ts: the batch as a sequence of transactions, and
-- what holds after any number of them.

use etik_bildirim_platformu.Prelude.{
  ℕ, ◌+◌, ◌≡◌, refl, ap, sym, ◌∙◌, subst, inl, inr, String, Bool, true, false, some, List, [], ◌∷◌,
  ◌===◌, ===_iff, string_eq, option_eq, find, if◌then◌else◌, Bool-cases, Option-cases,
  some-injective, leb,
}
use etik_bildirim_platformu.Storage.Table.{Table}
use etik_bildirim_platformu.Storage.Finding.{find-test, find-++-some}
use etik_bildirim_platformu.Audit.Publisher.{
  OutboxRow, DispatchStatus, pending, failed, permanently_failed, outbox_row,
}
use etik_bildirim_platformu.Audit.Publisher.Stored.{publish_iff}
use etik_bildirim_platformu.Audit.Dispatch.{
  AuditEventRow, Queue, Fate, commits, aborts, aborts_unmarked, is_pending, has_id, has_source,
  mark_sent, mark_failed, error_code_of, dispatch_outbox_record, dispatch_single,
  mark_failed_standalone, process_rows, process_pending_batch,
}
use etik_bildirim_platformu.Audit.Dispatch.Steps.{
  stored, Step, published, dispatched, marked, Steps, done, next, stored-update,
  mark_failed_standalone-eq-some,
}
use etik_bildirim_platformu.Audit.Dispatch.AtMostOnce.{IsDelivering, Step-IsDelivering}

abbrev pub HasGivenUp : DispatchStatus → Type 0
HasGivenUp failed = Unit
HasGivenUp permanently_failed = Unit
HasGivenUp _ = ⊥

failed-HasGivenUp : (last : Bool) → HasGivenUp (if last then permanently_failed else failed)
failed-HasGivenUp true = tt
failed-HasGivenUp false = tt

pending-HasGivenUp : (s : DispatchStatus) → HasGivenUp s → is_pending s ≡ false
pending-HasGivenUp failed h = refl
pending-HasGivenUp permanently_failed h = refl
pending-HasGivenUp pending h = absurd h
pending-HasGivenUp _ h = refl

module _ (outbox : Table OutboxRow) (events : Table AuditEventRow) where
  -- After any sequence of publications, dispatches and markings, by whichever workers, no row of
  -- the outbox has two events, and a row that is marked as sent has exactly one.
  pub Steps-IsDelivering :
      (max : ℕ) (q last : Queue outbox events)
      → Steps outbox events max q last
      → IsDelivering outbox events q
      → IsDelivering outbox events last
  Steps-IsDelivering max _ _ (done q) inv = inv
  Steps-IsDelivering max _ _ (next q after last step rest) inv =
      Steps-IsDelivering max after last rest (Step-IsDelivering outbox events max step inv)

  abbrev RowGaveUp : Queue outbox events → String → Type 0
  RowGaveUp q id =
      (row : OutboxRow) × (stored outbox events q id ≡ some row) × HasGivenUp row.dispatch_status

  updated-RowGaveUp :
      (q : Queue outbox events) (changed id : String) (change : OutboxRow → OutboxRow)
      {row : OutboxRow}
      → ((r : OutboxRow) → (change r).id ≡ r.id)
      → stored outbox events q changed ≡ some row
      → (HasGivenUp row.dispatch_status → HasGivenUp (change row).dispatch_status)
      → RowGaveUp q id
      → RowGaveUp (record q { rows = outbox.update (has_id changed) change q.rows }) id
  updated-RowGaveUp q changed id change {row} keeps h still (old, k, given_up) =
      let seen = stored-update outbox events q changed id change keeps h in
      elim (Bool-cases (changed === id)) [
        | inl e ↦
            let same = (===_iff changed id).0 e in
            let at_id : stored outbox events q id ≡ some row =
              subst (λ i. stored outbox events q i ≡ some row) same h in
            let is_row : old ≡ row = some-injective (sym k ∙ at_id) in
            (
              change row,
              (rw e at seen),
              still (subst (λ (r : OutboxRow). HasGivenUp r.dispatch_status) is_row given_up),
            )
        | inr e ↦ (old, (rw (e, k) at seen), given_up)
      ]

  Step-RowGaveUp :
      (max : ℕ) {q after : Queue outbox events} (id : String)
      → Step outbox events max q after
      → RowGaveUp q id
      → RowGaveUp after id
  unfolding dispatch_single dispatch_outbox_record mark_failed_standalone mark_failed outbox_row
  Step-RowGaveUp max id (published new_id now input q store h) (old, k, given_up) =
      let same = ((publish_iff outbox new_id now input q.rows store).0 h).2 in
      let row = outbox_row new_id now input in
      let kept : stored outbox events (record q { rows = outbox.insert row q.rows }) id ≡ some old =
        ap (find (has_id id)) (outbox.rows-insert row q.rows)
        ∙ find-++-some (has_id id) (outbox.rows q.rows) (row ∷ []) k in
      (
        old,
        subst (λ s. stored outbox events (record q { rows = s }) id ≡ some old) (sym same) kept,
        given_up,
      )
  Step-RowGaveUp max id (dispatched event_id now chosen q) (old, k, given_up) =
      elim (Option-cases (stored outbox events q chosen)) [
        | inl e ↦ rw (dispatch_single, e) (old, k, given_up)
        | inr (row, e) ↦ elim (Bool-cases (is_pending row.dispatch_status)) [
          | inl p ↦
              let same : row.id ≡ chosen =
                (===_iff row.id chosen).0 (find-test (has_id chosen) (outbox.rows q.rows) e) in
              let gone : RowGaveUp
                  (record q { rows = outbox.update (has_id row.id) (mark_sent now) q.rows }) id =
                updated-RowGaveUp q row.id id (mark_sent now) (λ r. refl)
                  (subst (λ i. stored outbox events q i ≡ some row) (sym same) e)
                  (λ g. let no = pending-HasGivenUp row.dispatch_status g in absurd (cc))
                  (old, k, given_up) in
              elim (Option-cases (find (has_source row.id) (events.rows q.log))) [
                | inl n ↦ rw (dispatch_single, e, p, dispatch_outbox_record, n) gone
                | inr (event, n) ↦ rw (dispatch_single, e, p, dispatch_outbox_record, n) gone
              ]
          | inr p ↦ rw (dispatch_single, e, p) (old, k, given_up)
        ]
      ]
  Step-RowGaveUp max id (marked chosen count error q after h) gone =
      let (row, e, same) =
        mark_failed_standalone-eq-some outbox events max chosen count error q h in
      subst (λ w. RowGaveUp w id) (sym same)
        (updated-RowGaveUp q chosen id (mark_failed max count error) (λ r. refl) e
          (λ g. failed-HasGivenUp (leb max (count + 1))) gone)

  -- A row that was marked as failed, for good or not, keeps such a mark whatever is run after: no
  -- transaction of the job sends it.
  pub Steps-HasGivenUp :
      (max : ℕ) (q last : Queue outbox events) (id : String) (row : OutboxRow)
      → Steps outbox events max q last
      → stored outbox events q id ≡ some row
      → HasGivenUp row.dispatch_status
      → (after : OutboxRow) × (stored outbox events last id ≡ some after)
        × HasGivenUp after.dispatch_status
  Steps-HasGivenUp max _ _ id row (done q) h g = (row, h, g)
  Steps-HasGivenUp max _ _ id row (next q after last step rest) h g =
      let (found, k, still) = Step-RowGaveUp max id step (row, h, g) in
      Steps-HasGivenUp max after last id found rest k still

  batch_row :
      (max : ℕ) (fate : Fate) (chosen : OutboxRow → Fate) (processed : ℕ) (row : OutboxRow)
      (rows : List OutboxRow) (q : Queue outbox events)
      → chosen row ≡ fate
      → ((q : Queue outbox events)
          → Steps outbox events max q (process_rows outbox events max chosen processed rows q).1)
      → Steps outbox events max q (process_rows outbox events max chosen processed (row ∷ rows) q).1
  unfolding process_rows
  batch_row max (commits event_id now) chosen processed row rows q e rest =
      rw (process_rows, e) (next q _ _ (dispatched event_id now row.id q) (rest _))
  batch_row max (aborts_unmarked message) chosen processed row rows q e rest =
      rw (process_rows, e) (done q)
  batch_row max (aborts message) chosen processed row rows q e rest =
      elim (Option-cases (
        mark_failed_standalone outbox events max row.id row.retry_count (error_code_of message)
          q)) [
            | inl n ↦ rw (process_rows, e, n) (done q)
            | inr (after, n) ↦
                rw (process_rows, e, n)
                  (next q after _ (marked row.id row.retry_count (error_code_of message) q after n)
                    (rest after))
          ]

  process_rows-Steps :
      (max : ℕ) (fate : OutboxRow → Fate) (processed : ℕ) (rows : List OutboxRow)
      (q : Queue outbox events)
      → Steps outbox events max q (process_rows outbox events max fate processed rows q).1
  unfolding process_rows
  process_rows-Steps max fate processed [] q = done q
  process_rows-Steps max fate processed (row ∷ rows) q =
      batch_row max (fate row) fate processed row rows q refl
        (process_rows-Steps max fate processed rows)

  -- A batch is a sequence of such transactions, whatever becomes of each of its rows.
  pub process_pending_batch-Steps :
      (max batch_size : ℕ) (fate : OutboxRow → Fate) (q : Queue outbox events)
      → Steps outbox events max q (process_pending_batch outbox events max batch_size fate q).1
  unfolding process_pending_batch
  process_pending_batch-Steps max batch_size fate q = process_rows-Steps max fate _ _ q
