-- ===== src/Audit/Dispatch/Steps.antt =====
-- apps/worker/src/jobs/audit-outbox-dispatch.job.ts: the transactions of the job and of the
-- publishers as steps, and a row of the outbox before and after one.
use etik_bildirim_platformu.Prelude.{
  ℕ, ◌≡◌, refl, sym, ◌∙◌, ◌⊎◌, inl, inr, String, true, false, Option, none, some, [], ◌∷◌, ◌===◌,
  ===_iff, string_eq, option_eq, filter, find, length, if◌then◌else◌, Bool-cases, Option-cases,
  ne_of_test, some-injective, ok,
}
use etik_bildirim_platformu.Storage.Table.{Table}
use etik_bildirim_platformu.Storage.Finding.{
  find-test, find-++-some, find-++-none, find-update_rows, find-update_rows-other,
}
use etik_bildirim_platformu.Audit.Publisher.{OutboxRow, PublishAuditEventInput, publish}
use etik_bildirim_platformu.Audit.Dispatch.{
  AuditEventRow, Queue, has_source, has_id, mark_failed, dispatch_single, mark_failed_standalone,
}

module _ (outbox : Table OutboxRow) (events : Table AuditEventRow) where
  abbrev pub stored : Queue outbox events → String → Option OutboxRow
  stored q id = find (has_id id) (outbox.rows q.rows)

  abbrev pub count_from : Queue outbox events → String → ℕ
  count_from q id = length (filter (has_source id) (events.rows q.log))

  -- One committed transaction: a publication, the dispatch of a row by its id, or the marking of a
  -- row after an error, by whichever worker and whatever the worker had read before.
  pub data Step (max_retry_count : ℕ) : Queue outbox events → Queue outbox events → Type 0 where
    published :
        (id : String) (now : ℕ) (input : PublishAuditEventInput) (q : Queue outbox events)
        (store : outbox.Store)
        → publish outbox id now input q.rows ≡ ok store
        → Step max_retry_count q (record q { rows = store })
    dispatched :
        (event_id : String) (now : ℕ) (id : String) (q : Queue outbox events)
        → Step max_retry_count q (dispatch_single outbox events event_id now id q).1
    marked :
        (id : String) (retry_count : ℕ) (error_code : String) (q after : Queue outbox events)
        → mark_failed_standalone outbox events max_retry_count id retry_count error_code q
          ≡ some after
        → Step max_retry_count q after

  pub data Steps (max_retry_count : ℕ) : Queue outbox events → Queue outbox events → Type 0 where
    done : (q : Queue outbox events) → Steps max_retry_count q q
    next :
        (q after last : Queue outbox events)
        → Step max_retry_count q after
        → Steps max_retry_count after last
        → Steps max_retry_count q last

  other_id : (a b : String) (r : OutboxRow) → (a ≡ b → ⊥) → has_id a r ≡ true → has_id b r ≡ false
  other_id a b r apart h = elim (Bool-cases (has_id b r)) [
    | inl e ↦ absurd (apart (sym ((===_iff r.id a).0 h) ∙ (===_iff r.id b).0 e))
    | inr e ↦ e
  ]

  -- The update of one row, seen from an id.
  pub stored-update :
      (q : Queue outbox events) (changed id : String) (change : OutboxRow → OutboxRow)
      {row : OutboxRow}
      → ((r : OutboxRow) → (change r).id ≡ r.id)
      → stored q changed ≡ some row
      → stored (record q { rows = outbox.update (has_id changed) change q.rows }) id
        ≡ (if changed === id then some (change row) else stored q id)
  stored-update q changed id change {row} keeps h = elim (Bool-cases (changed === id)) [
    | inl e ↦
        let same : changed ≡ id = (===_iff changed id).0 e in
        rw (e, outbox.rows-update (has_id changed) change q.rows, ← same)
          (find-update_rows (has_id changed) (has_id changed) change (outbox.rows q.rows)
            (λ r. rw (keeps r) refl) h (find-test (has_id changed) (outbox.rows q.rows) h))
    | inr e ↦
        rw (e, outbox.rows-update (has_id changed) change q.rows)
          (find-update_rows-other (has_id id) (has_id changed) change (outbox.rows q.rows)
            (λ r k. other_id changed id r (ne_of_test changed id e) k) (λ r. rw (keeps r) refl))
  ]

  -- The row of an id after its update, or another's.
  pub updated-cases :
      (q : Queue outbox events) (changed id : String) (change : OutboxRow → OutboxRow)
      {row found : OutboxRow}
      → ((r : OutboxRow) → (change r).id ≡ r.id)
      → stored q changed ≡ some row
      → stored (record q { rows = outbox.update (has_id changed) change q.rows }) id ≡ some found
      → ((changed ≡ id) × (found ≡ change row)) ⊎ (stored q id ≡ some found)
  updated-cases q changed id change {row} {found} keeps h k =
      let seen = sym (stored-update q changed id change keeps h) ∙ k in
      elim (Bool-cases (changed === id)) [
        | inl e ↦
            let at_it : some (change row) ≡ some found = rw e at seen in
            inl ((===_iff changed id).0 e, sym (some-injective at_it))
        | inr e ↦ let same : stored q id ≡ some found = rw e at seen in inr same
      ]

  -- A marking that succeeds has found the row.
  pub mark_failed_standalone-eq-some :
      (max : ℕ) (id : String) (count : ℕ) (error : String) (q : Queue outbox events)
      {after : Queue outbox events}
      → mark_failed_standalone outbox events max id count error q ≡ some after
      → (row : OutboxRow) × (stored q id ≡ some row)
        × (after
            ≡ record q { rows = outbox.update (has_id id) (mark_failed max count error) q.rows })
  unfolding mark_failed_standalone
  mark_failed_standalone-eq-some max id count error q {after} h =
      elim (Option-cases (stored q id)) [
        | inl e ↦
            let none_there : ◌≡◌ {A = Option (Queue outbox events)} none (some after) =
              rw (mark_failed_standalone, e) at h in
            cc
        | inr (row, e) ↦ (row, e, sym (some-injective (rw (mark_failed_standalone, e) at h)))
      ]

  pub published-stored :
      (q : Queue outbox events) (new : OutboxRow) (id : String) {found : OutboxRow}
      → stored (record q { rows = outbox.insert new q.rows }) id ≡ some found
      → (found ≡ new) ⊎ (stored q id ≡ some found)
  published-stored q new id {found} h = elim (Option-cases (stored q id)) [
    | inl e ↦
        let seen : find (has_id id) (new ∷ []) ≡ some found =
          sym (find-++-none (has_id id) (outbox.rows q.rows) (new ∷ []) e)
          ∙ (rw (outbox.rows-insert new q.rows) at h) in
        elim (Bool-cases (has_id id new)) [
          | inl k ↦
              let same : some new ≡ some found = rw k at seen in inl (sym (some-injective same))
          | inr k ↦ let same : none ≡ some found = rw k at seen in cc
        ]
    | inr (old, e) ↦
        let seen : some old ≡ some found =
          sym (find-++-some (has_id id) (outbox.rows q.rows) (new ∷ []) e)
          ∙ (rw (outbox.rows-insert new q.rows) at h) in
        inr (e ∙ seen)
  ]
