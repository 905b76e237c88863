-- ===== src/Audit/Dispatch/Marking.antt =====
-- apps/worker/src/jobs/audit-outbox-dispatch.job.ts: the rows that wait, when the first of them is
-- marked as sent.

use etik_bildirim_platformu.Prelude.{
  ℕ, ◌≡◌, refl, ap, sym, subst, inl, inr, String, Bool, true, false, Option, some, List, [], ◌∷◌,
  map, ◌===◌, ===_iff, ===_refl, string_eq, option_eq, filter, find, In, Distinct, In-map,
  if◌then◌else◌, Bool-cases, ne_of_test,
}
use etik_bildirim_platformu.Storage.Table.{update_rows}
use etik_bildirim_platformu.Audit.Publisher.{OutboxRow}
use etik_bildirim_platformu.Audit.Spread.{source_outbox_id}
use etik_bildirim_platformu.Audit.Dispatch.{AuditEventRow, is_pending, has_id, mark_sent}

abbrev pub waits : OutboxRow → Bool
waits row = is_pending row.dispatch_status

abbrev pub id_of : OutboxRow → String
id_of row = row.id

abbrev pub source_of : AuditEventRow → Option String
source_of event = source_outbox_id event.metadata_json

pub waits-In : (row : OutboxRow) (rows : List OutboxRow) → In row (filter waits rows) → In row rows
waits-In row [] i = i
waits-In row (r ∷ rows) i = elim (Bool-cases (waits r)) [
  | inl e ↦
      let j : In row (r ∷ filter waits rows) = rw e at i in
      elim j [ inl s ↦ inl s | inr j ↦ inr (waits-In row rows j) ]
  | inr e ↦ inr (waits-In row rows (rw e at i))
]

has_id-fresh : (id : String) (r : OutboxRow) → (r.id ≡ id → ⊥) → has_id id r ≡ false
has_id-fresh id r h = elim (Bool-cases (has_id id r)) [
  | inl e ↦ absurd (h ((===_iff r.id id).0 e))
  | inr e ↦ e
]

update_rows-fresh :
    (id : String) (change : OutboxRow → OutboxRow) (rows : List OutboxRow)
    → (In id (map id_of rows) → ⊥)
    → update_rows (has_id id) change rows ≡ rows
update_rows-fresh id change [] h = refl
update_rows-fresh id change (r ∷ rows) h =
    rw (has_id-fresh id r (λ e. h (inl (sym e))))
      (ap (λ rs. r ∷ rs) (update_rows-fresh id change rows (λ i. h (inr i))))

pub map-id-update_rows :
    (id : String) (now : ℕ) (rows : List OutboxRow)
    → map id_of (update_rows (has_id id) (mark_sent now) rows) ≡ map id_of rows
map-id-update_rows id now [] = refl
map-id-update_rows id now (r ∷ rows) = elim (Bool-cases (has_id id r)) [
  | inl e ↦ rw e (ap (λ is. r.id ∷ is) (map-id-update_rows id now rows))
  | inr e ↦ rw e (ap (λ is. r.id ∷ is) (map-id-update_rows id now rows))
]

-- The first row that waits is the one of its id, and marking it as sent takes it off the queue.
module _ (row : OutboxRow) (rest : List OutboxRow) (now : ℕ) where
  first-apart :
      (r : OutboxRow) (rows : List OutboxRow)
      → filter waits rows ≡ row ∷ rest
      → Distinct (map id_of (r ∷ rows))
      → has_id row.id r ≡ false
  first-apart r rows h (apart, d) =
      let i : In row rows = waits-In row rows (subst (In row) (sym h) (inl refl)) in
      has_id-fresh row.id r
        (λ e. apart (subst (λ k. In k (map id_of rows)) (sym e) (In-map id_of row rows i)))

  pub find-first :
      (rows : List OutboxRow)
      → filter waits rows ≡ row ∷ rest
      → Distinct (map id_of rows)
      → (find (has_id row.id) rows ≡ some row) × (waits row ≡ true)
  find-first [] h d = cc
  find-first (r ∷ rows) h (apart, d) = elim (Bool-cases (waits r)) [
    | inl e ↦
        let both : r ∷ filter waits rows ≡ row ∷ rest = rw e at h in
        let same : r ≡ row = cc in
        (
          subst (λ k. (if has_id k.id r then some r else find (has_id k.id) rows) ≡ some k) same
              (rw (===_refl r.id) refl),
          subst (λ k. waits k ≡ true) same e,
        )
    | inr e ↦
        let later : filter waits rows ≡ row ∷ rest = rw e at h in
        let (found, w) = find-first rows later d in
        (rw (first-apart r rows later (apart, d)) found, w)
  ]

  pub filter-update_rows :
      (rows : List OutboxRow)
      → filter waits rows ≡ row ∷ rest
      → Distinct (map id_of rows)
      → filter waits (update_rows (has_id row.id) (mark_sent now) rows) ≡ rest
  filter-update_rows [] h d = cc
  filter-update_rows (r ∷ rows) h (apart, d) = elim (Bool-cases (waits r)) [
    | inl e ↦
        let both : r ∷ filter waits rows ≡ row ∷ rest = rw e at h in
        let same : r ≡ row = cc in
        let here : has_id row.id r ≡ true =
          subst (λ k. has_id k.id r ≡ true) same (===_refl r.id) in
        let fresh =
          update_rows-fresh row.id (mark_sent now) rows
            (λ i. apart (subst (λ k. In k.id (map id_of rows)) (sym same) i)) in
        let tail : filter waits rows ≡ rest = cc in rw (here, fresh) tail
    | inr e ↦
        let later : filter waits rows ≡ row ∷ rest = rw e at h in
        rw (first-apart r rows later (apart, d), e) (filter-update_rows rows later d)
  ]

pub waits-update_rows :
    (id : String) (now : ℕ) (r : OutboxRow) (rows : List OutboxRow)
    → In r (update_rows (has_id id) (mark_sent now) rows)
    → waits r ≡ true
    → In r rows × (has_id id r ≡ false)
waits-update_rows id now r [] i w = elim i [ ]
waits-update_rows id now r (x ∷ rows) i w = elim (Bool-cases (has_id id x)) [
  | inl e ↦
      let j : In r (mark_sent now x ∷ update_rows (has_id id) (mark_sent now) rows) = rw e at i in
      elim j [
        | inl s ↦ let bad : waits (mark_sent now x) ≡ true = subst (λ k. waits k ≡ true) s w in cc
        | inr j ↦ let (k, f) = waits-update_rows id now r rows j w in (inr k, f)
      ]
  | inr e ↦
      let j : In r (x ∷ update_rows (has_id id) (mark_sent now) rows) = rw e at i in
      elim j [
        | inl s ↦ (inl s, subst (λ k. has_id id k ≡ false) (sym s) e)
        | inr j ↦ let (k, f) = waits-update_rows id now r rows j w in (inr k, f)
      ]
]

pub apart_sym : (a b : String) → (a === b) ≡ false → (b === a) ≡ false
apart_sym a b h = elim (Bool-cases (b === a)) [
  | inl e ↦ absurd (ne_of_test a b h (sym ((===_iff b a).0 e)))
  | inr e ↦ e
]
