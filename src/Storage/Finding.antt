-- ===== src/Storage/Finding.antt =====
-- What is found in a table after a row was created or rows were updated.
use etik_bildirim_platformu.Prelude.{
  ◌≡◌, refl, ap, inl, inr, Bool, true, false, none, some, List, [], ◌∷◌, ◌++◌, arith, find, filter,
  any, length, ◌≤◌, if◌then◌else◌, Bool-cases,
}
use etik_bildirim_platformu.Storage.Table.{Table, create, update_rows}

module _ {ℓ} {Row : Type ℓ} where
  pub find-test :
      (p : Row → Bool) (rows : List Row) {row : Row} → find p rows ≡ some row → p row ≡ true
  find-test p [] h = cc
  find-test p (r ∷ rows) {row} h = elim (Bool-cases (p r)) [
    | inl e ↦ let found : some r ≡ some row = rw e at h in cc
    | inr e ↦ find-test p rows (rw e at h)
  ]

  pub find-++-some :
      (p : Row → Bool) (rows more : List Row) {row : Row}
      → find p rows ≡ some row
      → find p (rows ++ more) ≡ some row
  find-++-some p [] more h = cc
  find-++-some p (r ∷ rows) more {row} h = elim (Bool-cases (p r)) [
    | inl e ↦ let found : some r ≡ some row = rw e at h in rw e found
    | inr e ↦ rw e (find-++-some p rows more (rw e at h))
  ]

  pub find-++-none :
      (p : Row → Bool) (rows more : List Row)
      → find p rows ≡ none
      → find p (rows ++ more) ≡ find p more
  find-++-none p [] more h = refl
  find-++-none p (r ∷ rows) more h = elim (Bool-cases (p r)) [
    | inl e ↦ let found : some r ≡ none = rw e at h in cc
    | inr e ↦ rw e (find-++-none p rows more (rw e at h))
  ]

  pub find-++-other :
      (p : Row → Bool) (rows : List Row) (row : Row)
      → p row ≡ false
      → find p (rows ++ row ∷ []) ≡ find p rows
  find-++-other p [] row h = rw h refl
  find-++-other p (r ∷ rows) row h =
      ap (λ rest. if p r then some r else rest) (find-++-other p rows row h)

  pub filter-++ :
      (p : Row → Bool) (rows more : List Row)
      → filter p (rows ++ more) ≡ filter p rows ++ filter p more
  filter-++ p [] more = refl
  filter-++ p (r ∷ rows) more = ground (arith, filter-++ p rows more)

  pub filter-++-other :
      (p : Row → Bool) (rows : List Row) (row : Row)
      → p row ≡ false
      → filter p (rows ++ row ∷ []) ≡ filter p rows
  filter-++-other p [] row h = rw h refl
  filter-++-other p (r ∷ rows) row h = ground (arith, filter-++-other p rows row h)

  pub filter_of_find-none :
      (p : Row → Bool) (rows : List Row) → find p rows ≡ none → filter p rows ≡ []
  filter_of_find-none p [] h = refl
  filter_of_find-none p (r ∷ rows) h = elim (Bool-cases (p r)) [
    | inl e ↦ let found : some r ≡ none = rw e at h in cc
    | inr e ↦ rw e (filter_of_find-none p rows (rw e at h))
  ]

  pub filter_of_any-false :
      (p : Row → Bool) (rows : List Row) → any p rows ≡ false → filter p rows ≡ []
  filter_of_any-false p [] h = refl
  filter_of_any-false p (r ∷ rows) h = elim (Bool-cases (p r)) [
    | inl e ↦ let bad : true ≡ false = rw e at h in cc
    | inr e ↦ rw e (filter_of_any-false p rows (rw e at h))
  ]

  pub find_of_any :
      (p : Row → Bool) (rows : List Row)
      → any p rows ≡ true
      → (row : Row) × (find p rows ≡ some row)
  find_of_any p [] h = cc
  find_of_any p (r ∷ rows) h = elim (Bool-cases (p r)) [
    | inl e ↦ (r, rw e refl)
    | inr e ↦ let (row, found) = find_of_any p rows (rw e at h) in (row, rw e found)
  ]

  pub length-filter-some :
      (p : Row → Bool) (rows : List Row) {row : Row}
      → find p rows ≡ some row
      → 1 ≤ length (filter p rows)
  length-filter-some p [] h = cc
  length-filter-some p (r ∷ rows) {row} h = elim (Bool-cases (p r)) [
    | inl e ↦ rw e (omega arith)
    | inr e ↦ rw e (length-filter-some p rows (rw e at h))
  ]

  module _ (p chosen : Row → Bool) (change : Row → Row) where
    -- The first row that meets `p`, when the update leaves `p` as it is.
    pub find-update_rows :
        (rows : List Row) {row : Row}
        → ((r : Row) → p (change r) ≡ p r)
        → find p rows ≡ some row
        → chosen row ≡ true
        → find p (update_rows chosen change rows) ≡ some (change row)
    find-update_rows [] keeps h c = cc
    find-update_rows (r ∷ rows) {row} keeps h c = elim (Bool-cases (p r)) [
      | inl e ↦
          let found : some r ≡ some row = rw e at h in
          let same : r ≡ row = cc in
          let hit : chosen r ≡ true = rw same c in rw (hit, keeps r, e) (ap some (ap change same))
      | inr e ↦
          let rest = find-update_rows rows keeps (rw e at h) c in
          elim (Bool-cases (chosen r)) [ inl q ↦ rw (q, keeps r, e) rest | inr q ↦ rw (q, e) rest ]
    ]

    -- An update of rows that do not meet `p`.
    pub find-update_rows-other :
        (rows : List Row)
        → ((r : Row) → chosen r ≡ true → p r ≡ false)
        → ((r : Row) → p (change r) ≡ p r)
        → find p (update_rows chosen change rows) ≡ find p rows
    find-update_rows-other [] apart keeps = refl
    find-update_rows-other (r ∷ rows) apart keeps =
        let rest = find-update_rows-other rows apart keeps in
        elim (Bool-cases (chosen r)) [
          | inl q ↦ rw (q, keeps r, apart r q) rest
          | inr q ↦ rw q (ap (λ o. if p r then some r else o) rest)
        ]

-- A row that was created clashes with none.
pub create-eq-some :
    {Row : Type 0} (table : Table Row) (clashes : Row → Row → Bool) (row : Row) (s : table.Store)
    {stored : table.Store}
    → create table clashes row s ≡ some stored
    → (any (clashes row) (table.rows s) ≡ false) × (stored ≡ table.insert row s)
create-eq-some table clashes row s {stored} h =
    elim (Bool-cases (any (clashes row) (table.rows s))) [
      | inl e ↦ let bad : none ≡ some stored = rw e at h in cc
      | inr e ↦ let good : some (table.insert row s) ≡ some stored = rw e at h in (e, cc)
    ]
