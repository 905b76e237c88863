-- ===== src/Storage/Table.antt =====
-- A table behind the operations of the database client (`findMany`, `findFirst`, `create`,
-- `updateMany`), which is not code of the repository. Rows are read in the order of their
-- creation; a row that breaks a unique constraint of schema.prisma is not created.
use etik_bildirim_platformu.Prelude.{
  ◌≡◌, refl, Bool, Option, none, some, List, [], ◌∷◌, ◌++◌, find, any, if◌then◌else◌,
}

abbrev pub update_rows {ℓ} : {Row : Type ℓ} → (Row → Bool) → (Row → Row) → List Row → List Row
update_rows chosen change [] = []
update_rows chosen change (row ∷ rows) =
    (if chosen row then change row else row) ∷ update_rows chosen change rows

-- The parameter: the stored rows, and what creating and updating do to them.
pub record Table (Row : Type 0) : Type 1 where
  pub Store : Type 0
  pub rows : Store → List Row
  pub insert : Row → Store → Store
  pub update : (Row → Bool) → (Row → Row) → Store → Store
  pub rows-insert : (row : Row) (s : Store) → rows (insert row s) ≡ rows s ++ row ∷ []
  pub rows-update :
      (chosen : Row → Bool) (change : Row → Row) (s : Store)
      → rows (update chosen change s) ≡ update_rows chosen change (rows s)

module _ {Row : Type 0} (table : Table Row) where
  -- `findFirst({ where })`
  abbrev pub find_first : (Row → Bool) → table.Store → Option Row
  find_first where_ s = find where_ (table.rows s)

  -- `create`, under a unique constraint; `none` is the error P2002.
  abbrev pub create : (Row → Row → Bool) → Row → table.Store → Option table.Store
  create clashes row s =
      if any (clashes row) (table.rows s) then none else some (table.insert row s)

-- A table that stores the list of its rows meets the interface.
abbrev pub list_table : (Row : Type 0) → Table Row
list_table Row = record {
  Store = List Row;
  rows = λ s. s;
  insert = λ row s. s ++ row ∷ [];
  update = update_rows;
  rows-insert = λ row s. refl;
  rows-update = λ chosen change s. refl;
}
