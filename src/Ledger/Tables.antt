-- ===== src/Ledger/Tables.antt =====
-- A table of which rows are only ever added: `INSERT OR IGNORE` under UNIQUE constraints, and the
-- comparison with the row that is already there, as the three appending methods write it.
use kraken_knight.Base.{
  ℕ, String, Bool, true, false, ◌&&◌, ◌||◌, Option, none, some, List, [], ◌∷◌, ◌++◌, ◌==◌,
  if◌then◌else◌, any, ledger_conflict, Result, ok, err, ◌>>◌, text_eq,
}

-- A value of a column, and of the tuples that are compared.
pub data Cell : Type 0 where
  absent : Cell
  integer : ℕ → Cell
  textual : String → Cell

abbrev pub cell_eq : Cell → Cell → Bool
cell_eq absent absent = true
cell_eq (integer a) (integer b) = a == b
cell_eq (textual a) (textual b) = text_eq a b
cell_eq a b = false

abbrev pub cells_eq : List Cell → List Cell → Bool
cells_eq [] [] = true
cells_eq (a ∷ as') (b ∷ bs) = cell_eq a b && cells_eq as' bs
cells_eq as' bs = false

-- A pair of rows agrees on the columns of one of the constraints.
abbrev pub any_equal : List (List Cell) → List (List Cell) → Bool
any_equal (k ∷ ks) (l ∷ ls) = cells_eq k l || any_equal ks ls
any_equal ks ls = false

-- The first row that the test holds of.
abbrev pub find_row {ℓ} : {A : Type ℓ} → (A → Bool) → List A → Option A
find_row p [] = none
find_row p (x ∷ xs) = if p x then some x else find_row p xs

-- What the method says of a table: the columns of its UNIQUE constraints, those of the WHERE
-- clause, those it compares, and its two messages.
pub record Table (A : Type 0) : Type 0 where
  pub keys : A → List (List Cell)
  pub scope : A → List Cell
  pub content : A → List Cell
  pub collision : String
  pub different : String

module _ {A : Type 0} (t : Table A) where
  abbrev pub clashes : A → A → Bool
  clashes new old = any_equal (t.keys new) (t.keys old)

  abbrev pub same_scope : A → A → Bool
  same_scope new old = cells_eq (t.scope new) (t.scope old)

  -- An insertion that was not ignored checks the foreign key, `reference`; the other way it is a
  -- retry, and must agree with the stored row.
  unfoldable pub write_once : Result (Unit {0}) → A → List A → Result (List A)
  write_once reference new rows =
      if any (clashes new) rows
      then elim (find_row (same_scope new) rows) [
        | none ↦ err (ledger_conflict t.collision)
        | some old ↦
            if cells_eq (t.content old) (t.content new)
            then ok rows
            else err (ledger_conflict t.different)
      ]
      else (reference >> ok (rows ++ new ∷ []))
