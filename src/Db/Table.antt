-- ===== src/Db/Table.antt =====
-- What the SQL statements of internal/db do to one table: SELECT, UPDATE and DELETE with a WHERE
-- clause, and INSERT under a PRIMARY KEY or UNIQUE column. A table is its rows in the order of
-- insertion; a column that may be NULL is an `Option`, and NULL equals nothing.
pub mod Laws
pub mod Rows
use go_key_pool_system.Prelude.{
  ◌≡◌, ℕ, suc, String, Bool, true, false, Option, none, some, List, [], ◌∷◌, ◌++◌, ◌==◌,
  if◌then◌else◌, str_eq,
}

-- The errors of the adapter, without their texts: the driver fails, a constraint of the table is
-- broken, or no row was there.
pub data DbError : Type 0 where
  unavailable constraint not_found : DbError

pub data Answer (A : Type 0) : Type 0 where
  ok : A → Answer A
  err : DbError → Answer A

-- Whether this value of a column is `k`.
abbrev pub holds : String → Option String → Bool
holds k none = false
holds k (some c) = str_eq c k

abbrev pub is_some : {A : Type 0} → Option A → Bool
is_some none = false
is_some (some a) = true

module _ {A : Type 0} where
  -- SELECT ... WHERE p, its first row.
  abbrev pub select_one : (A → Bool) → List A → Option A
  select_one p [] = none
  select_one p (x ∷ xs) = if p x then some x else select_one p xs

  -- UPDATE ... SET f WHERE p
  abbrev pub update_where : (A → Bool) → (A → A) → List A → List A
  update_where p f [] = []
  update_where p f (x ∷ xs) = (if p x then f x else x) ∷ update_where p f xs

  -- DELETE ... WHERE p
  abbrev pub delete_where : (A → Bool) → List A → List A
  delete_where p [] = []
  delete_where p (x ∷ xs) = let rest = delete_where p xs in if p x then rest else x ∷ rest

  -- SELECT ... WHERE p
  abbrev pub select_where : (A → Bool) → List A → List A
  select_where p [] = []
  select_where p (x ∷ xs) = let rest = select_where p xs in if p x then x ∷ rest else rest

  -- RowsAffected
  abbrev pub rows_affected : (A → Bool) → List A → ℕ
  rows_affected p [] = 0
  rows_affected p (x ∷ xs) = let n = rows_affected p xs in if p x then suc n else n

  -- Whether a column has this value in a row.
  abbrev pub has : (A → Option String) → String → A → Bool
  has column k x = holds k (column x)

  -- Whether a value of the column stands in the table already.
  abbrev pub is_taken : (A → Option String) → Option String → List A → Bool
  is_taken column none xs = false
  is_taken column (some k) xs = is_some (select_one (has column k) xs)

  -- No two rows have the same value in the column.
  abbrev pub Unique : (A → Option String) → List A → Type 0
  Unique column [] = Unit
  Unique column (x ∷ xs) = (is_taken column (column x) xs ≡ false) × Unique column xs

-- ExecContext: where the driver fails, the table stays as it was.
abbrev pub exec : {A : Type 0} → Bool → List A → List A → Answer Unit × List A
exec up after xs = if up then (ok tt, after) else (err unavailable, xs)

-- INSERT of a row, where a constraint may refuse it.
abbrev pub exec_insert : {A : Type 0} → Bool → Bool → A → List A → Answer Unit × List A
exec_insert up refused row xs =
    if up
    then (if refused then (err constraint, xs) else (ok tt, xs ++ row ∷ []))
    else (err unavailable, xs)

-- execExpectingOneRow, of a statement that affects the rows of `p`.
unfoldable pub exec_expecting_one_row :
    {A : Type 0} → Bool → (A → Bool) → List A → List A → Answer Unit × List A
exec_expecting_one_row up p after xs =
    if up
    then (if rows_affected p xs == 0 then (err not_found, after) else (ok tt, after))
    else (err unavailable, xs)

-- QueryRowContext and Scan, where no row is an error.
unfoldable pub query_row : {A : Type 0} → Bool → (A → A) → (A → Bool) → List A → Answer A
query_row up scan p xs =
    if up
    then (elim (select_one p xs) [ none ↦ err not_found | some x ↦ ok (scan x) ])
    else err unavailable
