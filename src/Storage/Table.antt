-- ===== src/Storage/Table.antt =====
-- Tables as lists of rows: what the SQL statements of nexuscloud/internal/storage do to them.
pub mod Rows
pub mod Members
pub mod Absent
pub mod Distinct
pub mod Every
pub mod Times
use nexuscloud.Base.{ℕ, Bool, true, false, List, [], ◌∷◌, Str, if◌then◌else◌, ltb, any_of, ◌==◌}

module _ {A : Type 0} where
  -- `UPDATE` of the one row that passes the test.
  unfoldable pub update_row : (A → Bool) → (A → A) → List A → List A
  update_row p g [] = []
  update_row p g (f ∷ fs) = let rest = update_row p g fs in if p f then g f ∷ fs else f ∷ rest

  -- `DELETE` of the one row that passes the test.
  unfoldable pub delete_row : (A → Bool) → List A → List A
  delete_row p [] = []
  delete_row p (f ∷ fs) = let rest = delete_row p fs in if p f then fs else f ∷ rest

  -- `ORDER BY`: a row goes in front of the first that does not come before it.
  unfoldable pub insert_row : (A → A → Bool) → A → List A → List A
  insert_row before f [] = f ∷ []
  insert_row before f (g ∷ gs) =
      let rest = insert_row before f gs in if before g f then g ∷ rest else f ∷ g ∷ gs

  unfoldable pub sort_rows : (A → A → Bool) → List A → List A
  unfolding insert_row
  sort_rows before [] = []
  sort_rows before (f ∷ fs) = insert_row before f (sort_rows before fs)

-- No two rows are the same, for a key.
unfoldable pub distinct : {A : Type 0} → (A → A → Bool) → List A → Bool
distinct same [] = true
distinct same (f ∷ fs) = let rest = distinct same fs in if any_of (same f) fs then false else rest

-- The order of names: byte by byte.
unfoldable pub str_lt : Str → Str → Bool
str_lt [] [] = false
str_lt [] (y ∷ ys) = true
str_lt (x ∷ xs) [] = false
str_lt (x ∷ xs) (y ∷ ys) = let rest = str_lt xs ys in if x == y then rest else ltb x y
