-- ===== src/Storage/Table/Every.antt =====
-- What every row of a table has, the changed, the selected and the sorted rows have too.
use nexuscloud.Base.{◌≡◌, Bool, true, Bool-cases, inl, inr, List, [], ◌∷◌, All, select}
use nexuscloud.Storage.Table.{update_row, delete_row, insert_row, sort_rows}

module _ {A : Type 0} (Q : A → Type 0) where
  pub All-update_row :
      (p : A → Bool) (g : A → A) (xs : List A)
      → ((x : A) → Q x → Q (g x))
      → All Q xs
      → All Q (update_row p g xs)
  unfolding update_row
  All-update_row p g [] k h = tt
  All-update_row p g (x ∷ xs) k h = elim (Bool-cases (p x)) [
    | inl y ↦ rw y (k x h.0, h.1)
    | inr n ↦ rw n (h.0, All-update_row p g xs k h.1)
  ]

  pub All-delete_row : (p : A → Bool) (xs : List A) → All Q xs → All Q (delete_row p xs)
  unfolding delete_row
  All-delete_row p [] h = tt
  All-delete_row p (x ∷ xs) h = elim (Bool-cases (p x)) [
    | inl y ↦ rw y h.1
    | inr n ↦ rw n (h.0, All-delete_row p xs h.1)
  ]

  -- The selected rows also pass the test.
  pub All-select :
      (p : A → Bool) (xs : List A) → All Q xs → All (λ x. Q x × (p x ≡ true)) (select p xs)
  All-select p [] h = tt
  All-select p (x ∷ xs) h = elim (Bool-cases (p x)) [
    | inl y ↦ rw y ((h.0, y), All-select p xs h.1)
    | inr n ↦ rw n (All-select p xs h.1)
  ]

  All-insert_row :
      (before : A → A → Bool) (x : A) (xs : List A)
      → Q x
      → All Q xs
      → All Q (insert_row before x xs)
  unfolding insert_row
  All-insert_row before x [] q h = (q, tt)
  All-insert_row before x (y ∷ xs) q h = elim (Bool-cases (before y x)) [
    | inl b ↦ rw b (h.0, All-insert_row before x xs q h.1)
    | inr n ↦ rw n (q, h)
  ]

  pub All-sort_rows : (before : A → A → Bool) (xs : List A) → All Q xs → All Q (sort_rows before xs)
  unfolding sort_rows
  All-sort_rows before [] h = tt
  All-sort_rows before (x ∷ xs) h =
      All-insert_row before x (sort_rows before xs) h.0 (All-sort_rows before xs h.1)
