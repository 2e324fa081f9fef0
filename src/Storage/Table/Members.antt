-- ===== src/Storage/Table/Members.antt =====
-- Rows of a table, and what a search among them finds.
use nexuscloud.Base.{
  ◌≡◌, refl, subst, Bool, true, ◌⊎◌, inl, inr, Bool-cases, some, List, [], ◌∷◌, ◌++◌, if◌then◌else◌,
  find_first, any_of,
}
use nexuscloud.Storage.Table.{update_row}

-- The row is one of the table.
abbrev pub IsRow : {A : Type 0} → A → List A → Type 0
IsRow a [] = ⊥
IsRow a (b ∷ bs) = (a ≡ b) ⊎ IsRow a bs

module _ {A : Type 0} (p : A → Bool) where
  pub any_of-IsRow : (xs : List A) → any_of p xs ≡ true → (x : A) × IsRow x xs × (p x ≡ true)
  any_of-IsRow [] h = cc
  any_of-IsRow (x ∷ xs) h = elim (Bool-cases (p x)) [
    | inl e ↦ (x, inl refl, e)
    | inr e ↦
        let (y, r, q) =
          any_of-IsRow xs (subst (λ b. (if b then true else any_of p xs) ≡ true) e h) in
        (y, inr r, q)
  ]

  pub IsRow-any_of : (xs : List A) (x : A) → IsRow x xs → p x ≡ true → any_of p xs ≡ true
  IsRow-any_of [] x r q = absurd r
  IsRow-any_of (y ∷ xs) x (inl e) q = rw (subst (λ z. p z ≡ true) e q) refl
  IsRow-any_of (y ∷ xs) x (inr r) q = elim (Bool-cases (p y)) [
    | inl e ↦ rw e refl
    | inr e ↦ rw e (IsRow-any_of xs x r q)
  ]

  pub find_first-IsRow :
      (xs : List A) (x : A) → find_first p xs ≡ some x → IsRow x xs × (p x ≡ true)
  find_first-IsRow [] x h = cc
  find_first-IsRow (y ∷ xs) x h = elim (Bool-cases (p y)) [
    | inl e ↦
        let same : y ≡ x =
          some_injective (subst (λ b. (if b then some y else find_first p xs) ≡ some x) e h) in
        (inl (cc), subst (λ z. p z ≡ true) same e)
    | inr e ↦
        let (r, q) =
          find_first-IsRow xs x
            (subst (λ b. (if b then some y else find_first p xs) ≡ some x) e h) in
        (inr r, q)
  ]
    where
      some_injective : {a b : A} → some a ≡ some b → a ≡ b
      some_injective k = cc

  -- A row of an updated table was a row before, or is the update of one that passed the test.
  pub IsRow-update_row :
      (g : A → A) (xs : List A) (x : A)
      → IsRow x (update_row p g xs)
      → IsRow x xs ⊎ ((y : A) × IsRow y xs × (p y ≡ true) × (x ≡ g y))
  unfolding update_row
  IsRow-update_row g [] x r = absurd r
  IsRow-update_row g (y ∷ xs) x r = elim (Bool-cases (p y)) [
    | inl e ↦ changed e (subst (λ b. IsRow x (if b then g y ∷ xs else y ∷ update_row p g xs)) e r)
    | inr e ↦
        kept (IsRow-update_row g xs x)
          (subst (λ b. IsRow x (if b then g y ∷ xs else y ∷ update_row p g xs)) e r)
  ]
    where
      changed :
          p y ≡ true
          → IsRow x (g y ∷ xs)
          → IsRow x (y ∷ xs) ⊎ ((z : A) × IsRow z (y ∷ xs) × (p z ≡ true) × (x ≡ g z))
      changed e (inl q) = inr (y, inl refl, e, q)
      changed e (inr q) = inl (inr q)

      later :
          IsRow x xs ⊎ ((z : A) × IsRow z xs × (p z ≡ true) × (x ≡ g z))
          → IsRow x (y ∷ xs) ⊎ ((z : A) × IsRow z (y ∷ xs) × (p z ≡ true) × (x ≡ g z))
      later (inl q) = inl (inr q)
      later (inr (z, r, q, k)) = inr (z, inr r, q, k)

      kept :
          (IsRow x (update_row p g xs)
            → IsRow x xs ⊎ ((z : A) × IsRow z xs × (p z ≡ true) × (x ≡ g z)))
          → IsRow x (y ∷ update_row p g xs)
          → IsRow x (y ∷ xs) ⊎ ((z : A) × IsRow z (y ∷ xs) × (p z ≡ true) × (x ≡ g z))
      kept ih (inl q) = inl (inl q)
      kept ih (inr q) = later (ih q)

pub IsRow-append : {A : Type 0} (xs : List A) (y : A) → IsRow y (xs ++ (y ∷ []))
IsRow-append [] y = inl refl
IsRow-append (x ∷ xs) y = inr (IsRow-append xs y)

pub append-IsRow :
    {A : Type 0} (xs : List A) (y x : A) → IsRow x (xs ++ (y ∷ [])) → IsRow x xs ⊎ (x ≡ y)
append-IsRow [] y x (inl e) = inr e
append-IsRow [] y x (inr e) = absurd e
append-IsRow (z ∷ xs) y x (inl e) = inl (inl e)
append-IsRow (z ∷ xs) y x (inr r) = later (append-IsRow xs y x r)
  where
    later : IsRow x xs ⊎ (x ≡ y) → IsRow x (z ∷ xs) ⊎ (x ≡ y)
    later (inl q) = inl (inr q)
    later (inr q) = inr q
