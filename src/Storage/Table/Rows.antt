-- ===== src/Storage/Table/Rows.antt =====
-- What statements on one row leave alone.
use nexuscloud.Base.{
  ◌≡◌, refl, ap, Bool, true, false, Option, some, List, [], ◌∷◌, ◌++◌, if◌then◌else◌, select,
  find_first, any_of, Bool-cases, inl, inr, subst,
}
use nexuscloud.Storage.Table.{update_row, delete_row}

module _ {A : Type 0} (p q : A → Bool) where
  -- An update of a row outside a selection that stays outside leaves the selection alone.
  pub select-update_row :
      (g : A → A) (fs : List A)
      → ((f : A) → find_first p fs ≡ some f → (q f ≡ false) × (q (g f) ≡ false))
      → select q (update_row p g fs) ≡ select q fs
  unfolding update_row
  select-update_row g [] h = refl
  select-update_row g (f ∷ fs) h = elim (Bool-cases (p f)) [
    | inl e ↦ let k = h f (rw e refl) in rw e (rw (k.0, k.1) refl)
    | inr e ↦ rw e (rw (select-update_row g fs (λ f' e'. h f' (rw e e'))) refl)
  ]

  pub select-delete_row :
      (fs : List A)
      → ((f : A) → find_first p fs ≡ some f → q f ≡ false)
      → select q (delete_row p fs) ≡ select q fs
  unfolding delete_row
  select-delete_row [] h = refl
  select-delete_row (f ∷ fs) h = elim (Bool-cases (p f)) [
    | inl e ↦ rw e (rw (h f (rw e refl)) refl)
    | inr e ↦ rw e (rw (select-delete_row fs (λ f' e'. h f' (rw e e'))) refl)
  ]

module _ {A : Type 0} (q : A → Bool) where
  pub select-append : (fs gs : List A) → select q (fs ++ gs) ≡ select q fs ++ select q gs
  select-append [] gs = refl
  select-append (f ∷ fs) gs = elim (Bool-cases (q f)) [
    | inl e ↦ rw e (ap (λ r. f ∷ r) (select-append fs gs))
    | inr e ↦ rw e (select-append fs gs)
  ]

-- The row that a statement changes is the first that passes the test.
module _ {A : Type 0} (p : A → Bool) where
  pub later_row :
      (x y : A) (r : Option A) → p y ≡ false → (if p y then some y else r) ≡ some x → r ≡ some x
  later_row x y r e h = subst (λ b. (if b then some y else r) ≡ some x) e h

  pub first_row :
      (x y : A) (r : Option A) → p y ≡ true → (if p y then some y else r) ≡ some x → y ≡ x
  first_row x y r e h = some_injective (subst (λ b. (if b then some y else r) ≡ some x) e h)
    where
      some_injective : some y ≡ some x → y ≡ x
      some_injective k = cc

  pub any_of-found : (fs : List A) (f : A) → find_first p fs ≡ some f → any_of p fs ≡ true
  any_of-found [] f h = cc
  any_of-found (g ∷ fs) f h = elim (Bool-cases (p g)) [
    | inl e ↦ rw e refl
    | inr e ↦ rw e (any_of-found fs f (later_row f g _ e h))
  ]

  pub find_first-update_row :
      (g : A → A) (fs : List A) (f : A)
      → find_first p fs ≡ some f
      → p (g f) ≡ true
      → find_first p (update_row p g fs) ≡ some (g f)
  unfolding update_row
  find_first-update_row g [] f h k = cc
  find_first-update_row g (x ∷ fs) f h k = elim (Bool-cases (p x)) [
    | inl e ↦ rw (e, first_row f x _ e h, k) refl
    | inr e ↦ rw (e, e) (find_first-update_row g fs f (later_row f x _ e h) k)
  ]

  -- A second update that takes the first one back.
  pub update_row-undo :
      (g k : A → A) (fs : List A) (f : A)
      → find_first p fs ≡ some f
      → p (g f) ≡ true
      → k (g f) ≡ f
      → update_row p k (update_row p g fs) ≡ fs
  unfolding update_row
  update_row-undo g k [] f h q u = refl
  update_row-undo g k (x ∷ fs) f h q u = elim (Bool-cases (p x)) [
    | inl e ↦ rw (e, first_row f x _ e h, q, u) refl
    | inr e ↦ rw (e, e, update_row-undo g k fs f (later_row f x _ e h) q u) refl
  ]
