-- ===== src/Storage/Table/Absent.antt =====
-- Rows that a table does not have: what statements do to `any_of q xs ≡ false`.
use nexuscloud.Base.{
  ◌≡◌, refl, Bool, true, false, inl, inr, Bool-cases, List, [], ◌∷◌, ◌++◌, if◌then◌else◌, any_of,
  select, map,
}
use mathlib.Core.Path.{fun_ext}
use nexuscloud.Storage.Table.{update_row}

pub either_absent : (b c : Bool) → (if b then true else c) ≡ false → (b ≡ false) × (c ≡ false)
either_absent true c h = cc
either_absent false c h = (refl, h)

pub both_absent : (b c : Bool) → b ≡ false → c ≡ false → (if b then true else c) ≡ false
both_absent true c h k = cc
both_absent false c h k = k

module _ {A : Type 0} (q : A → Bool) where
  pub absent-append :
      (xs : List A) (y : A) → any_of q xs ≡ false → q y ≡ false → any_of q (xs ++ (y ∷ [])) ≡ false
  absent-append [] y h k = both_absent (q y) false k refl
  absent-append (x ∷ xs) y h k =
      let (a, b) = either_absent (q x) _ h in both_absent (q x) _ a (absent-append xs y b k)

  pub absent-select :
      (p : A → Bool) (xs : List A) → any_of q xs ≡ false → any_of q (select p xs) ≡ false
  absent-select p [] h = refl
  absent-select p (x ∷ xs) h =
      let (a, b) = either_absent (q x) _ h in
      let ih = absent-select p xs b in
      elim (Bool-cases (p x)) [ inl e ↦ rw e (both_absent (q x) _ a ih) | inr e ↦ rw e ih ]

  pub absent-update_row :
      (p : A → Bool) (g : A → A) (xs : List A)
      → ((x : A) → q x ≡ false → q (g x) ≡ false)
      → any_of q xs ≡ false
      → any_of q (update_row p g xs) ≡ false
  unfolding update_row
  absent-update_row p g [] k h = refl
  absent-update_row p g (x ∷ xs) k h =
      let (a, b) = either_absent (q x) _ h in
      let ih = absent-update_row p g xs k b in
      elim (Bool-cases (p x)) [
        | inl e ↦ rw e (both_absent (q (g x)) _ (k x a) b)
        | inr e ↦ rw e (both_absent (q x) _ a ih)
      ]

  pub absent-map :
      (g : A → A) (xs : List A)
      → ((x : A) → q x ≡ false → q (g x) ≡ false)
      → any_of q xs ≡ false
      → any_of q (map g xs) ≡ false
  absent-map g [] k h = refl
  absent-map g (x ∷ xs) k h =
      let (a, b) = either_absent (q x) _ h in both_absent (q (g x)) _ (k x a) (absent-map g xs k b)

pub absent-same :
    {A : Type 0} (p q : A → Bool) (xs : List A)
    → ((x : A) → p x ≡ q x)
    → any_of p xs ≡ false
    → any_of q xs ≡ false
absent-same p q xs same h = rw (← fun_ext same) h
