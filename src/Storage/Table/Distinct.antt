-- ===== src/Storage/Table/Distinct.antt =====
-- Keys stay unique under statements on one row.
use nexuscloud.Base.{
  ◌≡◌, ◌≢◌, refl, sym, ◌∙◌, ap, Bool, true, false, not, Bool-cases, inl, inr, some, List, [], ◌∷◌,
  ◌++◌, map, if◌then◌else◌, any_of, find_first, select, ◌&&◌,
}
use nexuscloud.Storage.Table.Rows.{first_row, later_row}
use nexuscloud.Storage.Table.Absent.{either_absent, absent-append, absent-select}
use nexuscloud.Storage.Table.{update_row, delete_row, distinct}

if_eq_true : (b c : Bool) → (if b then false else c) ≡ true → (b ≡ false) × (c ≡ true)
if_eq_true true c h = cc
if_eq_true false c h = (refl, h)

outside : (b c : Bool) → (b && not c) ≡ false → c ≡ false → b ≡ false
outside true c h k = sym (negation c k) ∙ h
  where
    negation : (c : Bool) → c ≡ false → not c ≡ true
    negation true k = cc
    negation false k = refl
outside false c h k = refl

module _ {A : Type 0} (q : A → Bool) where
  any_of-update_row :
      (p : A → Bool) (g : A → A) (xs : List A)
      → ((x : A) → q (g x) ≡ q x)
      → any_of q (update_row p g xs) ≡ any_of q xs
  unfolding update_row
  any_of-update_row p g [] h = refl
  any_of-update_row p g (x ∷ xs) h = elim (Bool-cases (p x)) [
    | inl e ↦ rw (e, h x) refl
    | inr e ↦ rw (e, any_of-update_row p g xs h) refl
  ]

  any_of-map :
      (g : A → A) (xs : List A) → ((x : A) → q (g x) ≡ q x) → any_of q (map g xs) ≡ any_of q xs
  any_of-map g [] h = refl
  any_of-map g (x ∷ xs) h = rw (h x, any_of-map g xs h) refl

  any_of-delete_row :
      (p : A → Bool) (xs : List A) → any_of q xs ≡ false → any_of q (delete_row p xs) ≡ false
  unfolding delete_row
  any_of-delete_row p [] h = refl
  any_of-delete_row p (x ∷ xs) h =
      let (a, b) = either_absent (q x) (any_of q xs) h in
      elim (Bool-cases (p x)) [
        | inl e ↦ rw (e, b) refl
        | inr e ↦ rw (e, a, any_of-delete_row p xs b) refl
      ]

module _ {A : Type 0} (same : A → A → Bool) where
  -- A change that leaves the key alone.
  pub distinct-update_row :
      (p : A → Bool) (g : A → A) (xs : List A)
      → ((x y : A) → same x (g y) ≡ same x y)
      → ((x y : A) → same (g x) y ≡ same x y)
      → distinct same (update_row p g xs) ≡ distinct same xs
  unfolding update_row distinct
  distinct-update_row p g [] h k = refl
  distinct-update_row p g (x ∷ xs) h k = elim (Bool-cases (p x)) [
    | inl e ↦ rw e (
        ap (λ r. if r then false else distinct same xs)
          (any_of-same (same (g x)) (same x) xs (k x)))
    | inr e ↦ rw (e, any_of-update_row (same x) p g xs (h x), distinct-update_row p g xs h k) refl
  ]
    where
      any_of-same :
          (q r : A → Bool) (ys : List A) → ((y : A) → q y ≡ r y) → any_of q ys ≡ any_of r ys
      any_of-same q r [] h = refl
      any_of-same q r (y ∷ ys) h = rw (h y, any_of-same q r ys h) refl

  pub distinct-map :
      (g : A → A) (xs : List A)
      → ((x y : A) → same (g x) (g y) ≡ same x y)
      → distinct same (map g xs) ≡ distinct same xs
  unfolding distinct
  distinct-map g [] h = refl
  distinct-map g (x ∷ xs) h =
      rw (any_of-mapped (same (g x)) (same x) xs (h x), distinct-map g xs h) refl
    where
      any_of-mapped :
          (q r : A → Bool) (ys : List A)
          → ((y : A) → q (g y) ≡ r y)
          → any_of q (map g ys) ≡ any_of r ys
      any_of-mapped q r [] h = refl
      any_of-mapped q r (y ∷ ys) h = rw (h y, any_of-mapped q r ys h) refl

  pub distinct-delete_row :
      (p : A → Bool) (xs : List A)
      → distinct same xs ≡ true
      → distinct same (delete_row p xs) ≡ true
  unfolding delete_row distinct
  distinct-delete_row p [] h = refl
  distinct-delete_row p (x ∷ xs) h =
      let (a, b) = if_eq_true (any_of (same x) xs) (distinct same xs) h in
      elim (Bool-cases (p x)) [
        | inl e ↦ rw e b
        | inr e ↦ rw (e, any_of-delete_row (same x) p xs a, distinct-delete_row p xs b) refl
      ]

  pub distinct_tail :
      (x : A) (xs : List A)
      → distinct same (x ∷ xs) ≡ true
      → (any_of (same x) xs ≡ false) × (distinct same xs ≡ true)
  unfolding distinct
  distinct_tail x xs h = if_eq_true (any_of (same x) xs) (distinct same xs) h

  pub distinct-select :
      (p : A → Bool) (xs : List A) → distinct same xs ≡ true → distinct same (select p xs) ≡ true
  unfolding distinct
  distinct-select p [] h = refl
  distinct-select p (x ∷ xs) h =
      let (a, b) = if_eq_true (any_of (same x) xs) (distinct same xs) h in
      elim (Bool-cases (p x)) [
        | inl e ↦ rw (e, absent-select (same x) p xs a, distinct-select p xs b) refl
        | inr e ↦ rw e (distinct-select p xs b)
      ]

  pub distinct-append :
      (xs : List A) (y : A)
      → ((x : A) → same x y ≡ same y x)
      → distinct same xs ≡ true
      → any_of (same y) xs ≡ false
      → distinct same (xs ++ (y ∷ [])) ≡ true
  unfolding distinct
  distinct-append [] y c h k = refl
  distinct-append (x ∷ xs) y c h k =
      let (a, b) = if_eq_true (any_of (same x) xs) (distinct same xs) h in
      let (m, n) = either_absent (same y x) (any_of (same y) xs) k in
      rw (absent-append (same x) xs y a (c x ∙ m), distinct-append xs y c b n) refl

-- A change of the key of the first row that passes `p`, when no other row has the new key and no
-- other row passes `p`.
module _ {A : Type 0} (same : A → A → Bool) (p : A → Bool) (g : A → A) where
  rekeyed_none :
      (x f : A) (xs : List A)
      → find_first p xs ≡ some f
      → same x (g f) ≡ false
      → any_of (same x) xs ≡ false
      → any_of (same x) (update_row p g xs) ≡ false
  unfolding update_row
  rekeyed_none x f [] h k a = refl
  rekeyed_none x f (y ∷ ys) h k a =
      let (b, c) = either_absent (same x y) (any_of (same x) ys) a in
      elim (Bool-cases (p y)) [
        | inl e ↦ rw (e, first_row p f y _ e h, k, c) refl
        | inr e ↦ rw (e, b, rekeyed_none x f ys (later_row p f y _ e h) k c) refl
      ]

  module _ (id_same : A → A → Bool)
      (key : (x y : A) → p x ≡ true → p y ≡ true → id_same x y ≡ true) where
    none_other :
        (x : A) (ys : List A) → p x ≡ true → any_of (id_same x) ys ≡ false → any_of p ys ≡ false
    none_other x [] t a = refl
    none_other x (y ∷ ys) t a =
        let (b, c) = either_absent (id_same x y) (any_of (id_same x) ys) a in
        elim (Bool-cases (p y)) [
          | inl e ↦ absurd (true_ne_false (sym (key x y t e) ∙ b))
          | inr e ↦ rw (e, none_other x ys t c) refl
        ]
      where
        true_ne_false : true ≢ false
        true_ne_false q = cc

    none_same :
        (f : A) (ys : List A)
        → any_of (λ y. same (g f) y && not (p y)) ys ≡ false
        → any_of p ys ≡ false
        → any_of (same (g f)) ys ≡ false
    none_same f [] a b = refl
    none_same f (y ∷ ys) a b =
        let (a1, a2) = either_absent (same (g f) y && not (p y)) _ a in
        let (b1, b2) = either_absent (p y) (any_of p ys) b in
        rw (outside (same (g f) y) (p y) a1 b1, none_same f ys a2 b2) refl

    pub distinct-rekey :
        (f : A) (xs : List A)
        → ((x y : A) → same x y ≡ same y x)
        → find_first p xs ≡ some f
        → any_of (λ x. same (g f) x && not (p x)) xs ≡ false
        → distinct id_same xs ≡ true
        → distinct same xs ≡ true
        → distinct same (update_row p g xs) ≡ true
    unfolding update_row distinct
    distinct-rekey f [] c h a i d = refl
    distinct-rekey f (x ∷ xs) c h a i d =
        let (a1, a2) = either_absent (same (g f) x && not (p x)) _ a in
        let (i1, i2) = if_eq_true (any_of (id_same x) xs) (distinct id_same xs) i in
        let (d1, d2) = if_eq_true (any_of (same x) xs) (distinct same xs) d in
        elim (Bool-cases (p x)) [
          | inl e ↦ rw (e, first_row p f x _ e h, none_same f xs a2 (none_other x xs e i1)) d2
          | inr e ↦
              let h' = later_row p f x _ e h in
              rw
                (
                  e,
                  rekeyed_none x f xs h' (c x (g f) ∙ outside (same (g f) x) (p x) a1 e) d1,
                  distinct-rekey f xs c h' a2 i2 d2,
                )
                refl
        ]
