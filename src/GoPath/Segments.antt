-- ===== src/GoPath/Segments.antt =====
-- Splitting and joining on a separator.
use nexuscloud.Base.{
  ℕ, ◌≡◌, refl, sym, append_assoc, ◌∙◌, ◌≢◌, false, List, [], ◌∷◌, ◌++◌, ◌==◌, arith, Str, All,
  Bool-cases, inl, inr, ap, ==_iff,
}
use nexuscloud.GoPath.{split, join, cons_head}

-- The text holds no separator.
abbrev pub IsFree : ℕ → Str → Type 0
IsFree sep s = All (λ c. (c == sep) ≡ false) s

pub split-ne-nil : (sep : ℕ) (s : Str) → split sep s ≢ []
unfolding split
split-ne-nil sep [] = λ e. cc
split-ne-nil sep (c ∷ s) = λ e. elim (Bool-cases (c == sep)) [
  | inl y ↦ cc (rw y at e)
  | inr n ↦ cons_head-ne-nil c (split sep s) (rw n at e)
]
  where
    cons_head-ne-nil : (c : ℕ) (l : List Str) → cons_head c l ≢ []
    cons_head-ne-nil c [] = λ e. cc
    cons_head-ne-nil c (s ∷ l) = λ e. cc

cons_head-append : (c : ℕ) (l r : List Str) → l ≢ [] → cons_head c l ++ r ≡ cons_head c (l ++ r)
cons_head-append c [] r h = absurd (h refl)
cons_head-append c (s ∷ l) r h = refl

pub split-append : (sep : ℕ) (a b : Str) → split sep (a ++ (sep ∷ b)) ≡ split sep a ++ split sep b
unfolding split
split-append sep [] b = ground arith
split-append sep (c ∷ a) b =
    rw (split-append sep a b)
      (ground (arith, cons_head-append c (split sep a) (split sep b) (split-ne-nil sep a)))

cons_head-IsFree :
    (sep c : ℕ) (l : List Str)
    → (c == sep) ≡ false
    → All (IsFree sep) l
    → All (IsFree sep) (cons_head c l)
cons_head-IsFree sep c [] e h = ((e, tt), tt)
cons_head-IsFree sep c (s ∷ l) e h = ((e, h.0), h.1)

pub split-IsFree : (sep : ℕ) (s : Str) → All (IsFree sep) (split sep s)
unfolding split
split-IsFree sep [] = (tt, tt)
split-IsFree sep (c ∷ s) = elim (Bool-cases (c == sep)) [
  | inl y ↦ rw y (tt, split-IsFree sep s)
  | inr n ↦ rw n (cons_head-IsFree sep c (split sep s) n (split-IsFree sep s))
]

pub split_free : (sep : ℕ) (s : Str) → IsFree sep s → split sep s ≡ s ∷ []
unfolding split
split_free sep [] h = refl
split_free sep (c ∷ s) h = rw (h.0, split_free sep s h.1)

-- Free pieces come back from what joins them.
pub split-join :
    (sep : ℕ) (s : Str) (rest : List Str)
    → All (IsFree sep) (s ∷ rest)
    → split sep (join sep (s ∷ rest)) ≡ s ∷ rest
unfolding join
split-join sep s [] h = split_free sep s h.0
split-join sep s (t ∷ rest) h =
    split-append sep s _ ∙ rw (split_free sep s h.0, split-join sep t rest h.1)

pub join-append :
    (sep : ℕ) (a : List Str) (s : Str) (b : List Str)
    → a ≢ []
    → join sep (a ++ (s ∷ b)) ≡ join sep a ++ (sep ∷ join sep (s ∷ b))
unfolding join
join-append sep [] s b h = absurd (h refl)
join-append sep (x ∷ []) s b h = refl
join-append sep (x ∷ y ∷ a) s b h =
    rw (join-append sep (y ∷ a) s b (λ e. cc)) (sym (append_assoc x (sep ∷ join sep (y ∷ a)) _))

join-cons_head : (sep c : ℕ) (l : List Str) → l ≢ [] → join sep (cons_head c l) ≡ c ∷ join sep l
unfolding join
join-cons_head sep c [] h = absurd (h refl)
join-cons_head sep c (s ∷ []) h = refl
join-cons_head sep c (s ∷ t ∷ l) h = refl

join-nil : (sep : ℕ) (l : List Str) → l ≢ [] → join sep ([] ∷ l) ≡ sep ∷ join sep l
unfolding join
join-nil sep [] h = absurd (h refl)
join-nil sep (s ∷ l) h = refl

-- Splitting loses nothing.
pub join-split : (sep : ℕ) (s : Str) → join sep (split sep s) ≡ s
unfolding split join
join-split sep [] = refl
join-split sep (c ∷ s) = elim (Bool-cases (c == sep)) [
  | inl y ↦
      rw (y, join-nil sep (split sep s) (split-ne-nil sep s), join-split sep s)
        (ap (λ x. x ∷ s) (sym ((==_iff c sep).0 y)))
  | inr n ↦ rw (n, join-cons_head sep c (split sep s) (split-ne-nil sep s), join-split sep s) refl
]
