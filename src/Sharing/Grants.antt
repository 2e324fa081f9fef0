-- ===== src/Sharing/Grants.antt =====
-- `mostPermissiveUploadGrant` of file_service_sharing.go.
use nexuscloud.Base.{
  ℕ, ◌≤◌, ◌≡◌, refl, ◌⊎◌, inl, inr, Option, none, some, ltb, arith, if◌then◌else◌, List, [], ◌∷◌,
  All, Option-cases, Bool-cases, ◌∙◌, sym, subst,
}
use nexuscloud.Storage.Model.{Share}

-- The better of the best permission so far, with the limit `b`, and another.
unfoldable pub wider : ℕ → Share → Share → Share
wider b best g = elim g.max_upload_size_bytes [ none ↦ g | some m ↦ if ltb b m then g else best ]

-- The loop over the other permissions; it returns as soon as the best one has no limit.
unfoldable pub best_grant : Share → List Share → Share
best_grant best [] = best
best_grant best (g ∷ grants) = elim best.max_upload_size_bytes [
  | none ↦ best
  | some b ↦ best_grant (wider b best g) grants
]

-- `mostPermissiveUploadGrant` of a list that is not empty
unfoldable pub most_permissive_upload_grant : Share → List Share → Share
most_permissive_upload_grant g grants = best_grant g grants

-- A limit is at most another; no limit is the largest.
abbrev pub LimitLe : Option ℕ → Option ℕ → Type 0
LimitLe a none = Unit
LimitLe none (some n) = ⊥
LimitLe (some m) (some n) = m ≤ n

-- The share is one of the list.
abbrev pub IsAmong : Share → List Share → Type 0
IsAmong g [] = ⊥
IsAmong g (h ∷ hs) = (g ≡ h) ⊎ IsAmong g hs

LimitLe-refl : (a : Option ℕ) → LimitLe a a
LimitLe-refl none = tt
LimitLe-refl (some m) = omega arith

wider_bounds :
    (b : ℕ) (best g : Share)
    → best.max_upload_size_bytes ≡ some b
    → ((wider b best g ≡ best) ⊎ (wider b best g ≡ g))
      × LimitLe best.max_upload_size_bytes (wider b best g).max_upload_size_bytes
      × LimitLe g.max_upload_size_bytes (wider b best g).max_upload_size_bytes
unfolding wider
wider_bounds b best g e = elim (Option-cases g.max_upload_size_bytes) [
  | inl none_g ↦
      let q : wider b best g ≡ g = ground arith in
      rw q (inr refl, rw none_g tt, LimitLe-refl g.max_upload_size_bytes)
  | inr (m, some_g) ↦ elim (Bool-cases (ltb b m)) [
    | inl more ↦
        let q : wider b best g ≡ g = ground arith in
        rw q (inr refl, rw (e, some_g) (ground arith), LimitLe-refl g.max_upload_size_bytes)
    | inr less ↦
        let q : wider b best g ≡ best = ground arith in
        rw q (inl refl, LimitLe-refl best.max_upload_size_bytes, rw (some_g, e) (ground arith))
  ]
]

LimitLe-trans : (a b c : Option ℕ) → LimitLe a b → LimitLe b c → LimitLe a c
LimitLe-trans a b none h k = tt
LimitLe-trans none none (some c) h k = k
LimitLe-trans none (some b) (some c) h k = h
LimitLe-trans (some a) none (some c) h k = absurd k
LimitLe-trans (some a) (some b) (some c) h k = omega arith

no_limit :
    (best : Share) (grants : List Share)
    → best.max_upload_size_bytes ≡ none
    → All (λ h. LimitLe h.max_upload_size_bytes best.max_upload_size_bytes) grants
no_limit best [] e = tt
no_limit best (g ∷ grants) e = (rw e tt, no_limit best grants e)

IsAmong-wider :
    (best g next top : Share) (grants : List Share)
    → (next ≡ best) ⊎ (next ≡ g)
    → IsAmong top (next ∷ grants)
    → IsAmong top (best ∷ g ∷ grants)
IsAmong-wider best g next top grants (inl n) (inl t) = inl (t ∙ n)
IsAmong-wider best g next top grants (inr n) (inl t) = inr (inl (t ∙ n))
IsAmong-wider best g next top grants n (inr r) = inr (inr r)

-- One of `best` and the others, and none of them allows more.
abbrev IsTop : Share → Share → List Share → Type 0
IsTop top best grants =
    IsAmong top (best ∷ grants)
    × LimitLe best.max_upload_size_bytes top.max_upload_size_bytes
    × All (λ h. LimitLe h.max_upload_size_bytes top.max_upload_size_bytes) grants

best_grant-best : (best : Share) (grants : List Share) → IsTop (best_grant best grants) best grants
unfolding best_grant
best_grant-best best [] = (inl refl, LimitLe-refl best.max_upload_size_bytes, tt)
best_grant-best best (g ∷ grants) = elim (Option-cases best.max_upload_size_bytes) [
  | inl e ↦
      let q : best_grant best (g ∷ grants) ≡ best = ground arith in
      subst (λ t. IsTop t best (g ∷ grants)) (sym q)
        (inl refl, LimitLe-refl best.max_upload_size_bytes, no_limit best (g ∷ grants) e)
  | inr (b, e) ↦
      let q : best_grant best (g ∷ grants) ≡ best_grant (wider b best g) grants = ground arith in
      let (either, from_best, from_g) = wider_bounds b best g e in
      let (among, top, rest) = best_grant-best (wider b best g) grants in
      subst (λ t. IsTop t best (g ∷ grants)) (sym q)
        (
          IsAmong-wider best g (wider b best g) (best_grant (wider b best g) grants) grants either
              among,
          LimitLe-trans _ _ _ from_best top,
          (LimitLe-trans _ _ _ from_g top, rest),
        )
]

-- The permission that is chosen is one of those given, and none of them allows more.
pub most_permissive_upload_grant-best :
    (g : Share) (grants : List Share)
    → let best = most_permissive_upload_grant g grants in
      IsAmong best (g ∷ grants)
      × All (λ h. LimitLe h.max_upload_size_bytes best.max_upload_size_bytes) (g ∷ grants)
unfolding most_permissive_upload_grant
most_permissive_upload_grant-best g grants =
    let (among, first, rest) = best_grant-best g grants in (among, (first, rest))
