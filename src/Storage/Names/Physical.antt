-- ===== src/Storage/Names/Physical.antt =====
-- Physical paths: owners are kept apart, and where the version store can be reached.
use nexuscloud.Base.{
  ℕ, ◌≡◌, refl, sym, ap, ◌∙◌, inl, inr, false, List, [], ◌∷◌, ◌++◌, arith, Str, All, All-append,
  ◌==◌, Bool-cases, any_of, length, length-append,
}
use nexuscloud.GoPath.{slash, join}
use nexuscloud.GoPath.Segments.{IsFree}
use nexuscloud.GoPath.Clean.{
  IsNormal, abs_path, abs_path-injective, descend, descend-IsNormal, clean_rooted, descend_name,
  descend_nil, descend_all, descend-abs_path, path_join-abs_path,
}
use nexuscloud.Storage.Errors.{ok}
use nexuscloud.Storage.Names.{forbidden_byte, validate_name, normalize_parent_path, physical_path}

not_slash : (c : ℕ) → forbidden_byte c ≡ false → (c == slash) ≡ false
unfolding forbidden_byte
not_slash c h = elim (Bool-cases (c == slash)) [ inl y ↦ cc (rw y at h) | inr n ↦ n ]

any_of-IsFree : (s : Str) → any_of forbidden_byte s ≡ false → IsFree slash s
any_of-IsFree [] h = tt
any_of-IsFree (c ∷ s) h = (not_slash c (ground arith), any_of-IsFree s (ground arith))

-- An accepted name is one step down.
pub validate_name-IsNormal : (name : Str) → validate_name name ≡ ok tt → IsNormal name
unfolding validate_name
validate_name-IsNormal name h =
    (ground arith, ground arith, ground arith, any_of-IsFree name (ground arith))

-- The elements of a normalized path.
unfoldable pub path_elements : Str → List Str
path_elements p = descend [] p

pub path_elements-IsNormal : (p : Str) → All IsNormal (path_elements p)
unfolding path_elements
path_elements-IsNormal p = descend-IsNormal [] p tt

pub path_elements-abs_path :
    (segs : List Str) → All IsNormal segs → path_elements (abs_path segs) ≡ segs
unfolding path_elements
path_elements-abs_path segs h = descend-abs_path [] segs h

pub normalize_parent_path-abs_path :
    (p : Str) → normalize_parent_path p ≡ abs_path (path_elements p)
unfolding normalize_parent_path path_elements
normalize_parent_path-abs_path [] = unfold join in rw (descend_nil []) refl
normalize_parent_path-abs_path (c ∷ p) = clean_rooted (c ∷ p)

pub physical_path-abs_path :
    (owner : Str) (segs : List Str) (name : Str)
    → IsNormal owner
    → All IsNormal segs
    → IsNormal name
    → physical_path owner (abs_path segs) name ≡ abs_path (owner ∷ segs ++ (name ∷ []))
unfolding physical_path
physical_path-abs_path owner segs name o h n =
    unfold join in
    path_join-abs_path [] (owner ∷ abs_path segs ∷ name ∷ []) tt
    ∙ ap {B = Str} abs_path {x = descend_all [] (owner ∷ abs_path segs ∷ name ∷ [])}
        {y = owner ∷ (segs ++ (name ∷ []))}
        (rw
          (
            descend_name [] owner o,
            descend-abs_path (owner ∷ []) segs h,
            descend_name (owner ∷ segs) name n,
          )
          refl)

snoc-injective : (a b : List Str) (x y : Str) → a ++ (x ∷ []) ≡ b ++ (y ∷ []) → (a ≡ b) × (x ≡ y)
snoc-injective [] [] x y e = (refl, cc)
snoc-injective [] (z ∷ b) x y e = absurd (omega (arith, ap length e, length-append b (y ∷ [])))
snoc-injective (z ∷ a) [] x y e = absurd (omega (arith, ap length e, length-append a (x ∷ [])))
snoc-injective (z ∷ a) (w ∷ b) x y e = let t = snoc-injective a b x y (cc) in (cc t.0, t.1)

physical_path-injective_abs :
    (o o' : Str) (p p' : List Str) (n n' : Str)
    → IsNormal o
    → IsNormal o'
    → All IsNormal p
    → All IsNormal p'
    → IsNormal n
    → IsNormal n'
    → physical_path o (abs_path p) n ≡ physical_path o' (abs_path p') n'
    → (o ≡ o') × (p ≡ p') × (n ≡ n')
physical_path-injective_abs o o' p p' n n' ho ho' hp hp' hn hn' e =
    let q : (o ∷ (p ++ (n ∷ []))) ≡ (o' ∷ (p' ++ (n' ∷ []))) =
      abs_path-injective (o ∷ (p ++ (n ∷ []))) (o' ∷ (p' ++ (n' ∷ [])))
        (ho, All-append IsNormal p (n ∷ []) hp (hn, tt))
        (ho', All-append IsNormal p' (n' ∷ []) hp' (hn', tt))
        (sym (physical_path-abs_path o p n ho hp hn)
          ∙ e
          ∙ physical_path-abs_path o' p' n' ho' hp' hn') in
    let t = snoc-injective p p' n n' (cc) in (cc, t.0, t.1)

-- Two accepted names in normalized folders of two owners have the same physical path only if
-- owner, folder and name are the same.
pub physical_path-injective :
    (o o' p p' n n' : Str)
    → IsNormal o
    → IsNormal o'
    → validate_name n ≡ ok tt
    → validate_name n' ≡ ok tt
    → physical_path o (normalize_parent_path p) n ≡ physical_path o' (normalize_parent_path p') n'
    → (o ≡ o') × (normalize_parent_path p ≡ normalize_parent_path p') × (n ≡ n')
physical_path-injective o o' p p' n n' ho ho' hn hn' e =
    let q =
      physical_path-injective_abs o o' (path_elements p) (path_elements p') n n' ho ho'
        (path_elements-IsNormal p) (path_elements-IsNormal p') (validate_name-IsNormal n hn)
        (validate_name-IsNormal n' hn')
        (rw (normalize_parent_path-abs_path p, normalize_parent_path-abs_path p') at e) in
    (
      q.0,
      rw (normalize_parent_path-abs_path p, normalize_parent_path-abs_path p') (ap abs_path q.1),
      q.2,
    )
