-- ===== src/Storage/Names/Shared.antt =====
-- `resolveSharedPath` stays below the shared folder.
use nexuscloud.Base.{
  ◌≡◌, refl, sym, ap, ◌∙◌, inl, inr, true, none, some, List, [], ◌∷◌, ◌++◌, arith, if◌then◌else◌,
  Str, str_eq, str_eq-eq, has_prefix, has_prefix_split, All, All-append, All-append_right,
  append_assoc, length, length-append, ◌≢◌, ◌⊎◌, subst,
}
use nexuscloud.GoPath.{slash, join, split, path_join}
use nexuscloud.GoPath.Segments.{split-append, split-join}
use nexuscloud.GoPath.Clean.{IsNormal, abs_path, path_join-abs_path, descend_name, All-IsFree}
use nexuscloud.Storage.Errors.{ok}
use nexuscloud.Storage.Model.{Directory}
use nexuscloud.Storage.Names.{validate_name, normalize_parent_path, resolve_shared_path}
use nexuscloud.Storage.Names.Physical.{
  path_elements, path_elements-IsNormal, normalize_parent_path-abs_path, validate_name-IsNormal,
}

length-root : length (abs_path []) ≡ 1
unfolding join
length-root = refl

-- A rooted path that begins with another and a slash has that one's elements in front.
prefix-elements :
    (base segs : List Str)
    → All IsNormal base
    → All IsNormal segs
    → base ≢ []
    → has_prefix (abs_path segs) (abs_path base ++ (slash ∷ [])) ≡ true
    → (below : List Str) × All IsNormal below × (segs ≡ base ++ below)
prefix-elements base [] h k ne e =
    let (rest, q) = has_prefix_split _ _ e in
    absurd (
      omega (
        arith,
        ap length q,
        length-append (abs_path base ++ (slash ∷ [])) rest,
        length-append (abs_path base) (slash ∷ []),
        length-root,
      ))
prefix-elements [] (s ∷ segs) h k ne e = absurd (ne refl)
prefix-elements (b ∷ base) (s ∷ segs) h k ne e =
    let (rest, q) = has_prefix_split _ _ e in
    let below : (s ∷ segs) ≡ (b ∷ base) ++ split slash rest =
      sym (split-join slash s segs (All-IsFree (s ∷ segs) k))
      ∙ ap (split slash) (tail_eq (join slash (s ∷ segs)) (join slash (b ∷ base)) rest q)
      ∙ split-append slash (join slash (b ∷ base)) rest
      ∙ rw (split-join slash b base (All-IsFree (b ∷ base) h)) refl in
    (
      split slash rest,
      All-append_right IsNormal (b ∷ base) (split slash rest) (subst (All IsNormal) below k),
      below,
    )
  where
    tail_eq :
        (x y rest : Str)
        → (slash ∷ x) ≡ ((slash ∷ y) ++ (slash ∷ [])) ++ rest
        → x ≡ y ++ (slash ∷ rest)
    tail_eq x y rest q = tail_of q ∙ append_assoc y (slash ∷ []) rest
      where
        tail_of : {u v : Str} → (slash ∷ u) ≡ (slash ∷ v) → u ≡ v
        tail_of q = cc

-- The logical path of a folder with a normalized parent.
pub shared_root-abs_path :
    (segs : List Str) (name : Str)
    → All IsNormal segs
    → IsNormal name
    → path_join (abs_path segs ∷ name ∷ []) ≡ abs_path (segs ++ (name ∷ []))
shared_root-abs_path segs name h n =
    path_join-abs_path segs (name ∷ []) h ∙ ap abs_path (descend_name segs name n)

inside :
    (root t target : Str)
    → (if str_eq t root
        then some t
        else if has_prefix t (root ++ (slash ∷ []))
        then some t
        else none)
      ≡ some target
    → (target ≡ t) × ((t ≡ root) ⊎ (has_prefix t (root ++ (slash ∷ [])) ≡ true))
inside root t target e = ground (arith, str_eq-eq t root)

below_root :
    (segs : List Str) (name root p target : Str)
    → All IsNormal segs
    → IsNormal name
    → root ≡ abs_path (segs ++ (name ∷ []))
    → (if str_eq (normalize_parent_path p) root
        then some (normalize_parent_path p)
        else if has_prefix (normalize_parent_path p) (root ++ (slash ∷ []))
        then some (normalize_parent_path p)
        else none)
      ≡ some target
    → (below : List Str) × All IsNormal below × (target ≡ abs_path (segs ++ (name ∷ below)))
below_root segs name root p target h n r e =
    let (te, c) = inside root (normalize_parent_path p) target e in
    elim c [
      | inl same ↦ ([], tt, te ∙ same ∙ r)
      | inr pre ↦
          let (below, k, q) =
            prefix-elements (segs ++ (name ∷ [])) (path_elements p)
              (All-append IsNormal segs (name ∷ []) h (n, tt)) (path_elements-IsNormal p)
              (snoc-ne-nil segs name) (rw (normalize_parent_path-abs_path p, r) at pre) in
          (
            below,
            k,
            te
                ∙ normalize_parent_path-abs_path p
                ∙ ap abs_path (q ∙ append_assoc segs (name ∷ []) below),
          )
    ]
  where
    snoc-ne-nil : (a : List Str) (x : Str) → (a ++ (x ∷ [])) ≢ []
    snoc-ne-nil [] x = λ e. cc
    snoc-ne-nil (y ∷ a) x = λ e. cc

-- Through a link to a folder with a normalized parent and an accepted name, every resolved path
-- lies in that folder: whatever the visitor's path is, the folder's elements stay in front.
pub resolve_shared_path-below :
    (dir : Directory) (parent sub_path : Str) {target : Str}
    → dir.parent_path ≡ normalize_parent_path parent
    → validate_name dir.name ≡ ok tt
    → resolve_shared_path dir sub_path ≡ some target
    → (below : List Str) × All IsNormal below
      × (target ≡ abs_path (path_elements parent ++ (dir.name ∷ below)))
unfolding resolve_shared_path
resolve_shared_path-below dir parent sub_path ep en e =
    let sr : path_join (dir.parent_path ∷ dir.name ∷ [])
        ≡ abs_path (path_elements parent ++ (dir.name ∷ [])) =
      ap (λ p. path_join (p ∷ dir.name ∷ [])) (ep ∙ normalize_parent_path-abs_path parent)
      ∙ shared_root-abs_path (path_elements parent) dir.name (path_elements-IsNormal parent)
          (validate_name-IsNormal dir.name en) in
    below_root (path_elements parent) dir.name (path_join (dir.parent_path ∷ dir.name ∷ [])) _ _
      (path_elements-IsNormal parent) (validate_name-IsNormal dir.name en) sr e
