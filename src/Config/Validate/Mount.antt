-- ===== src/Config/Validate/Mount.antt =====
-- `validateWebDAVPath` keeps the mount apart from the server's own routes.
use nexuscloud.Base.{
  ◌≡◌, refl, sym, ap, ◌∙◌, ◌≢◌, inl, inr, true, false, ◌==◌, none, List, [], ◌∷◌, ◌++◌,
  append_assoc, Str, str, str_eq, str_eq-eq, has_prefix_split, All, any_of, Bool-cases, ||_eq_false,
  not_eq_false,
}
use nexuscloud.GoPath.{slash, split, clean, join}
use nexuscloud.GoPath.Segments.{IsFree, split-append, split-join}
use nexuscloud.GoPath.Clean.{IsNormal, abs_path, clean-abs_path}
use nexuscloud.Storage.SafeJoin.{within}
use nexuscloud.Storage.SafeJoin.Containment.{within-abs_path}
use nexuscloud.Config.Validate.{
  is_dots, reserved_routes, webdav_path_checks, validate_webdav_path, path_malformed, path_dotted,
  path_reserved,
}
use nexuscloud.Config.Validate.Checks.{first_refusal-All, Passes-false, any_of-false, All-any_of}
use nexuscloud.Config.Validate.WebDavPath.{
  IsPathName, IsMountPath, chars-IsFree, match_webdav_path_iff,
}

split-abs_path :
    (s : Str) (rest : List Str)
    → All (IsFree slash) (s ∷ rest)
    → split slash (abs_path (s ∷ rest)) ≡ [] ∷ s ∷ rest
unfolding split
split-abs_path s rest h = ap (λ l. [] ∷ l) (split-join slash s rest h)

second : List Str → Str
second [] = []
second (s ∷ []) = s
second (s ∷ t ∷ rest) = t

-- A path at or below a rooted one begins with the same element.
within-first :
    (s : Str) (rest : List Str) (r : Str)
    → All (IsFree slash) (s ∷ rest)
    → within (abs_path (s ∷ rest)) r ≡ true
    → (more : List Str) × (split slash r ≡ [] ∷ s ∷ more)
unfolding within
within-first s rest r h w =
    let root = abs_path (s ∷ rest) in
    elim (Bool-cases (str_eq r root)) [
      | inl y ↦ (rest, ap (split slash) (str_eq-eq r root y) ∙ split-abs_path s rest h)
      | inr n ↦
          let below = has_prefix_split r (root ++ (slash ∷ [])) (rw n at w) in
          (
            rest ++ split slash below.0,
            ap (split slash) (below.1 ∙ append_assoc root (slash ∷ []) below.0)
                ∙ (split-append slash root below.0
                    ∙ ap (λ l. l ++ split slash below.0) (split-abs_path s rest h)),
          )
    ]

-- Paths that a route of one element and a longer one share are below both.
within-route :
    (name s : Str) (rest : List Str) (r : Str)
    → IsFree slash name
    → All (IsFree slash) (s ∷ rest)
    → within (abs_path (name ∷ [])) (abs_path (s ∷ rest)) ≡ false
    → within (abs_path (s ∷ rest)) r ≡ true
    → within (abs_path (name ∷ [])) r ≡ false
unfolding second
within-route name s rest r free frees apart w =
    elim (Bool-cases (within (abs_path (name ∷ [])) r)) [
      | inr n ↦ n
      | inl y ↦
          let one = within-first name [] r (free, tt) y in
          let other = within-first s rest r frees w in
          let same : name ≡ s = ap second (sym one.1 ∙ other.1) in
          cc (rw (same, within-abs_path (s ∷ []) rest (λ e. cc)) at apart)
    ]

names-IsFree : (l : List Str) → All IsPathName l → All (IsFree slash) l
names-IsFree [] h = tt
names-IsFree (s ∷ l) h = (chars-IsFree s h.0.1, names-IsFree l h.1)

-- What the checks of `validateWebDAVPath` say when none of them refuses.
validate_webdav_path-checks :
    (p : Str)
    → validate_webdav_path p ≡ none
    → IsMountPath p
      × (any_of is_dots (split slash p) ≡ false)
      × (any_of (λ reserved. within reserved p) reserved_routes ≡ false)
unfolding validate_webdav_path webdav_path_checks
validate_webdav_path-checks p h =
    let all = first_refusal-All (webdav_path_checks p) h in
    (
      (match_webdav_path_iff p).0 (not_eq_false _ (Passes-false _ path_malformed all.0)),
      Passes-false _ path_dotted all.1.0,
      Passes-false _ path_reserved all.1.1.0,
    )

-- A request that goes to an accepted WebDAV mount, at its path or below, goes to none of `/api`,
-- `/health` and `/ready`.
pub validate_webdav_path-disjoint :
    (p : Str)
    → validate_webdav_path p ≡ none
    → (r : Str) → within p r ≡ true
    → any_of (λ reserved. within reserved r) reserved_routes ≡ false
unfolding within join
validate_webdav_path-disjoint p h r w =
    let checks = validate_webdav_path-checks p h in
    let name = checks.0.0 in
    let rest = checks.0.1 in
    let e = checks.0.2 in
    let frees = names-IsFree (name ∷ rest) checks.0.3 in
    let apart = any_of-false (λ reserved. within reserved p) reserved_routes checks.2 in
    let below = rw e at w in
    All-any_of (λ reserved. within reserved r) reserved_routes
      (
        within-route (str "api") name rest r (any_of-false (λ c. c == slash) (str "api") refl) frees
            (rw e at apart.0) below,
        (
          within-route (str "health") name rest r
              (any_of-false (λ c. c == slash) (str "health") refl) frees (rw e at apart.1.0) below,
          (
            within-route (str "ready") name rest r
                (any_of-false (λ c. c == slash) (str "ready") refl) frees (rw e at apart.1.1.0)
                below,
            tt,
          ),
        ),
      )

str_eq-false : (a b : Str) → a ≢ b → str_eq a b ≡ false
str_eq-false a b ne = elim (Bool-cases (str_eq a b)) [
  | inl y ↦ absurd (ne (str_eq-eq a b y))
  | inr n ↦ n
]

names-IsNormal : (l : List Str) → All IsPathName l → All (λ s. is_dots s ≡ false) l → All IsNormal l
names-IsNormal [] h dots = tt
names-IsNormal (s ∷ l) h dots =
    let neither = ||_eq_false (str_eq s (str ".")) (str_eq s (str "..")) dots.0 in
    (
      (str_eq-false s [] h.0.0, neither.0, neither.1, chars-IsFree s h.0.1),
      names-IsNormal l h.1 dots.1,
    )

-- `path.Clean` leaves an accepted WebDAV path as it is.
pub validate_webdav_path-clean : (p : Str) → validate_webdav_path p ≡ none → clean p ≡ p
validate_webdav_path-clean p h =
    let checks = validate_webdav_path-checks p h in
    let l = checks.0.0 ∷ checks.0.1 in
    let e = checks.0.2 in
    let dots = any_of-false is_dots (split slash p) checks.1 in
    rw e (
      clean-abs_path l (
        names-IsNormal l checks.0.3
          (rw (e, split-abs_path checks.0.0 checks.0.1 (names-IsFree l checks.0.3)) at dots).1))
