-- ===== src/Config/Validate/WebDavPath.antt =====
-- `webDAVPathPattern` of nexuscloud/internal/config/validate.go against the paths it describes.
use nexuscloud.Base.{
  ◌≡◌, refl, sym, ap, ◌∙◌, ◌≢◌, ◌↔◌, inl, inr, Bool, true, false, ◌&&◌, List, [], ◌∷◌, ◌++◌, ◌==◌,
  arith, Str, All, append-nil, Bool-cases, ℕ, &&_eq_true, ==_iff,
}
use nexuscloud.GoPath.{slash, split, join, cons_head}
use nexuscloud.GoPath.Segments.{IsFree, split-ne-nil, join-split}
use nexuscloud.GoPath.Clean.{abs_path}
use nexuscloud.Config.Validate.{is_path_char, match_segments, match_webdav_path}

abbrev pub IsPathChars : Str → Type 0
IsPathChars s = All (λ c. is_path_char c ≡ true) s

-- A segment that the pattern allows.
abbrev pub IsPathName : Str → Type 0
IsPathName s = (s ≢ []) × IsPathChars s

-- A rooted path of such segments, of which there is one at least.
abbrev pub IsMountPath : Str → Type 0
IsMountPath p =
    (name : Str) × (rest : List Str) × (p ≡ abs_path (name ∷ rest)) × All IsPathName (name ∷ rest)

path_char-ne-slash : (c : ℕ) → is_path_char c ≡ true → (c == slash) ≡ false
unfolding is_path_char
path_char-ne-slash c h = ground arith

pub chars-IsFree : (s : Str) → IsPathChars s → IsFree slash s
chars-IsFree [] h = tt
chars-IsFree (c ∷ s) h = (path_char-ne-slash c h.0, chars-IsFree s h.1)

-- The pieces of what is left of a path inside a segment: `begun` tells that the segment has a
-- character already.
abbrev AreNames : Bool → List Str → Type 0
AreNames begun [] = Unit
AreNames begun (s ∷ rest) = (begun ≡ false → s ≢ []) × IsPathChars s × All IsPathName rest

AreNames-cons_head :
    (begun : Bool) (c : ℕ) (l : List Str)
    → l ≢ []
    → is_path_char c ≡ true
    → AreNames true l
    → AreNames begun (cons_head c l)
AreNames-cons_head begun c [] ne h names = absurd (ne refl)
AreNames-cons_head begun c (s ∷ l) ne h names = (λ b. λ e. cc, (h, names.1), names.2)

AreNames-All : (l : List Str) → AreNames false l → All IsPathName l
AreNames-All [] names = tt
AreNames-All (s ∷ l) names = ((names.0 refl, names.1), names.2)

match_segments-AreNames :
    (begun : Bool) (s : Str) → match_segments begun s ≡ true → AreNames begun (split slash s)
unfolding match_segments split
match_segments-AreNames begun [] h = (λ b. cc, tt, tt)
match_segments-AreNames begun (c ∷ s) h = elim (Bool-cases (is_path_char c)) [
  | inl y ↦ rw (path_char-ne-slash c y) (
      AreNames-cons_head begun c (split slash s) (split-ne-nil slash s) y
        (match_segments-AreNames true s (rw y at h)))
  | inr n ↦ elim (Bool-cases (begun && c == slash)) [
    | inl y ↦
        let both = &&_eq_true begun (c == slash) y in
        rw both.1 (
          λ b. λ e. cc,
          tt,
          AreNames-All (split slash s) (match_segments-AreNames false s (rw (n, y) at h)),
        )
    | inr z ↦ cc (rw (n, z) at h)
  ]
]

match_segments-append :
    (begun : Bool) (name s : Str)
    → IsPathName name
    → match_segments begun (name ++ s) ≡ match_segments true s
unfolding match_segments
match_segments-append begun [] s h = absurd (h.0 refl)
match_segments-append begun (c ∷ []) s h = rw (h.1.0) refl
match_segments-append begun (c ∷ d ∷ name) s h =
    rw (h.1.0) (match_segments-append true (d ∷ name) s (λ e. cc, h.1.1))

match_segments-join :
    (begun : Bool) (name : Str) (rest : List Str)
    → All IsPathName (name ∷ rest)
    → match_segments begun (join slash (name ∷ rest)) ≡ true
unfolding match_segments join is_path_char
match_segments-join begun name [] h =
    ap (match_segments begun) (sym (append-nil name)) ∙ match_segments-append begun name [] h.0
match_segments-join begun name (next ∷ rest) h =
    rw (match_segments-append begun name (slash ∷ join slash (next ∷ rest)) h.0)
      (match_segments-join false next rest h.1)

pieces-IsMountPath :
    (s : Str) (l : List Str)
    → s ≡ join slash l
    → l ≢ []
    → AreNames false l
    → IsMountPath (slash ∷ s)
pieces-IsMountPath s [] e ne names = absurd (ne refl)
pieces-IsMountPath s (name ∷ rest) e ne names =
    (name, rest, ap (λ x. slash ∷ x) e, AreNames-All (name ∷ rest) names)

match_webdav_path-IsMountPath : (p : Str) → match_webdav_path p ≡ true → IsMountPath p
unfolding match_webdav_path
match_webdav_path-IsMountPath [] h = cc
match_webdav_path-IsMountPath (c ∷ s) h =
    let both = &&_eq_true (c == slash) (match_segments false s) h in
    rw ((==_iff c slash).0 both.0) (
      pieces-IsMountPath s (split slash s) (sym (join-split slash s)) (split-ne-nil slash s)
        (match_segments-AreNames false s both.1))

-- The pattern matches just the rooted paths of one or more names of letters, digits and `._~-`.
pub match_webdav_path_iff : (p : Str) → (match_webdav_path p ≡ true) ↔ IsMountPath p
unfolding match_webdav_path
match_webdav_path_iff p =
    (match_webdav_path-IsMountPath p, λ m. rw m.2 (match_segments-join false m.0 m.1 m.3))
