-- ===== src/Storage/SafeJoin/Containment.antt =====
-- `SafeJoin` never leaves the root.
use nexuscloud.Base.{
  ◌≡◌, refl, sym, ap, ◌≢◌, true, false, Option, List, [], ◌∷◌, ◌++◌, arith, Str, str_eq_refl,
  has_byte, has_prefix, has_prefix-append, All, All-append, append-nil, append_assoc,
}
use nexuscloud.GoPath.{join, slash, clean, path_join}
use nexuscloud.GoPath.Segments.{join-append}
use nexuscloud.GoPath.Clean.{
  IsNormal, abs_path, descend, descend-IsNormal, clean_rooted, clean-abs_path, descend-abs_path,
  path_join-abs_path,
}
use nexuscloud.Storage.Errors.{ok}
use nexuscloud.Storage.SafeJoin.{absolute, within, safe_join}

has_prefix-slash :
    (a b : Str) → has_prefix (slash ∷ (a ++ (slash ∷ b))) (slash ∷ (a ++ (slash ∷ []))) ≡ true
has_prefix-slash a b =
    rw (sym (append_assoc a (slash ∷ []) b)) (has_prefix-append (slash ∷ (a ++ (slash ∷ []))) b)

full_path :
    (root : List Str) (rel : Str)
    → All IsNormal root
    → path_join (abs_path root ∷ clean (slash ∷ rel) ∷ []) ≡ abs_path (root ++ descend [] rel)
full_path root rel h =
    rw (clean_rooted rel, path_join-abs_path root (abs_path (descend [] rel) ∷ []) h)
      (ap abs_path (descend-abs_path root (descend [] rel) (descend-IsNormal [] rel tt)))

pub within-abs_path :
    (base segs : List Str) → base ≢ [] → within (abs_path base) (abs_path (base ++ segs)) ≡ true
unfolding within
within-abs_path base [] ne = rw (append-nil, str_eq_refl) refl
within-abs_path base (s ∷ segs) ne =
    rw (join-append slash base s segs ne)
      (ground (arith, has_prefix-slash (join slash base) (join slash (s ∷ segs))))

pub absolute-abs_path :
    (cwd : Option Str) (segs : List Str)
    → All IsNormal segs
    → absolute cwd (abs_path segs) ≡ ok (abs_path segs)
unfolding absolute
absolute-abs_path cwd segs h = ap ok (clean-abs_path segs h)

-- Under a rooted, clean root other than `/`, every path without a NUL byte is accepted and leads to
-- a place whose elements begin with those of the root: `..` never climbs out.
pub safe_join-within :
    (cwd : Option Str) (root : List Str) (rel : Str)
    → All IsNormal root
    → root ≢ []
    → has_byte 0 rel ≡ false
    → safe_join cwd (abs_path root) rel ≡ ok (abs_path (root ++ descend [] rel))
unfolding safe_join
safe_join-within cwd root rel h ne z =
    rw
      (
        z,
        full_path root rel h,
        absolute-abs_path cwd root h,
        absolute-abs_path cwd _ (All-append IsNormal root _ h (descend-IsNormal [] rel tt)),
        within-abs_path root (descend [] rel) ne,
      )
      refl
