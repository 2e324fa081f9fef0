-- ===== src/Storage/SafeJoin/Resolve.antt =====
-- `SafeJoinResolved`: the loop ends, and it decides by the deepest ancestor that exists.
use mathlib.Core.List.{reverse, reverse-append, reverse-reverse}
use nexuscloud.Base.{
  ℕ, zero, suc, ◌<◌, ◌≡◌, refl, sym, ap, ◌∙◌, ◌≢◌, inl, inr, false, Option, some, List, [], ◌∷◌,
  ◌++◌, arith, Str, str_eq, str_eq-eq, str_eq_refl, str_eq_comm, has_byte, All, All-append,
  append-nil, append_assoc, Bool-cases, Bool, true, not, if◌then◌else◌, length, length-append,
}
use nexuscloud.GoPath.{dir_of}
use nexuscloud.GoPath.Clean.{
  IsNormal, abs_path, abs_path-injective, descend, descend-IsNormal, dir_of-abs_path, All-reverse,
}
use nexuscloud.Storage.Errors.{Result, ok, err, path_escapes_root, fail_if, ◌>>=◌, ◌>>◌}
use nexuscloud.Storage.SafeJoin.{
  Host, missing, unreadable, link, entry, check_resolved, within, probe_up, safe_join_resolved,
}
use nexuscloud.Storage.SafeJoin.Containment.{safe_join-within}

length-reverse : (xs : List Str) → length (reverse xs) ≡ length xs
length-reverse [] = refl
length-reverse (x ∷ xs) =
    rw (reverse-append (x ∷ []) xs)
      (omega (arith, length-append (reverse xs) (x ∷ []), length-reverse xs))

-- An existing place must stand for one under the root.
unfoldable pub judged : Str → Str → Result Str → Result Str
judged root full (err e) = err e
judged root full (ok resolved) = if within root resolved then ok full else err path_escapes_root

check_resolved-judged :
    (host : Host) (root full probe : Str)
    → check_resolved host root full probe ≡ judged root full (host.eval_symlinks probe)
unfolding check_resolved judged within
check_resolved-judged host root full probe = cases (host.eval_symlinks probe)
  where
    passed :
        (b : Bool)
        → (fail_if (not b) path_escapes_root >> ok full)
          ≡ (if b then ok full else err path_escapes_root)
    passed true = refl
    passed false = refl

    cases :
        (r : Result Str)
        → (r >>= λ resolved. fail_if (not (within root resolved)) path_escapes_root >> ok full)
          ≡ judged root full r
    cases (err e) = refl
    cases (ok resolved) = passed (within root resolved)

module _ (host : Host) (root : List Str) (full : Str) where
  -- The verdict on the place `root ++ reverse below`, whose elements under the root are listed the
  -- deepest first: it is that of the first of its ancestors that exists.
  unfoldable pub verdict : List Str → Result Str
  verdict [] = ok full
  verdict (s ∷ below) = elim (host.lstat (abs_path (root ++ reverse (s ∷ below)))) [
    | missing ↦ verdict below
    | unreadable e ↦ err e
    | link ↦ err path_escapes_root
    | entry ↦
        judged (abs_path root) full (host.eval_symlinks (abs_path (root ++ reverse (s ∷ below))))
  ]

longer : (a : List Str) (s : Str) (b : List Str) → (a ++ (s ∷ b)) ≢ a
longer a s b e = absurd (omega (arith, ap length e, length-append a (s ∷ b)))

abs_path-ne :
    (a : List Str) (s : Str) (b : List Str)
    → All IsNormal a
    → All IsNormal (s ∷ b)
    → str_eq (abs_path (a ++ (s ∷ b))) (abs_path a) ≡ false
abs_path-ne a s b h k = elim (Bool-cases (str_eq (abs_path (a ++ (s ∷ b))) (abs_path a))) [
  | inl e ↦ absurd (
      longer a s b (
        abs_path-injective (a ++ (s ∷ b)) a (All-append IsNormal a (s ∷ b) h k) h
          (str_eq-eq _ _ e)))
  | inr e ↦ e
]

abs_path-below :
    (root below : List Str) (s : Str)
    → All IsNormal root
    → All IsNormal (s ∷ below)
    → str_eq (abs_path (root ++ reverse (s ∷ below))) (abs_path root) ≡ false
abs_path-below root below s h k =
    first (reverse (s ∷ below)) (All-reverse (s ∷ below) k) (longer_reverse s below)
  where
    longer_reverse : (s : Str) (below : List Str) → reverse (s ∷ below) ≢ []
    longer_reverse s below e = longer [] s below (sym (reverse-reverse (s ∷ below)) ∙ ap reverse e)

    first :
        (b : List Str)
        → All IsNormal b
        → b ≢ []
        → str_eq (abs_path (root ++ b)) (abs_path root) ≡ false
    first [] k ne = absurd (ne refl)
    first (t ∷ b) k ne = abs_path-ne root t b h k

reverse_cons :
    (root below : List Str) (s : Str)
    → root ++ reverse (s ∷ below) ≡ (root ++ reverse below) ++ (s ∷ [])
reverse_cons root below s =
    rw (reverse-append (s ∷ []) below) (sym (append_assoc root (reverse below) (s ∷ [])))

-- One round of the loop below the root.
probe_up_round :
    (host : Host) (root full probe : Str) (fuel : ℕ) (above : Result Str)
    → str_eq probe root ≡ false
    → str_eq (dir_of probe) probe ≡ false
    → probe_up fuel host root full (dir_of probe) ≡ some above
    → probe_up (suc fuel) host root full probe
      ≡ some (elim (host.lstat probe) [
        | missing ↦ above
        | unreadable e ↦ err e
        | link ↦ err path_escapes_root
        | entry ↦ judged root full (host.eval_symlinks probe)
      ])
unfolding probe_up
probe_up_round host root full probe fuel above e1 e3 e4 =
    ground (arith, check_resolved-judged host root full probe)

probe_up-verdict :
    (host : Host) (root : List Str) (full : Str) (fuel : ℕ) (below : List Str)
    → All IsNormal root
    → All IsNormal below
    → length below < fuel
    → probe_up fuel host (abs_path root) full (abs_path (root ++ reverse below))
      ≡ some (verdict host root full below)
unfolding verdict
probe_up-verdict host root full zero below h k lt = elim lt [ ]
probe_up-verdict host root full (suc fuel) [] h k lt =
    unfold probe_up in rw (append-nil, str_eq_refl) refl
probe_up-verdict host root full (suc fuel) (s ∷ below) h k lt =
    let rb : All IsNormal (root ++ reverse below) =
      All-append IsNormal root (reverse below) h (All-reverse below k.1) in
    probe_up_round host (abs_path root) full (abs_path (root ++ reverse (s ∷ below))) fuel
      (verdict host root full below) (abs_path-below root below s h k)
      (rw (up rb) (
        str_eq_comm _ _
        ∙ rw (reverse_cons root below s) (abs_path-ne (root ++ reverse below) s [] rb (k.0, tt))))
      (rw (up rb) (probe_up-verdict host root full fuel below h k.1 (omega arith)))
  where
    up :
        All IsNormal (root ++ reverse below)
        → dir_of (abs_path (root ++ reverse (s ∷ below))) ≡ abs_path (root ++ reverse below)
    up rb = rw (reverse_cons root below s) (dir_of-abs_path (root ++ reverse below) s rb k.0)

-- Under a rooted, clean root other than `/`, with fuel for the elements under the root, the loop ends,
-- and for a path without a NUL byte it gives the verdict of the deepest existing place on the way
-- below the root: a link is rejected, an error is passed on, another entry must resolve to a place
-- under the root, and with none the path is accepted.
pub safe_join_resolved-verdict :
    (fuel : ℕ) (host : Host) (cwd : Option Str) (root : List Str) (rel : Str)
    → All IsNormal root
    → root ≢ []
    → has_byte 0 rel ≡ false
    → length (descend [] rel) < fuel
    → safe_join_resolved fuel host cwd (abs_path root) rel
      ≡ some (verdict host root (abs_path (root ++ descend [] rel)) (reverse (descend [] rel)))
unfolding safe_join_resolved
safe_join_resolved-verdict fuel host cwd root rel h ne z lt =
    rw (safe_join-within cwd root rel h ne z, safe_join_resolved)
      (ap
          (λ segs.
            probe_up fuel host (abs_path root) (abs_path (root ++ descend [] rel))
              (abs_path (root ++ segs)))
          (sym (reverse-reverse (descend [] rel)))
        ∙ probe_up-verdict host root _ fuel (reverse (descend [] rel)) h
            (All-reverse _ (descend-IsNormal [] rel tt)) (rw (length-reverse (descend [] rel)) lt))
