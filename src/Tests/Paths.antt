-- ===== src/Tests/Paths.antt =====
-- The theorems on paths and names at concrete inputs.
use nexuscloud.Base.{
  ◌≡◌, ◌≢◌, refl, none, some, List, [], ◌∷◌, ◌++◌, Str, str, str_eq, All, arith, has_byte,
  has_prefix, if◌then◌else◌,
}
use nexuscloud.GoText.{itoa}
use nexuscloud.GoPath.{split, join, clean_loop, clean_step, go_up, clean, join_buffer, path_join}
use nexuscloud.GoPath.Clean.{IsNormal, abs_path, descend}
use nexuscloud.Storage.Errors.{ok, err, path_escapes_root}
use nexuscloud.Storage.Model.{Directory}
use nexuscloud.Storage.SafeJoin.{Host, missing, entry, safe_join, safe_join_resolved, within}
use nexuscloud.Storage.SafeJoin.Containment.{safe_join-within}
use nexuscloud.Storage.SafeJoin.Resolve.{judged, verdict, safe_join_resolved-verdict}
use nexuscloud.Storage.Names.{
  validate_name, normalize_parent_path, physical_path, version_storage_path, resolve_shared_path,
}
use nexuscloud.Storage.Names.Physical.{path_elements, physical_path-injective}
use nexuscloud.Storage.Names.Reserved.{version_storage_path-reachable}
use nexuscloud.Storage.Names.Shared.{resolve_shared_path-below}
use nexuscloud.Tests.{folder}

abbrev root : List Str
root = str "data" ∷ str "nc" ∷ []

abbrev climbing : Str
climbing = str "../../etc/./passwd"

IsNormal-root : All IsNormal root
unfolding str_eq
IsNormal-root = (
  (refl, refl, refl, (refl, (refl, (refl, (refl, tt))))),
  ((refl, refl, refl, (refl, (refl, tt))), tt),
)

IsNormal-u : IsNormal (str "u")
unfolding str_eq
IsNormal-u = (refl, refl, refl, (refl, tt))

IsNormal-f : IsNormal (str "f")
unfolding str_eq
IsNormal-f = (refl, refl, refl, (refl, tt))

root-ne : root ≢ []
root-ne e = cc

safe_join-within_example : safe_join none (str "/data/nc") climbing ≡ ok (str "/data/nc/etc/passwd")
unfolding str_eq has_byte join descend split clean_loop clean_step go_up
safe_join-within_example = safe_join-within none root climbing IsNormal-root root-ne refl

-- Of `/data/nc/etc/passwd` only `/data/nc/etc` exists, and it stands for another place.
abbrev redirected : Host
redirected = record {
  lstat = λ p. if str_eq p (str "/data/nc/etc") then entry else missing;
  eval_symlinks = λ p. ok (str "/private");
}

safe_join_resolved-verdict_example :
    safe_join_resolved 3 redirected none (str "/data/nc") climbing ≡ some (err path_escapes_root)
unfolding str_eq has_byte join descend split clean_loop clean_step go_up verdict judged within
    has_prefix
safe_join_resolved-verdict_example =
    safe_join_resolved-verdict 3 redirected none root climbing IsNormal-root root-ne refl
      (omega arith)

abbrev shared : Directory
shared = folder "3" "ana" "docs"

resolve_shared_path-below_example :
    (below : List Str) × All IsNormal below
    × (str "/docs/a" ≡ abs_path (path_elements (str "/") ++ (str "docs" ∷ below)))
unfolding str_eq has_byte has_prefix split join clean_loop clean_step go_up clean join_buffer
    path_join path_elements descend validate_name normalize_parent_path resolve_shared_path
resolve_shared_path-below_example =
    resolve_shared_path-below shared (str "/") (str "x/../a") refl refl refl

version_storage_path-reachable_example :
    (validate_name (itoa 3) ≡ ok tt)
    × (physical_path
          (str "u")
          (normalize_parent_path (str "/.nexuscloud-versions/" ++ str "f"))
          (itoa 3)
        ≡ version_storage_path (str "u") (str "f") 3)
version_storage_path-reachable_example =
    version_storage_path-reachable (str "u") (str "f") 3 IsNormal-u IsNormal-f

physical_path-injective_example :
    (str "u" ≡ str "u")
    × (normalize_parent_path (str "/a") ≡ normalize_parent_path (str "a/"))
    × (str "n" ≡ str "n")
unfolding str_eq has_byte has_prefix split join clean_loop clean_step go_up clean join_buffer
    path_join validate_name normalize_parent_path physical_path
physical_path-injective_example =
    physical_path-injective (str "u") (str "u") (str "/a") (str "a/") (str "n") (str "n") IsNormal-u
      IsNormal-u refl refl refl
