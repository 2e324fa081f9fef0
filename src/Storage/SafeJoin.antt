-- ===== src/Storage/SafeJoin.antt =====
-- nexuscloud/internal/storage/path.go: the only way from an untrusted path to a physical one.
pub mod Containment
pub mod Resolve
use nexuscloud.Base.{
  ℕ, zero, suc, Bool, true, false, not, Option, none, some, List, [], ◌∷◌, ◌++◌, ◌&&◌,
  if◌then◌else◌, Str, str_eq, has_prefix, has_byte,
}
use nexuscloud.GoPath.{slash, starts_slash, clean, path_join, dir_of}
use nexuscloud.Storage.Errors.{
  Result, ok, err, ◌>>=◌, ◌>>◌, fail_if, path_escapes_root, invalid_path, failed, Error,
}

-- `filepath.Abs`: `cwd` is the working directory, if `os.Getwd` gives one.
unfoldable pub absolute : Option Str → Str → Result Str
absolute cwd p =
    if starts_slash p
    then ok (clean p)
    else elim cwd [ none ↦ err failed | some d ↦ ok (path_join (d ∷ p ∷ [])) ]

-- `full == root` or `full` begins with `root` and a separator.
unfoldable pub within : Str → Str → Bool
within root full = if str_eq full root then true else has_prefix full (root ++ (slash ∷ []))

-- `SafeJoin`
unfoldable pub safe_join : Option Str → Str → Str → Result Str
safe_join cwd root rel = do
  fail_if (has_byte 0 rel) invalid_path
  let full = path_join (root ∷ clean (slash ∷ rel) ∷ [])
  root_abs ← absolute cwd root
  full_abs ← absolute cwd full
  fail_if (not (within root_abs full_abs)) path_escapes_root
  ok full_abs

-- What `os.Lstat` says of a path.
pub data Stat : Type 0 where
  missing : Stat
  unreadable : Error → Stat
  link : Stat
  entry : Stat

-- The host's file system, as far as `SafeJoinResolved` asks it.
pub record Host : Type 0 where
  pub lstat : Str → Stat
  pub eval_symlinks : Str → Result Str

-- The check at an existing ancestor that is no symlink.
unfoldable pub check_resolved : Host → Str → Str → Str → Result Str
check_resolved host root full probe = do
  resolved ← host.eval_symlinks probe
  fail_if (not (within root resolved)) path_escapes_root
  ok full

-- The loop of `SafeJoinResolved` up from `probe`; `none` means that the fuel ran out.
unfoldable pub probe_up : ℕ → Host → Str → Str → Str → Option (Result Str)
probe_up zero host root full probe = none
probe_up (suc fuel) host root full probe =
    let parent = dir_of probe in
    let rest = probe_up fuel host root full parent in
    if str_eq probe root then some (ok full) else elim (host.lstat probe) [
      | missing ↦ if str_eq parent probe then some (err path_escapes_root) else rest
      | unreadable e ↦ some (err e)
      | link ↦ some (err path_escapes_root)
      | entry ↦ some (check_resolved host root full probe)
    ]

-- `SafeJoinResolved`
unfoldable pub safe_join_resolved : ℕ → Host → Option Str → Str → Str → Option (Result Str)
safe_join_resolved fuel host cwd root rel = elim (safe_join cwd root rel) [
  | ok full ↦ probe_up fuel host root full full
  | err e ↦ some (err e)
]
