-- ===== src/Storage/Service/Isolation/Calls.antt =====
-- The steps of the file service that change neither files nor directories.
use nexuscloud.Base.{ℕ, ◌+◌, Bool, true, false, List, [], ◌∷◌, Str}
use nexuscloud.Storage.Errors.{Result, ok, err}
use nexuscloud.Storage.Model.{FileMeta, FileVersion}
use nexuscloud.Storage.Action.Keeps.{
  Keeps, KeepsIf, Finds, keeps_rules, keeps_if_rules, Keeps-bind, Keeps-found, KeepsIf-bind,
  KeepsIf-then,
}
use nexuscloud.Storage.World.{Outside, Settings}
use nexuscloud.Storage.World.Tables.{
  Tables, On, query-On, on_disk-On, from_disk-On, fresh_id-On, create_version-On, list_versions-On,
  get_version-On, latest_version_num-On, delete_version-On, delete_all_versions-On, provider_for-On,
  resolve_target_pool-On,
}
use nexuscloud.Storage.Files.{get_file_by_natural_key}
use nexuscloud.Storage.Directories.{get_directory_by_natural_key}
use nexuscloud.Storage.Service.Upload.{
  UploadInput, reject_if_trash_occupies_name, check_no_overwrite, prune_version, prune_loop,
  enforce_max_versions, snapshot_version, keep_previous, place_content,
}
use nexuscloud.Storage.Service.History.{set_current_aside}
use nexuscloud.Storage.Service.Trash.{remove_versions}
use nexuscloud.Storage.Service.Move.{reject_if_destination_occupied}

pub ruleset calls = (
  keeps_rules, query-On, on_disk-On, from_disk-On, fresh_id-On, create_version-On, list_versions-On,
  get_version-On, latest_version_num-On, delete_version-On, delete_all_versions-On, provider_for-On,
  resolve_target_pool-On,
)

-- What touches neither files nor directories keeps any predicate on them.
module _ (o : Outside) (s : Settings) (D : Tables) where
  pub get_file_by_natural_key-On :
      (pool owner parent name : Str)
      → Keeps (On D) (get_file_by_natural_key o pool owner parent name)
  unfolding get_file_by_natural_key
  get_file_by_natural_key-On pool owner parent name = query-On o D _

  pub get_directory_by_natural_key-On :
      (pool owner parent name : Str)
      → Keeps (On D) (get_directory_by_natural_key o pool owner parent name)
  unfolding get_directory_by_natural_key
  get_directory_by_natural_key-On pool owner parent name = query-On o D _

  pub reject_if_trash_occupies_name-On :
      (pool owner parent name : Str)
      → Keeps (On D) (reject_if_trash_occupies_name o s pool owner parent name)
  unfolding reject_if_trash_occupies_name
  reject_if_trash_occupies_name-On pool owner parent name =
      search (calls, get_file_by_natural_key-On, get_directory_by_natural_key-On)

  pub check_no_overwrite-On :
      (b : Bool) (pool owner parent name : Str)
      → Keeps (On D) (check_no_overwrite o s b pool owner parent name)
  unfolding check_no_overwrite
  check_no_overwrite-On true pool owner parent name = search (calls, get_file_by_natural_key-On)
  check_no_overwrite-On false pool owner parent name = search calls

  prune_version-On : (pool : Str) (v : FileVersion) → Keeps (On D) (prune_version o s pool v)
  unfolding prune_version
  prune_version-On pool v = search calls

  prune_loop-On :
      (now : ℕ) (pool : Str) (i total : ℕ) (vs : List FileVersion)
      → Keeps (On D) (prune_loop o s now pool i total vs)
  unfolding prune_loop
  prune_loop-On now pool i total [] = search calls
  prune_loop-On now pool i total (v ∷ vs) =
      Keeps-bind _ _ (search (calls, prune_version-On))
        (λ _. prune_loop-On now pool (i + 1) (total + v.size_bytes) vs)

  enforce_max_versions-On :
      (now : ℕ) (pool file_id : Str) → Keeps (On D) (enforce_max_versions o s now pool file_id)
  unfolding enforce_max_versions
  enforce_max_versions-On now pool file_id = search (calls, prune_loop-On)

  pub snapshot_version-On : (now : ℕ) (f : FileMeta) → Keeps (On D) (snapshot_version o s now f)
  unfolding snapshot_version
  snapshot_version-On now f = search (calls, enforce_max_versions-On) depth 16

  keep_previous-On :
      (now : ℕ) (sha : Str) (r : Result FileMeta) → Keeps (On D) (keep_previous o s now sha r)
  unfolding keep_previous
  keep_previous-On now sha (ok f) = search (calls, snapshot_version-On)
  keep_previous-On now sha (err e) = search calls

  pub place_content-On :
      (now : ℕ) (input : UploadInput) (pool staging sha : Str)
      → Keeps (On D) (place_content o s now input pool staging sha)
  unfolding place_content
  place_content-On now input pool staging sha =
      search (calls, get_file_by_natural_key-On, keep_previous-On)

  pub set_current_aside-On : (now : ℕ) (f : FileMeta) → Keeps (On D) (set_current_aside o s now f)
  unfolding set_current_aside
  set_current_aside-On now f = search (calls, snapshot_version-On)

  pub remove_versions-On :
      (pool : Str) (vs : List FileVersion) → Keeps (On D) (remove_versions o s pool vs)
  unfolding remove_versions
  remove_versions-On pool [] = search calls
  remove_versions-On pool (v ∷ vs) =
      Keeps-bind _ _ (on_disk-On o D _) (λ _. remove_versions-On pool vs)

  pub reject_if_destination_occupied-On :
      (pool owner parent name : Str)
      → Keeps (On D) (reject_if_destination_occupied o pool owner parent name)
  unfolding reject_if_destination_occupied
  reject_if_destination_occupied-On pool owner parent name =
      search (calls, get_file_by_natural_key-On, get_directory_by_natural_key-On)
