-- ===== src/Storage/Service/Upload.antt =====
-- `Upload` and the history of versions that it keeps: file_service.go.
pub mod NoOverwrite
use nexuscloud.Base.{
  ℕ, ◌+◌, ◌-◌, ◌*◌, Bool, true, false, none, not, List, [], ◌∷◌, Str, if◌then◌else◌, ltb, leb,
  str_eq, ◌==◌, ◌&&◌, ◌||◌,
}
use nexuscloud.Sharing.Reader.{Reader}
use nexuscloud.Storage.Errors.{
  Result, ok, err, name_occupied_by_trash, destination_occupied, file_not_found,
}
use nexuscloud.Storage.Model.{FileMeta, Directory, FileVersion, is_trashed, dir_is_trashed}
use nexuscloud.Storage.Action.{pure, lift, attempt, on_failure, reject_if, ◌>>=◌, ◌>>◌}
use nexuscloud.Storage.World.{Outside, Settings, Service, on_disk, fresh_id}
use nexuscloud.Storage.Names.{
  validate_name, normalize_parent_path, physical_path, staging_path, version_storage_path,
}
use nexuscloud.Storage.Pools.{provider_for, resolve_target_pool}
use nexuscloud.Storage.Files.{get_file_by_natural_key, upsert_file}
use nexuscloud.Storage.Directories.{get_directory_by_natural_key}
use nexuscloud.Storage.Versions.{create_version, list_versions, latest_version_num, delete_version}

pub record UploadInput : Type 0 where
  pub owner_id : Str
  pub parent_path : Str
  pub name : Str
  pub content : Reader
  pub pool_id : Str
  pub no_overwrite : Bool

-- Nanoseconds in a day.
abbrev pub day : ℕ
day = 86_400_000_000_000

-- Whether a lookup found something in the trash; a lookup that failed found nothing.
abbrev pub found_trashed : Result FileMeta → Bool
found_trashed (err e) = false
found_trashed (ok f) = is_trashed f

abbrev pub found_trashed_dir : Result Directory → Bool
found_trashed_dir (err e) = false
found_trashed_dir (ok d) = dir_is_trashed d

-- The `switch` of `NoOverwrite`.
abbrev pub overwrite_verdict : Result FileMeta → Result (Unit {0})
overwrite_verdict (ok f) = if is_trashed f then ok tt else err destination_occupied
overwrite_verdict (err file_not_found) = ok tt
overwrite_verdict (err e) = err e

-- The vote of the limits on the version at place `i` of the history, the newest first, where
-- `total` bytes are used up to it and it included.
unfoldable pub should_prune : Settings → ℕ → ℕ → ℕ → FileVersion → Bool
should_prune s now i total v =
    (ltb 0 s.max_versions_per_file && leb s.max_versions_per_file i)
    || ((ltb 0 s.max_version_age_days && ltb v.created_at (now - s.max_version_age_days * day))
        || (ltb 0 s.max_versions_total_size_bytes && ltb s.max_versions_total_size_bytes total))

module _ (o : Outside) (s : Settings) where
  -- `rejectIfTrashOccupiesName`
  unfoldable pub reject_if_trash_occupies_name : Str → Str → Str → Str → Service o (Unit {0})
  reject_if_trash_occupies_name pool owner parent name = do
    f ← attempt (get_file_by_natural_key o pool owner parent name)
    reject_if (found_trashed f) name_occupied_by_trash
    d ← attempt (get_directory_by_natural_key o pool owner parent name)
    reject_if (found_trashed_dir d) name_occupied_by_trash

  unfoldable pub check_no_overwrite : Bool → Str → Str → Str → Str → Service o (Unit {0})
  check_no_overwrite false pool owner parent name = pure tt
  check_no_overwrite true pool owner parent name = do
    existing ← attempt (get_file_by_natural_key o pool owner parent name)
    lift (overwrite_verdict existing)

  unfoldable pub prune_version : Str → FileVersion → Service o (Unit {0})
  prune_version pool v = do on_disk o (o.remove pool v.storage_key); delete_version o v.id

  unfoldable pub prune_loop : ℕ → Str → ℕ → ℕ → List FileVersion → Service o (Unit {0})
  prune_loop now pool i total [] = pure tt
  prune_loop now pool i total (v ∷ vs) = do
    if should_prune s now i (total + v.size_bytes) v then prune_version pool v else pure tt
    prune_loop now pool (i + 1) (total + v.size_bytes) vs

  -- `enforceMaxVersions`
  unfoldable pub enforce_max_versions : ℕ → Str → Str → Service o (Unit {0})
  enforce_max_versions now pool file_id =
      if s.max_versions_per_file == 0
        && (s.max_version_age_days == 0 && s.max_versions_total_size_bytes == 0)
      then pure tt
      else (provider_for o pool >>= λ _.
          (list_versions o file_id >>= λ vs. prune_loop now pool 0 0 vs))

  -- `snapshotVersion`
  unfoldable pub snapshot_version : ℕ → FileMeta → Service o (Unit {0})
  snapshot_version now existing = do
    provider_for o existing.pool_id
    last ← latest_version_num o existing.id
    let num = last + 1
    let key = version_storage_path existing.owner_id existing.id num
    on_disk o (
        o.move existing.pool_id (physical_path existing.owner_id existing.parent_path existing.name)
          key)
    id ← fresh_id o
    create_version o (record {
      id = id;
      file_id = existing.id;
      version_num = num;
      size_bytes = existing.size_bytes;
      sha256 = existing.sha256;
      mime_type = existing.mime_type;
      storage_key = key;
      created_at = existing.updated_at;
    })
    enforce_max_versions now existing.pool_id existing.id

  -- Whether the content that is in place becomes a version: there is an active file, and its hash
  -- differs.
  unfoldable pub needs_version : Str → Result FileMeta → Bool
  needs_version sha (err e) = false
  needs_version sha (ok f) =
      not (is_trashed f) && (s.versioning_enabled && not (str_eq f.sha256 sha))

  unfoldable pub keep_previous : ℕ → Str → Result FileMeta → Service o (Unit {0})
  keep_previous now sha (err e) = pure tt
  keep_previous now sha (ok f) =
      if needs_version sha (ok f) then snapshot_version now f else pure tt

  -- From the written staging file to the final place.
  unfoldable pub place_content : ℕ → UploadInput → Str → Str → Str → Service o (Unit {0})
  place_content now input pool staging sha = do
    let parent = normalize_parent_path input.parent_path
    existing ← attempt (get_file_by_natural_key o pool input.owner_id parent input.name)
    keep_previous now sha existing
    on_disk o (o.move pool staging (physical_path input.owner_id parent input.name))

  -- `Upload`
  unfoldable pub upload : ℕ → UploadInput → Service o FileMeta
  upload now input = do
    lift (validate_name input.name)
    let parent = normalize_parent_path input.parent_path
    pool ← resolve_target_pool o input.pool_id
    provider_for o pool.id
    reject_if_trash_occupies_name pool.id input.owner_id parent input.name
    check_no_overwrite input.no_overwrite pool.id input.owner_id parent input.name
    staging_id ← fresh_id o
    let staging = staging_path input.owner_id staging_id
    written ← on_disk o (o.write pool.id staging input.content)
    on_failure (place_content now input pool.id staging written.1)
        (on_disk o (o.remove pool.id staging))
    id ← fresh_id o
    upsert_file o (record {
      id = id;
      pool_id = pool.id;
      owner_id = input.owner_id;
      parent_path = parent;
      name = input.name;
      size_bytes = written.0;
      sha256 = written.1;
      mime_type = o.mime_of input.name;
      created_at = now;
      updated_at = now;
      deleted_at = none;
    })
