-- ===== src/Storage/Service/Trash.antt =====
-- The trash of files: `Delete`, `PermanentlyDeleteFile`, `RestoreFile`, `ListTrash` and
-- `PurgeExpiredTrash` of file_service.go.
pub mod Undo
use nexuscloud.Base.{
  ℕ, ◌+◌, ◌-◌, Bool, true, false, not, Option, none, some, List, [], ◌∷◌, Str, if◌then◌else◌,
  str_eq, ltb, ◌||◌, ◌&&◌,
}
use nexuscloud.Storage.Errors.{
  Error, Result, ok, err, forbidden, name_occupied_by_trash, unique_violation,
}
use nexuscloud.Storage.Model.{FileMeta, FileVersion, Directory}
use nexuscloud.Storage.Action.{Action, pure, raise, lift, attempt, reject_if, ◌>>=◌, ◌>>◌}
use nexuscloud.Storage.World.{Outside, Settings, World, Service, on_disk, from_disk}
use nexuscloud.Storage.Names.{physical_path}
use nexuscloud.Storage.Pools.{provider_for}
use nexuscloud.Storage.Files.{
  get_file_by_id, soft_delete_file, restore_file_row, delete_file_row, list_trashed_files,
  list_all_trashed_files,
}
use nexuscloud.Storage.Directories.{
  list_trashed_directories, list_directories_deleted_before, delete_directory_row,
}
use nexuscloud.Storage.Versions.{list_versions, delete_all_versions}
use nexuscloud.Storage.Service.History.{owned_file}

-- `isUniqueViolation` turned into `ErrNameOccupiedByTrash`.
abbrev pub as_name_occupied : Result (Unit {0}) → Result (Unit {0})
as_name_occupied (ok u) = ok u
as_name_occupied (err unique_violation) = err name_occupied_by_trash
as_name_occupied (err e) = err e

-- Whether the purge takes a file: it was deleted before the cutoff, or the trash up to it, the
-- latest deletion first, is larger than the limit.
unfoldable pub purge_votes : ℕ → ℕ → ℕ → FileMeta → Bool
purge_votes cutoff max_total total f =
    elim f.deleted_at [ none ↦ false | some t ↦ ltb t cutoff ]
    || (ltb 0 max_total && ltb max_total total)

module _ (o : Outside) (s : Settings) where
  unfoldable pub remove_versions : Str → List FileVersion → Service o (Unit {0})
  remove_versions pool [] = pure tt
  remove_versions pool (v ∷ vs) = do
    on_disk o (o.remove pool v.storage_key)
    remove_versions pool vs

  -- `permanentlyDeleteFile`
  unfoldable pub permanently_delete : FileMeta → Service o (Unit {0})
  permanently_delete meta = do
    provider_for o meta.pool_id
    on_disk o (o.remove meta.pool_id (physical_path meta.owner_id meta.parent_path meta.name))
    vs ← list_versions o meta.id
    remove_versions meta.pool_id vs
    delete_all_versions o meta.id
    delete_file_row o meta.id

  -- `Delete`
  unfoldable pub delete : ℕ → Str → Str → Service o (Unit {0})
  delete now requester file_id = do
    meta ← owned_file o requester file_id
    if s.trash_enabled then soft_delete_file o meta.id now else permanently_delete meta

  -- `PermanentlyDeleteFile`
  unfoldable pub permanently_delete_file : Str → Str → Service o (Unit {0})
  permanently_delete_file requester file_id = do
    meta ← owned_file o requester file_id
    permanently_delete meta

  -- `RestoreFile`
  unfoldable pub restore_file : Str → Str → Service o (Unit {0})
  restore_file requester file_id = do
    owned_file o requester file_id
    r ← attempt (restore_file_row o file_id)
    lift (as_name_occupied r)

  -- `ListTrash`
  unfoldable pub list_trash : Str → Service o (List Directory × List FileMeta)
  list_trash owner = do
    dirs ← list_trashed_directories o owner
    files ← list_trashed_files o owner
    pure (dirs, files)

  -- The loop over the files in the trash; `n` counts the purged ones.
  unfoldable pub purge_files : ℕ → ℕ → ℕ → ℕ → List FileMeta → Service o ℕ
  purge_files cutoff max_total total n [] = pure n
  purge_files cutoff max_total total n (f ∷ fs) = do
    let prune = purge_votes cutoff max_total (total + f.size_bytes) f
    if prune then permanently_delete f else pure tt
    purge_files cutoff max_total (total + f.size_bytes) (if prune then n + 1 else n) fs

  unfoldable pub purge_directories : ℕ → List Directory → Service o ℕ
  purge_directories n [] = pure n
  purge_directories n (d ∷ ds) = do delete_directory_row o d.id; purge_directories (n + 1) ds

  -- `PurgeExpiredTrash`
  unfoldable pub purge_expired_trash : ℕ → ℕ → ℕ → Service o (ℕ × ℕ)
  purge_expired_trash now retention max_total = do
    let cutoff = now - retention
    trashed ← list_all_trashed_files o
    files ← purge_files cutoff max_total 0 0 trashed
    expired ← list_directories_deleted_before o cutoff
    dirs ← purge_directories 0 expired
    pure (files, dirs)
