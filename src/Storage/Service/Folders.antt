-- ===== src/Storage/Service/Folders.antt =====
-- Folders: `List`, `Mkdir`, `DeleteDirectory`, `PermanentlyDeleteDirectory`, `RestoreDirectory` of
-- file_service.go.
use nexuscloud.Base.{ℕ, Bool, true, false, not, none, List, [], ◌∷◌, Str, if◌then◌else◌, ◌||◌}
use nexuscloud.GoPath.{path_join}
use nexuscloud.Storage.Errors.{Result, ok, err, directory_not_empty, file_exists}
use nexuscloud.Storage.Model.{FileMeta, Directory, dir_is_trashed}
use nexuscloud.Storage.Action.{pure, lift, attempt, reject_if, ◌>>=◌, ◌>>◌}
use nexuscloud.Storage.World.{Outside, Settings, Service, on_disk, fresh_id}
use nexuscloud.Storage.Names.{validate_name, normalize_parent_path, physical_path}
use nexuscloud.Storage.Pools.{provider_for, resolve_target_pool}
use nexuscloud.Storage.Files.{list_files}
use nexuscloud.Storage.Directories.{
  create_directory, get_directory_by_natural_key, list_directories, soft_delete_directory,
  restore_directory_row, delete_directory_row,
}
use nexuscloud.Storage.Service.Upload.{reject_if_trash_occupies_name}
use nexuscloud.Storage.Service.Trash.{as_name_occupied}
use nexuscloud.Storage.Service.Move.{owned_directory}

abbrev pub is_empty : {A : Type 0} → List A → Bool
is_empty [] = true
is_empty (x ∷ xs) = false

-- A folder that is not empty on disk is no failure.
abbrev pub ignore_exists : Result (Unit {0}) → Result (Unit {0})
ignore_exists (err file_exists) = ok tt
ignore_exists r = r

module _ (o : Outside) (s : Settings) where
  -- `List`
  unfoldable pub list_folder : Str → Str → Service o (List Directory × List FileMeta)
  list_folder owner parent_path = do
    let parent = normalize_parent_path parent_path
    dirs ← list_directories o owner parent
    files ← list_files o owner parent
    pure (dirs, files)

  -- `Mkdir`
  unfoldable pub mkdir : ℕ → Str → Str → Str → Str → Service o Directory
  mkdir now owner parent_path name pool_id = do
    lift (validate_name name)
    let parent = normalize_parent_path parent_path
    pool ← resolve_target_pool o pool_id
    provider_for o pool.id
    reject_if_trash_occupies_name o s pool.id owner parent name
    on_disk o (o.mkdir_all pool.id (physical_path owner parent name))
    id ← fresh_id o
    create_directory o (record {
      id = id;
      pool_id = pool.id;
      owner_id = owner;
      parent_path = parent;
      name = name;
      created_at = now;
      deleted_at = none;
    })
    get_directory_by_natural_key o pool.id owner parent name

  -- `ensureDirectoryEmpty`
  unfoldable pub ensure_directory_empty : Str → Directory → Service o (Unit {0})
  ensure_directory_empty owner target = do
    let child_path = path_join (target.parent_path ∷ target.name ∷ [])
    dirs ← list_directories o owner child_path
    files ← list_files o owner child_path
    reject_if (not (is_empty dirs) || not (is_empty files)) directory_not_empty

  -- `permanentlyDeleteDirectory`
  unfoldable pub permanently_delete_dir : Directory → Service o (Unit {0})
  permanently_delete_dir target = do
    provider_for o target.pool_id
    r ← attempt (
        on_disk o
          (o.remove target.pool_id (physical_path target.owner_id target.parent_path target.name)))
    lift (if dir_is_trashed target then ignore_exists r else r)
    delete_directory_row o target.id

  -- The marker of a folder that goes to the trash.
  unfoldable pub trash_directory : ℕ → Directory → Service o (Unit {0})
  trash_directory now target = do
    provider_for o target.pool_id
    r ← attempt (
        on_disk o
          (o.remove target.pool_id (physical_path target.owner_id target.parent_path target.name)))
    lift (ignore_exists r)
    soft_delete_directory o target.id now

  -- `DeleteDirectory`
  unfoldable pub delete_directory : ℕ → Str → Str → Service o (Unit {0})
  delete_directory now requester dir_id = do
    target ← owned_directory o requester dir_id
    ensure_directory_empty requester target
    if s.trash_enabled then trash_directory now target else permanently_delete_dir target

  -- `PermanentlyDeleteDirectory`
  unfoldable pub permanently_delete_directory : Str → Str → Service o (Unit {0})
  permanently_delete_directory requester dir_id = do
    target ← owned_directory o requester dir_id
    if dir_is_trashed target then pure tt else ensure_directory_empty requester target
    permanently_delete_dir target

  -- `RestoreDirectory`
  unfoldable pub restore_directory : Str → Str → Service o (Unit {0})
  restore_directory requester dir_id = do
    target ← owned_directory o requester dir_id
    r ← attempt (restore_directory_row o dir_id)
    lift (as_name_occupied r)
    provider_for o target.pool_id
    on_disk o
        (o.mkdir_all target.pool_id (physical_path target.owner_id target.parent_path target.name))
