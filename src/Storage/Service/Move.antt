-- ===== src/Storage/Service/Move.antt =====
-- `MoveFile` and `MoveDirectory` of file_service.go.
pub mod Vacant
use nexuscloud.Base.{
  not, Option, none, some, [], ◌∷◌, ◌++◌, Str, if◌then◌else◌, str_eq, has_prefix, ◌&&◌,
}
use nexuscloud.GoPath.{slash, path_join}
use nexuscloud.Storage.Errors.{
  Result, ok, err, forbidden, file_not_found, directory_not_found, destination_occupied,
  invalid_move_destination,
}
use nexuscloud.Storage.Model.{FileMeta, Directory, is_trashed, dir_is_trashed}
use nexuscloud.Storage.Action.{pure, lift, attempt, on_failure, reject_if, ◌>>=◌, ◌>>◌}
use nexuscloud.Storage.World.{Outside, Service, on_disk}
use nexuscloud.Storage.Names.{validate_name, normalize_parent_path, physical_path}
use nexuscloud.Storage.Pools.{provider_for}
use nexuscloud.Storage.Files.{get_file_by_natural_key, move_file_row}
use nexuscloud.Storage.Directories.{
  get_directory_by_id, get_directory_by_natural_key, move_directory_tree,
}
use nexuscloud.Storage.Service.History.{owned_file}

-- A destination is free if the lookups find nothing; another failure is passed on.
abbrev pub free_of_file : Result FileMeta → Result (Unit {0})
free_of_file (ok f) = err destination_occupied
free_of_file (err file_not_found) = ok tt
free_of_file (err e) = err e

abbrev pub free_of_directory : Result Directory → Result (Unit {0})
free_of_directory (ok d) = err destination_occupied
free_of_directory (err directory_not_found) = ok tt
free_of_directory (err e) = err e

abbrev pub given_or : Option Str → Str → Str
given_or none old = old
given_or (some new) old = new

abbrev pub given_parent_or : Option Str → Str → Str
given_parent_or none old = old
given_parent_or (some p) old = normalize_parent_path p

module _ (o : Outside) where
  -- `rejectIfDestinationOccupied`
  unfoldable pub reject_if_destination_occupied : Str → Str → Str → Str → Service o (Unit {0})
  reject_if_destination_occupied pool owner parent name = do
    f ← attempt (get_file_by_natural_key o pool owner parent name)
    lift (free_of_file f)
    d ← attempt (get_directory_by_natural_key o pool owner parent name)
    lift (free_of_directory d)

  -- The move on the content store, then that of the row, with the first undone if the second fails.
  unfoldable pub relocate_file : FileMeta → Str → Str → Service o FileMeta
  relocate_file meta parent name = do
    reject_if_destination_occupied meta.pool_id meta.owner_id parent name
    provider_for o meta.pool_id
    let old = physical_path meta.owner_id meta.parent_path meta.name
    let new = physical_path meta.owner_id parent name
    on_disk o (o.move meta.pool_id old new)
    on_failure (move_file_row o meta.id parent name) (on_disk o (o.move meta.pool_id new old))
    pure (record meta { parent_path = parent; name = name })

  -- `MoveFile`
  unfoldable pub move_file : Str → Str → Option Str → Option Str → Service o FileMeta
  move_file requester file_id new_parent new_name = do
    meta ← owned_file o requester file_id
    reject_if (is_trashed meta) file_not_found
    let name = given_or new_name meta.name
    lift (validate_name name)
    let parent = given_parent_or new_parent meta.parent_path
    if str_eq parent meta.parent_path && str_eq name meta.name
        then pure meta
        else relocate_file meta parent name

  -- The directory with this identifier, if the requester owns it.
  unfoldable pub owned_directory : Str → Str → Service o Directory
  owned_directory requester dir_id = do
    target ← get_directory_by_id o dir_id
    reject_if (not (str_eq target.owner_id requester)) forbidden
    pure target

  unfoldable pub relocate_directory : Directory → Str → Str → Str → Str → Service o Directory
  relocate_directory target parent name old_full new_full = do
    reject_if (has_prefix (new_full ++ (slash ∷ [])) (old_full ++ (slash ∷ [])))
        invalid_move_destination
    reject_if_destination_occupied target.pool_id target.owner_id parent name
    provider_for o target.pool_id
    let old = physical_path target.owner_id target.parent_path target.name
    let new = physical_path target.owner_id parent name
    on_disk o (o.move target.pool_id old new)
    on_failure
        (move_directory_tree o target.pool_id target.owner_id target.id old_full parent name
          new_full)
        (on_disk o (o.move target.pool_id new old))
    pure (record target { parent_path = parent; name = name })

  -- `MoveDirectory`
  unfoldable pub move_directory : Str → Str → Option Str → Option Str → Service o Directory
  move_directory requester dir_id new_parent new_name = do
    target ← owned_directory requester dir_id
    reject_if (dir_is_trashed target) directory_not_found
    let name = given_or new_name target.name
    lift (validate_name name)
    let parent = given_parent_or new_parent target.parent_path
    let old_full = path_join (target.parent_path ∷ target.name ∷ [])
    let new_full = path_join (parent ∷ name ∷ [])
    if str_eq new_full old_full
        then pure target
        else relocate_directory target parent name old_full new_full
