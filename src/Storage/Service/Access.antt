-- ===== src/Storage/Service/Access.antt =====
-- Access through shares of users and groups: `Download` of file_service.go, and the walk over
-- ancestor folders, `ListSharedDirectory` and the uploads to shared folders of
-- file_service_sharing.go.
pub mod Opens
pub mod Granted
use nexuscloud.Base.{
  ℕ, Bool, true, false, not, Option, none, some, List, [], ◌∷◌, ◌++◌, Str, if◌then◌else◌, str_eq,
}
use mathlib.Core.List.{reverse}
use nexuscloud.GoPath.{slash, split, join, trim_slashes, path_join}
use nexuscloud.Storage.Errors.{
  Result, ok, err, forbidden, sharing_disabled, directory_not_found, share_upload_not_allowed,
}
use nexuscloud.Storage.Model.{FileMeta, Directory, Share, dir_is_trashed}
use nexuscloud.Storage.Action.{pure, raise, attempt, reject_if, ◌>>=◌, ◌>>◌}
use nexuscloud.Storage.World.{Outside, Settings, Service, from_disk}
use nexuscloud.Storage.Names.{physical_path}
use nexuscloud.Storage.Pools.{default_pool, provider_for}
use nexuscloud.Storage.Files.{get_file_by_id}
use nexuscloud.Storage.Directories.{get_directory_by_id, get_directory_by_natural_key}
use nexuscloud.Storage.Shares.{
  has_file_access, has_directory_access, list_upload_shares_for_directory,
}
use nexuscloud.Storage.Service.Upload.{UploadInput, upload}
use nexuscloud.Storage.Service.Folders.{list_folder}
use nexuscloud.Sharing.Grants.{most_permissive_upload_grant}
use nexuscloud.Sharing.Reader.{Reader, copy_within}

-- The content as a copy through `errLimitReader` gives it.
unfoldable pub limited : Option ℕ → Reader → Reader
limited none r = r
limited (some limit) r =
    let (bytes, ending) = copy_within limit r in record { bytes = bytes; ending = ending }

module _ (o : Outside) {S : Type 0} (visit : S → Directory → Service o (S × Bool)) where
  unfoldable pub visit_found : S → Result Directory → Service o (S × Bool)
  visit_found found (err e) = pure (found, false)
  visit_found found (ok dir) = visit found dir

  -- The loop of `walkAncestorDirectories` over the elements of the path, the last one first. `found`
  -- is what `visit` has found so far; it also says whether to stop.
  unfoldable pub walk_up : Str → Str → S → List Str → Service o S
  walk_up pool owner found [] = pure found
  walk_up pool owner found (name ∷ above) = do
    dir ←
        attempt
          (get_directory_by_natural_key o pool owner (slash ∷ join slash (reverse above)) name)
    visited ← visit_found found dir
    if visited.1 then pure visited.0 else walk_up pool owner visited.0 above

  -- `walkAncestorDirectories`
  unfoldable pub walk_ancestor_directories : Str → Str → S → Service o S
  walk_ancestor_directories owner logical_parent_path start =
      if str_eq (trim_slashes logical_parent_path) []
      then pure start
      else (default_pool o >>= λ pool.
          walk_up pool.id owner start (reverse (split slash (trim_slashes logical_parent_path))))

module _ (o : Outside) (s : Settings) where
  unfoldable pub visit_access : ℕ → Str → Bool → Directory → Service o (Bool × Bool)
  visit_access now requester found dir = do
    ok_here ← has_directory_access o requester dir.id now
    pure (ok_here, ok_here)

  -- `hasShareAccessToAncestorDirectories`
  unfoldable pub has_share_access_to_ancestor_directories : ℕ → Str → Str → Str → Service o Bool
  has_share_access_to_ancestor_directories now requester owner parent =
      walk_ancestor_directories o (visit_access now requester) owner parent false

  -- `hasShareAccessToFile`
  unfoldable pub has_share_access_to_file : ℕ → Str → FileMeta → Service o Bool
  has_share_access_to_file now requester meta =
      if not s.sharing_enabled
      then pure false
      else (has_file_access o requester meta.id now >>= λ direct.
          if direct
          then pure true
          else has_share_access_to_ancestor_directories now requester meta.owner_id
              meta.parent_path)

  -- `hasShareAccessToDirectory`
  unfoldable pub has_share_access_to_directory : ℕ → Str → Directory → Service o Bool
  has_share_access_to_directory now requester dir =
      if not s.sharing_enabled
      then pure false
      else (has_directory_access o requester dir.id now >>= λ direct.
          if direct
          then pure true
          else has_share_access_to_ancestor_directories now requester dir.owner_id dir.parent_path)

  unfoldable pub check_file_access : ℕ → Str → FileMeta → Service o (Unit {0})
  check_file_access now requester meta =
      if str_eq meta.owner_id requester
      then pure tt
      else (has_share_access_to_file now requester meta >>= λ granted.
          reject_if (not granted) forbidden)

  unfoldable pub check_directory_access : ℕ → Str → Directory → Service o (Unit {0})
  check_directory_access now requester dir =
      if str_eq dir.owner_id requester
      then pure tt
      else (has_share_access_to_directory now requester dir >>= λ granted.
          reject_if (not granted) forbidden)

  -- The content of a file, from the provider of its pool.
  unfoldable pub read_content : FileMeta → Service o (FileMeta × List ℕ)
  read_content meta = do
    provider_for o meta.pool_id
    content ←
        from_disk o (o.read meta.pool_id (physical_path meta.owner_id meta.parent_path meta.name))
    pure (meta, content)

  -- `Download`
  unfoldable pub download : ℕ → Str → Str → Service o (FileMeta × List ℕ)
  download now requester file_id = do
    meta ← get_file_by_id o file_id
    check_file_access now requester meta
    read_content meta

  -- `ListSharedDirectory`
  unfoldable pub list_shared_directory : ℕ → Str → Str → Service o (List Directory × List FileMeta)
  list_shared_directory now requester directory_id = do
    dir ← get_directory_by_id o directory_id
    check_directory_access now requester dir
    list_folder o s dir.owner_id (path_join (dir.parent_path ∷ dir.name ∷ []))

  unfoldable pub visit_upload : ℕ → Str → List Share → Directory → Service o (List Share × Bool)
  visit_upload now requester grants ancestor =
      if dir_is_trashed ancestor
      then pure (grants, false)
      else (list_upload_shares_for_directory o requester ancestor.id now >>= λ further.
          pure (grants ++ further, false))

  -- `uploadGrants`
  unfoldable pub upload_grants : ℕ → Str → Directory → Service o (List Share)
  upload_grants now requester dir = do
    grants ← list_upload_shares_for_directory o requester dir.id now
    walk_ancestor_directories o (visit_upload now requester) dir.owner_id dir.parent_path grants

  unfoldable pub choose_grant : ℕ → Str → Directory → List Share → Service o Share
  choose_grant now requester dir (g ∷ grants) = pure (most_permissive_upload_grant g grants)
  choose_grant now requester dir [] = do
    can_read ← has_share_access_to_directory now requester dir
    if can_read then raise share_upload_not_allowed else raise forbidden

  -- `uploadGrantFor`
  unfoldable pub upload_grant_for : ℕ → Str → Directory → Service o Share
  upload_grant_for now requester dir = do
    grants ← upload_grants now requester dir
    choose_grant now requester dir grants

  -- The identifier of the share that lets the requester upload, and its limit; the owner needs none.
  unfoldable pub upload_right : ℕ → Str → Directory → Service o (Str × Option ℕ)
  upload_right now requester dir =
      if str_eq dir.owner_id requester
      then pure ([], none)
      else (upload_grant_for now requester dir >>= λ grant.
          pure (grant.id, grant.max_upload_size_bytes))

  -- `UploadToSharedDirectory`
  unfoldable pub upload_to_shared_directory :
      ℕ → Str → Str → Str → Reader → Service o (FileMeta × Str)
  upload_to_shared_directory now requester directory_id name content = do
    reject_if (not s.sharing_enabled) sharing_disabled
    dir ← get_directory_by_id o directory_id
    reject_if (dir_is_trashed dir) directory_not_found
    right ← upload_right now requester dir
    meta ← upload o s now (record {
      owner_id = dir.owner_id;
      parent_path = path_join (dir.parent_path ∷ dir.name ∷ []);
      name = name;
      content = limited right.1 content;
      pool_id = [];
      no_overwrite = true;
    })
    pure (meta, right.0)

  -- Whether the permissions allow an upload, and up to which size.
  unfoldable pub permission_of : List Share → Bool × Option ℕ
  permission_of [] = (false, none)
  permission_of (g ∷ grants) = (true, (most_permissive_upload_grant g grants).max_upload_size_bytes)

  unfoldable pub permission_on : ℕ → Str → Directory → Service o (Bool × Option ℕ)
  permission_on now requester dir =
      if dir_is_trashed dir
      then pure (false, none)
      else if str_eq dir.owner_id requester
      then pure (true, none)
      else (upload_grants now requester dir >>= λ grants. pure (permission_of grants))

  -- `SharedUploadPermission`
  unfoldable pub shared_upload_permission : ℕ → Str → Str → Service o (Bool × Option ℕ)
  shared_upload_permission now requester directory_id =
      if not s.sharing_enabled
      then pure (false, none)
      else (get_directory_by_id o directory_id >>= λ dir. permission_on now requester dir)
