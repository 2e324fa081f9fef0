-- ===== src/Storage/Service/Isolation/Sharing.antt =====
-- The operations on shares, and what a user reads through them, change neither files nor directories.
use nexuscloud.Base.{ℕ, ◌≡◌, subst, Bool, true, false, List, [], ◌∷◌, Str}
use nexuscloud.Storage.Errors.{Result, ok, err}
use nexuscloud.Storage.Model.{FileMeta, Directory, Share, ShareType, user, group, link}
use nexuscloud.Storage.Action.Keeps.{Keeps, Keeps-bind, Keeps-if}
use nexuscloud.Storage.Action.Reads.{ok_injective}
use nexuscloud.Storage.World.{Outside, Db, Settings, Service, execute, fresh_token}
use nexuscloud.Storage.World.Tables.{Tables, On, query-On, execute-Keeps}
use nexuscloud.Storage.World.Tables.{default_pool-On}
use nexuscloud.Storage.Files.{get_file_by_id, list_trashed_files}
use nexuscloud.Storage.Directories.{get_directory_by_id, list_trashed_directories}
use nexuscloud.Storage.Shares.{
  with_shares, create_share_row, get_share_by_id, list_shares_by_owner, list_shares_for_user,
  list_upload_shares_for_directory, has_file_access, has_directory_access, revoke_share_row,
}
use nexuscloud.Storage.Service.Trash.{list_trash}
use nexuscloud.Storage.Service.Access.{
  visit_found, walk_up, walk_ancestor_directories, visit_access,
  has_share_access_to_ancestor_directories, has_share_access_to_file, has_share_access_to_directory,
  check_file_access, check_directory_access, read_content, download, list_shared_directory,
  visit_upload, upload_grants, permission_on, shared_upload_permission,
}
use nexuscloud.Storage.Service.Links.{
  CreateShareInput, shared_resource, hashed, new_link_token, create_share, list_shares_by_me,
  list_shares_with_me, revoke_share,
}
use nexuscloud.Storage.Service.Isolation.Calls.{calls, get_directory_by_natural_key-On}
use nexuscloud.Storage.Service.Isolation.Folders.{list_folder-On}

module _ (o : Outside) (s : Settings) (D : Tables) where
  with_shares-D :
      (d d' : Db) (r : Result (List Share))
      → D d.files d.directories
      → with_shares d r ≡ ok d'
      → D d'.files d'.directories
  with_shares-D d d' (ok ss) h e = subst (λ x. D x.files x.directories) (ok_injective e) h
  with_shares-D d d' (err e) h q = cc

  -- A statement on the shares.
  shares-On :
      (f : Db → Result (List Share))
      → Keeps (On D) (execute {Disk = o.Disk} (λ d. with_shares d (f d)))
  shares-On f = execute-Keeps o D _ (λ d d' h e. with_shares-D d d' (f d) h e)

  get_file_by_id-On : (id : Str) → Keeps (On D) (get_file_by_id o id)
  unfolding get_file_by_id
  get_file_by_id-On id = query-On o D _

  get_directory_by_id-On : (id : Str) → Keeps (On D) (get_directory_by_id o id)
  unfolding get_directory_by_id
  get_directory_by_id-On id = query-On o D _

  pub list_trash-On : (owner : Str) → Keeps (On D) (list_trash o s owner)
  unfolding list_trash list_trashed_directories list_trashed_files
  list_trash-On owner = search calls

  module _ {S : Type 0} (visit : S → Directory → Service o (S × Bool))
      (kept : (found : S) (dir : Directory) → Keeps (On D) (visit found dir)) where
    visit_found-On : (found : S) (r : Result Directory) → Keeps (On D) (visit_found o visit found r)
    unfolding visit_found
    visit_found-On found (ok dir) = kept found dir
    visit_found-On found (err e) = search calls

    walk_up-On :
        (pool owner : Str) (found : S) (names : List Str)
        → Keeps (On D) (walk_up o visit pool owner found names)
    unfolding walk_up
    walk_up-On pool owner found [] = search calls
    walk_up-On pool owner found (name ∷ above) =
        Keeps-bind _ _ (search (calls, get_directory_by_natural_key-On)) (λ dir.
          Keeps-bind _ _ (visit_found-On found dir) (λ visited.
            Keeps-if visited.1 _ _ (search calls) (walk_up-On pool owner visited.0 above)))

    walk_ancestor_directories-On :
        (owner parent : Str) (found : S)
        → Keeps (On D) (walk_ancestor_directories o visit owner parent found)
    unfolding walk_ancestor_directories
    walk_ancestor_directories-On owner parent found = search (calls, default_pool-On, walk_up-On)

  visit_access-On :
      (now : ℕ) (requester : Str) (found : Bool) (dir : Directory)
      → Keeps (On D) (visit_access o s now requester found dir)
  unfolding visit_access has_directory_access
  visit_access-On now requester found dir = search calls

  ancestors-On :
      (now : ℕ) (requester owner parent : Str)
      → Keeps (On D) (has_share_access_to_ancestor_directories o s now requester owner parent)
  unfolding has_share_access_to_ancestor_directories
  ancestors-On now requester owner parent =
      walk_ancestor_directories-On _ (visit_access-On now requester) owner parent false

  has_share_access_to_directory-On :
      (now : ℕ) (requester : Str) (dir : Directory)
      → Keeps (On D) (has_share_access_to_directory o s now requester dir)
  unfolding has_share_access_to_directory has_directory_access
  has_share_access_to_directory-On now requester dir = search (calls, ancestors-On)

  check_file_access-On :
      (now : ℕ) (requester : Str) (meta : FileMeta)
      → Keeps (On D) (check_file_access o s now requester meta)
  unfolding check_file_access has_share_access_to_file has_file_access
  check_file_access-On now requester meta = search (calls, ancestors-On) depth 12

  check_directory_access-On :
      (now : ℕ) (requester : Str) (dir : Directory)
      → Keeps (On D) (check_directory_access o s now requester dir)
  unfolding check_directory_access
  check_directory_access-On now requester dir = search (calls, has_share_access_to_directory-On)

  pub download-On : (now : ℕ) (requester id : Str) → Keeps (On D) (download o s now requester id)
  unfolding download read_content
  download-On now requester id = search (calls, get_file_by_id-On, check_file_access-On)

  pub list_shared_directory-On :
      (now : ℕ) (requester id : Str) → Keeps (On D) (list_shared_directory o s now requester id)
  unfolding list_shared_directory
  list_shared_directory-On now requester id =
      search (calls, get_directory_by_id-On, check_directory_access-On, list_folder-On)

  visit_upload-On :
      (now : ℕ) (requester : Str) (grants : List Share) (dir : Directory)
      → Keeps (On D) (visit_upload o s now requester grants dir)
  unfolding visit_upload list_upload_shares_for_directory
  visit_upload-On now requester grants dir = search calls

  upload_grants-On :
      (now : ℕ) (requester : Str) (dir : Directory)
      → Keeps (On D) (upload_grants o s now requester dir)
  unfolding upload_grants list_upload_shares_for_directory
  upload_grants-On now requester dir = search (calls, walk_ancestor_directories-On, visit_upload-On)

  pub shared_upload_permission-On :
      (now : ℕ) (requester id : Str) → Keeps (On D) (shared_upload_permission o s now requester id)
  unfolding shared_upload_permission permission_on
  shared_upload_permission-On now requester id =
      search (calls, get_directory_by_id-On, upload_grants-On) depth 12

  shared_resource-On :
      (owner : Str) (b : Bool) (id : Str) → Keeps (On D) (shared_resource o s owner b id)
  unfolding shared_resource
  shared_resource-On owner true id = search (calls, get_directory_by_id-On)
  shared_resource-On owner false id = search (calls, get_file_by_id-On)

  new_link_token-On : (t : ShareType) → Keeps (On D) (new_link_token o s t)
  unfolding new_link_token fresh_token On
  new_link_token-On link = record { at = λ w h. h }
  new_link_token-On user = search calls
  new_link_token-On group = search calls

  pub create_share-On :
      (now : ℕ) (owner : Str) (input : CreateShareInput)
      → Keeps (On D) (create_share o s now owner input)
  unfolding create_share hashed create_share_row
  create_share-On now owner input =
      search (calls, shared_resource-On, new_link_token-On, shares-On) depth 24

  pub list_shares_by_me-On : (owner : Str) → Keeps (On D) (list_shares_by_me o s owner)
  unfolding list_shares_by_me list_shares_by_owner
  list_shares_by_me-On owner = search calls

  pub list_shares_with_me-On :
      (now : ℕ) (user_id : Str) → Keeps (On D) (list_shares_with_me o s now user_id)
  unfolding list_shares_with_me list_shares_for_user
  list_shares_with_me-On now user_id = search calls

  pub revoke_share-On :
      (now : ℕ) (requester id : Str) → Keeps (On D) (revoke_share o s now requester id)
  unfolding revoke_share get_share_by_id revoke_share_row
  revoke_share-On now requester id = search (calls, shares-On)
