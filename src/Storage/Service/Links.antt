-- ===== src/Storage/Service/Links.antt =====
-- Shares and public links: `CreateShare`, `RevokeShare`, the lists of shares, and what a visitor with
-- a link does, of file_service_sharing.go.
pub mod Visitors
use nexuscloud.Base.{
  ℕ, Bool, true, false, not, Option, none, some, is_some, List, [], ◌∷◌, Str, str, if◌then◌else◌,
  str_eq, ltb, leb, ◌&&◌, ◌||◌,
}
use nexuscloud.GoPath.{dir_of, base_of}
use nexuscloud.Storage.Errors.{
  Result, ok, err, forbidden, invalid_path, sharing_disabled, invalid_share, public_links_disabled,
  share_password_required, share_password_incorrect, share_download_not_allowed,
  share_upload_not_allowed, share_exhausted,
}
use nexuscloud.Storage.Model.{FileMeta, Directory, Share, ShareType, user, group, link}
use nexuscloud.Storage.Action.{pure, raise, lift, attempt, reject_if, ◌>>=◌, ◌>>◌}
use nexuscloud.Storage.World.{Outside, Settings, Service, fresh_id, fresh_token}
use nexuscloud.Storage.Names.{resolve_shared_path}
use nexuscloud.Storage.Pools.{default_pool}
use nexuscloud.Storage.Files.{get_file_by_id, get_file_by_natural_key}
use nexuscloud.Storage.Directories.{get_directory_by_id}
use nexuscloud.Storage.Shares.{
  create_share_row, get_share_by_id, get_share_by_token_hash, list_shares_by_owner,
  list_shares_for_user, increment_download_count, revoke_share_row,
}
use nexuscloud.Storage.Service.Upload.{upload}
use nexuscloud.Storage.Service.Folders.{list_folder}
use nexuscloud.Storage.Service.Access.{limited, read_content}
use nexuscloud.Sharing.Lifecycle.{check_lifecycle, is_directory_share, has_password}
use nexuscloud.Sharing.Reader.{Reader}

pub record CreateShareInput : Type 0 where
  pub resource_is_directory : Bool
  pub resource_id : Str
  pub share_type : ShareType
  pub target_user_id : Str
  pub target_group_id : Str
  pub label : Str
  pub can_download : Bool
  pub can_upload : Bool
  pub password : Str
  pub expires_at : Option ℕ
  pub max_downloads : Option ℕ
  pub max_upload_size_bytes : Option ℕ

-- Whether an optional number is given and is below 1.
abbrev pub below_one : Option ℕ → Bool
below_one none = false
below_one (some n) = ltb n 1

-- Whether an optional time is given and is not in the future.
abbrev pub is_past : ℕ → Option ℕ → Bool
is_past now none = false
is_past now (some t) = leb t now

-- The `switch` on the type of a new share.
unfoldable pub check_target : Bool → CreateShareInput → Result (Unit {0})
check_target public_links_enabled input = elim input.share_type [
  | user ↦
      if str_eq input.target_user_id [] || not input.can_download then err invalid_share else ok tt
  | group ↦
      if str_eq input.target_group_id [] || not input.can_download then err invalid_share else ok tt
  | link ↦ if not public_links_enabled then err public_links_disabled else ok tt
]

-- The other checks on a new share.
unfoldable pub check_share : ℕ → CreateShareInput → Result (Unit {0})
check_share now input =
    if not input.can_download && not input.can_upload
    then err invalid_share
    else if input.can_upload && not input.resource_is_directory
    then err invalid_share
    else if is_past now input.expires_at
    then err invalid_share
    else if below_one input.max_downloads
    then err invalid_share
    else if below_one input.max_upload_size_bytes
    then err invalid_share
    else ok tt

-- A type that is neither of the three is refused; here there is none.
module _ (o : Outside) (s : Settings) where
  -- The identifiers of file and folder of a resource that the owner shares.
  unfoldable pub shared_resource : Str → Bool → Str → Service o (Str × Str)
  shared_resource owner true id = do
    dir ← get_directory_by_id o id
    reject_if (not (str_eq dir.owner_id owner)) forbidden
    pure ([], dir.id)
  shared_resource owner false id = do
    meta ← get_file_by_id o id
    reject_if (not (str_eq meta.owner_id owner)) forbidden
    pure (meta.id, [])

  unfoldable pub hashed : Str → Service o Str
  hashed password = if str_eq password [] then pure [] else lift (o.hash_password password)

  -- The token of a new link, empty for other shares.
  unfoldable pub new_link_token : ShareType → Service o Str
  new_link_token link = fresh_token o
  new_link_token t = pure []

  abbrev token_hash_of : ShareType → Str → Str
  token_hash_of link token = o.hash_token token
  token_hash_of t token = []

  -- `CreateShare`
  unfoldable pub create_share : ℕ → Str → CreateShareInput → Service o (Share × Str)
  create_share now owner input = do
    reject_if (not s.sharing_enabled) sharing_disabled
    lift (check_target s.public_links_enabled input)
    lift (check_share now input)
    id ← fresh_id o
    resource ← shared_resource owner input.resource_is_directory input.resource_id
    password_hash ← hashed input.password
    token ← new_link_token input.share_type
    let share : Share = record {
      id = id;
      owner_id = owner;
      file_id = resource.0;
      directory_id = resource.1;
      share_type = input.share_type;
      target_user_id = input.target_user_id;
      target_group_id = input.target_group_id;
      token_hash = token_hash_of input.share_type token;
      label = input.label;
      can_download = input.can_download;
      can_upload = input.can_upload;
      password_hash = password_hash;
      expires_at = input.expires_at;
      max_downloads = input.max_downloads;
      download_count = 0;
      max_upload_size_bytes = input.max_upload_size_bytes;
      revoked_at = none;
      created_at = now;
      updated_at = now;
    }
    create_share_row o share
    pure (share, token)

  -- `ListSharesByMe`
  unfoldable pub list_shares_by_me : Str → Service o (List Share)
  list_shares_by_me owner = list_shares_by_owner o owner

  -- `ListSharesWithMe`
  unfoldable pub list_shares_with_me : ℕ → Str → Service o (List Share)
  list_shares_with_me now user_id = list_shares_for_user o user_id now

  -- `RevokeShare`
  unfoldable pub revoke_share : ℕ → Str → Str → Service o (Unit {0})
  revoke_share now requester share_id = do
    share ← get_share_by_id o share_id
    reject_if (not (str_eq share.owner_id requester)) forbidden
    revoke_share_row o share_id now

  -- `ResolvePublicShare`
  unfoldable pub resolve_public_share : Str → Service o Share
  resolve_public_share token = do
    reject_if (not s.public_links_enabled) public_links_disabled
    get_share_by_token_hash o (o.hash_token token)

  -- `verifySharePassword`
  unfoldable pub verify_share_password : Share → Str → Result (Unit {0})
  verify_share_password share password =
      if not (has_password share)
      then ok tt
      else if str_eq password []
      then err share_password_required
      else if o.verify_password password share.password_hash
      then ok tt
      else err share_password_incorrect

  -- `ResolvePublicShareForAccess`
  unfoldable pub resolve_public_share_for_access : ℕ → Str → Str → Service o Share
  resolve_public_share_for_access now token password = do
    share ← resolve_public_share token
    lift (check_lifecycle now share)
    lift (verify_share_password share password)
    pure share

  abbrev pub or_error : {A : Type 0} → Result A → Option A → Result A
  or_error e none = e
  or_error e (some a) = ok a

  -- `BrowsePublicShare`
  unfoldable pub browse_public_share :
      ℕ → Str → Str → Str → Service o (List Directory × List FileMeta)
  browse_public_share now token password sub_dir_path = do
    share ← resolve_public_share_for_access now token password
    reject_if (not (is_directory_share share)) invalid_path
    dir ← get_directory_by_id o share.directory_id
    target ← lift (or_error (err forbidden) (resolve_shared_path dir sub_dir_path))
    list_folder o s dir.owner_id target

  -- `subPath == "" || name == "." || name == "/"`
  abbrev pub names_nothing : Str → Bool
  names_nothing sub_path =
      str_eq sub_path []
      || (str_eq (base_of sub_path) (str ".") || str_eq (base_of sub_path) (str "/"))

  -- The file that a visitor asks for.
  unfoldable pub linked_file : Share → Str → Service o FileMeta
  linked_file share sub_path =
      if not (is_directory_share share) then get_file_by_id o share.file_id else do
        dir ← get_directory_by_id o share.directory_id
        reject_if (names_nothing sub_path) invalid_path
        parent ← lift (or_error (err invalid_path) (resolve_shared_path dir (dir_of sub_path)))
        pool ← default_pool o
        get_file_by_natural_key o pool.id dir.owner_id parent (base_of sub_path)

  -- `DownloadViaPublicShare`
  unfoldable pub download_via_public_share : ℕ → Str → Str → Str → Service o (FileMeta × List ℕ)
  download_via_public_share now token password sub_path = do
    share ← resolve_public_share_for_access now token password
    reject_if (not share.can_download) share_download_not_allowed
    meta ← linked_file share sub_path
    counted ← increment_download_count o share.id
    reject_if (not counted) share_exhausted
    read_content o s meta

  -- `UploadViaPublicShare`
  unfoldable pub upload_via_public_share : ℕ → Str → Str → Str → Str → Reader → Service o FileMeta
  upload_via_public_share now token password sub_path name content = do
    share ← resolve_public_share_for_access now token password
    reject_if (not share.can_upload) share_upload_not_allowed
    reject_if (not (is_directory_share share)) share_upload_not_allowed
    dir ← get_directory_by_id o share.directory_id
    target ← lift (or_error (err forbidden) (resolve_shared_path dir sub_path))
    upload o s now (record {
      owner_id = dir.owner_id;
      parent_path = target;
      name = name;
      content = limited share.max_upload_size_bytes content;
      pool_id = [];
      no_overwrite = true;
    })
