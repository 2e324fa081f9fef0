-- ===== src/Tests/Access.antt =====
-- The theorems on access to what is shared at concrete inputs.
use nexuscloud.Base.{◌≡◌, refl, true, none, some, [], ◌∷◌, str, str_eq, find_first, ◌⊎◌, has_prefix}
use nexuscloud.Storage.Model.{FileMeta, Share, link}
use nexuscloud.Storage.Service.Access.{
  download, check_file_access, has_share_access_to_file, has_share_access_to_ancestor_directories,
  walk_ancestor_directories, walk_up, read_content, visit_access, visit_found,
}
use nexuscloud.Storage.Action.{◌>>=◌, attempt, lift, pure, reject_if}
use nexuscloud.Storage.Files.{has_id, has_key, get_file_by_id, get_file_by_natural_key}
use nexuscloud.Storage.Shares.{
  has_file_access, opens_file, has_directory_access, is_for, is_live, is_member, opens_directory,
  get_share_by_token_hash, count_download, counted, increment_download_count,
}
use nexuscloud.GoPath.{
  trim_slashes, split, clean, clean_loop, clean_step, drop_slashes, go_up, join, join_buffer,
  path_join, base_of, dir_of, split_dir,
}
use nexuscloud.Storage.Pools.{
  default_pool, cache_pool, first_active, get_pool_by_id, is_cached, open_provider, provider_for,
}
use nexuscloud.Storage.Directories.{
  dir_has_key, dir_has_id, get_directory_by_id, get_directory_by_natural_key,
}
use nexuscloud.Storage.Names.{physical_path, resolve_shared_path, normalize_parent_path}
use nexuscloud.Storage.World.{World, query, execute, from_disk}
use nexuscloud.Storage.Service.Links.{
  download_via_public_share, resolve_public_share_for_access, resolve_public_share,
  verify_share_password, linked_file,
}
use nexuscloud.Sharing.Lifecycle.{
  check_lifecycle, has_password, is_directory_share, increment_row, is_exhausted, is_expired,
  is_revoked,
}
use nexuscloud.Storage.Table.{update_row, str_lt}
use nexuscloud.Storage.Table.Times.{time_lt, fraction_text}
use nexuscloud.Storage.Service.Access.Granted.{FileGrant, download-authorized}
use nexuscloud.Storage.Service.Links.Visitors.{
  Admits, IsShared, download_via_public_share-authorized,
}
use nexuscloud.Tests.{file, memory, settings, share, world}

-- A file in Ana's folder `docs`, which she shares with Bob's group and by a link.
abbrev plan : FileMeta
plan = record (file "5" "ana" "plan") { parent_path = str "/docs" }

abbrev by_link : Share
by_link = record (share (some 3) none) {
  id = str "l";
  share_type = link;
  token_hash = str "tok";
  target_group_id = [];
}

abbrev shared_world : World memory.Disk
shared_world = record world {
  db = record world.db { files = plan ∷ world.db.files; shares = share none none ∷ by_link ∷ [] };
  disk = (str "main", str "/ana/docs/plan", 3 ∷ 1 ∷ []) ∷ [];
}

download-authorized_example :
    (find_first (has_id (str "5")) shared_world.db.files ≡ some plan)
    × ((plan.owner_id ≡ str "bob")
        ⊎ (settings.sharing_enabled ≡ true) × FileGrant shared_world.db 9 (str "bob") plan)
unfolding time_lt download check_file_access has_share_access_to_file
    has_share_access_to_ancestor_directories walk_ancestor_directories walk_up read_content
    visit_access visit_found ◌>>=◌ attempt lift pure reject_if has_id get_file_by_id has_file_access
    opens_file has_directory_access is_for is_live is_member opens_directory trim_slashes split
    clean clean_loop clean_step drop_slashes go_up join join_buffer path_join default_pool
    cache_pool first_active get_pool_by_id is_cached open_provider provider_for dir_has_key
    get_directory_by_natural_key physical_path query from_disk str_eq
download-authorized_example =
    download-authorized memory settings 9 (str "bob") (str "5") shared_world plan (3 ∷ 1 ∷ []) refl

download_via_public_share-authorized_example :
    (x : Share) × Admits memory settings shared_world.db 9 (str "tok") [] x
    × (x.can_download ≡ true)
    × IsShared shared_world.db x plan
unfolding download_via_public_share resolve_public_share_for_access resolve_public_share
    verify_share_password linked_file ◌>>=◌ lift pure reject_if get_share_by_token_hash query
    execute from_disk str_eq has_prefix check_lifecycle has_password is_directory_share
    increment_row is_exhausted is_expired is_revoked get_directory_by_id dir_has_id base_of dir_of
    split_dir resolve_shared_path normalize_parent_path clean clean_loop clean_step drop_slashes
    go_up join join_buffer path_join split has_id has_key get_file_by_id get_file_by_natural_key
    default_pool cache_pool first_active get_pool_by_id is_cached open_provider provider_for
    physical_path read_content count_download counted increment_download_count update_row
download_via_public_share-authorized_example =
    download_via_public_share-authorized memory settings 9 (str "tok") [] (str "plan") shared_world
      plan (3 ∷ 1 ∷ []) refl

-- A share that expires at a full second still passes half a second later.
expired_share_test :
    is_live 1_500_000_000 (record (share none none) { expires_at = some 1_000_000_000 }) ≡ true
unfolding is_live time_lt fraction_text str_lt str_eq
expired_share_test = refl
