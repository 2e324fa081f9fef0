-- ===== src/Tests/Uploads.antt =====
-- The theorem on uploads that must not overwrite at a concrete input.
use nexuscloud.Base.{refl, true, [], ◌∷◌, str, str_eq, has_prefix}
use nexuscloud.GoText.{itoa, digits_onto}
use nexuscloud.GoPath.{path_join, join_buffer, clean, clean_loop, clean_step, go_up, split, join}
use nexuscloud.Storage.Action.{◌>>=◌, on_failure, attempt, lift, pure, reject_if}
use nexuscloud.Storage.World.{query, execute, fresh_id, on_disk}
use nexuscloud.Storage.Names.{
  validate_name, forbidden_byte, normalize_parent_path, physical_path, staging_path,
}
use nexuscloud.Storage.Pools.{
  default_pool, cache_pool, first_active, get_pool_by_id, is_cached, open_provider, provider_for,
  resolve_target_pool,
}
use nexuscloud.Storage.Files.{
  has_id, has_key, get_file_by_natural_key, upsert_file, upsert_rows, overwrite,
}
use nexuscloud.Storage.Directories.{dir_has_key, get_directory_by_natural_key}
use nexuscloud.Storage.Service.Upload.{
  UploadInput, upload, reject_if_trash_occupies_name, check_no_overwrite, place_content,
  keep_previous, needs_version,
}
use nexuscloud.Storage.Service.Upload.NoOverwrite.{IsNewAt, upload-IsNewAt}
use nexuscloud.Tests.{file, memory, settings, world, two_bytes}

-- A new name, without permission to overwrite.
abbrev fresh_upload : UploadInput
fresh_upload = record {
  owner_id = str "ana";
  parent_path = str "/";
  name = str "todo";
  content = two_bytes;
  pool_id = [];
  no_overwrite = true;
}

upload-IsNewAt_example : IsNewAt world.db fresh_upload (record (file "100" "ana" "todo") {
  id = itoa 101;
  size_bytes = 2;
  sha256 = 1 ∷ 2 ∷ [];
  created_at = 9;
  updated_at = 9;
})
unfolding upload validate_name forbidden_byte resolve_target_pool default_pool first_active
    provider_for is_cached open_provider get_pool_by_id cache_pool reject_if_trash_occupies_name
    check_no_overwrite place_content keep_previous needs_version get_file_by_natural_key has_key
    get_directory_by_natural_key dir_has_key upsert_file upsert_rows overwrite has_id
    normalize_parent_path physical_path staging_path fresh_id on_disk on_failure attempt lift pure
    reject_if ◌>>=◌ query execute itoa digits_onto path_join join_buffer clean clean_loop clean_step
    go_up split join str_eq has_prefix
upload-IsNewAt_example = upload-IsNewAt memory settings 9 fresh_upload world _ refl refl
