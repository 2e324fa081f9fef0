-- ===== src/Storage/Service/History.antt =====
-- The history of a file: `ListVersions`, `DownloadVersion`, `RestoreVersion` of file_service.go.
use nexuscloud.Base.{ℕ, not, List, Str, if◌then◌else◌, str_eq}
use nexuscloud.Storage.Errors.{forbidden}
use nexuscloud.Storage.Model.{FileMeta, FileVersion}
use nexuscloud.Storage.Action.{pure, reject_if, ◌>>=◌, ◌>>◌}
use nexuscloud.Storage.World.{Outside, Settings, Service, on_disk, from_disk}
use nexuscloud.Storage.Names.{physical_path}
use nexuscloud.Storage.Pools.{provider_for}
use nexuscloud.Storage.Files.{get_file_by_id, upsert_file}
use nexuscloud.Storage.Versions.{list_versions, get_version, delete_version}
use nexuscloud.Storage.Service.Upload.{snapshot_version}

-- The file with this identifier, if the requester owns it.
unfoldable pub owned_file : (o : Outside) → Str → Str → Service o FileMeta
owned_file o requester file_id = do
  meta ← get_file_by_id o file_id
  reject_if (not (str_eq meta.owner_id requester)) forbidden
  pure meta

module _ (o : Outside) (s : Settings) where
  -- `ListVersions`
  unfoldable pub list_file_versions : Str → Str → Service o (List FileVersion)
  list_file_versions requester file_id = do owned_file o requester file_id; list_versions o file_id

  -- `DownloadVersion`
  unfoldable pub download_version : Str → Str → ℕ → Service o (FileVersion × List ℕ)
  download_version requester file_id num = do
    meta ← owned_file o requester file_id
    v ← get_version o file_id num
    provider_for o meta.pool_id
    content ← from_disk o (o.read meta.pool_id v.storage_key)
    pure (v, content)

  -- What happens to the current content before a restore.
  unfoldable pub set_current_aside : ℕ → FileMeta → Service o (Unit {0})
  set_current_aside now meta =
      if s.versioning_enabled
      then snapshot_version o s now meta
      else on_disk o
          (o.remove meta.pool_id (physical_path meta.owner_id meta.parent_path meta.name))

  -- `RestoreVersion`
  unfoldable pub restore_version : ℕ → Str → Str → ℕ → Service o FileMeta
  restore_version now requester file_id num = do
    meta ← owned_file o requester file_id
    target ← get_version o file_id num
    provider_for o meta.pool_id
    set_current_aside now meta
    on_disk o (
        o.move meta.pool_id target.storage_key
          (physical_path meta.owner_id meta.parent_path meta.name))
    delete_version o target.id
    upsert_file o (record meta {
      size_bytes = target.size_bytes;
      sha256 = target.sha256;
      mime_type = target.mime_type;
      updated_at = now;
    })
