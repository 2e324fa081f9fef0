-- ===== src/Storage/Service/Requests.antt =====
-- The requests of a signed-in user to the file service, as the handlers of
-- nexuscloud/internal/api/v1 pass them on, and what they leave alone. Of these calls one is not here:
-- `UploadToSharedDirectory`, whose file belongs to the owner of the folder and not to the user.
pub mod Refused
use nexuscloud.Base.{
  ◌≡◌, refl, sym, ◌∙◌, ap, ℕ, Option, Bool, false, List, Str, select, find_first, some,
}
use nexuscloud.Sharing.Reader.{Reader}
use nexuscloud.Storage.Errors.{Result, ok, err, forbidden}
use nexuscloud.Storage.Model.{FileMeta, Directory, FileVersion}
use nexuscloud.Storage.Action.{Action, pure, ◌>>=◌, ◌>>◌}
use nexuscloud.Storage.Action.Keeps.{Keeps, keeps_rules}
use nexuscloud.Storage.World.{Outside, Db, World, Settings, Service}
use nexuscloud.Storage.World.Tables.{On}
use nexuscloud.Storage.Service.Upload.{UploadInput, upload}
use nexuscloud.Storage.Service.History.{list_file_versions, download_version, restore_version}
use nexuscloud.Storage.Service.Trash.{delete, permanently_delete_file, restore_file, list_trash}
use nexuscloud.Storage.Service.Move.{move_file, move_directory}
use nexuscloud.Storage.Service.Folders.{
  list_folder, mkdir, delete_directory, permanently_delete_directory, restore_directory,
}
use nexuscloud.Storage.Service.Access.{download, list_shared_directory, shared_upload_permission}
use nexuscloud.Storage.Service.Links.{
  CreateShareInput, create_share, list_shares_by_me, list_shares_with_me, revoke_share,
}
use nexuscloud.Storage.Service.Isolation.Rows.{Others, not_of, dir_not_of}
use nexuscloud.Storage.Service.Isolation.Files.{
  upload-Others, list_file_versions-Others, download_version-Others, restore_version-Others,
  delete-Others, permanently_delete_file-Others, restore_file-Others, move_file-Others,
}
use nexuscloud.Storage.Service.Isolation.Folders.{
  list_folder-On, mkdir-Others, delete_directory-Others, permanently_delete_directory-Others,
  restore_directory-Others, move_directory-Others,
}
use nexuscloud.Storage.Service.Isolation.Sharing.{
  list_trash-On, download-On, list_shared_directory-On, shared_upload_permission-On,
  create_share-On, list_shares_by_me-On, list_shares_with_me-On, revoke_share-On,
}

pub data Request : Type 0 where
  upload_file : Str → Str → Reader → Str → Bool → Request
  versions_of delete_file purge_file untrash_file : Str → Request
  read_version restore_old : Str → ℕ → Request
  rename_file rename_folder : Str → Option Str → Option Str → Request
  list_at : Str → Request
  make_folder : Str → Str → Str → Request
  delete_folder purge_folder untrash_folder : Str → Request
  read_file open_shared_folder ask_upload_permission end_share : Str → Request
  share_out : CreateShareInput → Request
  trash_of_mine shares_by_me shares_with_me : Request

module _ (o : Outside) (s : Settings) where
  -- The service's operation for the request; of its result, only whether it failed.
  unfoldable pub serve : ℕ → Str → Request → Service o (Unit {0})
  serve now user (upload_file parent name content pool no_overwrite) =
      upload o s now (record {
        owner_id = user;
        parent_path = parent;
        name = name;
        content = content;
        pool_id = pool;
        no_overwrite = no_overwrite;
      })
      >> pure tt
  serve now user (versions_of id) = list_file_versions o s user id >> pure tt
  serve now user (delete_file id) = delete o s now user id
  serve now user (purge_file id) = permanently_delete_file o s user id
  serve now user (untrash_file id) = restore_file o s user id
  serve now user (read_version id num) = download_version o s user id num >> pure tt
  serve now user (restore_old id num) = restore_version o s now user id num >> pure tt
  serve now user (rename_file id parent name) = move_file o user id parent name >> pure tt
  serve now user (rename_folder id parent name) = move_directory o user id parent name >> pure tt
  serve now user (list_at parent) = list_folder o s user parent >> pure tt
  serve now user (make_folder parent name pool) = mkdir o s now user parent name pool >> pure tt
  serve now user (delete_folder id) = delete_directory o s now user id
  serve now user (purge_folder id) = permanently_delete_directory o s user id
  serve now user (untrash_folder id) = restore_directory o s user id
  serve now user (read_file id) = download o s now user id >> pure tt
  serve now user (open_shared_folder id) = list_shared_directory o s now user id >> pure tt
  serve now user (ask_upload_permission id) = shared_upload_permission o s now user id >> pure tt
  serve now user (end_share id) = revoke_share o s now user id
  serve now user (share_out input) = create_share o s now user input >> pure tt
  serve now user trash_of_mine = list_trash o s user >> pure tt
  serve now user shares_by_me = list_shares_by_me o s user >> pure tt
  serve now user shares_with_me = list_shares_with_me o s now user >> pure tt

  serve-Keeps :
      (X : List FileMeta) (Y : List Directory) (now : ℕ) (user : Str) (r : Request)
      → Keeps (On (Others user X Y)) (serve now user r)
  unfolding serve
  serve-Keeps X Y now user (upload_file parent name content pool no_overwrite) =
      search (keeps_rules, upload-Others)
  serve-Keeps X Y now user (delete_file id) = delete-Others o s user X Y now id
  serve-Keeps X Y now user (purge_file id) = permanently_delete_file-Others o s user X Y id
  serve-Keeps X Y now user (untrash_file id) = restore_file-Others o s user X Y id
  serve-Keeps X Y now user (delete_folder id) = delete_directory-Others o s user X Y now id
  serve-Keeps X Y now user (purge_folder id) = permanently_delete_directory-Others o s user X Y id
  serve-Keeps X Y now user (untrash_folder id) = restore_directory-Others o s user X Y id
  serve-Keeps X Y now user (end_share id) = revoke_share-On o s (Others user X Y) now user id
  serve-Keeps X Y now user (read_file id) = search (keeps_rules, download-On)
  serve-Keeps X Y now user (open_shared_folder id) = search (keeps_rules, list_shared_directory-On)
  serve-Keeps X Y now user (ask_upload_permission id) =
      search (keeps_rules, shared_upload_permission-On)
  serve-Keeps X Y now user (share_out input) = search (keeps_rules, create_share-On)
  serve-Keeps X Y now user trash_of_mine = search (keeps_rules, list_trash-On)
  serve-Keeps X Y now user shares_by_me = search (keeps_rules, list_shares_by_me-On)
  serve-Keeps X Y now user shares_with_me = search (keeps_rules, list_shares_with_me-On)
  serve-Keeps X Y now user (versions_of id) = search (keeps_rules, list_file_versions-Others)
  serve-Keeps X Y now user (read_version id num) = search (keeps_rules, download_version-Others)
  serve-Keeps X Y now user (restore_old id num) = search (keeps_rules, restore_version-Others)
  serve-Keeps X Y now user (rename_file id parent name) = search (keeps_rules, move_file-Others)
  serve-Keeps X Y now user (rename_folder id parent name) =
      search (keeps_rules, move_directory-Others)
  serve-Keeps X Y now user (list_at parent) = search (keeps_rules, list_folder-On)
  serve-Keeps X Y now user (make_folder parent name pool) = search (keeps_rules, mkdir-Others)

  -- Whatever a signed-in user asks of the file service, the upload into a shared folder apart, and
  -- whether it succeeds, fails half-way or is refused, the files and directories of all other users are
  -- the rows that they were, in the same order.
  pub serve-others :
      (now : ℕ) (user : Str) (r : Request) (w : World o.Disk)
      → let w' = (serve now user r w).1 in
        (select (not_of user) w'.db.files ≡ select (not_of user) w.db.files)
        × (select (dir_not_of user) w'.db.directories ≡ select (dir_not_of user) w.db.directories)
  unfolding On Others
  serve-others now user r w = (serve-Keeps _ _ now user r).at w (refl, refl)
