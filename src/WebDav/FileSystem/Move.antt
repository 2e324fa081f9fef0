-- ===== src/WebDav/FileSystem/Move.antt =====
-- `Rename` of nexuscloud/internal/webdav/filesystem.go: MOVE, and MOVE over a file.
use nexuscloud.Base.{ℕ, Bool, false, Option, none, some, [], Str, str, str_eq, if◌then◌else◌, ◌||◌}
use nexuscloud.GoPath.{dir_of, base_of}
use nexuscloud.Storage.Errors.{os_exist, os_permission}
use nexuscloud.Storage.Action.{pure, raise, reject_if, ◌>>=◌, ◌>>◌}
use nexuscloud.Storage.World.{Outside, Settings}
use nexuscloud.Storage.Service.Access.{download}
use nexuscloud.Storage.Service.Move.{move_file, move_directory}
use nexuscloud.Storage.Service.Upload.{upload}
use nexuscloud.WebDav.FileSystem.{
  RequestInfo, clean_path, Entry, root, folder, file, Dav, ask, look_up, require_parent_dir,
}
use nexuscloud.WebDav.FileSystem.Remove.{request_info, set_overwrite, delete_entry}

-- `beginOverwrite` has agreed that this path may be replaced.
abbrev pub is_agreed : Str → Option RequestInfo → Bool
is_agreed path none = false
is_agreed path (some r) = str_eq r.overwrite_of path

module _ (o : Outside) (s : Settings) where
  -- `moveOverFile`
  unfoldable pub move_over_file : ℕ → Str → Entry → Str → Dav o (Unit {0})
  move_over_file now owner (file f) target = do
    content ← ask o (download o s now owner f.id)
    ask o (
        upload o s now (record {
          owner_id = owner;
          parent_path = dir_of target;
          name = base_of target;
          content = record { bytes = content.1; ending = none };
          pool_id = [];
          no_overwrite = false;
        }))
    delete_entry o s now owner f
  move_over_file now owner e target = raise os_exist

  -- A move to a place that is free, or else refused by the file service.
  unfoldable pub move_entry : Str → Entry → Str → Dav o (Unit {0})
  move_entry owner (file f) target =
      ask o (move_file o owner f.id (some (dir_of target)) (some (base_of target))) >>= λ _. pure tt
  move_entry owner (folder d) target =
      ask o (move_directory o owner d.id (some (dir_of target)) (some (base_of target))) >>= λ _.
      pure tt
  move_entry owner root target = raise os_permission

  -- The end of `Rename`: the agreement on an overwriting is used once.
  unfoldable pub finish_rename : ℕ → Str → Entry → Str → Option RequestInfo → Dav o (Unit {0})
  finish_rename now owner source target r =
      if is_agreed target r
      then (set_overwrite o [] >>= λ _. move_over_file now owner source target)
      else move_entry owner source target

  -- `Rename`
  unfoldable pub rename : ℕ → Str → Str → Str → Dav o (Unit {0})
  rename now owner old_name new_name = do
    let old = clean_path old_name
    let new = clean_path new_name
    reject_if (str_eq old (str "/") || str_eq new (str "/")) os_permission
    if str_eq old new
        then pure tt
        else (look_up o s owner old >>= λ source.
            (require_parent_dir o s owner new >>= λ _.
            (request_info o >>= λ r. finish_rename now owner source new r)))
