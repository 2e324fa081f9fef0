-- ===== src/WebDav/FileSystem.antt =====
-- `fileSystem` of nexuscloud/internal/webdav/filesystem.go: looking up, reading and making. The records
-- of events (`audit`) are left out.
pub mod Remove
pub mod Move
pub mod Tables
pub mod Isolation
pub mod Folders
pub mod Walk
pub mod Ends
pub mod Overwrite
pub mod Listing
use nexuscloud.Base.{
  ℕ, Bool, true, false, not, Option, none, some, List, [], ◌∷◌, Str, str, str_eq, if◌then◌else◌,
  find_first, ◌||◌,
}
use nexuscloud.GoPath.{slash, clean, dir_of, base_of}
use nexuscloud.Sharing.Reader.{Reader}
use nexuscloud.Storage.Errors.{
  Error, Result, ok, err, file_not_found, directory_not_found, forbidden, name_occupied_by_trash,
  destination_occupied, invalid_name, invalid_path, path_escapes_root, invalid_move_destination,
  os_not_exist, os_exist, os_permission, os_invalid,
}
use nexuscloud.Storage.Model.{FileMeta, Directory}
use nexuscloud.Storage.Action.{Action, pure, raise, lift, attempt, reject_if, ◌>>=◌, ◌>>◌}
use nexuscloud.Storage.World.{Outside, Settings, World, Service}
use nexuscloud.Storage.Service.Access.{download}
use nexuscloud.Storage.Service.Folders.{list_folder, mkdir}
use nexuscloud.Storage.Service.Upload.{UploadInput, upload}

-- `requestInfo`, as far as the file system reads it: `overwrite_of` is empty when there is none.
pub record RequestInfo : Type 0 where
  pub method : Str
  pub overwrite_of : Str

-- The world during a request; a context without a `requestInfo` has `none`.
pub record Visit (Disk : Type 0) : Type 0 where
  pub world : World Disk
  pub request : Option RequestInfo

-- `cleanPath`
unfoldable pub clean_path : Str → Str
clean_path name = clean (slash ∷ name)

-- What a path leads to: `entry`
pub data Entry : Type 0 where
  root : Entry
  folder : Directory → Entry
  file : FileMeta → Entry

-- `isDir`
unfoldable pub is_dir : Entry → Bool
is_dir root = true
is_dir (folder d) = true
is_dir (file f) = false

-- `fileInfo`, with the answers of its methods.
pub record FileInfo : Type 0 where
  pub name : Str
  pub size : ℕ
  pub mod_time : ℕ
  pub is_folder : Bool
  pub sha256 : Str
  pub mime : Str

-- `infoOf`: `created` is the time at which the user was made.
unfoldable pub info_of : ℕ → Entry → FileInfo
info_of created root = record {
  name = str "/";
  size = 0;
  mod_time = created;
  is_folder = true;
  sha256 = [];
  mime = [];
}
info_of created (folder d) = record {
  name = d.name;
  size = 0;
  mod_time = d.created_at;
  is_folder = true;
  sha256 = [];
  mime = [];
}
info_of created (file f) = record {
  name = f.name;
  size = f.size_bytes;
  mod_time = f.updated_at;
  is_folder = false;
  sha256 = f.sha256;
  mime = f.mime_type;
}

-- `mapError`
unfoldable pub map_error : Error → Error
map_error file_not_found = os_not_exist
map_error directory_not_found = os_not_exist
map_error forbidden = os_permission
map_error name_occupied_by_trash = os_exist
map_error destination_occupied = os_exist
map_error invalid_name = os_invalid
map_error invalid_path = os_invalid
map_error path_escapes_root = os_invalid
map_error invalid_move_destination = os_invalid
map_error e = e

abbrev pub mapped : {A : Type 0} → Result A → Result A
mapped (ok a) = ok a
mapped (err e) = err (map_error e)

-- The order in which `lookup` tries the rows of the parent.
unfoldable pub choose_entry : Str → List Directory × List FileMeta → Result Entry
choose_entry base (dirs, files) = elim (find_first (λ d. str_eq d.name base) dirs) [
  | some d ↦ ok (folder d)
  | none ↦ elim (find_first (λ f. str_eq f.name base) files) [
    | some f ↦ ok (file f)
    | none ↦ err os_not_exist
  ]
]

-- A lookup that found nothing is what `Mkdir` wants; another failure is passed on.
abbrev pub absent_or : Result Entry → Result (Unit {0})
absent_or (ok e) = err os_exist
absent_or (err os_not_exist) = ok tt
absent_or (err e) = err e

-- What `openForWrite` makes of a lookup: there may be a file, or nothing.
abbrev pub writable : Result Entry → Result (Unit {0})
writable (ok e) = if is_dir e then err os_invalid else ok tt
writable (err os_not_exist) = ok tt
writable (err e) = err e

module _ (o : Outside) where
  abbrev pub Dav : Type 0 → Type 0
  Dav A = Action (Visit o.Disk) A

  -- A call of the file service.
  unfoldable pub call : {A : Type 0} → Service o A → Dav A
  call m v = let (r, w) = m v.world in (r, record v { world = w })

  -- A call whose error goes through `mapError`.
  unfoldable pub ask : {A : Type 0} → Service o A → Dav A
  unfolding call
  ask m = attempt (call m) >>= λ r. lift (mapped r)

module _ (o : Outside) (s : Settings) where
  -- `lookup`
  unfoldable pub look_up : Str → Str → Dav o Entry
  unfolding ask clean_path
  look_up owner name =
      if str_eq (clean_path name) (str "/")
      then pure root
      else (ask o (list_folder o s owner (dir_of (clean_path name))) >>= λ res.
          lift (choose_entry (base_of (clean_path name)) res))

  -- `Stat`
  unfoldable pub stat : ℕ → Str → Str → Dav o FileInfo
  unfolding look_up
  stat created owner name = look_up owner name >>= λ e. pure (info_of created e)

  -- `requireParentDir`
  unfoldable pub require_parent_dir : Str → Str → Dav o (Unit {0})
  unfolding look_up
  require_parent_dir owner path =
      if str_eq (dir_of path) (str "/")
      then pure tt
      else (look_up owner (dir_of path) >>= λ e. reject_if (not (is_dir e)) os_not_exist)

  -- `Mkdir`
  unfoldable pub make_dir : ℕ → Str → Str → Dav o (Unit {0})
  make_dir now owner name = do
    let path = clean_path name
    reject_if (str_eq path (str "/")) os_exist
    found ← attempt (look_up owner path)
    lift (absent_or found)
    require_parent_dir owner path
    ask o (mkdir o s now owner (dir_of path) (base_of path) [])
    pure tt

  -- A folder has no content. The content store gives contents whole, so that `Seek` works.
  unfoldable pub content_of : ℕ → ℕ → Str → Entry → Dav o (FileInfo × Option (List ℕ))
  content_of created now owner (file f) = ask o (download o s now owner f.id) >>= λ content.
      pure (info_of created (file f), some content.1)
  content_of created now owner e = pure (info_of created e, none)

  -- `openForRead`
  unfoldable pub open_for_read : ℕ → ℕ → Str → Str → Dav o (FileInfo × Option (List ℕ))
  open_for_read created now owner name = do e ← look_up owner name; content_of created now owner e

  -- `openForWrite`: where the upload will go.
  unfoldable pub open_for_write : Str → Str → Dav o (Str × Str)
  open_for_write owner name = do
    let path = clean_path name
    reject_if (str_eq path (str "/")) os_invalid
    require_parent_dir owner path
    found ← attempt (look_up owner path)
    lift (writable found)
    pure (dir_of path, base_of path)

  -- `newUploadFile` and `Close`: `content` is what comes through the pipe, and `broken` is the error of
  -- the request's body, if it had one: then that is the answer, whatever became of the upload.
  unfoldable pub close_upload : ℕ → Str → Str × Str → Reader → Option Error → Dav o (Unit {0})
  close_upload now owner (parent, name) content broken = do
    r ← attempt (
        call o (
          upload o s now (record {
            owner_id = owner;
            parent_path = parent;
            name = name;
            content = content;
            pool_id = [];
            no_overwrite = false;
          })))
    elim broken [ none ↦ lift (mapped r) | some e ↦ raise e ]
    pure tt
