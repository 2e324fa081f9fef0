-- ===== src/Tests.antt =====
-- A memory store, two users with their files and folders: the inputs of the examples.
mod Service
mod Paths
mod Access
mod Uploads
mod Shares
mod Accounts
mod Config
mod WebDav
use Prim.Native.String.{String}
use nexuscloud.Base.{
  ℕ, ◌+◌, Bool, true, false, Option, none, some, List, [], ◌∷◌, Str, str, str_eq, if◌then◌else◌,
  find_first, select, length,
}
use nexuscloud.GoText.{itoa}
use nexuscloud.Storage.Errors.{Result, ok, err, file_not_found}
use nexuscloud.Storage.Model.{FileMeta, Directory, Share, group}
use nexuscloud.Storage.World.{Outside, World, Settings}
use nexuscloud.Sharing.Reader.{Reader}

-- A content store in memory: the pool, the path and the bytes of each file, the latest first.
abbrev pub Cell : Type 0
Cell = Str × Str × List ℕ

abbrev pub cell_is : Str → Str → Cell → Bool
cell_is pool path c = if str_eq c.0 pool then str_eq c.1 path else false

abbrev pub content_of : Option Cell → Result (List ℕ)
content_of none = err file_not_found
content_of (some c) = ok c.2

abbrev pub moved : Str → Str → Option Cell → List Cell → Result (Unit {0}) × List Cell
moved pool path none cells = (err file_not_found, cells)
moved pool path (some c) cells = (ok tt, (pool, path, c.2) ∷ cells)

abbrev pub memory : Outside
memory = record {
  Disk = List Cell;
  write = λ pool path r cells. (ok (length r.bytes, r.bytes), (pool, path, r.bytes) ∷ cells);
  read = λ pool path cells. content_of (find_first (cell_is pool path) cells);
  remove =
      λ pool path cells. (ok tt, select (λ c. if cell_is pool path c then false else true) cells);
  mkdir_all = λ pool path cells. (ok tt, cells);
  move = λ pool old new cells. moved pool new (find_first (cell_is pool old) cells) cells;
  open_pool = λ pool. ok tt;
  new_id = λ n. itoa (n + 100);
  mime_of = λ name. str "text/plain";
  new_token = λ n. ok (itoa (n + 100));
  hash_token = λ t. t;
  hash_password = λ p. ok p;
  verify_password = λ p h. str_eq p h;
}

abbrev pub file : String → String → String → FileMeta
file id owner name = record {
  id = str id;
  pool_id = str "main";
  owner_id = str owner;
  parent_path = str "/";
  name = str name;
  size_bytes = 2;
  sha256 = 7 ∷ 7 ∷ [];
  mime_type = str "text/plain";
  created_at = 5;
  updated_at = 5;
  deleted_at = none;
}

abbrev pub folder : String → String → String → Directory
folder id owner name = record {
  id = str id;
  pool_id = str "main";
  owner_id = str owner;
  parent_path = str "/";
  name = str name;
  created_at = 5;
  deleted_at = none;
}

abbrev pub settings : Settings
settings = record {
  trash_enabled = true;
  versioning_enabled = true;
  max_versions_per_file = 3;
  max_version_age_days = 0;
  max_versions_total_size_bytes = 0;
  sharing_enabled = true;
  public_links_enabled = true;
}

abbrev pub world : World memory.Disk
world = record {
  db = record {
    files = file "1" "ana" "notes" ∷ file "2" "bob" "notes" ∷ [];
    directories = folder "3" "ana" "docs" ∷ folder "4" "bob" "docs" ∷ [];
    versions = [];
    shares = [];
    memberships = (str "bob", str "team") ∷ [];
    pools =
        record { id = str "main"; is_local = true; is_active = true; priority = 1; created_at = 1 }
        ∷ [];
  };
  disk = (str "main", str "/ana/notes", 7 ∷ 7 ∷ []) ∷ [];
  db_faults = [];
  opened = [];
  next_id = 0;
}

abbrev pub two_bytes : Reader
two_bytes = record { bytes = 1 ∷ 2 ∷ []; ending = none }

abbrev pub share : Option ℕ → Option ℕ → Share
share max_downloads limit = record {
  id = str "s";
  owner_id = str "ana";
  file_id = [];
  directory_id = str "3";
  share_type = group;
  target_user_id = [];
  target_group_id = str "team";
  token_hash = [];
  label = [];
  can_download = true;
  can_upload = true;
  password_hash = [];
  expires_at = some 20;
  max_downloads = max_downloads;
  download_count = 1;
  max_upload_size_bytes = limit;
  revoked_at = none;
  created_at = 5;
  updated_at = 5;
}
