-- ===== src/Tests/WebDav.antt =====
-- The theorems on the WebDAV file system at concrete inputs.
use Prim.Native.String.{String}
use nexuscloud.Base.{
  ◌≡◌, ◌≢◌, refl, true, false, none, some, List, [], ◌∷◌, str, str_eq, select, arith,
}
use nexuscloud.Storage.Errors.{ok}
use nexuscloud.Storage.Service.Isolation.Rows.{not_of, dir_not_of}
use nexuscloud.WebDav.FileSystem.{Visit, RequestInfo, FileInfo}
use nexuscloud.WebDav.FileSystem.Remove.{remove_all}
use nexuscloud.WebDav.FileSystem.Ends.{remove_all-Finished}
use nexuscloud.WebDav.FileSystem.Overwrite.{remove_all-overwrite}
use nexuscloud.WebDav.FileSystem.Listing.{DirFile, read_pages, read_pages-drop}
use nexuscloud.WebDav.Calls.{
  Call, stat_of, write_of, remove_of, move_of, make_calls, make_calls-others,
}
use nexuscloud.Tests.{file, folder, memory, settings, world, two_bytes}

abbrev request : RequestInfo
request = record { method = str "MOVE"; overwrite_of = [] }

abbrev visit : Visit memory.Disk
visit = record { world = world; request = some request }

-- Ana moves her notes, writes new ones and removes a folder.
abbrev calls : List Call
calls =
    stat_of (str "/notes")
    ∷ move_of (str "/notes") (str "/docs/old")
    ∷ write_of (str "/notes") two_bytes none
    ∷ remove_of 3 (str "/docs")
    ∷ []

make_calls-others_example :
    let v' = (make_calls memory settings 1 9 (str "ana") calls visit).1 in
    (select (not_of (str "ana")) v'.world.db.files ≡ file "2" "bob" "notes" ∷ [])
    × (select (dir_not_of (str "ana")) v'.world.db.directories ≡ folder "4" "bob" "docs" ∷ [])
unfolding str_eq
make_calls-others_example = make_calls-others memory settings 1 9 (str "ana") calls visit

remove_all-Finished_example :
    (remove_all memory settings 3 9 (str "ana") (str "/docs") (record visit { request = none })).0
    ≢ ok none
unfolding str_eq
remove_all-Finished_example =
    remove_all-Finished memory settings 1 3 9 (str "ana") (str "/docs")
      (record visit { request = none })
      (
        ((refl, refl, refl, (refl, (refl, (refl, (refl, tt))))), omega arith),
        (((refl, refl, refl, (refl, (refl, (refl, (refl, tt))))), omega arith), tt),
      )
      (omega arith)

remove_all-overwrite_example :
    let v' = (remove_all memory settings 3 9 (str "ana") (str "/notes") visit).1 in
    (v'.world.db ≡ world.db) × (v'.world.disk ≡ world.disk)
unfolding str_eq
remove_all-overwrite_example =
    remove_all-overwrite memory settings 3 9 (str "ana") (str "/notes") visit refl refl

abbrev info : String → FileInfo
info name = record {
  name = str name;
  size = 2;
  mod_time = 5;
  is_folder = false;
  sha256 = 7 ∷ [];
  mime = [];
}

abbrev listing : DirFile
listing = record {
  path = str "/docs";
  entries = info "a" ∷ info "b" ∷ info "c" ∷ [];
  loaded = true;
  cursor = 0;
}

read_pages-drop_example : read_pages 4 2 listing ≡ some (info "a" ∷ info "b" ∷ info "c" ∷ [])
read_pages-drop_example = read_pages-drop 4 1 listing (omega arith)
