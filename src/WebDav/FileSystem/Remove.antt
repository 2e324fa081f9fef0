-- ===== src/WebDav/FileSystem/Remove.antt =====
-- `RemoveAll` of nexuscloud/internal/webdav/filesystem.go. The walk over a tree runs on fuel: `none` as
-- its value means that the fuel ran out.
use nexuscloud.Base.{
  ℕ, zero, suc, Bool, false, Option, none, some, List, [], ◌∷◌, Str, str, str_eq, if◌then◌else◌,
  ◌&&◌, ◌||◌,
}
use nexuscloud.GoPath.{path_join}
use nexuscloud.Storage.Errors.{
  Error, Result, ok, err, os_not_exist, os_permission, overwrite_collection,
}
use nexuscloud.Storage.Model.{FileMeta, Directory}
use nexuscloud.Storage.Action.{pure, raise, lift, attempt, reject_if, ◌>>=◌, ◌>>◌}
use nexuscloud.Storage.World.{Outside, Settings}
use nexuscloud.Storage.Service.Trash.{delete}
use nexuscloud.Storage.Service.Folders.{list_folder, delete_directory}
use nexuscloud.WebDav.FileSystem.{
  RequestInfo, clean_path, Entry, root, folder, file, Dav, ask, look_up,
}

-- A MOVE or a COPY.
abbrev pub replaces : Option RequestInfo → Bool
replaces none = false
replaces (some r) = str_eq r.method (str "MOVE") || str_eq r.method (str "COPY")

abbrev pub with_overwrite : Str → Option RequestInfo → Option RequestInfo
with_overwrite path none = none
with_overwrite path (some r) = some (record r { overwrite_of = path })

-- What is not there need not be removed, as for `os.RemoveAll`.
abbrev pub unless_absent : Error → Result (Unit {0})
unless_absent os_not_exist = ok tt
unless_absent e = err e

module _ (o : Outside) where
  -- `requestInfoFrom`
  unfoldable pub request_info : Dav o (Option RequestInfo)
  request_info v = (ok v.request, v)

  -- `ri.overwriteOf = path`
  unfoldable pub set_overwrite : Str → Dav o (Unit {0})
  set_overwrite path v = (ok tt, record v { request = with_overwrite path v.request })

  -- The rest of a walk that has fuel left.
  abbrev pub and_then : Option (Unit {0}) → Dav o (Option (Unit {0})) → Dav o (Option (Unit {0}))
  and_then none m = pure none
  and_then (some u) m = m

  -- The loop over the folders in a folder.
  unfoldable pub remove_trees :
      (Str → Directory → Dav o (Option (Unit {0})))
      → Str
      → List Directory
      → Dav o (Option (Unit {0}))
  remove_trees go path [] = pure (some tt)
  remove_trees go path (d ∷ ds) = do
    done ← go (path_join (path ∷ d.name ∷ [])) d
    and_then done (remove_trees go path ds)

module _ (o : Outside) (s : Settings) where
  -- `deleteFile`
  unfoldable pub delete_entry : ℕ → Str → FileMeta → Dav o (Unit {0})
  delete_entry now owner m = ask o (delete o s now owner m.id)

  -- The loop over the files in a folder.
  unfoldable pub delete_entries : ℕ → Str → List FileMeta → Dav o (Unit {0})
  delete_entries now owner [] = pure tt
  delete_entries now owner (m ∷ ms) = do delete_entry now owner m; delete_entries now owner ms

  -- `removeTree`
  unfoldable pub remove_tree : ℕ → ℕ → Str → Str → Directory → Dav o (Option (Unit {0}))
  remove_tree zero now owner path dir = pure none
  remove_tree (suc fuel) now owner path dir = do
    res ← ask o (list_folder o s owner path)
    delete_entries now owner res.1
    done ← remove_trees o (remove_tree fuel now owner) path res.0
    and_then o done (ask o (delete_directory o s now owner dir.id) >>= λ _. pure (some tt))

  -- What `beginOverwrite` makes of a lookup.
  unfoldable pub agree : Str → Result Entry → Dav o (Unit {0})
  agree path (ok (file f)) = set_overwrite o path
  agree path (ok e) = raise overwrite_collection
  agree path (err e) = lift (unless_absent e)

  -- `beginOverwrite`
  unfoldable pub begin_overwrite : Str → Str → Dav o (Unit {0})
  begin_overwrite owner path = attempt (look_up o s owner path) >>= λ found. agree path found

  -- What `RemoveAll` does with a lookup: nothing is there, a file, or a folder.
  unfoldable pub remove_found : ℕ → ℕ → Str → Str → Result Entry → Dav o (Option (Unit {0}))
  remove_found fuel now owner path (ok (file f)) = delete_entry now owner f >>= λ _. pure (some tt)
  remove_found fuel now owner path (ok (folder d)) = remove_tree fuel now owner path d
  remove_found fuel now owner path (ok root) = raise os_permission
  remove_found fuel now owner path (err e) = lift (unless_absent e) >>= λ _. pure (some tt)

  -- `RemoveAll`
  unfoldable pub remove_all : ℕ → ℕ → Str → Str → Dav o (Option (Unit {0}))
  remove_all fuel now owner name = do
    let path = clean_path name
    reject_if (str_eq path (str "/")) os_permission
    r ← request_info o
    if replaces r && s.trash_enabled
        then (begin_overwrite owner path >>= λ _. pure (some tt))
        else (attempt (look_up o s owner path) >>= λ found. remove_found fuel now owner path found)
