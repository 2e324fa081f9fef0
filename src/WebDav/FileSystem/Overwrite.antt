-- ===== src/WebDav/FileSystem/Overwrite.antt =====
-- `beginOverwrite`: while the trash is on, what a MOVE or a COPY replaces is not deleted beforehand.
use nexuscloud.Base.{◌≡◌, refl, ℕ, Bool, true, some, Str, str, str_eq, Bool-cases, inl, inr, ◌&&◌}
use nexuscloud.Storage.Errors.{Result, ok, err}
use nexuscloud.Storage.Action.{reject_if, ◌>>=◌}
use nexuscloud.Storage.Action.Keeps.{Keeps, keeps_rules, Keeps-bind, Keeps-pure}
use nexuscloud.Storage.World.{Outside, Settings, World, Service, Db, query}
use nexuscloud.Storage.Service.Folders.{list_folder}
use nexuscloud.Storage.Files.{list_files}
use nexuscloud.Storage.Directories.{list_directories}
use nexuscloud.WebDav.FileSystem.{Visit, Entry, root, folder, file, clean_path, call, ask, look_up}
use nexuscloud.WebDav.FileSystem.Remove.{
  replaces, request_info, set_overwrite, agree, begin_overwrite, remove_all,
}

module _ (o : Outside) (d : Db) (k : o.Disk) where
  -- The tables and the content store are these.
  abbrev Unchanged : World o.Disk → Type 0
  Unchanged w = (w.db ≡ d) × (w.disk ≡ k)

  abbrev SameStore : Visit o.Disk → Type 0
  SameStore v = Unchanged v.world

  query-Unchanged : {A : Type 0} (f : Db → Result A) → Keeps Unchanged (query {Disk = o.Disk} f)
  unfolding query
  query-Unchanged f = record { at = λ w. λ h. h }

  list_folder-Unchanged :
      (s : Settings) (user path : Str) → Keeps Unchanged (list_folder o s user path)
  unfolding list_folder list_directories list_files
  list_folder-Unchanged s user path = search (keeps_rules, query-Unchanged)

  call-SameStore : {A : Type 0} (m : Service o A) → Keeps Unchanged m → Keeps SameStore (call o m)
  unfolding call
  call-SameStore m q = record { at = λ v. λ h. q.at v.world h }

  look_up-SameStore : (s : Settings) (user path : Str) → Keeps SameStore (look_up o s user path)
  unfolding look_up ask
  look_up-SameStore s user path =
      search (keeps_rules, call-SameStore, list_folder-Unchanged) depth 12

  request_info-SameStore : Keeps SameStore (request_info o)
  unfolding request_info
  request_info-SameStore = record { at = λ v. λ h. h }

  set_overwrite-SameStore : (path : Str) → Keeps SameStore (set_overwrite o path)
  unfolding set_overwrite
  set_overwrite-SameStore path = record { at = λ v. λ h. h }

  agree-SameStore :
      (s : Settings) (path : Str) (r : Result Entry) → Keeps SameStore (agree o s path r)
  unfolding agree
  agree-SameStore s path (ok (file f)) = set_overwrite-SameStore path
  agree-SameStore s path (ok (folder e)) = search keeps_rules
  agree-SameStore s path (ok root) = search keeps_rules
  agree-SameStore s path (err e) = search keeps_rules

  begin_overwrite-SameStore :
      (s : Settings) (user path : Str) → Keeps SameStore (begin_overwrite o s user path)
  unfolding begin_overwrite
  begin_overwrite-SameStore s user path = search (keeps_rules, look_up-SameStore, agree-SameStore)

both_true : (a b : Bool) → a ≡ true → b ≡ true → (a && b) ≡ true
both_true a b h k = rw (h, k) refl

-- The `RemoveAll` of a MOVE or a COPY, with the trash switched on, changes neither the tables nor the
-- content store, whatever stands at the path and however it ends.
pub remove_all-overwrite :
    (o : Outside) (s : Settings) (fuel now : ℕ) (user name : Str) (v : Visit o.Disk)
    → replaces v.request ≡ true
    → s.trash_enabled ≡ true
    → let v' = (remove_all o s fuel now user name v).1 in
      (v'.world.db ≡ v.world.db) × (v'.world.disk ≡ v.world.disk)
unfolding remove_all request_info ◌>>=◌ reject_if
remove_all-overwrite o s fuel now user name v moves on =
    elim (Bool-cases (str_eq (clean_path name) (str "/"))) [
      | inl y ↦ rw y (refl, refl)
      | inr n ↦
          rw (n, both_true (replaces v.request) s.trash_enabled moves on)
            ((Keeps-bind _ _
                (begin_overwrite-SameStore o v.world.db v.world.disk s user (clean_path name))
                (λ _. Keeps-pure (some tt))).at
              v (refl, refl))
    ]
