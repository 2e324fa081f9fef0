-- ===== src/WebDav/FileSystem/Isolation.antt =====
-- The WebDAV file system of a user leaves the rows of others alone.
use nexuscloud.Base.{ℕ, zero, suc, Option, none, some, List, [], ◌∷◌, Str}
use nexuscloud.Sharing.Reader.{Reader}
use nexuscloud.Storage.Errors.{Error, Result, ok, err}
use nexuscloud.Storage.Model.{FileMeta, Directory}
use nexuscloud.Storage.Action.Keeps.{Keeps, keeps_rules, Keeps-bind}
use nexuscloud.Storage.World.{Outside, Settings}
use nexuscloud.Storage.Service.Isolation.Rows.{Others}
use nexuscloud.Storage.Service.Isolation.Files.{upload-Others, delete-Others, move_file-Others}
use nexuscloud.Storage.Service.Isolation.Folders.{
  list_folder-On, mkdir-Others, delete_directory-Others, move_directory-Others,
}
use nexuscloud.WebDav.FileSystem.{Dav, Entry, root, folder, file, make_dir, close_upload}
use nexuscloud.WebDav.FileSystem.Remove.{
  delete_entry, delete_entries, remove_tree, remove_found, remove_all,
}
use nexuscloud.WebDav.FileSystem.Move.{move_over_file, move_entry, finish_rename, rename}
use nexuscloud.WebDav.FileSystem.Tables.{
  OnTree, call-OnTree, ask-OnTree, request_info-OnTree, set_overwrite-OnTree, look_up-OnTree,
  require_parent_dir-OnTree, ask-download-OnTree, begin_overwrite-OnTree, and_then-OnTree,
  remove_trees-OnTree,
}

module _ (o : Outside) (s : Settings) (user : Str) (X : List FileMeta) (Y : List Directory) where
  abbrev OthersStay : {A : Type 0} → Dav o A → Type 0
  OthersStay m = Keeps (OnTree (Others user X Y)) m

  pub make_dir-Others : (now : ℕ) (name : Str) → OthersStay (make_dir o s now user name)
  unfolding make_dir
  make_dir-Others now name =
      search (keeps_rules, look_up-OnTree, require_parent_dir-OnTree, ask-OnTree, mkdir-Others)
        depth 20

  pub close_upload-Others :
      (now : ℕ) (place : Str × Str) (content : Reader) (broken : Option Error)
      → OthersStay (close_upload o s now user place content broken)
  unfolding close_upload
  close_upload-Others now (parent, name) content none =
      search (keeps_rules, call-OnTree, upload-Others) depth 20
  close_upload-Others now (parent, name) content (some e) =
      search (keeps_rules, call-OnTree, upload-Others) depth 20

  delete_entry-Others : (now : ℕ) (m : FileMeta) → OthersStay (delete_entry o s now user m)
  unfolding delete_entry
  delete_entry-Others now m = ask-OnTree o _ _ (delete-Others o s user X Y now m.id)

  delete_entries-Others :
      (now : ℕ) (ms : List FileMeta) → OthersStay (delete_entries o s now user ms)
  unfolding delete_entries
  delete_entries-Others now [] = search keeps_rules
  delete_entries-Others now (m ∷ ms) =
      Keeps-bind _ _ (delete_entry-Others now m) (λ _. delete_entries-Others now ms)

  remove_tree-Others :
      (fuel now : ℕ) (path : Str) (d : Directory)
      → OthersStay (remove_tree o s fuel now user path d)
  unfolding remove_tree
  remove_tree-Others zero now path d = search keeps_rules
  remove_tree-Others (suc fuel) now path d =
      Keeps-bind _ _ (ask-OnTree o _ _ (list_folder-On o s _ user path)) (λ res.
        Keeps-bind _ _ (delete_entries-Others now res.1) (λ _.
          Keeps-bind _ _ (remove_trees-OnTree o _ _ path res.0 (remove_tree-Others fuel now))
            (λ done. and_then-OnTree o _ done _ (
              Keeps-bind _ _ (ask-OnTree o _ _ (delete_directory-Others o s user X Y now d.id))
                (λ _. search keeps_rules)))))

  remove_found-Others :
      (fuel now : ℕ) (path : Str) (r : Result Entry)
      → OthersStay (remove_found o s fuel now user path r)
  unfolding remove_found
  remove_found-Others fuel now path (ok (file f)) = search (keeps_rules, delete_entry-Others)
  remove_found-Others fuel now path (ok (folder d)) = remove_tree-Others fuel now path d
  remove_found-Others fuel now path (ok root) = search keeps_rules
  remove_found-Others fuel now path (err e) = search keeps_rules

  pub remove_all-Others :
      (fuel now : ℕ) (name : Str) → OthersStay (remove_all o s fuel now user name)
  unfolding remove_all
  remove_all-Others fuel now name =
      search
        (
          keeps_rules, request_info-OnTree, begin_overwrite-OnTree, look_up-OnTree,
          remove_found-Others,
        )
        depth 20

  move_over_file-Others :
      (now : ℕ) (e : Entry) (target : Str) → OthersStay (move_over_file o s now user e target)
  unfolding move_over_file
  move_over_file-Others now (file f) target =
      search (keeps_rules, ask-download-OnTree, ask-OnTree, upload-Others, delete_entry-Others)
        depth 20
  move_over_file-Others now (folder d) target = search keeps_rules
  move_over_file-Others now root target = search keeps_rules

  move_entry-Others : (e : Entry) (target : Str) → OthersStay (move_entry o s user e target)
  unfolding move_entry
  move_entry-Others (file f) target = search (keeps_rules, ask-OnTree, move_file-Others)
  move_entry-Others (folder d) target = search (keeps_rules, ask-OnTree, move_directory-Others)
  move_entry-Others root target = search keeps_rules

  pub rename-Others : (now : ℕ) (old new : Str) → OthersStay (rename o s now user old new)
  unfolding rename finish_rename
  rename-Others now old new =
      search
        (
          keeps_rules, look_up-OnTree, require_parent_dir-OnTree, request_info-OnTree,
          set_overwrite-OnTree, move_over_file-Others, move_entry-Others,
        )
        depth 20
