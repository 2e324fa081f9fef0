-- ===== src/WebDav/FileSystem/Ends.antt =====
-- `RemoveAll` comes to an end: the walk goes down only to folders whose path is longer.
use nexuscloud.Base.{
  ◌≢◌, refl, ◌≤◌, ◌<◌, ◌+◌, ℕ, zero, suc, none, some, List, [], ◌∷◌, ◌++◌, Str, All, All-append,
  length, arith,
}
use nexuscloud.GoPath.Clean.{IsNormal, abs_path, descend, descend-IsNormal, clean_rooted}
use nexuscloud.Storage.Errors.{Result, ok, err}
use nexuscloud.Storage.Model.{FileMeta, Directory}
use nexuscloud.Storage.Action.Keeps.{Keeps, keeps_rules, Keeps-bind, Keeps-attempt}
use nexuscloud.Storage.Action.Answers.{
  Answers, Answers-pure, Answers-any, Answers-bind, Answers-raise, Answers-if,
}
use nexuscloud.Storage.World.{Outside, Settings}
use nexuscloud.Storage.World.Tables.{On}
use nexuscloud.Storage.Names.{normalize_parent_path}
use nexuscloud.Storage.Service.Folders.{list_folder, delete_directory}
use nexuscloud.Storage.Service.Isolation.Folders.{list_folder-On}
use nexuscloud.WebDav.FileSystem.{Visit, Entry, root, folder, file, clean_path, ask}
use nexuscloud.WebDav.FileSystem.Remove.{
  delete_entry, delete_entries, remove_tree, remove_found, remove_all,
}
use nexuscloud.WebDav.FileSystem.Tables.{
  OnTree, ask-OnTree, look_up-OnTree, request_info-OnTree, begin_overwrite-OnTree, and_then-OnTree,
  remove_trees-OnTree,
}
use nexuscloud.WebDav.FileSystem.Folders.{
  FoldersAre, delete-Folders, delete_directory-Folders, InParent, list_folder-InParent,
}
use nexuscloud.WebDav.FileSystem.Walk.{
  Placed, Placed-IgnoresTrash, Finished, ask-Answers, and_then-Finished, remove_trees-Finished,
  normalize-abs_path, length-abs_path, path_join-name,
}

module _ (o : Outside) (s : Settings) (n : ℕ) where
  abbrev NamesHold : Visit o.Disk → Type 0
  NamesHold = OnTree (FoldersAre (Placed n))

  delete_entry-Folders :
      (now : ℕ) (user : Str) (m : FileMeta) → Keeps NamesHold (delete_entry o s now user m)
  unfolding delete_entry
  delete_entry-Folders now user m =
      ask-OnTree o _ _ (delete-Folders o s (Placed n) (Placed-IgnoresTrash n) now user m.id)

  delete_entries-Folders :
      (now : ℕ) (user : Str) (ms : List FileMeta) → Keeps NamesHold (delete_entries o s now user ms)
  unfolding delete_entries
  delete_entries-Folders now user [] = search keeps_rules
  delete_entries-Folders now user (m ∷ ms) =
      Keeps-bind _ _ (delete_entry-Folders now user m) (λ _. delete_entries-Folders now user ms)

  list-Folders : (user path : Str) → Keeps NamesHold (ask o (list_folder o s user path))
  list-Folders user path = ask-OnTree o _ _ (list_folder-On o s _ user path)

  last-Folders :
      (now : ℕ) (user : Str) (d : Directory)
      → Keeps NamesHold (ask o (delete_directory o s now user d.id))
  last-Folders now user d =
      ask-OnTree o _ _
        (delete_directory-Folders o s (Placed n) (Placed-IgnoresTrash n) now user d.id)

  remove_tree-Folders :
      (fuel now : ℕ) (user path : Str) (d : Directory)
      → Keeps NamesHold (remove_tree o s fuel now user path d)
  unfolding remove_tree
  remove_tree-Folders zero now user path d = search keeps_rules
  remove_tree-Folders (suc fuel) now user path d = Keeps-bind _ _ (list-Folders user path) (λ res.
      Keeps-bind _ _ (delete_entries-Folders now user res.1) (λ _.
        Keeps-bind _ _ (remove_trees-OnTree o _ _ path res.0 (remove_tree-Folders fuel now user))
          (λ done.
            and_then-OnTree o _ done _
              (Keeps-bind _ _ (last-Folders now user d) (λ _. search keeps_rules)))))

  fits : (a b fuel : ℕ) → a ≤ n → n + 1 < a + suc fuel → a < b → (1 ≤ fuel) × (n + 1 < b + fuel)
  fits a b fuel le long lt = (omega arith, omega arith)

  remove_tree-Finished :
      (fuel now : ℕ) (user : Str) (segs : List Str) (d : Directory)
      → All IsNormal segs
      → 1 ≤ fuel
      → n + 1 < length (abs_path segs) + fuel
      → Answers NamesHold Finished (remove_tree o s fuel now user (abs_path segs) d)
  unfolding remove_tree
  remove_tree-Finished zero now user segs d h one long = absurd (ground arith)
  remove_tree-Finished (suc fuel) now user segs d h one long =
      Answers-bind _ _ (list-Folders user (abs_path segs))
        (ask-Answers o _ _ _
          (list_folder-InParent o s (Placed n) (Placed-IgnoresTrash n) user (abs_path segs)))
        (λ res inside.
          Answers-bind _ _ (delete_entries-Folders now user res.1) (Answers-any _) (λ _ _.
            Answers-bind _ _
              (remove_trees-OnTree o _ _ (abs_path segs) res.0 (remove_tree-Folders fuel now user))
              (remove_trees-Finished o _
                (InParent o s (Placed n) (Placed-IgnoresTrash n)
                  (normalize_parent_path (abs_path segs)))
                (remove_tree o s fuel now user) (abs_path segs) res.0
                (remove_tree-Folders fuel now user)
                (λ e row.
                  let le = rw (row.1, normalize-abs_path segs h) at row.0.1 in
                  let more = fits _ _ fuel le long (length-abs_path segs e.name row.0.0) in
                  rw (path_join-name segs e.name h row.0.0) (
                    remove_tree-Finished fuel now user (segs ++ (e.name ∷ [])) e
                      (All-append IsNormal segs (e.name ∷ []) h (row.0.0, tt)) more.0 more.1))
                inside)
              (λ done f. and_then-Finished o _ done _ f (
                Answers-bind _ _ (last-Folders now user d) (Answers-any _)
                  (λ _ _. Answers-pure (some tt) (λ e. cc))))))

  remove_found-Finished :
      (fuel now : ℕ) (user name : Str) (r : Result Entry)
      → n + 2 ≤ fuel
      → Answers NamesHold Finished (remove_found o s fuel now user (clean_path name) r)
  unfolding remove_found clean_path
  remove_found-Finished fuel now user name (ok (file f)) enough =
      Answers-bind _ _ (delete_entry-Folders now user f) (Answers-any _)
        (λ _ _. Answers-pure (some tt) (λ e. cc))
  remove_found-Finished fuel now user name (ok (folder d)) enough = rw (clean_rooted name) (
      remove_tree-Finished fuel now user (descend [] name) d (descend-IsNormal [] name tt)
        (omega arith) (omega arith))
  remove_found-Finished fuel now user name (ok root) enough = Answers-raise _
  remove_found-Finished fuel now user name (err e) enough =
      Answers-bind _ _ (search keeps_rules) (Answers-any _)
        (λ _ _. Answers-pure (some tt) (λ e. cc))

  remove_all-Answers :
      (fuel now : ℕ) (user name : Str)
      → n + 2 ≤ fuel
      → Answers NamesHold Finished (remove_all o s fuel now user name)
  unfolding remove_all
  remove_all-Answers fuel now user name enough =
      Answers-bind _ _ (search keeps_rules) (Answers-any _) (λ _ _.
        Answers-bind _ _ (request_info-OnTree o _) (Answers-any _) (λ r _.
          Answers-if _ _ _
            (Answers-bind _ _ (begin_overwrite-OnTree o s _ user (clean_path name)) (Answers-any _)
              (λ _ _. Answers-pure (some tt) (λ e. cc)))
            (Answers-bind _ _ (Keeps-attempt _ (look_up-OnTree o s _ user (clean_path name)))
              (Answers-any _) (λ found _. remove_found-Finished fuel now user name found enough))))

-- With fuel for two more than the length of the longest path of a parent in the table of folders, the
-- names in which are plain, `RemoveAll` comes to its end, with or without an error.
pub remove_all-Finished :
    (o : Outside) (s : Settings) (n fuel now : ℕ) (user name : Str) (v : Visit o.Disk)
    → All (Placed n) v.world.db.directories
    → n + 2 ≤ fuel
    → (remove_all o s fuel now user name v).0 ≢ ok none
unfolding OnTree On FoldersAre
remove_all-Finished o s n fuel now user name v h enough =
    λ e. (remove_all-Answers o s n fuel now user name enough).gives v h none e refl
