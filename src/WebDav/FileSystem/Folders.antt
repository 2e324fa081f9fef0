-- ===== src/WebDav/FileSystem/Folders.antt =====
-- What every folder of the tables has while files and folders are deleted.
use nexuscloud.Base.{
  ◌≡◌, refl, ℕ, Bool, true, false, Option, List, Str, str_eq, All, All-map, select, not, any_of,
  Bool-cases, inl, inr, if◌then◌else◌, ◌&&◌, &&_eq_true, str_eq-eq,
}
use nexuscloud.Storage.Errors.{Result, ok, err, failed}
use nexuscloud.Storage.Model.{FileMeta, Directory, dir_is_trashed}
use nexuscloud.Storage.Action.Keeps.{Keeps}
use nexuscloud.Storage.Action.Answers.{Answers, Answers-pure, Answers-any, Answers-bind}
use nexuscloud.Storage.Action.Reads.{ok_injective}
use nexuscloud.Storage.Table.Every.{All-update_row, All-delete_row, All-select, All-sort_rows}
use nexuscloud.Storage.World.{Outside, Settings, Db, query, fault_of}
use nexuscloud.Storage.World.Tables.{Tables, On, execute-Keeps, query-On}
use nexuscloud.Storage.Names.{normalize_parent_path}
use nexuscloud.Storage.Files.{
  with_files, without_file, get_file_by_id, set_file_deleted_at, soft_delete_file, delete_file_row,
  list_files,
}
use nexuscloud.Storage.Directories.{
  with_directories, without_directory, update_dir_by_id, delete_dir_by_id, dir_has_id, dir_by_name,
  get_directory_by_id, set_directory_deleted_at, soft_delete_directory, delete_directory_row,
  list_directories,
}
use nexuscloud.Storage.Service.History.{owned_file}
use nexuscloud.Storage.Service.Trash.{permanently_delete, delete}
use nexuscloud.Storage.Service.Move.{owned_directory}
use nexuscloud.Storage.Service.Folders.{
  list_folder, permanently_delete_dir, trash_directory, delete_directory,
}
use nexuscloud.Storage.Service.Isolation.Calls.{calls, remove_versions-On}
use nexuscloud.Storage.Service.Isolation.Folders.{ensure_directory_empty-On}

-- Every folder passes `Q`.
unfoldable pub FoldersAre : (Directory → Type 0) → Tables
FoldersAre Q fs ds = All Q ds

-- `Q` does not ask whether the folder is in the trash.
abbrev pub IgnoresTrash : (Directory → Type 0) → Type 0
IgnoresTrash Q = (d : Directory) (t : Option ℕ) → Q d → Q (record d { deleted_at = t })

module _ (Q : Directory → Type 0) where
  with_files-FoldersAre :
      (d d' : Db) (r : Result (List FileMeta))
      → All Q d.directories
      → with_files d r ≡ ok d'
      → All Q d'.directories
  with_files-FoldersAre d d' (ok fs) h e = rw (← ok_injective e) h
  with_files-FoldersAre d d' (err x) h e = cc

  with_directories-FoldersAre :
      (d d' : Db) (r : Result (List Directory))
      → ((ds : List Directory) → r ≡ ok ds → All Q ds)
      → with_directories d r ≡ ok d'
      → All Q d'.directories
  with_directories-FoldersAre d d' (ok ds) h e = rw (← ok_injective e) (h ds refl)
  with_directories-FoldersAre d d' (err x) h e = cc

  update_dir_by_id-All :
      (id : Str) (t : Option ℕ) (ds ds' : List Directory)
      → IgnoresTrash Q
      → All Q ds
      → update_dir_by_id id (λ f. record f { deleted_at = t }) ds ≡ ok ds'
      → All Q ds'
  unfolding update_dir_by_id
  update_dir_by_id-All id t ds ds' q h e = elim (Bool-cases (any_of (dir_has_id id) ds)) [
    | inl y ↦
        rw (← ok_injective (rw y at e))
          (All-update_row Q (dir_has_id id) (λ f. record f { deleted_at = t }) ds (λ d. q d t) h)
    | inr n ↦ cc (rw n at e)
  ]

  delete_dir_by_id-All :
      (id : Str) (ds ds' : List Directory) → All Q ds → delete_dir_by_id id ds ≡ ok ds' → All Q ds'
  unfolding delete_dir_by_id
  delete_dir_by_id-All id ds ds' h e = elim (Bool-cases (any_of (dir_has_id id) ds)) [
    | inl y ↦ rw (← ok_injective (rw y at e)) (All-delete_row Q (dir_has_id id) ds h)
    | inr n ↦ cc (rw n at e)
  ]

module _ (o : Outside) (s : Settings) (Q : Directory → Type 0) (q : IgnoresTrash Q) where
  soft_delete_file-Folders :
      (id : Str) (now : ℕ) → Keeps (On (FoldersAre Q)) (soft_delete_file o id now)
  unfolding soft_delete_file set_file_deleted_at FoldersAre
  soft_delete_file-Folders id now =
      execute-Keeps o (FoldersAre Q) _ (λ d d' h e. with_files-FoldersAre Q d d' _ h e)

  delete_file_row-Folders : (id : Str) → Keeps (On (FoldersAre Q)) (delete_file_row o id)
  unfolding delete_file_row FoldersAre
  delete_file_row-Folders id =
      execute-Keeps o (FoldersAre Q) _
        (λ d d' h e. with_files-FoldersAre Q (without_file id d) d' _ h e)

  soft_delete_directory-Folders :
      (id : Str) (now : ℕ) → Keeps (On (FoldersAre Q)) (soft_delete_directory o id now)
  unfolding soft_delete_directory set_directory_deleted_at FoldersAre
  soft_delete_directory-Folders id now = execute-Keeps o (FoldersAre Q) _ (λ d d' h e.
      with_directories-FoldersAre Q d d' _
        (λ ds k. update_dir_by_id-All Q id _ d.directories ds q h k) e)

  delete_directory_row-Folders : (id : Str) → Keeps (On (FoldersAre Q)) (delete_directory_row o id)
  unfolding delete_directory_row FoldersAre
  delete_directory_row-Folders id = execute-Keeps o (FoldersAre Q) _ (λ d d' h e.
      with_directories-FoldersAre Q (without_directory id d) d' _
        (λ ds k. delete_dir_by_id-All Q id d.directories ds h k) e)

  permanently_delete-Folders : (m : FileMeta) → Keeps (On (FoldersAre Q)) (permanently_delete o s m)
  unfolding permanently_delete
  permanently_delete-Folders m =
      search (calls, remove_versions-On, delete_file_row-Folders) depth 12

  pub delete-Folders :
      (now : ℕ) (user id : Str) → Keeps (On (FoldersAre Q)) (delete o s now user id)
  unfolding delete owned_file get_file_by_id
  delete-Folders now user id =
      search (calls, query-On, soft_delete_file-Folders, permanently_delete-Folders) depth 12

  permanently_delete_dir-Folders :
      (d : Directory) → Keeps (On (FoldersAre Q)) (permanently_delete_dir o s d)
  unfolding permanently_delete_dir
  permanently_delete_dir-Folders d = search (calls, delete_directory_row-Folders) depth 10

  trash_directory-Folders :
      (now : ℕ) (d : Directory) → Keeps (On (FoldersAre Q)) (trash_directory o s now d)
  unfolding trash_directory
  trash_directory-Folders now d = search (calls, soft_delete_directory-Folders) depth 10

  pub delete_directory-Folders :
      (now : ℕ) (user id : Str) → Keeps (On (FoldersAre Q)) (delete_directory o s now user id)
  unfolding delete_directory owned_directory get_directory_by_id
  delete_directory-Folders now user id =
      search
        (
          calls, query-On, ensure_directory_empty-On, trash_directory-Folders,
          permanently_delete_dir-Folders,
        )
        depth 12

  -- A folder that is listed lies in the parent, and passes `Q`.
  abbrev pub InParent : Str → Directory → Type 0
  InParent parent d = Q d × (d.parent_path ≡ parent)

  answered : {A : Type 0} (b : Bool) (x a : A) → (if b then err failed else ok x) ≡ ok a → x ≡ a
  answered true x a e = cc
  answered false x a e = ok_injective e

  list_directories-InParent :
      (owner parent : Str)
      → Answers (On (FoldersAre Q)) (All (InParent parent)) (list_directories o owner parent)
  unfolding list_directories query On FoldersAre
  list_directories-InParent owner parent = record {
    gives = λ w h ds e.
        let test : Directory → Bool =
          λ f. str_eq f.owner_id owner && (str_eq f.parent_path parent && not (dir_is_trashed f)) in
        rw (← answered (fault_of w.db_faults) _ ds e) (
          All-sort_rows (InParent parent) dir_by_name (select test w.db.directories) (
            All-map (λ d. Q d × (test d ≡ true)) (InParent parent) (select test w.db.directories)
              (λ d k. (
                k.0,
                str_eq-eq d.parent_path parent
                    (&&_eq_true _ _ (&&_eq_true (str_eq d.owner_id owner) _ k.1).1).0,
              ))
              (All-select Q test w.db.directories h)));
  }

  pub list_folder-InParent :
      (owner parent : Str)
      → Answers
          (On (FoldersAre Q))
          (λ res. All (InParent (normalize_parent_path parent)) res.0)
          (list_folder o s owner parent)
  unfolding list_folder list_directories list_files
  list_folder-InParent owner parent =
      Answers-bind _ _ (query-On o _ _)
        (list_directories-InParent owner (normalize_parent_path parent))
        (λ dirs h.
          Answers-bind _ _ (query-On o _ _) (Answers-any _)
            (λ files _. Answers-pure (dirs, files) h))
