-- ===== src/Storage/Service/Isolation/Statements.antt =====
-- The lookups and statements of a user leave the rows of other users alone.
use nexuscloud.Base.{◌≡◌, refl, sym, ◌∙◌, ap, ℕ, Option, none, some, List, Str, select, subst}
use nexuscloud.Storage.Errors.{Result, ok, err}
use nexuscloud.Storage.Model.{FileMeta, Directory}
use nexuscloud.Storage.Action.{Action}
use nexuscloud.Storage.Action.Keeps.{Keeps, KeepsIf, Keeps-bind}
use nexuscloud.Storage.World.{Outside, Db, World, execute}
use nexuscloud.Storage.World.Tables.{Tables, On, query-On, execute-On}
use nexuscloud.Storage.Files.{
  without_file, with_files, get_file_by_natural_key, upsert_file, upsert_rows, set_file_deleted_at,
  soft_delete_file, restore_file_row, delete_file_row, move_file_row,
}
use nexuscloud.Storage.Directories.{
  without_directory, with_directories, create_directory, set_directory_deleted_at,
  soft_delete_directory, restore_directory_row, delete_directory_row, move_directory_tree,
  move_tree,
}
use nexuscloud.Storage.Service.Isolation.Rows.{
  Others, MineFile, MineDir, not_of, dir_not_of, upsert_rows-others, update_by_id-others,
  delete_by_id-others, move_rows-others,
}
use nexuscloud.Storage.Service.Isolation.DirRows.{
  insert_directory-others, update_dir_by_id-others, delete_dir_by_id-others, move_tree-others,
}

pub with_files_eq_ok :
    (d d' : Db) (r : Result (List FileMeta))
    → with_files d r ≡ ok d'
    → (r ≡ ok d'.files) × (d'.directories ≡ d.directories)
with_files_eq_ok d d' (ok fs) h =
    (ap_files (ok_injective h), ap (λ x. x.directories) (sym (ok_injective h)))
  where
    ok_injective : {x y : Db} → ok x ≡ ok y → x ≡ y
    ok_injective k = cc

    ap_files : record d { files = fs } ≡ d' → ok fs ≡ ok d'.files
    ap_files k = ap (λ x. ok x.files) k
with_files_eq_ok d d' (err e) h = cc

pub with_directories_eq_ok :
    (d d' : Db) (r : Result (List Directory))
    → with_directories d r ≡ ok d'
    → (r ≡ ok d'.directories) × (d'.files ≡ d.files)
with_directories_eq_ok d d' (ok ds) h =
    (ap_dirs (ok_injective h), ap (λ x. x.files) (sym (ok_injective h)))
  where
    ok_injective : {x y : Db} → ok x ≡ ok y → x ≡ y
    ok_injective k = cc

    ap_dirs : record d { directories = ds } ≡ d' → ok ds ≡ ok d'.directories
    ap_dirs k = ap (λ x. ok x.directories) k
with_directories_eq_ok d d' (err e) h = cc

module _ (o : Outside) (user : Str) (X : List FileMeta) (Y : List Directory) where
  -- A statement on the files keeps `Others` if it leaves the files of others alone.
  pub files-Others :
      (R : Tables) (f : List FileMeta → Result (List FileMeta))
      → ((fs fs' : List FileMeta) (ds : List Directory)
          → R fs ds
          → f fs ≡ ok fs'
          → select (not_of user) fs' ≡ select (not_of user) fs)
      → KeepsIf
          (On R)
          (On (Others user X Y))
          (execute {Disk = o.Disk} (λ d. with_files d (f d.files)))
  unfolding Others
  files-Others R f h = execute-On o (Others user X Y) R _ (λ d d' r k e.
      let (e1, e2) = with_files_eq_ok d d' (f d.files) e in
      (h d.files d'.files d.directories r e1 ∙ k.0, ap (select (dir_not_of user)) e2 ∙ k.1))

  pub directories-Others :
      (R : Tables) (f : List Directory → Result (List Directory))
      → ((ds ds' : List Directory) (fs : List FileMeta)
          → R fs ds
          → f ds ≡ ok ds'
          → select (dir_not_of user) ds' ≡ select (dir_not_of user) ds)
      → KeepsIf
          (On R)
          (On (Others user X Y))
          (execute {Disk = o.Disk} (λ d. with_directories d (f d.directories)))
  unfolding Others
  directories-Others R f h = execute-On o (Others user X Y) R _ (λ d d' r k e.
      let (e1, e2) = with_directories_eq_ok d d' (f d.directories) e in
      (ap (select (not_of user)) e2 ∙ k.0, h d.directories d'.directories d.files r e1 ∙ k.1))

  pub set_file_deleted_at-Others :
      (id : Str) (t : Option ℕ)
      → KeepsIf (On (MineFile user id)) (On (Others user X Y)) (set_file_deleted_at o id t)
  unfolding set_file_deleted_at
  set_file_deleted_at-Others id t =
      files-Others (MineFile user id) _
        (λ fs fs' ds r e. update_by_id-others user id _ fs fs' (λ f. refl) (unfold MineFile in r) e)

  pub delete_file_row-Others :
      (id : Str) → KeepsIf (On (MineFile user id)) (On (Others user X Y)) (delete_file_row o id)
  unfolding delete_file_row Others
  delete_file_row-Others id = execute-On o (Others user X Y) (MineFile user id) _ (λ d d' r k e.
      let (e1, e2) = with_files_eq_ok (without_file id d) d' _ e in
      (
        delete_by_id-others user id d.files d'.files (unfold MineFile in r) e1 ∙ k.0,
        ap (select (dir_not_of user)) e2 ∙ k.1,
      ))

  pub move_file_row-Others :
      (id parent name : Str)
      → KeepsIf (On (MineFile user id)) (On (Others user X Y)) (move_file_row o id parent name)
  unfolding move_file_row
  move_file_row-Others id parent name =
      files-Others (MineFile user id) _
        (λ fs fs' ds r e. move_rows-others user id parent name fs fs' (unfold MineFile in r) e)

  pub soft_delete_file-Others :
      (id : Str) (now : ℕ)
      → KeepsIf (On (MineFile user id)) (On (Others user X Y)) (soft_delete_file o id now)
  unfolding soft_delete_file
  soft_delete_file-Others id now = set_file_deleted_at-Others id (some now)

  pub restore_file_row-Others :
      (id : Str) → KeepsIf (On (MineFile user id)) (On (Others user X Y)) (restore_file_row o id)
  unfolding restore_file_row
  restore_file_row-Others id = set_file_deleted_at-Others id none

  pub set_directory_deleted_at-Others :
      (id : Str) (t : Option ℕ)
      → KeepsIf (On (MineDir user id)) (On (Others user X Y)) (set_directory_deleted_at o id t)
  unfolding set_directory_deleted_at
  set_directory_deleted_at-Others id t = directories-Others (MineDir user id) _ (λ ds ds' fs r e.
      update_dir_by_id-others user id _ ds ds' (λ f. refl) (unfold MineDir in r) e)

  pub soft_delete_directory-Others :
      (id : Str) (now : ℕ)
      → KeepsIf (On (MineDir user id)) (On (Others user X Y)) (soft_delete_directory o id now)
  unfolding soft_delete_directory
  soft_delete_directory-Others id now = set_directory_deleted_at-Others id (some now)

  pub restore_directory_row-Others :
      (id : Str)
      → KeepsIf (On (MineDir user id)) (On (Others user X Y)) (restore_directory_row o id)
  unfolding restore_directory_row
  restore_directory_row-Others id = set_directory_deleted_at-Others id none

  pub delete_directory_row-Others :
      (id : Str) → KeepsIf (On (MineDir user id)) (On (Others user X Y)) (delete_directory_row o id)
  unfolding delete_directory_row Others
  delete_directory_row-Others id = execute-On o (Others user X Y) (MineDir user id) _ (λ d d' r k e.
      let (e1, e2) = with_directories_eq_ok (without_directory id d) d' _ e in
      (
        ap (select (not_of user)) e2 ∙ k.0,
        delete_dir_by_id-others user id d.directories d'.directories (unfold MineDir in r) e1 ∙ k.1,
      ))

  pub move_directory_tree-Others :
      (pool owner id old parent name new : Str)
      → owner ≡ user
      → KeepsIf
          (On (MineDir user id))
          (On (Others user X Y))
          (move_directory_tree o pool owner id old parent name new)
  unfolding move_directory_tree Others
  move_directory_tree-Others pool owner id old parent name new q =
      execute-On o (Others user X Y) (MineDir user id) _ (λ d d' r k e.
        let (e1, e2) =
          move_tree-others pool user id old parent name new d d' (unfold MineDir in r)
            (subst (λ x. move_tree pool x id old parent name new d ≡ ok d') q e) in
        (e1 ∙ k.0, e2 ∙ k.1))

  abbrev always : Tables
  always fs ds = Unit

  from_always :
      {A : Type 0} (m : Action (World o.Disk) A)
      → KeepsIf (On always) (On (Others user X Y)) m
      → Keeps (On (Others user X Y)) m
  unfolding On
  from_always m k = record { at = λ w h. k.at w tt h }

  pub upsert_file-Others :
      (new : FileMeta) → new.owner_id ≡ user → Keeps (On (Others user X Y)) (upsert_file o new)
  unfolding upsert_file get_file_by_natural_key
  upsert_file-Others new q =
      Keeps-bind _ _
        (from_always _ (
          files-Others always (upsert_rows new) (λ fs fs' ds _ e.
            subst (λ u. select (not_of u) fs' ≡ select (not_of u) fs) q
              (upsert_rows-others new fs fs' e))))
        (λ _. query-On o (Others user X Y) _)

  pub create_directory-Others :
      (new : Directory)
      → new.owner_id ≡ user
      → Keeps (On (Others user X Y)) (create_directory o new)
  unfolding create_directory
  create_directory-Others new q = from_always _ (
      directories-Others always _ (λ ds ds' fs _ e.
        subst (λ u. select (dir_not_of u) ds' ≡ select (dir_not_of u) ds) q
          (insert_directory-others new ds ds' e)))
