-- ===== src/Storage/Service/Isolation/Folders.antt =====
-- The operations on folders leave the rows of other users alone.
use nexuscloud.Base.{◌≡◌, ℕ, Option, List, Str, subst}
use nexuscloud.Storage.Model.{FileMeta, Directory}
use nexuscloud.Storage.Action.{Action, ◌>>=◌}
use nexuscloud.Storage.Action.Keeps.{
  Keeps, KeepsIf, keeps_if_rules, Keeps-found, KeepsIf-bind, KeepsIf-then,
}
use nexuscloud.Storage.World.{Outside, World, Settings}
use nexuscloud.Storage.World.Tables.{Tables, On, query-On}
use nexuscloud.Storage.Files.{list_files}
use nexuscloud.Storage.Directories.{list_directories}
use nexuscloud.Storage.Service.Move.{owned_directory, relocate_directory, move_directory}
use nexuscloud.Storage.Service.Folders.{
  list_folder, mkdir, ensure_directory_empty, permanently_delete_dir, trash_directory,
  delete_directory, permanently_delete_directory, restore_directory,
}
use nexuscloud.Storage.Service.Isolation.Rows.{Others, MineDir}
use nexuscloud.Storage.Service.Isolation.Owned.{owned_directory-found}
use nexuscloud.Storage.Service.Isolation.Calls.{
  calls, reject_if_trash_occupies_name-On, reject_if_destination_occupied-On,
  get_directory_by_natural_key-On,
}
use nexuscloud.Storage.Service.Isolation.Statements.{
  create_directory-Others, soft_delete_directory-Others, restore_directory_row-Others,
  delete_directory_row-Others, move_directory_tree-Others,
}

module _ (o : Outside) (D : Tables) where
  list_directories-On : (owner parent : Str) → Keeps (On D) (list_directories o owner parent)
  unfolding list_directories
  list_directories-On owner parent = query-On o D _

  list_files-On : (owner parent : Str) → Keeps (On D) (list_files o owner parent)
  unfolding list_files
  list_files-On owner parent = query-On o D _

module _ (o : Outside) (s : Settings) (D : Tables) where
  pub ensure_directory_empty-On :
      (owner : Str) (d : Directory) → Keeps (On D) (ensure_directory_empty o s owner d)
  unfolding ensure_directory_empty
  ensure_directory_empty-On owner d = search (calls, list_directories-On, list_files-On)

  pub list_folder-On : (owner parent : Str) → Keeps (On D) (list_folder o s owner parent)
  unfolding list_folder
  list_folder-On owner parent = search (calls, list_directories-On, list_files-On)

module _ (o : Outside) (s : Settings) (user : Str) (X : List FileMeta) (Y : List Directory) where
  pub mkdir-Others :
      (now : ℕ) (parent name pool : Str)
      → Keeps (On (Others user X Y)) (mkdir o s now user parent name pool)
  unfolding mkdir
  mkdir-Others now parent name pool =
      search
        (
          calls, reject_if_trash_occupies_name-On, create_directory-Others,
          get_directory_by_natural_key-On,
        )
        depth 20

  -- An operation on a folder of the user's own.
  owned-Others :
      {A : Type 0} (id : Str) (f : Directory → Action (World o.Disk) A)
      → ((m : Directory)
          → m.owner_id ≡ user
          → KeepsIf (On (MineDir user m.id)) (On (Others user X Y)) (f m))
      → Keeps (On (Others user X Y)) (owned_directory o user id >>= f)
  owned-Others id f h =
      Keeps-found (owned_directory o user id) f (owned_directory-found o user id (Others user X Y))
        (λ m q.
          subst (λ i. KeepsIf (On (MineDir user i)) (On (Others user X Y)) (f m)) q.0 (h m q.1))

  permanently_delete_dir-Others :
      (d : Directory)
      → KeepsIf (On (MineDir user d.id)) (On (Others user X Y)) (permanently_delete_dir o s d)
  unfolding permanently_delete_dir
  permanently_delete_dir-Others d =
      search (keeps_if_rules, calls, delete_directory_row-Others) depth 10

  trash_directory-Others :
      (now : ℕ) (d : Directory)
      → KeepsIf (On (MineDir user d.id)) (On (Others user X Y)) (trash_directory o s now d)
  unfolding trash_directory
  trash_directory-Others now d =
      search (keeps_if_rules, calls, soft_delete_directory-Others) depth 10

  pub delete_directory-Others :
      (now : ℕ) (id : Str) → Keeps (On (Others user X Y)) (delete_directory o s now user id)
  unfolding delete_directory
  delete_directory-Others now id = owned-Others id _ (λ d q. search (
    keeps_if_rules, ensure_directory_empty-On, trash_directory-Others,
    permanently_delete_dir-Others,
  ))

  pub permanently_delete_directory-Others :
      (id : Str) → Keeps (On (Others user X Y)) (permanently_delete_directory o s user id)
  unfolding permanently_delete_directory
  permanently_delete_directory-Others id = owned-Others id _ (λ d q.
      search (keeps_if_rules, calls, ensure_directory_empty-On, permanently_delete_dir-Others))

  pub restore_directory-Others :
      (id : Str) → Keeps (On (Others user X Y)) (restore_directory o s user id)
  unfolding restore_directory
  restore_directory-Others id =
      Keeps-found (owned_directory o user id) _ (owned_directory-found o user id (Others user X Y))
        (λ d q.
          KeepsIf-then _ _ (search (keeps_if_rules, restore_directory_row-Others))
            (λ _. search calls))

  relocate_directory-Others :
      (d : Directory) (parent name old_full new_full : Str)
      → d.owner_id ≡ user
      → KeepsIf
          (On (MineDir user d.id))
          (On (Others user X Y))
          (relocate_directory o d parent name old_full new_full)
  unfolding relocate_directory
  relocate_directory-Others d parent name old_full new_full q =
      KeepsIf-bind _ _ (search calls) (search calls) (λ _.
        KeepsIf-bind _ _ (search (calls, reject_if_destination_occupied-On))
          (search (calls, reject_if_destination_occupied-On))
          (λ _. KeepsIf-bind _ _ (search calls) (search calls) (λ _.
            KeepsIf-bind _ _ (search calls) (search calls) (λ _.
              KeepsIf-then _ _ (search (keeps_if_rules, calls, move_directory_tree-Others, q))
                (λ _. search calls)))))

  pub move_directory-Others :
      (id : Str) (parent name : Option Str)
      → Keeps (On (Others user X Y)) (move_directory o user id parent name)
  unfolding move_directory
  move_directory-Others id parent name =
      owned-Others id _
        (λ d q. search (keeps_if_rules, calls, relocate_directory-Others, q) depth 10)
