-- ===== src/Storage/Service/Isolation/Files.antt =====
-- The operations on files leave the rows of other users alone.
use nexuscloud.Base.{◌≡◌, ℕ, Option, List, Str, if◌then◌else◌, str_eq, subst, ◌&&◌}
use nexuscloud.Storage.Errors.{file_not_found}
use nexuscloud.Storage.Model.{FileMeta, Directory, is_trashed}
use nexuscloud.Storage.Action.{Action, pure, reject_if, lift, ◌>>=◌, ◌>>◌}
use nexuscloud.Storage.Action.Keeps.{
  Keeps, KeepsIf, keeps_if_rules, Keeps-found, KeepsIf-bind, KeepsIf-Keeps, KeepsIf-then,
}
use nexuscloud.Storage.World.{Outside, World, Settings}
use nexuscloud.Storage.World.Tables.{On}
use nexuscloud.Storage.Names.{validate_name}
use nexuscloud.Storage.Files.{soft_delete_file}
use nexuscloud.Storage.Service.Upload.{UploadInput, upload}
use nexuscloud.Storage.Service.History.{
  owned_file, list_file_versions, download_version, restore_version,
}
use nexuscloud.Storage.Service.Trash.{
  permanently_delete, delete, permanently_delete_file, restore_file,
}
use nexuscloud.Storage.Service.Move.{given_or, given_parent_or, relocate_file, move_file}
use nexuscloud.Storage.Service.Isolation.Rows.{Others, MineFile}
use nexuscloud.Storage.Service.Isolation.Owned.{owned_file-found}
use nexuscloud.Storage.Service.Isolation.Calls.{
  calls, reject_if_trash_occupies_name-On, check_no_overwrite-On, place_content-On,
  set_current_aside-On, remove_versions-On, reject_if_destination_occupied-On,
}
use nexuscloud.Storage.Service.Isolation.Statements.{
  upsert_file-Others, soft_delete_file-Others, restore_file_row-Others, delete_file_row-Others,
  move_file_row-Others,
}

module _ (o : Outside) (s : Settings) (user : Str) (X : List FileMeta) (Y : List Directory) where
  pub upload-Others :
      (now : ℕ) (input : UploadInput)
      → input.owner_id ≡ user
      → Keeps (On (Others user X Y)) (upload o s now input)
  unfolding upload
  upload-Others now input q =
      search
        (
          calls, reject_if_trash_occupies_name-On, check_no_overwrite-On, place_content-On,
          upsert_file-Others, q,
        )
        depth 20

  -- An operation on a file of the user's own.
  owned-Others :
      {A : Type 0} (id : Str) (f : FileMeta → Action (World o.Disk) A)
      → ((m : FileMeta)
          → m.id ≡ id
          → m.owner_id ≡ user
          → KeepsIf (On (MineFile user id)) (On (Others user X Y)) (f m))
      → Keeps (On (Others user X Y)) (owned_file o user id >>= f)
  owned-Others id f h =
      Keeps-found (owned_file o user id) f (owned_file-found o user id (Others user X Y))
        (λ m q. h m q.0 q.1)

  pub list_file_versions-Others :
      (id : Str) → Keeps (On (Others user X Y)) (list_file_versions o s user id)
  unfolding list_file_versions
  list_file_versions-Others id = owned-Others id _ (λ m q r. search (calls, KeepsIf-Keeps))

  pub download_version-Others :
      (id : Str) (num : ℕ) → Keeps (On (Others user X Y)) (download_version o s user id num)
  unfolding download_version
  download_version-Others id num =
      owned-Others id _ (λ m q r. KeepsIf-Keeps _ (search calls depth 10))

  pub restore_version-Others :
      (now : ℕ) (id : Str) (num : ℕ)
      → Keeps (On (Others user X Y)) (restore_version o s now user id num)
  unfolding restore_version
  restore_version-Others now id num = owned-Others id _ (λ m q r.
      KeepsIf-Keeps _ (search (calls, set_current_aside-On, upsert_file-Others, r) depth 12))

  permanently_delete-Others :
      (m : FileMeta)
      → KeepsIf (On (MineFile user m.id)) (On (Others user X Y)) (permanently_delete o s m)
  unfolding permanently_delete
  permanently_delete-Others m =
      search (keeps_if_rules, calls, remove_versions-On, delete_file_row-Others) depth 12

  remove-Others :
      (now : ℕ) (m : FileMeta)
      → KeepsIf
          (On (MineFile user m.id))
          (On (Others user X Y))
          (if s.trash_enabled then soft_delete_file o m.id now else permanently_delete o s m)
  remove-Others now m = search (keeps_if_rules, soft_delete_file-Others, permanently_delete-Others)

  pub delete-Others : (now : ℕ) (id : Str) → Keeps (On (Others user X Y)) (delete o s now user id)
  unfolding delete
  delete-Others now id = owned-Others id _ (λ m q r.
      subst
        (λ i.
          KeepsIf (On (MineFile user i)) (On (Others user X Y))
            (if s.trash_enabled then soft_delete_file o m.id now else permanently_delete o s m))
        q (remove-Others now m))

  pub permanently_delete_file-Others :
      (id : Str) → Keeps (On (Others user X Y)) (permanently_delete_file o s user id)
  unfolding permanently_delete_file
  permanently_delete_file-Others id = owned-Others id _ (λ m q r.
      subst (λ i. KeepsIf (On (MineFile user i)) (On (Others user X Y)) (permanently_delete o s m))
        q (permanently_delete-Others m))

  pub restore_file-Others : (id : Str) → Keeps (On (Others user X Y)) (restore_file o s user id)
  unfolding restore_file
  restore_file-Others id = owned-Others id _ (λ m q r.
      KeepsIf-then _ _ (search (keeps_if_rules, restore_file_row-Others)) (λ _. search calls))

  relocate_file-Others :
      (m : FileMeta) (parent name : Str)
      → KeepsIf (On (MineFile user m.id)) (On (Others user X Y)) (relocate_file o m parent name)
  unfolding relocate_file
  relocate_file-Others m parent name =
      KeepsIf-bind _ _ (search (calls, reject_if_destination_occupied-On))
        (search (calls, reject_if_destination_occupied-On))
        (λ _. KeepsIf-bind _ _ (search calls) (search calls) (λ _.
          KeepsIf-bind _ _ (search calls) (search calls) (λ _.
            KeepsIf-then _ _ (search (keeps_if_rules, calls, move_file_row-Others))
              (λ _. search calls))))

  pub move_file-Others :
      (id : Str) (parent name : Option Str)
      → Keeps (On (Others user X Y)) (move_file o user id parent name)
  unfolding move_file
  move_file-Others id parent name = owned-Others id _ (λ m q r.
      subst (λ i. KeepsIf (On (MineFile user i)) (On (Others user X Y)) (rest m)) q (rest-Others m))
    where
      rest : FileMeta → Action (World o.Disk) FileMeta
      rest m =
          reject_if (is_trashed m) file_not_found
          >> (lift (validate_name (given_or name m.name))
              >> (if str_eq (given_parent_or parent m.parent_path) m.parent_path
                    && str_eq (given_or name m.name) m.name
                  then pure m
                  else relocate_file o m (given_parent_or parent m.parent_path)
                      (given_or name m.name)))

      rest-Others :
          (m : FileMeta) → KeepsIf (On (MineFile user m.id)) (On (Others user X Y)) (rest m)
      rest-Others m = search (keeps_if_rules, calls, relocate_file-Others)
