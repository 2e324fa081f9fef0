-- ===== src/Storage/Service/Isolation/DirRows.antt =====
-- The directories of other users in the tables, and what changes of the rows leave of them.
use nexuscloud.Base.{
  ◌≡◌, refl, sym, ◌∙◌, ap, true, inl, inr, none, List, [], ◌∷◌, ◌++◌, append-nil, map, Str,
  str_eq_refl, select, any_of, ◌&&◌, arith,
}
use nexuscloud.Storage.Errors.{ok, if_eq_ok, if_if_eq_ok, unique_violation, >>=_eq_ok}
use nexuscloud.Storage.Model.{FileMeta, Directory}
use nexuscloud.Storage.World.{Db}
use nexuscloud.Storage.Table.Rows.{select-update_row, select-delete_row, select-append}
use nexuscloud.Storage.Files.{files_distinct}
use nexuscloud.Storage.Directories.{
  dir_has_id, dir_has_key, insert_directory, update_dir_by_id, delete_dir_by_id, rebase_dir,
  rebase_file, dirs_distinct, move_tree,
}
use nexuscloud.Storage.Service.Isolation.Rows.{not_of, dir_not_of, MineDir, select-map}

pub insert_directory-others :
    (new : Directory) (ds ds' : List Directory)
    → insert_directory new ds ≡ ok ds'
    → select (dir_not_of new.owner_id) ds' ≡ select (dir_not_of new.owner_id) ds
unfolding insert_directory
insert_directory-others new ds ds' h =
    elim (if_if_eq_ok (any_of (dir_has_key new.pool_id new.owner_id new.parent_path new.name) ds)
      (any_of (dir_has_id new.id) ds) _ _ ds' unique_violation h) [
        | inl (_, e) ↦ rw (sym e) refl
        | inr (_, _, e) ↦ rw (sym e) (
            select-append (dir_not_of new.owner_id) ds (_ ∷ [])
            ∙ ap (λ r. select (dir_not_of new.owner_id) ds ++ r) (drop_mine new refl)
            ∙ append-nil _)
      ]
  where
    drop_mine :
        (d : Directory)
        → d.owner_id ≡ new.owner_id
        → select (dir_not_of new.owner_id) (record d { deleted_at = none } ∷ []) ≡ []
    drop_mine d e = rw (e, str_eq_refl new.owner_id) refl

pub update_dir_by_id-others :
    (user id : Str) (g : Directory → Directory) (ds ds' : List Directory)
    → ((d : Directory) → (g d).owner_id ≡ d.owner_id)
    → MineDir user id [] ds
    → update_dir_by_id id g ds ≡ ok ds'
    → select (dir_not_of user) ds' ≡ select (dir_not_of user) ds
unfolding update_dir_by_id MineDir
update_dir_by_id-others user id g ds ds' hg hm h =
    rw (sym (if_eq_ok (any_of (dir_has_id id) ds) _ _ _ h).1) (
      select-update_row (dir_has_id id) (dir_not_of user) g ds
        (λ d e. (hm d e, rw (hg d) (hm d e))))

pub delete_dir_by_id-others :
    (user id : Str) (ds ds' : List Directory)
    → MineDir user id [] ds
    → delete_dir_by_id id ds ≡ ok ds'
    → select (dir_not_of user) ds' ≡ select (dir_not_of user) ds
unfolding delete_dir_by_id MineDir
delete_dir_by_id-others user id ds ds' hm h =
    rw (sym (if_eq_ok (any_of (dir_has_id id) ds) _ _ _ h).1)
      (select-delete_row (dir_has_id id) (dir_not_of user) ds hm)

-- The rows that the tests on the owner's identifier pass over stay as they are.
rebase_file-owner :
    (pool user old new : Str) (f : FileMeta)
    → not_of user (rebase_file pool user old new f) ≡ not_of user f
unfolding rebase_file
rebase_file-owner pool user old new f = ground arith

rebase_file-others :
    (pool user old new : Str) (f : FileMeta)
    → not_of user f ≡ true
    → rebase_file pool user old new f ≡ f
unfolding rebase_file
rebase_file-others pool user old new f h = ground arith

rebase_dir-owner :
    (pool user old new : Str) (d : Directory)
    → dir_not_of user (rebase_dir pool user old new d) ≡ dir_not_of user d
unfolding rebase_dir
rebase_dir-owner pool user old new d = ground arith

rebase_dir-others :
    (pool user old new : Str) (d : Directory)
    → dir_not_of user d ≡ true
    → rebase_dir pool user old new d ≡ d
unfolding rebase_dir
rebase_dir-others pool user old new d h = ground arith

pub move_tree-others :
    (pool user id old parent name new : Str) (d d' : Db)
    → MineDir user id d.files d.directories
    → move_tree pool user id old parent name new d ≡ ok d'
    → (select (not_of user) d'.files ≡ select (not_of user) d.files)
      × (select (dir_not_of user) d'.directories ≡ select (dir_not_of user) d.directories)
unfolding move_tree MineDir
move_tree-others pool user id old parent name new d d' hm h =
    let (ds, k, e) = >>=_eq_ok (update_dir_by_id id _ d.directories) h in
    let e' =
      (if_eq_ok
        (dirs_distinct (map (rebase_dir pool user old new) ds)
          && files_distinct (map (rebase_file pool user old new) d.files))
        _ _ _ k).1 in
    (
      ap (λ x. select (not_of user) x.files) (sym e')
          ∙ select-map (not_of user) _ (rebase_file-owner pool user old new)
              (rebase_file-others pool user old new) d.files,
      ap (λ x. select (dir_not_of user) x.directories) (sym e')
          ∙ select-map (dir_not_of user) _ (rebase_dir-owner pool user old new)
              (rebase_dir-others pool user old new) ds
          ∙ update_dir_by_id-others user id _ d.directories ds (λ g. refl) (unfold MineDir in hm) e,
    )
