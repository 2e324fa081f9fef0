-- ===== src/Storage/Directories.antt =====
-- nexuscloud/internal/storage/directory_sql_repository.go over the table `directories`, with its
-- primary key `id` and its unique key (pool_id, owner_id, parent_path, name).
use nexuscloud.Base.{
  ℕ, Bool, true, false, Option, none, some, not, List, [], ◌∷◌, ◌++◌, Str, if◌then◌else◌, str_eq,
  any_of, find_first, select, ◌&&◌, has_prefix, map, drop, length,
}
use nexuscloud.GoPath.{slash}
use nexuscloud.Storage.Files.{files_distinct}
use nexuscloud.Storage.Table.{distinct, update_row, delete_row, sort_rows, str_lt}
use nexuscloud.Storage.Table.Times.{time_lt}
use nexuscloud.Storage.Errors.{
  Result, ok, err, directory_not_found, unique_violation, ◌>>=◌ as then_result,
}
use nexuscloud.Storage.Model.{Directory, dir_is_trashed, FileMeta}
use nexuscloud.Storage.World.{Outside, Db, Service, query, execute}

unfoldable pub dir_has_key : Str → Str → Str → Str → Directory → Bool
dir_has_key pool owner parent name f =
    str_eq f.pool_id pool
    && (str_eq f.owner_id owner && (str_eq f.parent_path parent && str_eq f.name name))

unfoldable pub dir_has_id : Str → Directory → Bool
dir_has_id id f = str_eq f.id id

abbrev pub dir_by_name : Directory → Directory → Bool
dir_by_name f g = str_lt f.name g.name

abbrev dir_deletion_time : Directory → ℕ
dir_deletion_time f = elim f.deleted_at [ none ↦ 0 | some t ↦ t ]

abbrev dir_later_deleted : Directory → Directory → Bool
dir_later_deleted f g = time_lt (dir_deletion_time g) (dir_deletion_time f)

abbrev pub or_directory_not_found : Option Directory → Result Directory
or_directory_not_found none = err directory_not_found
or_directory_not_found (some f) = ok f

abbrev pub with_directories : Db → Result (List Directory) → Result Db
with_directories d (ok ds) = ok (record d { directories = ds })
with_directories d (err e) = err e

-- `ON CONFLICT … DO NOTHING`; another row with the identifier refuses it.
unfoldable pub insert_directory : Directory → List Directory → Result (List Directory)
insert_directory new ds =
    if any_of (dir_has_key new.pool_id new.owner_id new.parent_path new.name) ds
    then ok ds
    else if any_of (dir_has_id new.id) ds
    then err unique_violation
    else ok (ds ++ (record new { deleted_at = none } ∷ []))

unfoldable pub update_dir_by_id :
    Str → (Directory → Directory) → List Directory → Result (List Directory)
update_dir_by_id id g ds =
    if any_of (dir_has_id id) ds
    then ok (update_row (dir_has_id id) g ds)
    else err directory_not_found

unfoldable pub delete_dir_by_id : Str → List Directory → Result (List Directory)
delete_dir_by_id id ds =
    if any_of (dir_has_id id) ds
    then ok (delete_row (dir_has_id id) ds)
    else err directory_not_found

-- `parent_path = old OR parent_path LIKE old || '/%'`, the pattern escaped
unfoldable pub is_below : Str → Str → Bool
is_below old parent = if str_eq parent old then true else has_prefix parent (old ++ (slash ∷ []))

-- `new || substr(parent_path, length(old) + 1)`
unfoldable pub rebase : Str → Str → Str → Str
rebase old new parent = new ++ drop (length old) parent

unfoldable pub rebase_dir : Str → Str → Str → Str → Directory → Directory
unfolding is_below rebase
rebase_dir pool owner old new d =
    if str_eq d.pool_id pool && (str_eq d.owner_id owner && is_below old d.parent_path)
    then record d { parent_path = rebase old new d.parent_path }
    else d

unfoldable pub rebase_file : Str → Str → Str → Str → FileMeta → FileMeta
unfolding is_below rebase
rebase_file pool owner old new f =
    if str_eq f.pool_id pool && (str_eq f.owner_id owner && is_below old f.parent_path)
    then record f { parent_path = rebase old new f.parent_path }
    else f

abbrev pub same_dir_key : Directory → Directory → Bool
same_dir_key d = dir_has_key d.pool_id d.owner_id d.parent_path d.name

-- No two rows have one key.
abbrev pub dirs_distinct : List Directory → Bool
dirs_distinct ds = distinct same_dir_key ds

-- The three statements of `MoveDirectoryTree`, in one transaction: a row count of 0 in the first or
-- a clash of keys undoes all of it.
unfoldable pub move_tree : Str → Str → Str → Str → Str → Str → Str → Db → Result Db
move_tree pool owner id old parent name new d =
    then_result
      (update_dir_by_id id (λ t. record t { parent_path = parent; name = name }) d.directories)
      (λ ds.
        let ds' = map (rebase_dir pool owner old new) ds in
        let fs' = map (rebase_file pool owner old new) d.files in
        if dirs_distinct ds' && files_distinct fs'
        then ok (record d { directories = ds'; files = fs' })
        else err unique_violation)

-- The tables without the rows that refer to the folder.
abbrev pub without_directory : Str → Db → Db
without_directory id d = record d { shares = select (λ s. not (str_eq s.directory_id id)) d.shares }

module _ (o : Outside) where
  unfoldable pub create_directory : Directory → Service o (Unit {0})
  create_directory new = execute λ d. with_directories d (insert_directory new d.directories)

  unfoldable pub get_directory_by_id : Str → Service o Directory
  get_directory_by_id id =
      query λ d. or_directory_not_found (find_first (dir_has_id id) d.directories)

  unfoldable pub get_directory_by_natural_key : Str → Str → Str → Str → Service o Directory
  get_directory_by_natural_key pool owner parent name =
      query
        λ d. or_directory_not_found (find_first (dir_has_key pool owner parent name) d.directories)

  unfoldable pub list_directories : Str → Str → Service o (List Directory)
  list_directories owner parent = query λ d. ok (
      sort_rows dir_by_name (
        select
          (λ f. str_eq f.owner_id owner && (str_eq f.parent_path parent && not (dir_is_trashed f)))
          d.directories))

  unfoldable pub list_trashed_directories : Str → Service o (List Directory)
  list_trashed_directories owner = query λ d. ok (
      sort_rows dir_later_deleted
        (select (λ f. str_eq f.owner_id owner && dir_is_trashed f) d.directories))

  unfoldable pub list_directories_deleted_before : ℕ → Service o (List Directory)
  list_directories_deleted_before cutoff = query λ d.
      ok
        (select (λ f. elim f.deleted_at [ none ↦ false | some t ↦ time_lt t cutoff ]) d.directories)

  unfoldable pub set_directory_deleted_at : Str → Option ℕ → Service o (Unit {0})
  set_directory_deleted_at id t =
      execute λ d.
        with_directories d (update_dir_by_id id (λ f. record f { deleted_at = t }) d.directories)

  unfoldable pub soft_delete_directory : Str → ℕ → Service o (Unit {0})
  soft_delete_directory id now = set_directory_deleted_at id (some now)

  unfoldable pub restore_directory_row : Str → Service o (Unit {0})
  restore_directory_row id = set_directory_deleted_at id none

  -- `ON DELETE CASCADE`: the shares of the folder go with it.
  unfoldable pub delete_directory_row : Str → Service o (Unit {0})
  delete_directory_row id =
      execute λ d. with_directories (without_directory id d) (delete_dir_by_id id d.directories)

  unfoldable pub move_directory_tree :
      Str → Str → Str → Str → Str → Str → Str → Service o (Unit {0})
  move_directory_tree pool owner id old parent name new =
      execute (move_tree pool owner id old parent name new)
