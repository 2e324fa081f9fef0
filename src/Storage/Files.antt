-- ===== src/Storage/Files.antt =====
-- nexuscloud/internal/storage/file_sql_repository.go over the table `files`, with its primary key
-- `id` and its unique key (pool_id, owner_id, parent_path, name).
use nexuscloud.Base.{
  ℕ, Bool, Option, none, some, not, List, [], ◌∷◌, ◌++◌, Str, if◌then◌else◌, str_eq, any_of,
  find_first, select, ◌&&◌,
}
use nexuscloud.Storage.Table.{distinct, update_row, delete_row, sort_rows, str_lt}
use nexuscloud.Storage.Table.Times.{time_lt}
use nexuscloud.Storage.Errors.{Result, ok, err, file_not_found, unique_violation}
use nexuscloud.Storage.Model.{FileMeta, is_trashed}
use nexuscloud.Storage.Action.{◌>>◌}
use nexuscloud.Storage.World.{Outside, Db, Service, query, execute}

-- `WHERE pool_id = ? AND owner_id = ? AND parent_path = ? AND name = ?`
unfoldable pub has_key : Str → Str → Str → Str → FileMeta → Bool
has_key pool owner parent name f =
    str_eq f.pool_id pool
    && (str_eq f.owner_id owner && (str_eq f.parent_path parent && str_eq f.name name))

-- `WHERE id = ?`: the key makes it one row at most.
unfoldable pub has_id : Str → FileMeta → Bool
has_id id f = str_eq f.id id

abbrev by_name : FileMeta → FileMeta → Bool
by_name f g = str_lt f.name g.name

abbrev deletion_time : FileMeta → ℕ
deletion_time f = elim f.deleted_at [ none ↦ 0 | some t ↦ t ]

-- `ORDER BY deleted_at DESC`
abbrev later_deleted : FileMeta → FileMeta → Bool
later_deleted f g = time_lt (deletion_time g) (deletion_time f)

abbrev pub or_file_not_found : Option FileMeta → Result FileMeta
or_file_not_found none = err file_not_found
or_file_not_found (some f) = ok f

-- `ON CONFLICT … DO UPDATE`: the row keeps its `id` and `created_at`, and leaves the trash.
unfoldable pub overwrite : FileMeta → FileMeta → FileMeta
overwrite new old = record old {
  size_bytes = new.size_bytes;
  sha256 = new.sha256;
  mime_type = new.mime_type;
  updated_at = new.updated_at;
  deleted_at = none;
}

abbrev pub same_key : FileMeta → FileMeta → Bool
same_key new = has_key new.pool_id new.owner_id new.parent_path new.name

-- The statement of `UpsertFile` on the rows.
unfoldable pub upsert_rows : FileMeta → List FileMeta → Result (List FileMeta)
upsert_rows new fs =
    if any_of (same_key new) fs
    then ok (update_row (same_key new) (overwrite new) fs)
    else if any_of (has_id new.id) fs
    then err unique_violation
    else ok (fs ++ (record new { deleted_at = none } ∷ []))

-- No two rows have one key.
abbrev pub files_distinct : List FileMeta → Bool
files_distinct fs = distinct same_key fs

-- A change of the rows, as one of the tables.
abbrev pub with_files : Db → Result (List FileMeta) → Result Db
with_files d (ok fs) = ok (record d { files = fs })
with_files d (err e) = err e

-- `RowsAffected` of 0 is `ErrFileNotFound`.
unfoldable pub update_by_id : Str → (FileMeta → FileMeta) → List FileMeta → Result (List FileMeta)
update_by_id id g fs =
    if any_of (has_id id) fs then ok (update_row (has_id id) g fs) else err file_not_found

-- `UPDATE files SET parent_path = ?, name = ? WHERE id = ?`: another row with the new key refuses it.
unfoldable pub move_rows : Str → Str → Str → List FileMeta → Result (List FileMeta)
move_rows id parent name fs = elim (find_first (has_id id) fs) [
  | none ↦ err file_not_found
  | some f ↦
      if any_of (λ g. has_key f.pool_id f.owner_id parent name g && not (has_id id g)) fs
      then err unique_violation
      else update_by_id id (λ g. record g { parent_path = parent; name = name }) fs
]

-- The tables without the rows that refer to the file.
abbrev pub without_file : Str → Db → Db
without_file id d = record d {
  versions = select (λ v. not (str_eq v.file_id id)) d.versions;
  shares = select (λ s. not (str_eq s.file_id id)) d.shares;
}

module _ (o : Outside) where
  unfoldable pub get_file_by_id : Str → Service o FileMeta
  get_file_by_id id = query λ d. or_file_not_found (find_first (has_id id) d.files)

  unfoldable pub get_file_by_natural_key : Str → Str → Str → Str → Service o FileMeta
  get_file_by_natural_key pool owner parent name =
      query λ d. or_file_not_found (find_first (has_key pool owner parent name) d.files)

  -- The row is read again after the statement.
  unfoldable pub upsert_file : FileMeta → Service o FileMeta
  upsert_file new = do
    execute λ d. with_files d (upsert_rows new d.files)
    get_file_by_natural_key new.pool_id new.owner_id new.parent_path new.name

  unfoldable pub list_files : Str → Str → Service o (List FileMeta)
  list_files owner parent = query λ d. ok (
      sort_rows by_name (
        select (λ f. str_eq f.owner_id owner && (str_eq f.parent_path parent && not (is_trashed f)))
          d.files))

  unfoldable pub list_trashed_files : Str → Service o (List FileMeta)
  list_trashed_files owner = query λ d.
      ok (sort_rows later_deleted (select (λ f. str_eq f.owner_id owner && is_trashed f) d.files))

  unfoldable pub list_all_trashed_files : Service o (List FileMeta)
  list_all_trashed_files = query λ d. ok (sort_rows later_deleted (select is_trashed d.files))

  -- `setDeletedAt`
  unfoldable pub set_file_deleted_at : Str → Option ℕ → Service o (Unit {0})
  set_file_deleted_at id t =
      execute λ d. with_files d (update_by_id id (λ f. record f { deleted_at = t }) d.files)

  unfoldable pub soft_delete_file : Str → ℕ → Service o (Unit {0})
  soft_delete_file id now = set_file_deleted_at id (some now)

  unfoldable pub restore_file_row : Str → Service o (Unit {0})
  restore_file_row id = set_file_deleted_at id none

  -- `ON DELETE CASCADE`: the shares and versions of the file go with it.
  unfoldable pub delete_file_row : Str → Service o (Unit {0})
  delete_file_row id = execute λ d. with_files (without_file id d) (
      if any_of (has_id id) d.files
      then ok (delete_row (has_id id) d.files)
      else err file_not_found)

  unfoldable pub move_file_row : Str → Str → Str → Service o (Unit {0})
  move_file_row id parent name = execute λ d. with_files d (move_rows id parent name d.files)
