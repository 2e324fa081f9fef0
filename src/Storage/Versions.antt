-- ===== src/Storage/Versions.antt =====
-- nexuscloud/internal/storage/version_sql_repository.go over the table `file_versions`, with its
-- primary key `id` and its unique key (file_id, version_num).
use nexuscloud.Base.{
  ℕ, Bool, Option, none, some, not, List, [], ◌∷◌, ◌++◌, Str, if◌then◌else◌, ltb, str_eq, any_of,
  find_first, select, ◌==◌, ◌&&◌,
}
use nexuscloud.Storage.Table.{delete_row, sort_rows}
use nexuscloud.Storage.Errors.{Result, ok, err, version_not_found, unique_violation}
use nexuscloud.Storage.Model.{FileVersion}
use nexuscloud.Storage.World.{Outside, Db, Service, query, execute}

unfoldable pub is_version : Str → ℕ → FileVersion → Bool
is_version file_id num v = str_eq v.file_id file_id && v.version_num == num

-- `ORDER BY version_num DESC`
abbrev pub newer : FileVersion → FileVersion → Bool
newer v w = ltb w.version_num v.version_num

abbrev pub of_file : Str → FileVersion → Bool
of_file file_id v = str_eq v.file_id file_id

-- `MAX(version_num)`, 0 of no rows
unfoldable pub latest : Str → List FileVersion → ℕ
latest file_id [] = 0
latest file_id (v ∷ vs) =
    let rest = latest file_id vs in
    if of_file file_id v then (if ltb rest v.version_num then v.version_num else rest) else rest

abbrev pub or_version_not_found : Option FileVersion → Result FileVersion
or_version_not_found none = err version_not_found
or_version_not_found (some v) = ok v

abbrev pub with_versions : Db → Result (List FileVersion) → Result Db
with_versions d (ok vs) = ok (record d { versions = vs })
with_versions d (err e) = err e

unfoldable pub insert_version : FileVersion → List FileVersion → Result (List FileVersion)
insert_version new vs =
    if any_of (λ v. str_eq v.id new.id) vs
    then err unique_violation
    else if any_of (is_version new.file_id new.version_num) vs
    then err unique_violation
    else ok (vs ++ (new ∷ []))

unfoldable pub delete_version_row : Str → List FileVersion → Result (List FileVersion)
delete_version_row id vs =
    if any_of (λ v. str_eq v.id id) vs
    then ok (delete_row (λ v. str_eq v.id id) vs)
    else err version_not_found

module _ (o : Outside) where
  unfoldable pub create_version : FileVersion → Service o (Unit {0})
  create_version new = execute λ d. with_versions d (insert_version new d.versions)

  unfoldable pub list_versions : Str → Service o (List FileVersion)
  list_versions file_id = query λ d. ok (sort_rows newer (select (of_file file_id) d.versions))

  unfoldable pub get_version : Str → ℕ → Service o FileVersion
  get_version file_id num =
      query λ d. or_version_not_found (find_first (is_version file_id num) d.versions)

  unfoldable pub latest_version_num : Str → Service o ℕ
  latest_version_num file_id = query λ d. ok (latest file_id d.versions)

  unfoldable pub delete_version : Str → Service o (Unit {0})
  delete_version id = execute λ d. with_versions d (delete_version_row id d.versions)

  unfoldable pub delete_all_versions : Str → Service o (Unit {0})
  delete_all_versions file_id =
      execute λ d. with_versions d (ok (select (λ v. not (of_file file_id v)) d.versions))
