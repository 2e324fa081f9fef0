-- ===== src/Storage/Service/Move/Vacant.antt =====
-- Where `MoveFile` and `MoveDirectory` put what they move.
use nexuscloud.Base.{◌≡◌, false, ◌⊎◌, none, some, [], ◌∷◌, ◌++◌, Str, find_first, has_prefix}
use nexuscloud.GoPath.{slash, path_join}
use nexuscloud.Storage.Model.{FileMeta, Directory, is_trashed, dir_is_trashed}
use nexuscloud.Storage.Action.{Action}
use nexuscloud.Storage.World.{Db, World}
use nexuscloud.Storage.World.Yields.{Yields}
use nexuscloud.Storage.Files.{has_id, has_key}
use nexuscloud.Storage.Directories.{dir_has_id, dir_has_key}

-- Neither a file nor a folder has this key, in the trash or out of it.
abbrev pub IsVacant : Db → Str → Str → Str → Str → Type 0
IsVacant d pool owner parent name =
    (find_first (has_key pool owner parent name) d.files ≡ none)
    × (find_first (dir_has_key pool owner parent name) d.directories ≡ none)

-- The file was an active one of the user's, and stays as it is or goes to a vacant place.
abbrev pub FileMoves : Db → Str → Str → FileMeta → Type 0
FileMoves d requester id m =
    (f : FileMeta) × (find_first (has_id id) d.files ≡ some f)
    × (f.owner_id ≡ requester)
    × (is_trashed f ≡ false)
    × ((m ≡ f)
        ⊎ (m ≡ record f { parent_path = m.parent_path; name = m.name })
          × IsVacant d f.pool_id f.owner_id m.parent_path m.name)

abbrev pub FolderMoves : Db → Str → Str → Directory → Type 0
FolderMoves d requester id m =
    (f : Directory) × (find_first (dir_has_id id) d.directories ≡ some f)
    × (f.owner_id ≡ requester)
    × (dir_is_trashed f ≡ false)
    × ((m ≡ f)
        ⊎ (m ≡ record f { parent_path = m.parent_path; name = m.name })
          × IsVacant d f.pool_id f.owner_id m.parent_path m.name
          × (has_prefix (path_join (m.parent_path ∷ m.name ∷ []) ++ (slash ∷ []))
                (path_join (f.parent_path ∷ f.name ∷ []) ++ (slash ∷ []))
              ≡ false))
