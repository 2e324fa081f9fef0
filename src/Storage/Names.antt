-- ===== src/Storage/Names.antt =====
-- Names and logical paths in nexuscloud/internal/storage/file_service.go, and the bounds of a
-- shared folder in file_service_sharing.go.
pub mod Physical
pub mod Reserved
pub mod Shared
use nexuscloud.Base.{
  ℕ, zero, suc, ◌+◌, ◌/◌, ◌%◌, Bool, true, false, Option, none, some, List, [], ◌∷◌, ◌++◌, ◌||◌,
  ◌==◌, ltb, any_of, if◌then◌else◌, Str, str, str_eq, has_prefix,
}
use nexuscloud.GoText.{itoa}
use nexuscloud.GoPath.{slash, clean, path_join}
use nexuscloud.Storage.Errors.{Result, ok, err, invalid_name}
use nexuscloud.Storage.Model.{Directory}

-- `invalidNameChars`: < > : " / \ | ? * and the control characters
unfoldable pub forbidden_byte : ℕ → Bool
forbidden_byte c =
    if c == slash then true else if ltb c 32 then true else any_of (λ b. c == b) (str "<>:\"\\|?*")

-- `validateName`
unfoldable pub validate_name : Str → Result (Unit {0})
unfolding forbidden_byte
validate_name name =
    if str_eq name []
    then err invalid_name
    else if str_eq name (str ".")
    then err invalid_name
    else if str_eq name (str "..")
    then err invalid_name
    else if any_of forbidden_byte name
    then err invalid_name
    else ok tt

-- `normalizeParentPath`
unfoldable pub normalize_parent_path : Str → Str
normalize_parent_path [] = str "/"
normalize_parent_path (c ∷ p) = clean (slash ∷ c ∷ p)

-- `physicalPath`
unfoldable pub physical_path : Str → Str → Str → Str
physical_path owner_id parent_path name = path_join (str "/" ∷ owner_id ∷ parent_path ∷ name ∷ [])

-- `stagingPath`, with the new identifier as an argument
unfoldable pub staging_path : Str → Str → Str
staging_path owner_id new_id =
    path_join (str "/" ∷ owner_id ∷ str ".nexuscloud-staging" ∷ new_id ∷ [])

-- `versionStoragePath`
unfoldable pub version_storage_path : Str → Str → ℕ → Str
version_storage_path owner_id file_id version_num =
    path_join (str "/" ∷ owner_id ∷ str ".nexuscloud-versions" ∷ file_id ∷ itoa version_num ∷ [])

-- `resolveSharedPath`
unfoldable pub resolve_shared_path : Directory → Str → Option Str
resolve_shared_path dir sub_path =
    let shared_root = path_join (dir.parent_path ∷ dir.name ∷ []) in
    let target = normalize_parent_path (path_join (shared_root ∷ sub_path ∷ [])) in
    if str_eq target shared_root
    then some target
    else if has_prefix target (shared_root ++ (slash ∷ []))
    then some target
    else none
