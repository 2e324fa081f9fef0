-- ===== src/Storage/Names/Reserved.antt =====
-- Where the version store lies: inside the owner's own tree of files.
use nexuscloud.Base.{
  ℕ, ◌≤◌, ◌≡◌, refl, sym, ap, ◌∙◌, false, [], ◌∷◌, ◌++◌, arith, Str, str, str_eq, any_of,
}
use nexuscloud.GoText.{itoa}
use nexuscloud.GoText.Decimal.{IsDigits, itoa-Decimal}
use nexuscloud.GoPath.{join}
use nexuscloud.GoPath.Clean.{IsNormal, abs_path, descend_all, descend_name, path_join-abs_path}
use nexuscloud.Storage.Errors.{ok}
use nexuscloud.Storage.Names.{
  forbidden_byte, validate_name, normalize_parent_path, physical_path, version_storage_path,
}
use nexuscloud.Storage.Names.Physical.{
  path_elements-abs_path, normalize_parent_path-abs_path, physical_path-abs_path,
  validate_name-IsNormal,
}

digit_allowed : (c : ℕ) → 48 ≤ c → c ≤ 57 → forbidden_byte c ≡ false
unfolding forbidden_byte
digit_allowed c h k = ground arith

digits_allowed : (s : Str) → IsDigits s → any_of forbidden_byte s ≡ false
digits_allowed [] h = refl
digits_allowed (c ∷ s) h = rw (digit_allowed c h.0.0 h.0.1, digits_allowed s h.1) refl

validate_name-digits : (c : ℕ) (s : Str) → IsDigits (c ∷ s) → validate_name (c ∷ s) ≡ ok tt
unfolding validate_name str_eq
validate_name-digits c s h = rw (digits_allowed (c ∷ s) h) (ground arith)

validate_name-itoa : (n : ℕ) → validate_name (itoa n) ≡ ok tt
validate_name-itoa n = let d = itoa-Decimal n in rw (d.2) (validate_name-digits d.0 d.1 d.3)

abbrev versions_dir : Str
versions_dir = str ".nexuscloud-versions"

versions_dir-IsNormal : IsNormal versions_dir
unfolding validate_name str_eq
versions_dir-IsNormal = validate_name-IsNormal versions_dir refl

version_storage_path-abs_path :
    (owner file_id : Str) (n : ℕ)
    → IsNormal owner
    → IsNormal file_id
    → version_storage_path owner file_id n ≡ abs_path (owner ∷ versions_dir ∷ file_id ∷ itoa n ∷ [])
unfolding version_storage_path
version_storage_path-abs_path owner file_id n o f =
    unfold join in
    path_join-abs_path [] (owner ∷ versions_dir ∷ file_id ∷ itoa n ∷ []) tt
    ∙ ap {B = Str} abs_path {x = descend_all [] (owner ∷ versions_dir ∷ file_id ∷ itoa n ∷ [])}
        {y = owner ∷ versions_dir ∷ file_id ∷ itoa n ∷ []}
        (rw
          (
            descend_name [] owner o,
            descend_name (owner ∷ []) versions_dir versions_dir-IsNormal,
            descend_name (owner ∷ versions_dir ∷ []) file_id f,
            descend_name (owner ∷ versions_dir ∷ file_id ∷ []) (itoa n)
                (validate_name-IsNormal _ (validate_name-itoa n)),
          )
          refl)

folder :
    (file_id : Str)
    → IsNormal file_id
    → normalize_parent_path (str "/.nexuscloud-versions/" ++ file_id)
      ≡ abs_path (versions_dir ∷ file_id ∷ [])
folder file_id f =
    normalize_parent_path-abs_path (str "/.nexuscloud-versions/" ++ file_id)
    ∙ ap abs_path (
        unfold join in
        path_elements-abs_path (versions_dir ∷ file_id ∷ []) (versions_dir-IsNormal, (f, tt)))

-- An accepted name in a folder that the owner may create has the physical path at which a version
-- of one of the owner's files is stored.
pub version_storage_path-reachable :
    (owner file_id : Str) (n : ℕ)
    → IsNormal owner
    → IsNormal file_id
    → (validate_name (itoa n) ≡ ok tt)
      × (physical_path owner
            (normalize_parent_path (str "/.nexuscloud-versions/" ++ file_id))
            (itoa n)
          ≡ version_storage_path owner file_id n)
version_storage_path-reachable owner file_id n o f = (
  validate_name-itoa n,
  ap (λ p. physical_path owner p (itoa n)) (folder file_id f)
      ∙ physical_path-abs_path owner (versions_dir ∷ file_id ∷ []) (itoa n) o
          (versions_dir-IsNormal, (f, tt)) (validate_name-IsNormal (itoa n) (validate_name-itoa n))
      ∙ sym (version_storage_path-abs_path owner file_id n o f),
)
