-- ===== src/Storage/Errors.antt =====
-- The error values of the packages, and results. `failed` is an error that comes from outside the
-- program: the database, the file system, a reader, the password library. `os_not_exist` and its
-- neighbours are the errors of package `os` that the WebDAV module gives. `panicked` is no value of the
-- program's: a panic unwinds the calls, deferred clean-up included, as an error does that nothing handles.
use nexuscloud.Base.{◌≡◌, refl, Bool, true, false, if◌then◌else◌, ◌⊎◌, inl, inr}

pub data Error : Type 0 where
  path_escapes_root invalid_path forbidden invalid_name name_occupied_by_trash : Error
  destination_occupied invalid_move_destination : Error
  file_not_found directory_not_found directory_not_empty version_not_found pool_not_found : Error
  share_not_found share_expired share_revoked share_exhausted : Error
  share_password_required share_password_incorrect : Error
  share_download_not_allowed share_upload_not_allowed share_upload_too_large : Error
  public_links_disabled sharing_disabled invalid_share : Error
  unique_violation file_exists unsupported_pool failed : Error
  user_not_found user_already_exists invalid_username invalid_password : Error
  authentication_failed user_disabled totp_required totp_invalid webauthn_required : Error
  session_not_found invitation_not_found invitation_expired invitation_exhausted : Error
  invitation_revoked token_not_found invalid_credentials invalid_label : Error
  os_not_exist os_exist os_permission os_invalid overwrite_collection panicked : Error

pub data Result {ℓ} (A : Type ℓ) : Type ℓ where
  ok : A → Result A
  err : Error → Result A

-- Fails with the error if the test passes: `if test { return err }`.
abbrev pub fail_if : Bool → Error → Result (Unit {0})
fail_if true e = err e
fail_if false e = ok tt

-- `if err != nil { return err }` between two steps.
module _ {ℓ κ} {B : Type κ} where
  infixl 5 ◌>>=◌
  abbrev pub ◌>>=◌ : {A : Type ℓ} → Result A → (A → Result B) → Result B
  err e >>= next = err e
  ok a >>= next = next a

module _ {κ} {B : Type κ} where
  infixl 5 ◌>>◌
  abbrev pub ◌>>◌ : Result (Unit {0}) → Result B → Result B
  err e >> next = err e
  ok tt >> next = next

-- Two steps succeed together only if each does.
pub >>=_eq_ok {ℓ κ} :
    {A : Type ℓ} {B : Type κ} {next : A → Result B} {last : B}
    → (first : Result A) → (first >>= next) ≡ ok last
    → (a : A) × (next a ≡ ok last) × (first ≡ ok a)
>>=_eq_ok (err e) both = cc
>>=_eq_ok (ok a) both = (a, both, refl)

pub if_eq_ok {ℓ} :
    {A : Type ℓ} (b : Bool) (x y : A) (e : Error)
    → (if b then ok x else err e) ≡ ok y
    → (b ≡ true) × (x ≡ y)
if_eq_ok true x y e h = (refl, cc)
if_eq_ok false x y e h = cc

pub if_if_eq_ok {ℓ} :
    {A : Type ℓ} (b c : Bool) (x y z : A) (e : Error)
    → (if b then ok x else if c then err e else ok y) ≡ ok z
    → (b ≡ true) × (x ≡ z) ⊎ (b ≡ false) × (c ≡ false) × (y ≡ z)
if_if_eq_ok true c x y z e h = inl (refl, cc)
if_if_eq_ok false true x y z e h = cc
if_if_eq_ok false false x y z e h = inr (refl, refl, cc)

pub if_err_ok {ℓ} :
    {A : Type ℓ} (b : Bool) (e : Error) (r : Result A) {x : A}
    → (if b then err e else r) ≡ ok x
    → r ≡ ok x
if_err_ok true e r h = cc
if_err_ok false e r h = h

pub if_err_eq_ok {ℓ} :
    {A : Type ℓ} (b : Bool) (x y : A) (e : Error)
    → (if b then err e else ok x) ≡ ok y
    → (b ≡ false) × (x ≡ y)
if_err_eq_ok true x y e h = cc
if_err_eq_ok false x y e h = (refl, cc)
