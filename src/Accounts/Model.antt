-- ===== src/Accounts/Model.antt =====
-- The rows of users/user.go, auth/session.go, auth/invitation.go, auth/webauthn_repository.go and
-- webdav/token.go of nexuscloud/internal. Times and optional values as in the rows of `Storage`.
use nexuscloud.Base.{
  ℕ, [], Bool, not, Option, Str, str, str_eq, is_some, ltb, leb, ◌&&◌, if◌then◌else◌,
}
use nexuscloud.Storage.Errors.{
  Result, ok, err, invitation_revoked, invitation_expired, invitation_exhausted,
}

pub record User : Type 0 where
  pub id : Str
  pub username : Str
  pub display_name : Str
  pub email : Str
  pub password_hash : Str
  pub status : Str
  pub quota_bytes : Option ℕ
  pub totp_secret : Str
  pub created_at : ℕ
  pub updated_at : ℕ
  pub last_login_at : Option ℕ

abbrev pub status_active : Str
status_active = str "active"

abbrev pub status_disabled : Str
status_disabled = str "disabled"

-- `User.IsActive`
unfoldable pub is_active : User → Bool
is_active u = str_eq u.status status_active

-- `User.HasTOTP`
unfoldable pub has_totp : User → Bool
has_totp u = not (str_eq u.totp_secret [])

pub record Role : Type 0 where
  pub id : Str
  pub name : Str

abbrev pub role_super_admin : Str
role_super_admin = str "super_admin"

abbrev pub role_administrator : Str
role_administrator = str "administrator"

abbrev pub role_user : Str
role_user = str "user"

pub record Group : Type 0 where
  pub id : Str
  pub name : Str
  pub quota_bytes : Option ℕ
  pub created_at : ℕ

pub record Session : Type 0 where
  pub id : Str
  pub user_id : Str
  pub token_hash : Str
  pub device : Str
  pub ip : Str
  pub created_at : ℕ
  pub last_seen_at : ℕ
  pub expires_at : ℕ
  pub revoked_at : Option ℕ

-- `Session.IsValid`
unfoldable pub session_is_valid : ℕ → Session → Bool
session_is_valid now s = not (is_some s.revoked_at) && ltb now s.expires_at

pub record Invitation : Type 0 where
  pub id : Str
  pub token_hash : Str
  pub created_by : Str
  pub role_id : Str
  pub max_uses : ℕ
  pub use_count : ℕ
  pub expires_at : ℕ
  pub created_at : ℕ
  pub used_at : Option ℕ
  pub used_by : Str
  pub revoked_at : Option ℕ

-- `Invitation.IsUsable`
unfoldable pub is_usable : ℕ → Invitation → Result (Unit {0})
is_usable now i =
    if is_some i.revoked_at
    then err invitation_revoked
    else if ltb i.expires_at now
    then err invitation_expired
    else if leb i.max_uses i.use_count
    then err invitation_exhausted
    else ok tt

pub record WebAuthnCredential : Type 0 where
  pub id : Str
  pub user_id : Str
  pub credential_id : Str
  pub public_key : Str
  pub sign_count : ℕ
  pub label : Str
  pub created_at : ℕ
  pub last_used_at : Option ℕ

pub record Token : Type 0 where
  pub id : Str
  pub user_id : Str
  pub token_hash : Str
  pub label : Str
  pub created_at : ℕ
  pub last_used_at : Option ℕ
