-- ===== src/Accounts/Authenticator.antt =====
-- nexuscloud/internal/auth/authenticator.go: passwords, logins, and the tokens of sessions. The
-- repository of passkeys is optional: `webauthn` tells whether there is one.
pub mod Login
pub mod Alike
pub mod Visit
use nexuscloud.Base.{
  ℕ, ◌+◌, Bool, true, false, not, Option, none, some, List, [], ◌∷◌, Str, if◌then◌else◌, str_eq,
}
use nexuscloud.Storage.Errors.{
  Error, Result, ok, err, user_not_found, authentication_failed, user_disabled, totp_required,
  totp_invalid, webauthn_required, session_not_found,
}
use nexuscloud.Storage.Action.{pure, raise, lift, attempt, reject_if, ◌>>=◌, ◌>>◌}
use nexuscloud.Accounts.Model.{
  User, Session, WebAuthnCredential, is_active, has_totp, session_is_valid,
}
use nexuscloud.Accounts.World.{Library, Accounts, draw}
use nexuscloud.Accounts.Users.{get_user_by_id, get_user_by_username, update_user}
use nexuscloud.Accounts.Sessions.{
  create_session, get_session_by_token_hash, touch_session, revoke_session,
  list_credentials_for_user,
}

pub record LoginResult : Type 0 where
  pub user : User
  pub token : Str
  pub session : Session

-- A user that is not there is told as a failed authentication.
abbrev pub hide_missing : Result User → Result User
hide_missing (ok u) = ok u
hide_missing (err user_not_found) = err authentication_failed
hide_missing (err e) = err e

abbrev pub is_empty {ℓ} : {A : Type ℓ} → List A → Bool
is_empty [] = true
is_empty (_ ∷ _) = false

-- The session that `completeLogin` stores.
abbrev pub new_session : Library → ℕ → ℕ → User → Str → Str → Str → Str → Session
new_session lib now ttl u device ip token id = record {
  id = id;
  user_id = u.id;
  token_hash = lib.hash_token token;
  device = device;
  ip = ip;
  created_at = now;
  last_seen_at = now;
  expires_at = now + ttl;
  revoked_at = none;
}

module _ (lib : Library) where
  -- `VerifyPassword`
  unfoldable pub verify_password_of : Str → Str → Accounts User
  verify_password_of username password = do
    found ← attempt (get_user_by_username username)
    u ← lift (hide_missing found)
    reject_if (not (is_active u)) user_disabled
    reject_if (not (lib.verify_password password u.password_hash)) authentication_failed
    pure u

  -- The one-time code, for a user who has a secret.
  unfoldable pub check_totp : User → Str → Result (Unit {0})
  check_totp u code =
      if not (has_totp u)
      then ok tt
      else if str_eq code []
      then err totp_required
      else if not (lib.validate_totp code u.totp_secret)
      then err totp_invalid
      else ok tt

  -- A user with a passkey has to use it.
  unfoldable pub check_passkeys : Bool → User → Accounts (Unit {0})
  check_passkeys webauthn u = if not webauthn then pure tt else do
    creds ← list_credentials_for_user u.id
    reject_if (not (is_empty creds)) webauthn_required

  -- `completeLogin`
  unfoldable pub complete_login : ℕ → ℕ → User → Str → Str → Accounts LoginResult
  complete_login now ttl u device ip = do
    token ← draw lib.new_token
    id ← draw λ n. ok (lib.new_id n)
    let sess = new_session lib now ttl u device ip token id
    create_session sess
    let u' : User = record u { last_login_at = some now; updated_at = now }
    update_user u'
    pure (record { user = u'; token = token; session = sess })

  -- `Login`
  unfoldable pub login : Bool → ℕ → ℕ → Str → Str → Str → Str → Str → Accounts LoginResult
  login webauthn now ttl username password code device ip = do
    u ← verify_password_of username password
    check_passkeys webauthn u
    lift (check_totp u code)
    complete_login now ttl u device ip

  -- `ValidateToken`; a last visit that cannot be noted is no failure.
  unfoldable pub validate_token : ℕ → Str → Accounts (User × Session)
  validate_token now token = do
    sess ← get_session_by_token_hash (lib.hash_token token)
    reject_if (not (session_is_valid now sess)) session_not_found
    u ← get_user_by_id sess.user_id
    reject_if (not (is_active u)) user_disabled
    attempt (touch_session now sess.id)
    pure (u, sess)

-- `Logout`
unfoldable pub logout : ℕ → Str → Str → Accounts (Unit {0})
logout now session_id user_id = revoke_session now session_id user_id
