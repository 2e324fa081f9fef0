-- ===== src/Accounts/Requests.antt =====
-- The calls on accounts that the HTTP handlers, the middleware and the command line make, as one
-- data type: nexuscloud/internal/api/v1 (auth_handlers.go, middleware.go, users_handlers.go,
-- invitations_handlers.go, webdav_handlers.go) and nexuscloud/internal/webdav/handler.go.
pub mod Spares
pub mod Sessions
pub mod Ended
pub mod LoggedOut
use nexuscloud.Base.{ℕ, Bool, List, [], ◌∷◌, Str}
use nexuscloud.Storage.Action.{pure, attempt, ◌>>◌}
use nexuscloud.Accounts.World.{Library, World, Accounts}
use nexuscloud.Accounts.Users.{CreateUserInput, create_user, disable, delete_user, assign_role}
use nexuscloud.Accounts.Sessions.{revoke_all_for_user, delete_expired_sessions}
use nexuscloud.Accounts.Authenticator.{login, validate_token, logout}
use nexuscloud.Accounts.Invitations.{
  CreateInvitationInput, RedeemInvitationInput, create_invitation, redeem, revoke_invitation,
}
use nexuscloud.Accounts.Tokens.{create_token, authenticate, revoke_token}

-- The settings of the services: passkeys, the life of a session, of an invitation, and how often the
-- use of a token is noted.
pub record Policy : Type 0 where
  pub webauthn : Bool
  pub session_ttl : ℕ
  pub invitation_ttl : ℕ
  pub throttle : ℕ

pub data Request : Type 0 where
  sign_in : Str → Str → Str → Str → Str → Request
  visit : Str → Request
  sign_out : Str → Str → Request
  sign_out_everywhere : Str → Request
  purge_sessions : Request
  add_user : CreateUserInput → Request
  disable_user remove_user : Str → Request
  give_role : Str → Str → Request
  invite : CreateInvitationInput → Request
  accept_invitation : RedeemInvitationInput → Request
  withdraw_invitation : Str → Request
  add_token : Str → Str → Request
  use_token : Str → Str → Request
  drop_token : Str → Str → Request

module _ (lib : Library) (p : Policy) where
  unfoldable pub serve : ℕ → Request → Accounts (Unit {0})
  serve now (sign_in name password code device ip) =
      login lib p.webauthn now p.session_ttl name password code device ip >> pure tt
  serve now (visit token) = validate_token lib now token >> pure tt
  serve now (sign_out id user_id) = logout now id user_id
  serve now (sign_out_everywhere user_id) = revoke_all_for_user now user_id
  serve now purge_sessions = delete_expired_sessions now >> pure tt
  serve now (add_user input) = create_user lib now input >> pure tt
  serve now (disable_user id) = disable now id
  serve now (remove_user id) = delete_user id
  serve now (give_role user_id role_id) = assign_role user_id role_id
  serve now (invite input) = create_invitation lib p.invitation_ttl now input >> pure tt
  serve now (accept_invitation input) = redeem lib now input >> pure tt
  serve now (withdraw_invitation id) = revoke_invitation now id
  serve now (add_token user_id label) = create_token lib now user_id label >> pure tt
  serve now (use_token name token) = authenticate lib p.throttle now name token >> pure tt
  serve now (drop_token id user_id) = revoke_token id user_id

  -- Requests at their times, one after the other, whatever each gives.
  unfoldable pub serve_all : List (ℕ × Request) → World → World
  serve_all [] w = w
  serve_all ((now, r) ∷ rs) w = serve_all rs (serve now r w).1
