-- ===== src/Accounts/Requests/Sessions.antt =====
-- What requests do to the table of sessions.
use nexuscloud.Base.{ℕ, refl, sym, subst, ap, Bool, List, [], ◌∷◌, Str, select}
use nexuscloud.Storage.Errors.{Result, ok, if_eq_ok}
use nexuscloud.Storage.Action.{◌>>◌, pure}
use nexuscloud.Storage.Action.Keeps.{Keeps, Keeps-bind, Keeps-pure, keeps_rules}
use nexuscloud.Storage.Action.Reads.{ok_injective}
use nexuscloud.Accounts.Model.{User, Session, Invitation, Token}
use nexuscloud.Accounts.Requests.{
  Policy, Request, sign_in, visit, sign_out, sign_out_everywhere, purge_sessions, add_user,
  disable_user, remove_user, give_role, invite, accept_invitation, withdraw_invitation, add_token,
  use_token, drop_token, serve, serve_all,
}
use nexuscloud.Accounts.World.{Library, Tables, World, execute}
use nexuscloud.Accounts.World.Invariants.{
  After, Keeps-execute, Keeps-query, Keeps-draw, Keeps-drawn,
}
use nexuscloud.Accounts.Users.{
  update_user, create_user, create_user_row, assign_role, disable, delete_user, delete_users,
  get_user_by_id, get_user_by_username, CreateUserInput,
}
use nexuscloud.Accounts.Sessions.{
  create_session, revoke_one, touch_session, revoke_session, revoke_all_for_user,
  delete_expired_sessions, outlives, get_session_by_token_hash, list_credentials_for_user,
}
use nexuscloud.Accounts.Authenticator.{
  complete_login, verify_password_of, check_passkeys, validate_token, login, logout,
}
use nexuscloud.Accounts.Invitations.{
  redeem, usable_invitation, accept, create_invitation, create_invitation_row,
  get_invitation_by_token_hash, record_use, revoke_invitation, CreateInvitationInput,
  RedeemInvitationInput,
}
use nexuscloud.Accounts.Tokens.{
  create_token, create_token_row, touch_token, authenticate, note_use, get_token_by_hash,
  revoke_token,
}
use nexuscloud.Accounts.Requests.Spares.{
  SparesSessions, Stands, with_users-spares, insert_role-spares, insert_invitation-spares,
  count_use-spares, withdraw-spares, insert_token-spares, drop_token-spares,
}

module _ (lib : Library) (n : ℕ) (S : List Session → Type 0) (stands : Stands lib n S) where
  abbrev Holds : World → Type 0
  Holds = After n (λ t. S t.sessions)

  spares-Keeps : (f : Tables → Result Tables) → SparesSessions f → Keeps Holds (execute f)
  spares-Keeps f spares = Keeps-execute f (λ t s e h. subst S (sym (spares t s e)) h)

  update_user-Keeps : (u : User) → Keeps Holds (update_user u)
  unfolding update_user
  update_user-Keeps u = spares-Keeps _ (with_users-spares _)

  create_user_row-Keeps : (u : User) → Keeps Holds (create_user_row u)
  unfolding create_user_row
  create_user_row-Keeps u = spares-Keeps _ (with_users-spares _)

  assign_role-Keeps : (user_id role_id : Str) → Keeps Holds (assign_role user_id role_id)
  unfolding assign_role
  assign_role-Keeps user_id role_id = spares-Keeps _ (insert_role-spares _ _)

  record_use-Keeps : (now : ℕ) (id user_id : Str) → Keeps Holds (record_use now id user_id)
  unfolding record_use
  record_use-Keeps now id user_id = spares-Keeps _ (count_use-spares _ _ _)

  create_invitation_row-Keeps : (i : Invitation) → Keeps Holds (create_invitation_row i)
  unfolding create_invitation_row
  create_invitation_row-Keeps i = spares-Keeps _ (insert_invitation-spares _)

  revoke_invitation-Keeps : (now : ℕ) (id : Str) → Keeps Holds (revoke_invitation now id)
  unfolding revoke_invitation
  revoke_invitation-Keeps now id = spares-Keeps _ (withdraw-spares _ _)

  create_token_row-Keeps : (k : Token) → Keeps Holds (create_token_row k)
  unfolding create_token_row
  create_token_row-Keeps k = spares-Keeps _ (insert_token-spares _)

  revoke_token-Keeps : (id user_id : Str) → Keeps Holds (revoke_token id user_id)
  unfolding revoke_token
  revoke_token-Keeps id user_id = spares-Keeps _ (drop_token-spares _ _)

  complete_login-Keeps :
      (now ttl : ℕ) (u : User) (device ip : Str)
      → Keeps Holds (complete_login lib now ttl u device ip)
  unfolding complete_login create_session
  complete_login-Keeps now ttl u device ip = Keeps-drawn _ _ λ k token le e.
      Keeps-bind _ _ (Keeps-draw _) λ id.
        Keeps-bind _ _
          (Keeps-execute _ (λ t s done h. stands.insert k token _ t s le e refl done h))
          λ _. Keeps-bind _ _ (update_user-Keeps _) λ _. Keeps-pure _

  verify_password_of-Keeps :
      (name password : Str) → Keeps Holds (verify_password_of lib name password)
  unfolding verify_password_of get_user_by_username
  verify_password_of-Keeps name password = search (keeps_rules, Keeps-query)

  check_passkeys-Keeps : (webauthn : Bool) (u : User) → Keeps Holds (check_passkeys lib webauthn u)
  unfolding check_passkeys list_credentials_for_user
  check_passkeys-Keeps webauthn u = search (keeps_rules, Keeps-query)

  touch_session-Keeps : (now : ℕ) (id : Str) → Keeps Holds (touch_session now id)
  unfolding touch_session
  touch_session-Keeps now id = Keeps-execute _ λ t s e h.
      subst (λ (y : Tables). S y.sessions) (ok_injective e) (stands.touch now id t.sessions h)

  validate_token-Keeps : (now : ℕ) (token : Str) → Keeps Holds (validate_token lib now token)
  unfolding validate_token get_session_by_token_hash get_user_by_id
  validate_token-Keeps now token = search (keeps_rules, Keeps-query, touch_session-Keeps) depth 12

  login-Keeps :
      (webauthn : Bool) (now ttl : ℕ) (name password code device ip : Str)
      → Keeps Holds (login lib webauthn now ttl name password code device ip)
  unfolding login
  login-Keeps webauthn now ttl name password code device ip =
      search (keeps_rules, verify_password_of-Keeps, check_passkeys-Keeps, complete_login-Keeps)

  create_user-Keeps : (now : ℕ) (input : CreateUserInput) → Keeps Holds (create_user lib now input)
  unfolding create_user
  create_user-Keeps now input =
      search (keeps_rules, Keeps-draw, create_user_row-Keeps, assign_role-Keeps) depth 12

  redeem-Keeps : (now : ℕ) (input : RedeemInvitationInput) → Keeps Holds (redeem lib now input)
  unfolding redeem usable_invitation accept get_invitation_by_token_hash
  redeem-Keeps now input =
      search (keeps_rules, Keeps-draw, Keeps-query, create_user-Keeps, record_use-Keeps) depth 12

  create_invitation-Keeps :
      (ttl now : ℕ) (input : CreateInvitationInput)
      → Keeps Holds (create_invitation lib ttl now input)
  unfolding create_invitation
  create_invitation-Keeps ttl now input =
      search (keeps_rules, Keeps-draw, create_invitation_row-Keeps) depth 12

  create_token-Keeps :
      (now : ℕ) (user_id label : Str) → Keeps Holds (create_token lib now user_id label)
  unfolding create_token
  create_token-Keeps now user_id label =
      search (keeps_rules, Keeps-draw, create_token_row-Keeps) depth 12

  touch_token-Keeps : (now : ℕ) (id : Str) → Keeps Holds (touch_token now id)
  unfolding touch_token
  touch_token-Keeps now id =
      spares-Keeps _ (λ t s e. ap (λ (y : Tables). y.sessions) (sym (ok_injective e)))

  authenticate-Keeps :
      (throttle now : ℕ) (name token : Str) → Keeps Holds (authenticate lib throttle now name token)
  unfolding authenticate note_use get_token_by_hash get_user_by_id
  authenticate-Keeps throttle now name token =
      search (keeps_rules, Keeps-query, touch_token-Keeps) depth 12

  disable-Keeps : (now : ℕ) (id : Str) → Keeps Holds (disable now id)
  unfolding disable get_user_by_id
  disable-Keeps now id = search (keeps_rules, Keeps-query, update_user-Keeps)

  delete_user-Keeps : (id : Str) → Keeps Holds (delete_user id)
  unfolding delete_user delete_users
  delete_user-Keeps id = Keeps-execute _ λ t s e h.
      let (_, same) = if_eq_ok _ _ s _ e in
      subst (λ (y : Tables). S y.sessions) same (stands.delete _ t.sessions h)

  revoke_session-Keeps : (now : ℕ) (id user_id : Str) → Keeps Holds (revoke_session now id user_id)
  unfolding revoke_session revoke_one
  revoke_session-Keeps now id user_id = Keeps-execute _ λ t s e h.
      let (_, same) = if_eq_ok _ _ s _ e in
      subst (λ (y : Tables). S y.sessions) same (stands.revoke now id user_id t.sessions h)

  revoke_all_for_user-Keeps :
      (now : ℕ) (user_id : Str) → Keeps Holds (revoke_all_for_user now user_id)
  unfolding revoke_all_for_user
  revoke_all_for_user-Keeps now user_id = Keeps-execute _ λ t s e h.
      subst (λ (y : Tables). S y.sessions) (ok_injective e)
        (stands.revoke_every now user_id t.sessions h)

  delete_expired_sessions-Keeps : (before : ℕ) → Keeps Holds (delete_expired_sessions before)
  unfolding delete_expired_sessions
  delete_expired_sessions-Keeps before = record { at = λ w h. (deleted _).at w h }
    where
      deleted :
          (n : ℕ)
          → Keeps Holds (
              execute (λ t. ok (record t { sessions = select (outlives before) t.sessions }))
              >> pure n)
      deleted n =
          Keeps-bind _ _
            (Keeps-execute _ λ t s e h.
              subst (λ (y : Tables). S y.sessions) (ok_injective e) (stands.delete _ t.sessions h))
            (λ _. Keeps-pure n)

  -- Every request keeps what stands the statements on sessions.
  pub serve-Holds : (p : Policy) (now : ℕ) (r : Request) → Keeps Holds (serve lib p now r)
  unfolding serve logout
  serve-Holds p now (sign_in name password code device ip) =
      Keeps-bind _ _ (login-Keeps _ now _ name password code device ip) (λ _. Keeps-pure tt)
  serve-Holds p now (visit token) =
      Keeps-bind _ _ (validate_token-Keeps now token) (λ _. Keeps-pure tt)
  serve-Holds p now (sign_out id user_id) = revoke_session-Keeps now id user_id
  serve-Holds p now (sign_out_everywhere user_id) = revoke_all_for_user-Keeps now user_id
  serve-Holds p now purge_sessions =
      Keeps-bind _ _ (delete_expired_sessions-Keeps now) (λ _. Keeps-pure tt)
  serve-Holds p now (add_user input) =
      Keeps-bind _ _ (create_user-Keeps now input) (λ _. Keeps-pure tt)
  serve-Holds p now (disable_user id) = disable-Keeps now id
  serve-Holds p now (remove_user id) = delete_user-Keeps id
  serve-Holds p now (give_role user_id role_id) = assign_role-Keeps user_id role_id
  serve-Holds p now (invite input) =
      Keeps-bind _ _ (create_invitation-Keeps _ now input) (λ _. Keeps-pure tt)
  serve-Holds p now (accept_invitation input) =
      Keeps-bind _ _ (redeem-Keeps now input) (λ _. Keeps-pure tt)
  serve-Holds p now (withdraw_invitation id) = revoke_invitation-Keeps now id
  serve-Holds p now (add_token user_id label) =
      Keeps-bind _ _ (create_token-Keeps now user_id label) (λ _. Keeps-pure tt)
  serve-Holds p now (use_token name token) =
      Keeps-bind _ _ (authenticate-Keeps _ now name token) (λ _. Keeps-pure tt)
  serve-Holds p now (drop_token id user_id) = revoke_token-Keeps id user_id

  pub serve_all-Holds :
      (p : Policy) (rs : List (ℕ × Request)) (w : World) → Holds w → Holds (serve_all lib p rs w)
  unfolding serve_all
  serve_all-Holds p [] w h = h
  serve_all-Holds p ((now, r) ∷ rs) w h =
      serve_all-Holds p rs (serve lib p now r w).1 ((serve-Holds p now r).at w h)
