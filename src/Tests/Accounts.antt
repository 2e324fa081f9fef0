-- ===== src/Tests/Accounts.antt =====
-- The theorems on accounts at concrete inputs: two users, a session, an invitation and a token.
use Prim.Native.String.{String}
use nexuscloud.Base.{
  ℕ, ◌≤◌, ◌≡◌, refl, true, false, none, some, [], ◌∷◌, Str, str, str_eq, has_prefix,
}
use nexuscloud.GoText.{itoa, positive, negative}
use nexuscloud.GoText.Unicode.{trim_space, rune_count}
use nexuscloud.Storage.Errors.{ok, err, user_disabled}
use nexuscloud.Storage.Action.{◌>>=◌, pure, lift, attempt, reject_if}
use nexuscloud.Storage.Action.Reads.{ok_injective}
use nexuscloud.Storage.World.{fault_of, rest_of}
use nexuscloud.Storage.Table.{distinct, sort_rows, update_row}
use nexuscloud.Accounts.Model.{
  User, Session, Invitation, status_active, status_disabled, role_user, is_active, has_totp,
  session_is_valid, is_usable,
}
use nexuscloud.Accounts.World.{Library, World, query, execute, draw}
use nexuscloud.Accounts.Users.{
  get_user_by_username, get_user_by_id, update_user, update_users, create_user, create_user_row,
  insert_user, username_matches, assign_role, insert_role,
}
use nexuscloud.Accounts.Sessions.{
  list_credentials_for_user, create_session, insert_session, get_session_by_token_hash,
  touch_session, revoke_session, revoke_one,
}
use nexuscloud.Accounts.Authenticator.{
  LoginResult, login, validate_token, logout, verify_password_of, new_session, check_passkeys,
  check_totp, complete_login,
}
use nexuscloud.Accounts.Authenticator.Login.{LetsIn, login-LetsIn}
use nexuscloud.Accounts.Authenticator.Visit.{Visits, validate_token-Visits}
use nexuscloud.Accounts.Invitations.{
  RedeemInvitationInput, redeem, accept, usable_invitation, get_invitation_by_token_hash,
  record_use, count_use,
}
use nexuscloud.Accounts.Invitations.Redeemed.{Redeems, redeem-Redeems}
use nexuscloud.Accounts.Tokens.{authenticate, get_token_by_hash, note_use}
use nexuscloud.Accounts.Tokens.Verdict.{authenticate-verdict}
use nexuscloud.Accounts.Requests.{Policy, sign_in, serve_all}
use nexuscloud.Accounts.Requests.LoggedOut.{KeysAreUnique, logged_out_never_validates}
use nexuscloud.WebDav.Handler.{Options, HttpRequest, is_read_method, is_over, serve_http}
use nexuscloud.WebDav.Handler.Admitted.{IsAdmitted, serve_http-IsAdmitted}

-- Tokens begin with a zero, and hashes are the texts themselves.
abbrev library : Library
library = record {
  new_id = λ n. b'i' ∷ itoa n;
  new_token = λ n. ok (b'0' ∷ itoa n);
  hash_token = λ t. t;
  hash_password = λ n p. ok p;
  verify_password = λ p h. str_eq p h;
  validate_totp = λ c s. str_eq c s;
}

abbrev account : String → String → Str → Str → User
account id name status secret = record {
  id = str id;
  username = str name;
  display_name = str name;
  email = [];
  password_hash = str "pw";
  status = status;
  quota_bytes = none;
  totp_secret = secret;
  created_at = 1;
  updated_at = 1;
  last_login_at = none;
}

abbrev ana : User
ana = account "1" "ana" status_active (str "42")

abbrev bob : User
bob = account "2" "bob" status_disabled []

abbrev session : Session
session = record {
  id = str "s";
  user_id = str "1";
  token_hash = str "tok";
  device = [];
  ip = [];
  created_at = 1;
  last_seen_at = 1;
  expires_at = 50;
  revoked_at = none;
}

abbrev invitation : Invitation
invitation = record {
  id = str "v";
  token_hash = str "inv";
  created_by = str "1";
  role_id = [];
  max_uses = 1;
  use_count = 0;
  expires_at = 50;
  created_at = 1;
  used_at = none;
  used_by = [];
  revoked_at = none;
}

abbrev accounts : World
accounts = record {
  tables = record {
    users = ana ∷ bob ∷ [];
    roles = record { id = role_user; name = str "User" } ∷ [];
    user_roles = [];
    groups = [];
    user_groups = [];
    sessions = session ∷ [];
    invitations = invitation ∷ [];
    credentials = [];
    tokens =
        record {
          id = str "k";
          user_id = str "1";
          token_hash = str "nwd_x";
          label = str "WebDAV";
          created_at = 1;
          last_used_at = none;
        }
        ∷ [];
  };
  db_faults = [];
  drawn = 0;
}

abbrev policy : Policy
policy = record { webauthn = true; session_ttl = 10; invitation_ttl = 7; throttle = 1 }

abbrev visitor : String → RedeemInvitationInput
visitor name = record {
  token = str "inv";
  username = str name;
  display_name = [];
  email = [];
  password = str "new";
}

abbrev logged_in : LoginResult
logged_in = record {
  user = record ana { last_login_at = some 20; updated_at = 20 };
  token = str "00";
  session = new_session library 20 10 ana (str "phone") (str "ip") (str "00") (str "i1");
}

login-LetsIn_example :
    LetsIn library true
      (str "ana")
      (str "pw")
      (str "42")
      accounts.tables
      logged_in
      (login library true 20 10
        (str "ana")
        (str "pw")
        (str "42")
        (str "phone")
        (str "ip")
        accounts).1.tables
unfolding login ◌>>=◌ pure lift attempt reject_if query execute draw str_eq fault_of rest_of
    verify_password_of get_user_by_username check_passkeys list_credentials_for_user sort_rows
    check_totp has_totp is_active complete_login create_session insert_session update_user
    update_users update_row itoa
login-LetsIn_example =
    login-LetsIn library true 20 10 (str "ana") (str "pw") (str "42") (str "phone") (str "ip")
      accounts logged_in refl

validate_token-Visits_example : Visits library 20 (str "tok") accounts.tables (ana, session)
unfolding validate_token ◌>>=◌ pure lift attempt reject_if query execute draw str_eq fault_of
    rest_of get_session_by_token_hash session_is_valid get_user_by_id is_active touch_session
validate_token-Visits_example =
    validate_token-Visits library 20 (str "tok") accounts (ana, session) refl

-- A disabled user is told so, whatever the password.
disabled_user_told :
    verify_password_of library (str "bob") (str "wrong") accounts ≡ (err user_disabled, accounts)
unfolding verify_password_of get_user_by_username ◌>>=◌ pure lift attempt reject_if query str_eq
    is_active fault_of rest_of
disabled_user_told = refl

authenticate-verdict_example :
    (authenticate library 1 20 (str "ana") (str "nwd_x") accounts).0 ≡ ok ana
unfolding str_eq has_prefix is_active
authenticate-verdict_example =
    authenticate-verdict library 1 20 (str "ana") (str "nwd_x") accounts refl

abbrev download_request : HttpRequest
download_request = record {
  method = str "GET";
  basic_auth = some (str "ana", str "nwd_x");
  content_length = negative 1;
}

abbrev read_only_options : Options
read_only_options = record { read_only = true; max_upload_size_bytes = positive 10 }

serve_http-IsAdmitted_example : IsAdmitted library read_only_options download_request accounts ana
unfolding serve_http authenticate str_eq has_prefix is_active ◌>>=◌ attempt reject_if
    get_token_by_hash query get_user_by_id note_use is_read_method is_over
serve_http-IsAdmitted_example =
    serve_http-IsAdmitted library read_only_options 1 20 download_request accounts ana refl refl

keys : KeysAreUnique accounts.tables.sessions
unfolding distinct
keys = record { ids = refl; hashes = refl }

logged_out_never_validates_example : ¬ (
    (validate_token library 22 (str "tok") (
      serve_all library policy
        ((21, sign_in (str "ana") (str "pw") (str "42") [] []) ∷ [])
        (logout 20 (str "s") (str "1") accounts).1)).0
    ≡ ok (ana, session))
unfolding logout revoke_session revoke_one ◌>>=◌ pure lift attempt reject_if query execute draw
    str_eq fault_of rest_of
logged_out_never_validates_example =
    logged_out_never_validates library (str "tok") session accounts 20 (str "1") refl keys
      never_drawn refl policy ((21, sign_in (str "ana") (str "pw") (str "42") [] []) ∷ []) 22
      (ana, session)
  where
    never_drawn :
        (k : ℕ) (token : Str)
        → 0 ≤ k
        → ok (b'0' ∷ itoa k) ≡ ok token
        → str_eq token (str "tok") ≡ false
    never_drawn k token le e = rw (← ok_injective e) refl

abbrev eve : User
eve = record {
  id = str "i1";
  username = str "eve";
  display_name = str "eve";
  email = [];
  password_hash = str "new";
  status = status_active;
  quota_bytes = none;
  totp_secret = [];
  created_at = 20;
  updated_at = 20;
  last_login_at = none;
}

redeem-Redeems_example :
    Redeems library 20
      (visitor "eve")
      accounts.tables
      eve
      (redeem library 20 (visitor "eve") accounts).1.tables
unfolding redeem usable_invitation accept get_invitation_by_token_hash is_usable create_user
    username_matches create_user_row insert_user assign_role insert_role record_use count_use
    update_row itoa ◌>>=◌ pure lift attempt reject_if query execute draw str_eq fault_of rest_of
redeem-Redeems_example = redeem-Redeems library 20 (visitor "eve") accounts eve refl

-- Two visitors whose invitation, for one use, was looked up before either had used it.
invitation_used_twice :
    (accept library 21
      (visitor "max")
      invitation
      (accept library 20 (visitor "eve") invitation accounts).1).1.tables.invitations
    ≡ record invitation { use_count = 2; used_at = some 21; used_by = str "i3" } ∷ []
unfolding accept create_user username_matches create_user_row insert_user assign_role insert_role
    record_use count_use update_row itoa ◌>>=◌ pure lift attempt reject_if query execute draw str_eq
    fault_of rest_of
invitation_used_twice = refl

trim_space_test : trim_space (32 ∷ 0xC2 ∷ 0xA0 ∷ b'a' ∷ 32 ∷ b'b' ∷ 10 ∷ []) ≡ str "a b"
unfolding trim_space
trim_space_test = refl

rune_count_test : rune_count (b'a' ∷ 0xC3 ∷ 0xB1 ∷ 0xFF ∷ []) ≡ 3
unfolding rune_count
rune_count_test = refl
