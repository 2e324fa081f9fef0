-- ===== src/Accounts/Users.antt =====
-- nexuscloud/internal/users: sql_repository.go over the tables `users`, `roles`, `user_roles`,
-- `groups` and `user_groups` with their keys, and service.go.
use nexuscloud.Base.{
  ℕ, Bool, false, not, Option, none, some, List, [], ◌∷◌, ◌++◌, Str, if◌then◌else◌, str_eq, any_of,
  find_first, select, length, leb, ◌==◌, ◌&&◌, ◌||◌,
}
use nexuscloud.Storage.Table.{update_row, delete_row, sort_rows, str_lt}
use nexuscloud.Storage.Errors.{
  Result, ok, err, failed, user_not_found, user_already_exists, invalid_username,
}
use nexuscloud.Storage.Action.{pure, reject_if, ◌>>=◌, ◌>>◌}
use nexuscloud.Accounts.Model.{
  User, Role, Group, Session, Invitation, WebAuthnCredential, Token, role_super_admin,
  role_administrator, role_user, status_active, status_disabled,
}
use nexuscloud.Accounts.World.{Library, Tables, Accounts, query, execute, draw}

abbrev pub user_has_id : Str → User → Bool
user_has_id id u = str_eq u.id id

abbrev pub user_has_name : Str → User → Bool
user_has_name name u = str_eq u.username name

abbrev pub or_user_not_found : {A : Type 0} → Option A → Result A
or_user_not_found none = err user_not_found
or_user_not_found (some u) = ok u

abbrev pub with_users : Tables → Result (List User) → Result Tables
with_users t (ok us) = ok (record t { users = us })
with_users t (err e) = err e

-- `INSERT INTO users`, with the keys `id` and `username`.
unfoldable pub insert_user : User → List User → Result (List User)
insert_user new us =
    if any_of (user_has_id new.id) us || any_of (user_has_name new.username) us
    then err user_already_exists
    else ok (us ++ (new ∷ []))

-- The columns that `UPDATE users` sets: not the username, nor the time of creation.
abbrev pub updated : User → User → User
updated new u = record new { id = u.id; username = u.username; created_at = u.created_at }

unfoldable pub update_users : User → List User → Result (List User)
update_users new us =
    if any_of (user_has_id new.id) us
    then ok (update_row (user_has_id new.id) (updated new) us)
    else err user_not_found

-- `used_by … ON DELETE SET NULL`
abbrev pub forget_user : Str → List Invitation → List Invitation
forget_user id [] = []
forget_user id (i ∷ is) =
    (if str_eq i.used_by id then record i { used_by = [] } else i) ∷ forget_user id is

abbrev pub pair_is : Str → Str → Str × Str → Bool
pair_is a b p = str_eq p.0 a && str_eq p.1 b

-- `DELETE FROM users`, with what the foreign keys of these tables take along. Files, folders and
-- shares of the user go as well: they stand in another table world.
unfoldable pub delete_users : Str → Tables → Result Tables
delete_users id t =
    if any_of (user_has_id id) t.users
    then ok (record t {
      users = delete_row (user_has_id id) t.users;
      user_roles = select (λ p. not (str_eq p.0 id)) t.user_roles;
      user_groups = select (λ p. not (str_eq p.0 id)) t.user_groups;
      sessions = select (λ (s : Session). not (str_eq s.user_id id)) t.sessions;
      invitations =
          forget_user id (select (λ (i : Invitation). not (str_eq i.created_by id)) t.invitations);
      credentials = select (λ (c : WebAuthnCredential). not (str_eq c.user_id id)) t.credentials;
      tokens = select (λ (k : Token). not (str_eq k.user_id id)) t.tokens;
    })
    else err user_not_found

-- A pair that is there already is left alone; the pair refers to rows that exist.
unfoldable pub insert_role : Str → Str → Tables → Result Tables
insert_role user_id role_id t =
    if any_of (pair_is user_id role_id) t.user_roles
    then ok t
    else if any_of (user_has_id user_id) t.users
        && any_of (λ (r : Role). str_eq r.id role_id) t.roles
    then ok (record t { user_roles = t.user_roles ++ ((user_id, role_id) ∷ []) })
    else err failed

unfoldable pub insert_member : Str → Str → Tables → Result Tables
insert_member user_id group_id t =
    if any_of (pair_is user_id group_id) t.user_groups
    then ok t
    else if any_of (user_has_id user_id) t.users
        && any_of (λ (g : Group). str_eq g.id group_id) t.groups
    then ok (record t { user_groups = t.user_groups ++ ((user_id, group_id) ∷ []) })
    else err failed

unfoldable pub insert_group : Group → Tables → Result Tables
insert_group new t =
    if any_of (λ (g : Group). str_eq g.id new.id) t.groups
      || any_of (λ (g : Group). str_eq g.name new.name) t.groups
    then err user_already_exists
    else ok (record t { groups = t.groups ++ (new ∷ []) })

unfoldable pub create_user_row : User → Accounts (Unit {0})
create_user_row new = execute λ t. with_users t (insert_user new t.users)

unfoldable pub get_user_by_id : Str → Accounts User
get_user_by_id id = query λ t. or_user_not_found (find_first (user_has_id id) t.users)

unfoldable pub get_user_by_username : Str → Accounts User
get_user_by_username name = query λ t. or_user_not_found (find_first (user_has_name name) t.users)

unfoldable pub list_users : Accounts (List User)
list_users = query λ t. ok (sort_rows (λ u v. str_lt u.username v.username) t.users)

unfoldable pub update_user : User → Accounts (Unit {0})
update_user new = execute λ t. with_users t (update_users new t.users)

unfoldable pub delete_user : Str → Accounts (Unit {0})
delete_user id = execute (delete_users id)

unfoldable pub count_users : Accounts ℕ
count_users = query λ t. ok (length t.users)

unfoldable pub assign_role : Str → Str → Accounts (Unit {0})
assign_role user_id role_id = execute (insert_role user_id role_id)

unfoldable pub roles_for_user : Str → Accounts (List Role)
roles_for_user user_id = query λ t. ok (
    sort_rows (λ r s. str_lt r.id s.id)
      (select (λ (r : Role). any_of (pair_is user_id r.id) t.user_roles) t.roles))

unfoldable pub has_role : Str → Str → Accounts Bool
has_role user_id role_id = query λ t. ok (any_of (pair_is user_id role_id) t.user_roles)

unfoldable pub create_group : Group → Accounts (Unit {0})
create_group new = execute (insert_group new)

unfoldable pub get_group_by_id : Str → Accounts Group
get_group_by_id id =
    query λ t. or_user_not_found (find_first (λ (g : Group). str_eq g.id id) t.groups)

unfoldable pub get_group_by_name : Str → Accounts Group
get_group_by_name name =
    query λ t. or_user_not_found (find_first (λ (g : Group). str_eq g.name name) t.groups)

unfoldable pub list_groups : Accounts (List Group)
list_groups = query λ t. ok (sort_rows (λ (g h : Group). str_lt g.name h.name) t.groups)

unfoldable pub add_user_to_group : Str → Str → Accounts (Unit {0})
add_user_to_group user_id group_id = execute (insert_member user_id group_id)

unfoldable pub groups_for_user : Str → Accounts (List Group)
groups_for_user user_id = query λ t. ok (
    sort_rows (λ (g h : Group). str_lt g.name h.name)
      (select (λ (g : Group). any_of (pair_is user_id g.id) t.user_groups) t.groups))

-- `[a-z0-9]` and `[a-z0-9._-]` of `usernamePattern`
abbrev pub is_name_start : ℕ → Bool
is_name_start c = (leb b'a' c && leb c b'z') || (leb b'0' c && leb c b'9')

abbrev pub is_name_byte : ℕ → Bool
is_name_byte c = is_name_start c || (c == b'.' || (c == b'_' || c == b'-'))

-- `usernamePattern.MatchString`
unfoldable pub username_matches : Str → Bool
username_matches [] = false
username_matches (c ∷ s) =
    is_name_start c
    && (leb 1 (length s) && (leb (length s) 31 && not (any_of (λ b. not (is_name_byte b)) s)))

pub record CreateUserInput : Type 0 where
  pub username : Str
  pub display_name : Str
  pub email : Str
  pub password_hash : Str
  pub role : Str
  pub quota_bytes : Option ℕ

abbrev pub or_default : Str → Str → Str
or_default s d = if str_eq s [] then d else s

-- The row that `CreateUser` inserts.
abbrev pub new_user : Str → ℕ → CreateUserInput → User
new_user id now input = record {
  id = id;
  username = input.username;
  display_name = or_default input.display_name input.username;
  email = input.email;
  password_hash = input.password_hash;
  status = status_active;
  quota_bytes = input.quota_bytes;
  totp_secret = [];
  created_at = now;
  updated_at = now;
  last_login_at = none;
}

module _ (lib : Library) where
  -- `Service.CreateUser`
  unfoldable pub create_user : ℕ → CreateUserInput → Accounts User
  create_user now input = do
    reject_if (not (username_matches input.username)) invalid_username
    id ← draw λ n. ok (lib.new_id n)
    let u = new_user id now input
    create_user_row u
    assign_role u.id (or_default input.role role_user)
    pure u

-- `Service.Disable`
unfoldable pub disable : ℕ → Str → Accounts (Unit {0})
disable now user_id = do
  u ← get_user_by_id user_id
  update_user (record u { status = status_disabled; updated_at = now })

-- `Service.IsFirstUser`
unfoldable pub is_first_user : Accounts Bool
is_first_user = do n ← count_users; pure (n == 0)

-- `Service.IsAdmin`
unfoldable pub is_admin : Str → Accounts Bool
is_admin user_id = do
  roles ← roles_for_user user_id
  pure (any_of (λ (r : Role). str_eq r.id role_super_admin || str_eq r.id role_administrator) roles)
