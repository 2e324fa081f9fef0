-- ===== src/Accounts/Invitations.antt =====
-- nexuscloud/internal/auth/invitation_repository.go over the table `invitations`, with its keys `id`
-- and `token_hash`, and invitation_service.go. Durations are numbers in the unit of times.
pub mod Redeemed
use nexuscloud.Base.{
  ℕ, zero, suc, ◌+◌, Bool, not, Option, none, some, List, [], ◌∷◌, ◌++◌, Str, if◌then◌else◌, str_eq,
  any_of, find_first, ltb, is_some, ◌&&◌, ◌||◌, ◌==◌,
}
use nexuscloud.Storage.Table.{update_row, sort_rows}
use nexuscloud.Storage.Table.Times.{time_lt}
use nexuscloud.Storage.Errors.{Result, ok, err, failed, invitation_not_found}
use nexuscloud.Storage.Action.{pure, lift, ◌>>=◌, ◌>>◌}
use nexuscloud.Accounts.Model.{User, Role, Invitation, is_usable}
use nexuscloud.Accounts.World.{Library, Tables, Accounts, query, execute, draw}
use nexuscloud.Accounts.Users.{user_has_id, create_user, CreateUserInput}

abbrev pub invitation_has_id : Str → Invitation → Bool
invitation_has_id id i = str_eq i.id id

abbrev pub invitation_has_hash : Str → Invitation → Bool
invitation_has_hash hash i = str_eq i.token_hash hash

abbrev pub or_invitation_not_found : Option Invitation → Result Invitation
or_invitation_not_found none = err invitation_not_found
or_invitation_not_found (some i) = ok i

-- `INSERT INTO invitations`: the keys are new, and the creator and a role that is given exist.
unfoldable pub insert_invitation : Invitation → Tables → Result Tables
insert_invitation new t =
    if any_of (invitation_has_id new.id) t.invitations
      || (any_of (invitation_has_hash new.token_hash) t.invitations
          || (not (any_of (user_has_id new.created_by) t.users)
              || not (
                  str_eq new.role_id [] || any_of (λ (r : Role). str_eq r.id new.role_id) t.roles)))
    then err failed
    else ok (record t { invitations = t.invitations ++ (new ∷ []) })

abbrev pub used : ℕ → Str → Invitation → Invitation
used now user_id i = record i { use_count = i.use_count + 1; used_at = some now; used_by = user_id }

-- `UPDATE invitations`; the user who used it exists.
unfoldable pub count_use : ℕ → Str → Str → Tables → Result Tables
count_use now id user_id t =
    if any_of (invitation_has_id id) t.invitations && not (any_of (user_has_id user_id) t.users)
    then err failed
    else ok (record t {
      invitations = update_row (invitation_has_id id) (used now user_id) t.invitations;
    })

-- `id = ? AND revoked_at IS NULL`
abbrev pub is_open_invitation : Str → Invitation → Bool
is_open_invitation id i = invitation_has_id id i && not (is_some i.revoked_at)

abbrev pub withdrawn : ℕ → Invitation → Invitation
withdrawn now i = record i { revoked_at = some now }

unfoldable pub withdraw : ℕ → Str → Tables → Result Tables
withdraw now id t =
    if any_of (is_open_invitation id) t.invitations
    then ok (record t {
      invitations = update_row (is_open_invitation id) (withdrawn now) t.invitations;
    })
    else err invitation_not_found

-- `CreateInvitation` of the repository
unfoldable pub create_invitation_row : Invitation → Accounts (Unit {0})
create_invitation_row new = execute (insert_invitation new)

unfoldable pub get_invitation_by_token_hash : Str → Accounts Invitation
get_invitation_by_token_hash hash =
    query λ t. or_invitation_not_found (find_first (invitation_has_hash hash) t.invitations)

unfoldable pub list_invitations : Accounts (List Invitation)
list_invitations =
    query
      λ t. ok (sort_rows (λ (a b : Invitation). time_lt b.created_at a.created_at) t.invitations)

unfoldable pub record_use : ℕ → Str → Str → Accounts (Unit {0})
record_use now id user_id = execute (count_use now id user_id)

unfoldable pub revoke_invitation : ℕ → Str → Accounts (Unit {0})
revoke_invitation now id = execute (withdraw now id)

-- A number or a duration that is not positive is 0 here.
pub record CreateInvitationInput : Type 0 where
  pub created_by : Str
  pub role_id : Str
  pub max_uses : ℕ
  pub ttl : ℕ

pub record RedeemInvitationInput : Type 0 where
  pub token : Str
  pub username : Str
  pub display_name : Str
  pub email : Str
  pub password : Str

abbrev pub default_to : ℕ → ℕ → ℕ
default_to d n = if n == 0 then d else n

-- The row that `Create` inserts; `week` is seven days.
abbrev pub new_invitation : ℕ → ℕ → Str → Str → CreateInvitationInput → Invitation
new_invitation week now id hash input = record {
  id = id;
  token_hash = hash;
  created_by = input.created_by;
  role_id = input.role_id;
  max_uses = default_to 1 input.max_uses;
  use_count = 0;
  expires_at = now + default_to week input.ttl;
  created_at = now;
  used_at = none;
  used_by = [];
  revoked_at = none;
}

-- What `Redeem` asks of the new account.
abbrev pub invited : RedeemInvitationInput → Str → Invitation → CreateUserInput
invited input hash i = record {
  username = input.username;
  display_name = input.display_name;
  email = input.email;
  password_hash = hash;
  role = i.role_id;
  quota_bytes = none;
}

module _ (lib : Library) where
  -- `InvitationService.Create`
  unfoldable pub create_invitation : ℕ → ℕ → CreateInvitationInput → Accounts (Invitation × Str)
  create_invitation week now input = do
    token ← draw lib.new_token
    id ← draw λ n. ok (lib.new_id n)
    let i = new_invitation week now id (lib.hash_token token) input
    create_invitation_row i
    pure (i, token)

  -- The first half of `Redeem`: the invitation is found and may be used.
  unfoldable pub usable_invitation : ℕ → Str → Accounts Invitation
  usable_invitation now token = do
    i ← get_invitation_by_token_hash (lib.hash_token token)
    lift (is_usable now i)
    pure i

  -- The second half: the account, and the note of the use.
  unfoldable pub accept : ℕ → RedeemInvitationInput → Invitation → Accounts User
  accept now input i = do
    hash ← draw λ n. lib.hash_password n input.password
    u ← create_user lib now (invited input hash i)
    record_use now i.id u.id
    pure u

  -- `InvitationService.Redeem`
  unfoldable pub redeem : ℕ → RedeemInvitationInput → Accounts User
  redeem now input = do i ← usable_invitation now input.token; accept now input i
