-- ===== src/Accounts/Sessions.antt =====
-- nexuscloud/internal/auth/session_repository.go over the table `sessions`, with its keys `id` and
-- `token_hash`, and the lists of passkeys of webauthn_repository.go.
use nexuscloud.Base.{
  ℕ, Bool, not, Option, none, some, List, [], ◌∷◌, ◌++◌, ◌-◌, map, Str, if◌then◌else◌, str_eq,
  any_of, find_first, select, length, is_some, ◌&&◌, ◌||◌,
}
use nexuscloud.Storage.Table.{update_row, sort_rows}
use nexuscloud.Storage.Table.Times.{time_lt}
use nexuscloud.Storage.Errors.{Result, ok, err, failed, session_not_found}
use nexuscloud.Storage.Action.{pure, ◌>>◌}
use nexuscloud.Accounts.Model.{Session, WebAuthnCredential}
use nexuscloud.Accounts.World.{Tables, Accounts, query, execute}
use nexuscloud.Accounts.Users.{user_has_id}

abbrev pub session_has_id : Str → Session → Bool
session_has_id id s = str_eq s.id id

abbrev pub session_has_hash : Str → Session → Bool
session_has_hash hash s = str_eq s.token_hash hash

abbrev pub or_session_not_found : Option Session → Result Session
or_session_not_found none = err session_not_found
or_session_not_found (some s) = ok s

-- `INSERT INTO sessions`: the keys are new and the user exists.
unfoldable pub insert_session : Session → Tables → Result Tables
insert_session new t =
    if any_of (session_has_id new.id) t.sessions
      || (any_of (session_has_hash new.token_hash) t.sessions
          || not (any_of (user_has_id new.user_id) t.users))
    then err failed
    else ok (record t { sessions = t.sessions ++ (new ∷ []) })

-- `id = ? AND user_id = ? AND revoked_at IS NULL`
abbrev pub is_open_session : Str → Str → Session → Bool
is_open_session id user_id s =
    session_has_id id s && (str_eq s.user_id user_id && not (is_some s.revoked_at))

abbrev pub revoke_at : ℕ → Session → Session
revoke_at now s = record s { revoked_at = some now }

unfoldable pub revoke_one : ℕ → Str → Str → Tables → Result Tables
revoke_one now id user_id t =
    if any_of (is_open_session id user_id) t.sessions
    then ok
        (record t { sessions = update_row (is_open_session id user_id) (revoke_at now) t.sessions })
    else err session_not_found

-- Every open session of the user.
abbrev pub revoke_if_of : ℕ → Str → Session → Session
revoke_if_of now user_id s =
    if str_eq s.user_id user_id && not (is_some s.revoked_at) then revoke_at now s else s

unfoldable pub revoke_all : ℕ → Str → List Session → List Session
revoke_all now user_id ss = map (revoke_if_of now user_id) ss

unfoldable pub create_session : Session → Accounts (Unit {0})
create_session new = execute (insert_session new)

unfoldable pub get_session_by_token_hash : Str → Accounts Session
get_session_by_token_hash hash =
    query λ t. or_session_not_found (find_first (session_has_hash hash) t.sessions)

unfoldable pub list_sessions_for_user : Str → Accounts (List Session)
list_sessions_for_user user_id = query λ t. ok (
    sort_rows (λ (a b : Session). time_lt b.last_seen_at a.last_seen_at)
      (select (λ (s : Session). str_eq s.user_id user_id) t.sessions))

abbrev pub seen_at : ℕ → Session → Session
seen_at now s = record s { last_seen_at = now }

unfoldable pub touch_session : ℕ → Str → Accounts (Unit {0})
touch_session now id =
    execute
      λ t. ok (record t { sessions = update_row (session_has_id id) (seen_at now) t.sessions })

unfoldable pub revoke_session : ℕ → Str → Str → Accounts (Unit {0})
revoke_session now id user_id = execute (revoke_one now id user_id)

unfoldable pub revoke_all_for_user : ℕ → Str → Accounts (Unit {0})
revoke_all_for_user now user_id =
    execute λ t. ok (record t { sessions = revoke_all now user_id t.sessions })

abbrev pub outlives : ℕ → Session → Bool
outlives before s = not (time_lt s.expires_at before)

-- The statement and its count of rows: one call, of which the count is read on the rows before it.
unfoldable pub delete_expired_sessions : ℕ → Accounts ℕ
delete_expired_sessions before w =
    (do
      execute λ t. ok (record t { sessions = select (outlives before) t.sessions })
      pure (length w.tables.sessions - length (select (outlives before) w.tables.sessions)))
      w

-- `ListCredentialsForUser` of the passkeys
unfoldable pub list_credentials_for_user : Str → Accounts (List WebAuthnCredential)
list_credentials_for_user user_id = query λ t. ok (
    sort_rows (λ (a b : WebAuthnCredential). time_lt a.created_at b.created_at)
      (select (λ (c : WebAuthnCredential). str_eq c.user_id user_id) t.credentials))
