-- ===== src/Accounts/Tokens.antt =====
-- The tokens of WebDAV clients: nexuscloud/internal/webdav/token.go and token_repository.go over the
-- table `webdav_tokens`, with its keys `id` and `token_hash`.
pub mod Verdict
use nexuscloud.Base.{
  ℕ, ◌+◌, ◌-◌, Bool, true, false, not, Option, none, some, List, [], ◌∷◌, ◌++◌, Str, str,
  if◌then◌else◌, str_eq, any_of, find_first, select, length, ltb, leb, has_prefix, ◌&&◌, ◌||◌,
}
use nexuscloud.GoText.Unicode.{trim_space, rune_count}
use nexuscloud.Storage.Table.{update_row, delete_row, sort_rows}
use nexuscloud.Storage.Table.Times.{time_lt}
use nexuscloud.Storage.Errors.{
  Error, Result, ok, err, failed, user_not_found, token_not_found, invalid_credentials,
  invalid_label,
}
use nexuscloud.Storage.Action.{pure, lift, attempt, reject_if, ◌>>=◌, ◌>>◌}
use nexuscloud.Accounts.Model.{User, Token, is_active}
use nexuscloud.Accounts.World.{Library, Tables, Accounts, query, execute, draw}
use nexuscloud.Accounts.Users.{user_has_id, get_user_by_id}

abbrev pub token_has_id : Str → Token → Bool
token_has_id id k = str_eq k.id id

abbrev pub token_has_hash : Str → Token → Bool
token_has_hash hash k = str_eq k.token_hash hash

abbrev pub or_token_not_found : Option Token → Result Token
or_token_not_found none = err token_not_found
or_token_not_found (some k) = ok k

-- `INSERT INTO webdav_tokens`: the keys are new and the user exists.
unfoldable pub insert_token : Token → Tables → Result Tables
insert_token new t =
    if any_of (token_has_id new.id) t.tokens
      || (any_of (token_has_hash new.token_hash) t.tokens
          || not (any_of (user_has_id new.user_id) t.users))
    then err failed
    else ok (record t { tokens = t.tokens ++ (new ∷ []) })

-- `id = ? AND user_id = ?`
abbrev pub is_token_of : Str → Str → Token → Bool
is_token_of id user_id k = token_has_id id k && str_eq k.user_id user_id

unfoldable pub drop_token : Str → Str → Tables → Result Tables
drop_token id user_id t =
    if any_of (is_token_of id user_id) t.tokens
    then ok (record t { tokens = delete_row (is_token_of id user_id) t.tokens })
    else err token_not_found

abbrev pub token_used_at : ℕ → Token → Token
token_used_at now k = record k { last_used_at = some now }

-- `CreateToken` of the repository
unfoldable pub create_token_row : Token → Accounts (Unit {0})
create_token_row new = execute (insert_token new)

unfoldable pub get_token_by_hash : Str → Accounts Token
get_token_by_hash hash = query λ t. or_token_not_found (find_first (token_has_hash hash) t.tokens)

unfoldable pub list_tokens_for_user : Str → Accounts (List Token)
list_tokens_for_user user_id = query λ t. ok (
    sort_rows (λ (a b : Token). time_lt a.created_at b.created_at)
      (select (λ (k : Token). str_eq k.user_id user_id) t.tokens))

unfoldable pub touch_token : ℕ → Str → Accounts (Unit {0})
touch_token now id =
    execute
      λ t. ok (record t { tokens = update_row (token_has_id id) (token_used_at now) t.tokens })

unfoldable pub revoke_token : Str → Str → Accounts (Unit {0})
revoke_token id user_id = execute (drop_token id user_id)

abbrev pub token_prefix : Str
token_prefix = str "nwd_"

abbrev pub or_webdav : Str → Str
or_webdav label = if str_eq label [] then str "WebDAV" else label

-- An error that means wrong credentials is told as such, whichever it is.
abbrev pub hide_token : Result Token → Result Token
hide_token (ok k) = ok k
hide_token (err token_not_found) = err invalid_credentials
hide_token (err e) = err e

abbrev pub hide_user : Result User → Result User
hide_user (ok u) = ok u
hide_user (err user_not_found) = err invalid_credentials
hide_user (err e) = err e

-- `lastUsedThrottle` has passed; a clock that went back counts as no time.
abbrev pub is_stale : ℕ → ℕ → Option ℕ → Bool
is_stale throttle now none = true
is_stale throttle now (some t) = leb throttle (now - t)

module _ (lib : Library) where
  -- `TokenService.Create`
  unfoldable pub create_token : ℕ → Str → Str → Accounts (Token × Str)
  create_token now user_id label = do
    let name = or_webdav (trim_space label)
    reject_if (ltb 100 (rune_count name)) invalid_label
    secret ← draw lib.new_token
    let plain : Str = token_prefix ++ secret
    id ← draw λ n. ok (lib.new_id n)
    let k : Token = record {
      id = id;
      user_id = user_id;
      token_hash = lib.hash_token plain;
      label = name;
      created_at = now;
      last_used_at = none;
    }
    create_token_row k
    pure (k, plain)

  -- The note of the last use, at most one in each `throttle`; a failure of it is no failure.
  unfoldable pub note_use : ℕ → ℕ → Token → Accounts (Unit {0})
  note_use throttle now k =
      if not (is_stale throttle now k.last_used_at)
      then pure tt
      else do attempt (touch_token now k.id); pure tt

  -- `TokenService.Authenticate`
  unfoldable pub authenticate : ℕ → ℕ → Str → Str → Accounts User
  authenticate throttle now username plain = do
    reject_if (str_eq username [] || not (has_prefix plain token_prefix)) invalid_credentials
    found ← attempt (get_token_by_hash (lib.hash_token plain))
    k ← lift (hide_token found)
    owner ← attempt (get_user_by_id k.user_id)
    u ← lift (hide_user owner)
    reject_if (not (is_active u) || not (str_eq u.username username)) invalid_credentials
    note_use throttle now k
    pure u
