-- ===== src/Storage/Shares.antt =====
-- nexuscloud/internal/storage/share_sql_repository.go over the table `shares`, with its primary key
-- `id`, and the table `user_groups`.
use nexuscloud.Base.{
  ℕ, Bool, true, false, Option, none, some, not, List, [], ◌∷◌, ◌++◌, Str, if◌then◌else◌, str_eq,
  any_of, find_first, select, ◌&&◌, ◌||◌, is_some,
}
use nexuscloud.Storage.Table.{update_row, sort_rows}
use nexuscloud.Storage.Table.Times.{time_lt}
use nexuscloud.Storage.Errors.{Result, ok, err, failed, share_not_found, unique_violation}
use nexuscloud.Storage.Model.{Share, user, group, link}
use nexuscloud.Storage.Action.{pure, ◌>>◌}
use nexuscloud.Storage.World.{Outside, Db, Service, query, execute}
use nexuscloud.Sharing.Lifecycle.{increment_row, is_revoked}

abbrev pub share_has_id : Str → Share → Bool
share_has_id id s = str_eq s.id id

-- `column = ?` for a column that may be NULL, which is the empty string here and equals nothing.
abbrev pub refers : Str → Str → Bool
refers column value = not (str_eq column []) && str_eq column value

abbrev pub share_has_token : Str → Share → Bool
share_has_token hash s = refers s.token_hash hash

-- `group_id IN (SELECT group_id FROM user_groups WHERE user_id = ?)`
unfoldable pub is_member : List (Str × Str) → Str → Str → Bool
is_member members user_id group_id = any_of (λ m. str_eq m.0 user_id && str_eq m.1 group_id) members

-- `share_type = 'user' AND … OR share_type = 'group' AND …`
unfoldable pub is_for : List (Str × Str) → Str → Share → Bool
unfolding is_member
is_for members user_id s = elim s.share_type [
  | user ↦ refers s.target_user_id user_id
  | group ↦ not (str_eq s.target_group_id []) && is_member members user_id s.target_group_id
  | link ↦ false
]

-- `revoked_at IS NULL AND (expires_at IS NULL OR expires_at > ?)`
unfoldable pub is_live : ℕ → Share → Bool
is_live now s =
    not (is_some s.revoked_at) && elim s.expires_at [ none ↦ true | some t ↦ time_lt now t ]

-- `hasFileAccessQuery`
unfoldable pub opens_file : List (Str × Str) → ℕ → Str → Str → Share → Bool
opens_file members now user_id file_id s =
    refers s.file_id file_id && (s.can_download && (is_live now s && is_for members user_id s))

-- `hasDirectoryAccessQuery`
unfoldable pub opens_directory : List (Str × Str) → ℕ → Str → Str → Share → Bool
opens_directory members now user_id directory_id s =
    refers s.directory_id directory_id
    && (s.can_download && (is_live now s && is_for members user_id s))

-- `uploadSharesForDirectoryQuery`
unfoldable pub opens_upload : List (Str × Str) → ℕ → Str → Str → Share → Bool
opens_upload members now user_id directory_id s =
    refers s.directory_id directory_id
    && (s.can_upload && (s.can_download && (is_live now s && is_for members user_id s)))

-- `ORDER BY created_at DESC`
abbrev created_later : Share → Share → Bool
created_later s t = time_lt t.created_at s.created_at

abbrev pub or_share_not_found : Option Share → Result Share
or_share_not_found none = err share_not_found
or_share_not_found (some s) = ok s

abbrev pub with_shares : Db → Result (List Share) → Result Db
with_shares d (ok ss) = ok (record d { shares = ss })
with_shares d (err e) = err e

-- Of file and folder exactly one is given, and no two shares have one token.
unfoldable pub insert_share : Share → List Share → Result (List Share)
insert_share new ss =
    if (str_eq new.file_id [] && str_eq new.directory_id [])
      || (not (str_eq new.file_id []) && not (str_eq new.directory_id []))
    then err failed
    else if any_of (share_has_id new.id) ss || any_of (share_has_token new.token_hash) ss
    then err unique_violation
    else ok (ss ++ (new ∷ []))

-- A share that is revoked already is as good as missing.
unfoldable pub revoke_rows : Str → ℕ → List Share → Result (List Share)
revoke_rows id now ss =
    if any_of (λ s. share_has_id id s && not (is_revoked s)) ss
    then ok (
        update_row (λ s. share_has_id id s && not (is_revoked s))
          (λ s. record s { revoked_at = some now; updated_at = now }) ss)
    else err share_not_found

-- Whether the row with this identifier lets one more download through, and the row after it.
unfoldable pub counted : Str → List Share → Bool
counted id ss = any_of (λ s. share_has_id id s && (increment_row s).1) ss

unfoldable pub count_download : Str → List Share → List Share
count_download id ss =
    update_row (λ s. share_has_id id s && (increment_row s).1) (λ s. (increment_row s).0) ss

module _ (o : Outside) where
  -- `CreateShare` of the repository
  unfoldable pub create_share_row : Share → Service o (Unit {0})
  create_share_row new = execute λ d. with_shares d (insert_share new d.shares)

  unfoldable pub get_share_by_id : Str → Service o Share
  get_share_by_id id = query λ d. or_share_not_found (find_first (share_has_id id) d.shares)

  unfoldable pub get_share_by_token_hash : Str → Service o Share
  get_share_by_token_hash hash =
      query λ d. or_share_not_found (find_first (share_has_token hash) d.shares)

  unfoldable pub list_shares_by_owner : Str → Service o (List Share)
  list_shares_by_owner owner = query λ d. ok (
      sort_rows created_later
        (select (λ s. str_eq s.owner_id owner && not (is_some s.revoked_at)) d.shares))

  unfoldable pub list_shares_for_user : Str → ℕ → Service o (List Share)
  list_shares_for_user user_id now = query λ d. ok (
      sort_rows created_later
        (select (λ s. is_live now s && is_for d.memberships user_id s) d.shares))

  unfoldable pub list_upload_shares_for_directory : Str → Str → ℕ → Service o (List Share)
  list_upload_shares_for_directory user_id directory_id now =
      query λ d. ok (select (opens_upload d.memberships now user_id directory_id) d.shares)

  unfoldable pub has_file_access : Str → Str → ℕ → Service o Bool
  has_file_access user_id file_id now =
      query λ d. ok (any_of (opens_file d.memberships now user_id file_id) d.shares)

  unfoldable pub has_directory_access : Str → Str → ℕ → Service o Bool
  has_directory_access user_id directory_id now =
      query λ d. ok (any_of (opens_directory d.memberships now user_id directory_id) d.shares)

  -- The statement and its count of rows: one call, of which the count is read on the rows before it.
  unfoldable pub increment_download_count : Str → Service o Bool
  increment_download_count id w =
      (do
        execute λ d. with_shares d (ok (count_download id d.shares))
        pure (counted id w.db.shares))
        w

  unfoldable pub revoke_share_row : Str → ℕ → Service o (Unit {0})
  revoke_share_row id now = execute λ d. with_shares d (revoke_rows id now d.shares)
