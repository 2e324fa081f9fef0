-- ===== src/Sharing/Lifecycle.antt =====
-- The life of a share: `Share.checkLifecycle` of nexuscloud/internal/storage/share.go, and the
-- counter of downloads of share_sql_repository.go.
use nexuscloud.Base.{
  ℕ, zero, suc, ◌+◌, ◌-◌, min, ◌≤◌, ◌<◌, ◌≡◌, ◌↔◌, inl, inr, Bool, true, false, none, some, not,
  is_some, ltb, leb, arith, if◌then◌else◌, str_eq, [], Option-cases, Bool-cases, ltb→lt,
}
use nexuscloud.Storage.Errors.{Result, ok, err, share_revoked, share_expired, share_exhausted}
use nexuscloud.Storage.Model.{Share}

unfoldable pub is_directory_share : Share → Bool
is_directory_share s = not (str_eq s.directory_id [])

unfoldable pub has_password : Share → Bool
has_password s = not (str_eq s.password_hash [])

unfoldable pub is_revoked : Share → Bool
is_revoked s = is_some s.revoked_at

-- `now.After(*s.ExpiresAt)`
unfoldable pub is_expired : ℕ → Share → Bool
is_expired now s = elim s.expires_at [ none ↦ false | some t ↦ ltb t now ]

unfoldable pub is_exhausted : Share → Bool
is_exhausted s = elim s.max_downloads [ none ↦ false | some m ↦ leb m s.download_count ]

unfoldable pub check_lifecycle : ℕ → Share → Result (Unit {0})
unfolding is_revoked is_expired is_exhausted
check_lifecycle now s =
    if is_revoked s
    then err share_revoked
    else if is_expired now s
    then err share_expired
    else if is_exhausted s
    then err share_exhausted
    else ok tt

-- The row of the `UPDATE` in `IncrementDownloadCount`: the new row, and whether the `WHERE` held.
unfoldable pub increment_row : Share → Share × Bool
increment_row s = elim s.max_downloads [
  | none ↦ (record s { download_count = s.download_count + 1 }, true)
  | some m ↦
      if ltb s.download_count m
      then (record s { download_count = s.download_count + 1 }, true)
      else (s, false)
]

-- Many downloads at once, in the order in which the database takes their updates: how many of them
-- were let through.
unfoldable pub download_many : ℕ → Share → Share × ℕ
download_many zero s = (s, 0)
download_many (suc n) s =
    let (s', done) = increment_row s in
    let (s'', k) = download_many n s' in (s'', if done then suc k else k)

-- A share is open when it is not revoked, not past its time, and has a download left.
pub record IsOpen (now : ℕ) (s : Share) : Type 0 where
  pub not_revoked : s.revoked_at ≡ none
  pub not_expired : (t : ℕ) → s.expires_at ≡ some t → now ≤ t
  pub not_exhausted : (m : ℕ) → s.max_downloads ≡ some m → s.download_count < m

check_lifecycle-IsOpen : (now : ℕ) (s : Share) → check_lifecycle now s ≡ ok tt → IsOpen now s
unfolding check_lifecycle
check_lifecycle-IsOpen now s e = record {
  not_revoked = ground arith;
  not_expired = λ t h. ground arith;
  not_exhausted = λ m h. ground arith;
}

IsOpen-check_lifecycle : (now : ℕ) (s : Share) → IsOpen now s → check_lifecycle now s ≡ ok tt
unfolding check_lifecycle
IsOpen-check_lifecycle now s h = elim (Option-cases s.expires_at) [
  | inl e ↦ elim (Option-cases s.max_downloads) [
    | inl e' ↦ ground (arith, h.not_revoked)
    | inr (m, e') ↦ ground (arith, h.not_revoked, h.not_exhausted m e')
  ]
  | inr (t, e) ↦ elim (Option-cases s.max_downloads) [
    | inl e' ↦ ground (arith, h.not_revoked, h.not_expired t e)
    | inr (m, e') ↦ ground (arith, h.not_revoked, h.not_expired t e, h.not_exhausted m e')
  ]
]

-- `check_lifecycle` lets a share pass exactly if it is open: not revoked, not past its time, and with
-- a download left.
pub check_lifecycle_iff : (now : ℕ) (s : Share) → (check_lifecycle now s ≡ ok tt) ↔ IsOpen now s
check_lifecycle_iff now s = (check_lifecycle-IsOpen now s, IsOpen-check_lifecycle now s)

increment_row_room :
    (m : ℕ) (s : Share)
    → s.max_downloads ≡ some m
    → ltb s.download_count m ≡ true
    → increment_row s ≡ (record s { download_count = s.download_count + 1 }, true)
unfolding increment_row
increment_row_room m s e h = ground arith

increment_row_full :
    (m : ℕ) (s : Share)
    → s.max_downloads ≡ some m
    → ltb s.download_count m ≡ false
    → increment_row s ≡ (s, false)
unfolding increment_row
increment_row_full m s e h = ground arith

-- A share with a limit lets through exactly the downloads that are left, however many are tried,
-- and its counter never passes the limit.
pub download_many-limit :
    (n m : ℕ) (s : Share)
    → s.max_downloads ≡ some m
    → s.download_count ≤ m
    → let (s', k) = download_many n s in
      (s'.download_count ≡ s.download_count + k)
      × (s'.download_count ≤ m)
      × (k ≡ min n (m - s.download_count))
unfolding download_many
download_many-limit zero m s e h = (omega arith, h, omega arith)
download_many-limit (suc n) m s e h = elim (Bool-cases (ltb s.download_count m)) [
  | inl room ↦
      let below : s.download_count + 1 ≤ m = omega (arith, ltb→lt s.download_count m room) in
      rw (increment_row_room m s e room) (
        omega (
          arith,
          below,
          download_many-limit n m (record s { download_count = s.download_count + 1 }) e below,
        ))
  | inr full ↦
      rw (increment_row_full m s e full)
        (omega (arith, not_lt _ _ full, download_many-limit n m s e h))
]
  where
    not_lt : (a b : ℕ) → ltb a b ≡ false → b ≤ a
    not_lt a b h = ground arith
