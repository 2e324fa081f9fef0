-- ===== src/Storage/Service/Access/Opens.antt =====
-- When a share lets a user download: the conditions of the queries `hasFileAccessQuery` and
-- `hasDirectoryAccessQuery` in terms of the row.
use nexuscloud.Base.{
  ◌≡◌, refl, subst, ap, ◌∙◌, ◌≤◌, ◌/◌, ℕ, true, false, not, ◌⊎◌, inl, inr, Option, none, some,
  is_some, List, [], Str, str_eq, str_eq-eq, ◌&&◌, &&_eq_true,
}
use nexuscloud.Storage.Table.Times.{second, time_lt, time_lt-le}
use nexuscloud.Storage.Table.Members.{IsRow, any_of-IsRow}
use nexuscloud.Storage.Model.{Share, ShareType, user, group, link}
use nexuscloud.Storage.Shares.{opens_file, opens_directory, is_live, is_for, is_member, refers}

-- The share is for the user, or for a group of which the user is a member.
abbrev pub IsAimedAt : List (Str × Str) → Str → Share → Type 0
IsAimedAt members u s =
    (s.share_type ≡ user) × (s.target_user_id ≡ u)
    ⊎ (s.share_type ≡ group) × IsRow (u, s.target_group_id) members

-- The share lets the user download at this time: it permits downloads, is not revoked, and has no
-- time of expiry or one that is not in an earlier second.
pub record LetsDownload (members : List (Str × Str)) (now : ℕ) (u : Str) (s : Share) : Type 0 where
  pub permits : s.can_download ≡ true
  pub not_revoked : s.revoked_at ≡ none
  pub not_expired : (t : ℕ) → s.expires_at ≡ some t → now / second ≤ t / second
  pub aimed : IsAimedAt members u s

module _ (members : List (Str × Str)) (now : ℕ) (u : Str) (s : Share) where
  is_member-IsRow : (g : Str) → is_member members u g ≡ true → IsRow (u, g) members
  unfolding is_member
  is_member-IsRow g h =
      let (m, r, q) = any_of-IsRow (λ m. str_eq m.0 u && str_eq m.1 g) members h in
      let (e1, e2) = &&_eq_true _ _ q in
      subst (λ x. IsRow x members)
        (ap (λ a. (a, m.1)) (str_eq-eq _ _ e1) ∙ ap (λ b. (u, b)) (str_eq-eq _ _ e2)) r

  is_for-IsAimedAt : is_for members u s ≡ true → IsAimedAt members u s
  unfolding is_for
  is_for-IsAimedAt = aimed s.share_type refl
    where
      aimed :
          (t : ShareType)
          → s.share_type ≡ t
          → elim t [
            | user ↦ refers s.target_user_id u
            | group ↦ not (str_eq s.target_group_id []) && is_member members u s.target_group_id
            | link ↦ false
          ]
            ≡ true
          → IsAimedAt members u s
      aimed user e h = inl (e, str_eq-eq _ _ (&&_eq_true _ _ h).1)
      aimed group e h = inr (e, is_member-IsRow s.target_group_id (&&_eq_true _ _ h).1)
      aimed link e h = cc

  not_revoked_lem : (r : Option ℕ) → not (is_some r) ≡ true → r ≡ none
  not_revoked_lem none h = refl
  not_revoked_lem (some t) h = cc

  not_expired_lem :
      (r : Option ℕ) (t : ℕ)
      → elim r [ none ↦ true | some x ↦ time_lt now x ] ≡ true
      → r ≡ some t
      → now / second ≤ t / second
  not_expired_lem none t h e = cc
  not_expired_lem (some x) t h e =
      time_lt-le now t (subst (λ y. time_lt now y ≡ true) (some_injective e) h)
    where
      some_injective : some x ≡ some t → x ≡ t
      some_injective k = cc

  lets :
      (s.can_download && (is_live now s && is_for members u s)) ≡ true
      → LetsDownload members now u s
  unfolding is_live
  lets h =
      let (c, k) = &&_eq_true _ _ h in
      let (l, a) = &&_eq_true _ _ k in
      let (v, x) = &&_eq_true _ _ l in
      record {
        permits = c;
        not_revoked = not_revoked_lem s.revoked_at v;
        not_expired = λ t e. not_expired_lem s.expires_at t x e;
        aimed = is_for-IsAimedAt a;
      }

  pub opens_file-LetsDownload :
      (id : Str)
      → opens_file members now u id s ≡ true
      → (s.file_id ≡ id) × LetsDownload members now u s
  unfolding opens_file
  opens_file-LetsDownload id h =
      let (r, k) = &&_eq_true _ _ h in (str_eq-eq _ _ (&&_eq_true _ _ r).1, lets k)

  pub opens_directory-LetsDownload :
      (id : Str)
      → opens_directory members now u id s ≡ true
      → (s.directory_id ≡ id) × LetsDownload members now u s
  unfolding opens_directory
  opens_directory-LetsDownload id h =
      let (r, k) = &&_eq_true _ _ h in (str_eq-eq _ _ (&&_eq_true _ _ r).1, lets k)
