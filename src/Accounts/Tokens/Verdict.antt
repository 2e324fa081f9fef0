-- ===== src/Accounts/Tokens/Verdict.antt =====
-- What `TokenService.Authenticate` answers, on every branch.
use nexuscloud.Base.{
  ℕ, ◌≡◌, refl, ◌∙◌, ap, not, ◌&&◌, ◌||◌, inl, inr, Bool-cases, Option, none, some, [], Str, str_eq,
  has_prefix, find_first, if◌then◌else◌,
}
use nexuscloud.Storage.Errors.{Result, ok, err, invalid_credentials}
use nexuscloud.Storage.Action.{attempt, lift, pure, reject_if, ◌>>=◌, ◌>>◌}
use nexuscloud.Storage.World.Calls.{bind-ok, bind-err}
use nexuscloud.Accounts.Model.{User, Token, is_active}
use nexuscloud.Accounts.World.{Library, Tables, World}
use nexuscloud.Accounts.World.Reading.{attempt-query-eq}
use nexuscloud.Accounts.Users.{user_has_id, or_user_not_found, get_user_by_id}
use nexuscloud.Accounts.Tokens.{
  token_has_hash, or_token_not_found, get_token_by_hash, token_prefix, hide_token, hide_user,
  note_use, authenticate, is_stale,
}

-- The owner of a token, if active and of that name.
abbrev pub owner_named : Str → Tables → Option Token → Option User
owner_named name t none = none
owner_named name t (some k) = elim (find_first (user_has_id k.user_id) t.users) [
  | none ↦ none
  | some u ↦ if is_active u && str_eq u.username name then some u else none
]

-- Whom these credentials stand for.
abbrev pub credentials_of : Library → Str → Str → Tables → Option User
credentials_of lib name plain t =
    if str_eq name [] || not (has_prefix plain token_prefix)
    then none
    else owner_named name t (find_first (token_has_hash (lib.hash_token plain)) t.tokens)

abbrev pub or_invalid : Option User → Result User
or_invalid none = err invalid_credentials
or_invalid (some u) = ok u

abbrev answer : Result User × World → Result User
answer x = x.0

module _ (lib : Library) (throttle now : ℕ) (name plain : Str) (w : World)
    (q : w.db_faults ≡ []) where
  noted : (k : Token) (u : User) → ((note_use lib throttle now k >> pure u) w).0 ≡ ok u
  unfolding note_use ◌>>=◌ attempt pure
  noted k u = elim (Bool-cases (is_stale throttle now k.last_used_at)) [
    | inl old ↦ rw old refl
    | inr new ↦ rw new refl
  ]

  with_user :
      (k : Token) (o : Option User)
      → ((do
        u ← lift (hide_user (or_user_not_found o))
        reject_if (not (is_active u) || not (str_eq u.username name)) invalid_credentials
        note_use lib throttle now k
        pure u)
          w).0
        ≡ or_invalid (elim o [
          | none ↦ none
          | some u ↦ if is_active u && str_eq u.username name then some u else none
        ])
  unfolding ◌>>=◌ lift reject_if
  with_user k none = refl
  with_user k (some u) = elim (Bool-cases (is_active u)) [
    | inl on ↦ elim (Bool-cases (str_eq u.username name)) [
      | inl same ↦ rw (on, same) (noted k u)
      | inr other ↦ rw (on, other) refl
    ]
    | inr off ↦ rw off refl
  ]

  with_token :
      (o : Option Token)
      → ((do
        k ← lift (hide_token (or_token_not_found o))
        owner ← attempt (get_user_by_id k.user_id)
        u ← lift (hide_user owner)
        reject_if (not (is_active u) || not (str_eq u.username name)) invalid_credentials
        note_use lib throttle now k
        pure u)
          w).0
        ≡ or_invalid (owner_named name w.tables o)
  unfolding lift get_user_by_id
  with_token none = ap answer (bind-err _ _ invalid_credentials w w refl)
  with_token (some k) =
      ap answer (bind-ok _ _ k w w refl ∙ bind-ok _ _ _ w w (attempt-query-eq _ w q))
      ∙ with_user k (find_first (user_has_id k.user_id) w.tables.users)

  -- While the database answers, credentials are accepted exactly if there is a token with that hash
  -- whose owner is active and has that name, and every other case is refused with one and the same
  -- error.
  pub authenticate-verdict :
      (authenticate lib throttle now name plain w).0
      ≡ or_invalid (credentials_of lib name plain w.tables)
  unfolding authenticate get_token_by_hash reject_if
  authenticate-verdict = elim (Bool-cases (str_eq name [] || not (has_prefix plain token_prefix))) [
    | inl bad ↦ rw bad (ap answer (bind-err _ _ invalid_credentials w w refl))
    | inr good ↦ rw good (
        ap answer (bind-ok _ _ tt w w refl ∙ bind-ok _ _ _ w w (attempt-query-eq _ w q))
        ∙ with_token (find_first (token_has_hash (lib.hash_token plain)) w.tables.tokens))
  ]
