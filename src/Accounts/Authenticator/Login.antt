-- ===== src/Accounts/Authenticator/Login.antt =====
-- Who is let in by `Authenticator.Login`.
use nexuscloud.Base.{
  ℕ, ◌≡◌, refl, sym, ◌∙◌, ap, Bool, true, false, not, Option, none, some, List, [], ◌∷◌, Str,
  str_eq, str_eq-eq, select, any_of, if◌then◌else◌, Bool-cases, inl, inr, subst, not_eq_false,
}
use nexuscloud.Storage.Errors.{
  Result, ok, err, user_not_found, totp_required, totp_invalid, if_err_eq_ok,
}
use nexuscloud.Storage.Table.{sort_rows, insert_row}
use nexuscloud.Storage.Table.Members.{IsRow, find_first-IsRow, IsRow-append}
use nexuscloud.Storage.Action.Reads.{
  Reads, Leads, Reads-pure, Reads-if, Reads-weaken, Reads-attempt, Reads-lift, Reads-reject_if,
  Reads-bind, Leads-bind, Leads-then, Leads-pure, Leads-weaken, ok_injective,
}
use nexuscloud.Accounts.Model.{User, Session, WebAuthnCredential, is_active, has_totp}
use nexuscloud.Accounts.World.{Library, Tables, World}
use nexuscloud.Accounts.World.Reading.{tables_of, Reads-query, Reads-draw, Leads-execute}
use nexuscloud.Accounts.Users.{
  user_has_name, or_user_not_found, get_user_by_username, with_users, update_user,
}
use nexuscloud.Accounts.Sessions.{insert_session, create_session, list_credentials_for_user}
use nexuscloud.Accounts.Authenticator.{
  LoginResult, hide_missing, is_empty, verify_password_of, check_totp, check_passkeys,
  complete_login, login, new_session,
}

-- The user of a successful login with this name, password and code, in the tables `t` before it,
-- and the session that it leaves in the tables `s`.
pub record LetsIn (lib : Library) (webauthn : Bool) (username password code : Str) (t : Tables)
    (r : LoginResult) (s : Tables) : Type 0 where
  pub user : User
  pub known : IsRow user t.users
  pub named : user.username ≡ username
  pub active : is_active user ≡ true
  pub proved : lib.verify_password password user.password_hash ≡ true
  pub no_passkey :
      webauthn ≡ true
      → any_of (λ (c : WebAuthnCredential). str_eq c.user_id user.id) t.credentials ≡ false
  pub second_factor : has_totp user ≡ true → lib.validate_totp code user.totp_secret ≡ true
  pub same_user : r.user.id ≡ user.id
  pub own_session : r.session.user_id ≡ user.id
  pub hashed : r.session.token_hash ≡ lib.hash_token r.token
  pub stored : IsRow r.session s.sessions

hide_missing-eq_ok : (r : Result User) (u : User) → hide_missing r ≡ ok u → r ≡ ok u
hide_missing-eq_ok (ok v) u h = h
hide_missing-eq_ok (err user_not_found) u h = cc
hide_missing-eq_ok (err e) u h = cc

is_empty-insert_row :
    (before : WebAuthnCredential → WebAuthnCredential → Bool) (c : WebAuthnCredential)
    (cs : List WebAuthnCredential)
    → is_empty (insert_row before c cs) ≡ false
unfolding insert_row
is_empty-insert_row before c [] = refl
is_empty-insert_row before c (d ∷ cs) = elim (Bool-cases (before d c)) [
  | inl e ↦ rw e refl
  | inr e ↦ rw e refl
]

is_empty-sort_rows :
    (before : WebAuthnCredential → WebAuthnCredential → Bool) (p : WebAuthnCredential → Bool)
    (cs : List WebAuthnCredential)
    → is_empty (sort_rows before (select p cs)) ≡ true
    → any_of p cs ≡ false
unfolding sort_rows
is_empty-sort_rows before p [] h = refl
is_empty-sort_rows before p (c ∷ cs) h = elim (Bool-cases (p c)) [
  | inl e ↦ absurd (
      contradicts (
        sym (is_empty-insert_row before c (sort_rows before (select p cs)))
        ∙ subst
            (λ b. is_empty (sort_rows before (if b then c ∷ select p cs else select p cs)) ≡ true) e
            h))
  | inr e ↦ rw e (
      is_empty-sort_rows before p cs (
        subst (λ b. is_empty (sort_rows before (if b then c ∷ select p cs else select p cs)) ≡ true)
          e h))
]
  where
    contradicts : false ≡ true → ⊥
    contradicts k = cc

pub or_user_not_found-eq_ok : (r : Option User) (u : User) → or_user_not_found r ≡ ok u → r ≡ some u
or_user_not_found-eq_ok none u h = cc
or_user_not_found-eq_ok (some v) u h = cc

-- An update of users leaves the sessions alone.
with_users-sessions :
    (t : Tables) (r : Result (List User)) (s : Tables)
    → with_users t r ≡ ok s
    → s.sessions ≡ t.sessions
with_users-sessions t (ok us) s h = ap (λ (x : Tables). x.sessions) (sym (ok_injective h))
with_users-sessions t (err e) s h = cc

module _ (lib : Library) (t : Tables) where
  -- The user whose name and password these are.
  abbrev Proved : Str → Str → User → Type 0
  Proved username password u =
      IsRow u t.users
      × (u.username ≡ username)
      × (is_active u ≡ true)
      × (lib.verify_password password u.password_hash ≡ true)

  pub verify_password_of-Reads :
      (username password : Str)
      → Reads tables_of t (Proved username password) (verify_password_of lib username password)
  unfolding verify_password_of get_user_by_username
  verify_password_of-Reads username password =
      Reads-bind _ _ (Reads-attempt _ (Reads-query _)) λ found known.
        Reads-bind _ _ (Reads-lift _) λ u shown. Reads-bind _ _ (Reads-reject_if _ _) λ _ on.
          Reads-bind _ _ (Reads-reject_if _ _) λ _ good.
            let (row, name) =
              find_first-IsRow (user_has_name username) t.users u
                (or_user_not_found-eq_ok _ u (known u (hide_missing-eq_ok found u shown))) in
            Reads-pure u (row, str_eq-eq _ _ name, not_eq_false _ on, not_eq_false _ good)

  check_passkeys-Reads :
      (webauthn : Bool) (u : User)
      → Reads tables_of t
          (λ _.
            webauthn ≡ true
            → any_of (λ (c : WebAuthnCredential). str_eq c.user_id u.id) t.credentials ≡ false)
          (check_passkeys lib webauthn u)
  unfolding check_passkeys list_credentials_for_user
  check_passkeys-Reads webauthn u =
      Reads-if (not webauthn) _ _ (λ off. Reads-pure tt (λ e. cc))
        (λ on. Reads-bind _ _ (Reads-query _) λ creds e.
          Reads-weaken _
            (λ _ none_left _.
              is_empty-sort_rows _ _ t.credentials
                (ap is_empty (ok_injective e) ∙ not_eq_false _ none_left))
            (Reads-reject_if _ _))

  -- A login without a code that fits fails, for a user who has a secret.
  check_totp-ok :
      (u : User) (code : Str) (a : Unit {0})
      → check_totp lib u code ≡ ok a
      → has_totp u ≡ true
      → lib.validate_totp code u.totp_secret ≡ true
  unfolding check_totp
  check_totp-ok u code a h e = given (str_eq code []) (lib.validate_totp code u.totp_secret) (
      subst
        (λ b.
          (if not b
            then ok tt
            else if str_eq code []
            then err totp_required
            else if not (lib.validate_totp code u.totp_secret)
            then err totp_invalid
            else ok tt)
          ≡ ok a)
        e h)
    where
      given :
          (c d : Bool)
          → (if c then err totp_required else if not d then err totp_invalid else ok tt) ≡ ok a
          → d ≡ true
      given true d k = cc
      given false true k = refl
      given false false k = cc

  -- What `completeLogin` leaves.
  abbrev Completed : User → LoginResult → Tables → Type 0
  Completed u r s =
      (r.user.id ≡ u.id)
      × (r.session.user_id ≡ u.id)
      × (r.session.token_hash ≡ lib.hash_token r.token)
      × IsRow r.session s.sessions

  insert_session-IsRow :
      (new : Session) (s : Tables) → insert_session new t ≡ ok s → IsRow new s.sessions
  unfolding insert_session
  insert_session-IsRow new s h =
      let (_, same) = if_err_eq_ok _ _ s _ h in
      subst (λ (x : Tables). IsRow new x.sessions) same (IsRow-append t.sessions new)

  complete_login-Leads :
      (now ttl : ℕ) (u : User) (device ip : Str)
      → Leads tables_of t (Completed u) (complete_login lib now ttl u device ip)
  unfolding complete_login create_session update_user
  complete_login-Leads now ttl u device ip = Leads-bind _ _ (Reads-draw _) λ token _.
      Leads-bind _ _ (Reads-draw _) λ id _. Leads-then _ _ (Leads-execute _) λ _ s stored.
        Leads-then _ _ (Leads-execute _) λ _ s' changed. Leads-pure _ (
          refl,
          refl,
          refl,
          subst (λ ss. IsRow (new_session lib now ttl u device ip token id) ss)
              (sym (with_users-sessions s _ s' changed)) (insert_session-IsRow _ s stored),
        )

-- Whoever is let in has the name and the password of an active user, the second factor where the
-- user has a secret, and no passkey where passkeys are in use; the session that is stored is the
-- user's, under the hash of the token that is returned.
pub login-LetsIn :
    (lib : Library) (webauthn : Bool) (now ttl : ℕ) (username password code device ip : Str)
    (w : World) (r : LoginResult)
    → (login lib webauthn now ttl username password code device ip w).0 ≡ ok r
    → LetsIn lib webauthn username password code w.tables r
        (login lib webauthn now ttl username password code device ip w).1.tables
unfolding login
login-LetsIn lib webauthn now ttl username password code device ip w r h =
    (login-Leads).gives w refl r h
  where
    login-Leads :
        Leads tables_of w.tables
          (LetsIn lib webauthn username password code w.tables)
          (login lib webauthn now ttl username password code device ip)
    login-Leads =
        Leads-bind _ _ (verify_password_of-Reads lib w.tables username password)
          λ u (known, named, active, proved).
            Leads-bind _ _ (check_passkeys-Reads lib w.tables webauthn u) λ _ no_passkey.
              Leads-bind _ _ (Reads-lift _) λ a passed.
                Leads-weaken _
                  (λ r s done. record {
                    user = u;
                    known = known;
                    named = named;
                    active = active;
                    proved = proved;
                    no_passkey = no_passkey;
                    second_factor = check_totp-ok lib w.tables u code a passed;
                    same_user = done.0;
                    own_session = done.1;
                    hashed = done.2;
                    stored = done.3;
                  })
                  (complete_login-Leads lib w.tables now ttl u device ip)
