-- ===== src/Accounts/Authenticator/Visit.antt =====
-- Whom `Authenticator.ValidateToken` lets pass.
use nexuscloud.Base.{
  ℕ, ◌<◌, ◌≡◌, refl, true, not, Option, none, some, is_some, Str, str_eq-eq, find_first, &&_eq_true,
  not_eq_false, ltb→lt,
}
use nexuscloud.Storage.Errors.{ok}
use nexuscloud.Storage.Table.Members.{IsRow, find_first-IsRow}
use nexuscloud.Storage.Action.Reads.{
  Leads, Reads-reject_if, Leads-bind, Leads-then, Leads-any, Leads-pure,
}
use nexuscloud.Accounts.Model.{User, Session, is_active, session_is_valid}
use nexuscloud.Accounts.World.{Library, Tables, World}
use nexuscloud.Accounts.World.Reading.{tables_of, Reads-query}
use nexuscloud.Accounts.Users.{user_has_id, get_user_by_id}
use nexuscloud.Accounts.Sessions.{session_has_hash, or_session_not_found, get_session_by_token_hash}
use nexuscloud.Accounts.Authenticator.{validate_token}
use nexuscloud.Accounts.Authenticator.Login.{or_user_not_found-eq_ok}

-- A user and a session that a token stands for at this time, in the tables `t`.
pub record Visits (lib : Library) (now : ℕ) (token : Str) (t : Tables) (r : User × Session)
    : Type 0 where
  pub found : find_first (session_has_hash (lib.hash_token token)) t.sessions ≡ some r.1
  pub not_revoked : r.1.revoked_at ≡ none
  pub not_expired : now < r.1.expires_at
  pub known : IsRow r.0 t.users
  pub owner : r.0.id ≡ r.1.user_id
  pub active : is_active r.0 ≡ true

or_session_not_found-eq_ok :
    (r : Option Session) (s : Session) → or_session_not_found r ≡ ok s → r ≡ some s
or_session_not_found-eq_ok none s h = cc
or_session_not_found-eq_ok (some x) s h = cc

none_of : (r : Option ℕ) → not (is_some r) ≡ true → r ≡ none
none_of none h = refl
none_of (some t) h = cc

valid_parts :
    (now : ℕ) (s : Session)
    → session_is_valid now s ≡ true
    → (s.revoked_at ≡ none) × (now < s.expires_at)
unfolding session_is_valid
valid_parts now s h =
    let (a, b) = &&_eq_true _ _ h in (none_of s.revoked_at a, ltb→lt now s.expires_at b)

-- A token that passes is that of a session which is neither revoked nor expired, and whose user is
-- active.
pub validate_token-Visits :
    (lib : Library) (now : ℕ) (token : Str) (w : World) (r : User × Session)
    → (validate_token lib now token w).0 ≡ ok r
    → Visits lib now token w.tables r
unfolding validate_token get_session_by_token_hash get_user_by_id
validate_token-Visits lib now token w r h = visit.gives w refl r h
  where
    visit :
        Leads tables_of w.tables
          (λ r _. Visits lib now token w.tables r)
          (validate_token lib now token)
    visit = Leads-bind _ _ (Reads-query _) λ sess at_hash.
        Leads-bind _ _ (Reads-reject_if _ _) λ _ in_time. Leads-bind _ _ (Reads-query _) λ u at_id.
          Leads-bind _ _ (Reads-reject_if _ _) λ _ on. Leads-then _ _ (Leads-any _) λ _ s _.
            let (revoked, expires) = valid_parts now sess (not_eq_false _ in_time) in
            let (row, id) =
              find_first-IsRow (user_has_id sess.user_id) w.tables.users u
                (or_user_not_found-eq_ok _ u at_id) in
            Leads-pure (u, sess)
              (record {
                found = or_session_not_found-eq_ok _ sess at_hash;
                not_revoked = revoked;
                not_expired = expires;
                known = row;
                owner = str_eq-eq _ _ id;
                active = not_eq_false _ on;
              })
