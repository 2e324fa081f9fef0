-- ===== src/Accounts/Requests/LoggedOut.antt =====
-- After a logout the token is worth nothing, whatever is asked of the accounts afterwards.
use nexuscloud.Base.{
  ℕ, ◌≤◌, ◌≡◌, refl, subst, Bool, true, false, not, is_some, Option, none, some, List, Str,
  find_first, arith, ◌&&◌,
}
use nexuscloud.Storage.Errors.{ok, if_eq_ok}
use nexuscloud.Storage.Table.{distinct}
use nexuscloud.Storage.Table.Members.{find_first-IsRow, IsRow-any_of}
use nexuscloud.Accounts.Model.{Session, User}
use nexuscloud.Accounts.World.{Library, Tables, World}
use nexuscloud.Accounts.World.Reading.{Leads-execute}
use nexuscloud.Accounts.World.Invariants.{Keeps-execute}
use nexuscloud.Accounts.Sessions.{revoke_one, session_has_hash, revoke_session}
use nexuscloud.Accounts.Authenticator.{validate_token, logout}
use nexuscloud.Accounts.Authenticator.Visit.{validate_token-Visits}
use nexuscloud.Accounts.Requests.{Policy, Request, serve_all}
use nexuscloud.Accounts.Requests.Sessions.{serve_all-Holds}
use nexuscloud.Accounts.Requests.Ended.{
  Ended, is_open_under, IsNeverDrawnAfter, Ended-Stands, revoke-Ended, same_session_id,
  same_session_hash,
}

-- The keys `id` and `token_hash` of the table `sessions`.
pub record KeysAreUnique (ss : List Session) : Type 0 where
  pub ids : distinct same_session_id ss ≡ true
  pub hashes : distinct same_session_hash ss ≡ true

module _ (lib : Library) (token : Str) (s : Session) (w : World) (now : ℕ) (user_id : Str) where
  logout-Ended :
      find_first (session_has_hash (lib.hash_token token)) w.tables.sessions ≡ some s
      → KeysAreUnique w.tables.sessions
      → (logout now s.id user_id w).0 ≡ ok tt
      → Ended (lib.hash_token token) (logout now s.id user_id w).1.tables.sessions
  unfolding logout revoke_session revoke_one
  logout-Ended f keys h =
      let (some_open, same) =
        if_eq_ok _ _ (logout now s.id user_id w).1.tables _
          ((Leads-execute (revoke_one now s.id user_id)).gives w refl tt h) in
      subst (λ (t : Tables). Ended (lib.hash_token token) t.sessions) same
        (revoke-Ended now _ user_id s w.tables.sessions f keys.ids keys.hashes some_open)

  logout-drawn : w.drawn ≤ (logout now s.id user_id w).1.drawn
  unfolding logout revoke_session
  logout-drawn =
      ((Keeps-execute {n = w.drawn} {Q = λ _. Unit {0}} (revoke_one now s.id user_id)
          (λ _ _ _ _. tt)).at
        w (record { drew = omega arith; holds = tt })).drew

  -- The token of a session that was logged out never passes again, after any sequence of requests, if
  -- the tokens drawn from now on have other hashes.
  pub logged_out_never_validates :
      find_first (session_has_hash (lib.hash_token token)) w.tables.sessions ≡ some s
      → KeysAreUnique w.tables.sessions
      → IsNeverDrawnAfter lib w.drawn (lib.hash_token token)
      → (logout now s.id user_id w).0 ≡ ok tt
      → (p : Policy) (rs : List (ℕ × Request)) (later : ℕ) (r : User × Session)
      → ¬ (
          (validate_token lib later token (serve_all lib p rs (logout now s.id user_id w).1)).0
          ≡ ok r)
  logged_out_never_validates f keys never h p rs later r passed =
      let hash = lib.hash_token token in
      let v = validate_token-Visits lib later token _ r passed in
      let (row, under) = find_first-IsRow (session_has_hash hash) _ r.1 v.found in
      let still =
        serve_all-Holds lib w.drawn (Ended hash) (Ended-Stands lib w.drawn hash never) p rs _
          (record { drew = logout-drawn; holds = logout-Ended f keys h }) in
      contradiction
        (IsRow-any_of (is_open_under hash) _ r.1 row
          (open_row _ r.1.revoked_at under v.not_revoked))
        still.holds
    where
      open_row : (b : Bool) (o : Option ℕ) → b ≡ true → o ≡ none → (b && not (is_some o)) ≡ true
      open_row b o e k = ground arith

      contradiction : {b : Bool} → b ≡ true → b ≡ false → ⊥
      contradiction h k = cc
