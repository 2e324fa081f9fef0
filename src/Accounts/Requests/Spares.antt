-- ===== src/Accounts/Requests/Spares.antt =====
-- Statements that leave the sessions alone, and what a property of the sessions has to stand.
use nexuscloud.Base.{ℕ, ◌≡◌, sym, ap, Bool, List, Str, arith, select, ◌≤◌}
use nexuscloud.Storage.Errors.{Result, ok, err}
use nexuscloud.Storage.Table.{update_row}
use nexuscloud.Storage.Action.Reads.{ok_injective}
use nexuscloud.Accounts.Model.{User, Session, Invitation, Token}
use nexuscloud.Accounts.World.{Library, Tables}
use nexuscloud.Accounts.Users.{with_users, insert_role}
use nexuscloud.Accounts.Sessions.{
  insert_session, session_has_id, seen_at, is_open_session, revoke_at, revoke_all,
}
use nexuscloud.Accounts.Invitations.{insert_invitation, count_use, withdraw}
use nexuscloud.Accounts.Tokens.{insert_token, drop_token}

-- The statement leaves the sessions alone.
abbrev pub SparesSessions : (Tables → Result Tables) → Type 0
SparesSessions f = (t s : Tables) → f t ≡ ok s → s.sessions ≡ t.sessions

pub with_users-spares :
    (f : List User → Result (List User)) → SparesSessions (λ t. with_users t (f t.users))
with_users-spares f t s h = given (f t.users) h
  where
    given : (r : Result (List User)) → with_users t r ≡ ok s → s.sessions ≡ t.sessions
    given (ok us) h = ap (λ (y : Tables). y.sessions) (sym (ok_injective h))
    given (err e) h = cc

pub insert_role-spares : (user_id role_id : Str) → SparesSessions (insert_role user_id role_id)
unfolding insert_role
insert_role-spares user_id role_id t s h = ground arith

pub insert_invitation-spares : (new : Invitation) → SparesSessions (insert_invitation new)
unfolding insert_invitation
insert_invitation-spares new t s h = ground arith

pub count_use-spares : (now : ℕ) (id user_id : Str) → SparesSessions (count_use now id user_id)
unfolding count_use
count_use-spares now id user_id t s h = ground arith

pub withdraw-spares : (now : ℕ) (id : Str) → SparesSessions (withdraw now id)
unfolding withdraw
withdraw-spares now id t s h = ground arith

pub insert_token-spares : (new : Token) → SparesSessions (insert_token new)
unfolding insert_token
insert_token-spares new t s h = ground arith

pub drop_token-spares : (id user_id : Str) → SparesSessions (drop_token id user_id)
unfolding drop_token
drop_token-spares id user_id t s h = ground arith

-- What a property of the sessions has to stand: a new session under a token that is drawn after the
-- first `n`, a note of a visit, revocations, and rows that are deleted.
pub record Stands (lib : Library) (n : ℕ) (S : List Session → Type 0) : Type 0 where
  pub insert :
      (k : ℕ) (token : Str) (new : Session) (t s : Tables)
      → n ≤ k
      → lib.new_token k ≡ ok token
      → new.token_hash ≡ lib.hash_token token
      → insert_session new t ≡ ok s
      → S t.sessions
      → S s.sessions
  pub touch :
      (now : ℕ) (id : Str) (ss : List Session)
      → S ss
      → S (update_row (session_has_id id) (seen_at now) ss)
  pub revoke :
      (now : ℕ) (id user_id : Str) (ss : List Session)
      → S ss
      → S (update_row (is_open_session id user_id) (revoke_at now) ss)
  pub revoke_every :
      (now : ℕ) (user_id : Str) (ss : List Session) → S ss → S (revoke_all now user_id ss)
  pub delete : (q : Session → Bool) (ss : List Session) → S ss → S (select q ss)
