-- ===== src/Accounts/Requests/Ended.antt =====
-- A session that was ended stays ended: logging out, and all requests after it.
use nexuscloud.Base.{
  ℕ, ◌≤◌, ◌≡◌, refl, sym, ◌∙◌, ap, subst, Bool, true, false, not, ◌&&◌, inl, inr, Bool-cases,
  &&_eq_true, some, is_some, List, [], ◌∷◌, Str, str_eq, str_eq-eq, str_eq_comm, str_eq_iff,
  if◌then◌else◌, any_of, find_first, arith,
}
use nexuscloud.Storage.Errors.{ok, if_err_eq_ok}
use nexuscloud.Storage.Table.{update_row, distinct}
use nexuscloud.Storage.Table.Absent.{
  absent-append, absent-update_row, absent-map, absent-select, either_absent, both_absent,
}
use nexuscloud.Storage.Table.Members.{IsRow, find_first-IsRow, any_of-IsRow, IsRow-any_of}
use nexuscloud.Storage.Table.Distinct.{distinct_tail}
use nexuscloud.Storage.Table.Rows.{first_row, later_row}
use nexuscloud.Accounts.Model.{Session}
use nexuscloud.Accounts.World.{Library, Tables}
use nexuscloud.Accounts.Sessions.{
  insert_session, session_has_hash, seen_at, is_open_session, revoke_at, revoke_all, revoke_if_of,
}
use nexuscloud.Accounts.Requests.Spares.{Stands}

-- An open session under this hash of a token.
abbrev pub is_open_under : Str → Session → Bool
is_open_under hash s = session_has_hash hash s && not (is_some s.revoked_at)

-- No session under this hash is open.
abbrev pub Ended : Str → List Session → Type 0
Ended hash ss = any_of (is_open_under hash) ss ≡ false

-- Tokens that are drawn after the first `n` have another hash.
abbrev pub IsNeverDrawnAfter : Library → ℕ → Str → Type 0
IsNeverDrawnAfter lib n hash =
    (k : ℕ) (token : Str)
    → n ≤ k
    → lib.new_token k ≡ ok token
    → str_eq (lib.hash_token token) hash ≡ false

-- Marking a session as revoked, or as seen, does not open one.
revoke_at-Ended :
    (now : ℕ) (hash : Str) (s : Session)
    → is_open_under hash s ≡ false
    → is_open_under hash (revoke_at now s) ≡ false
revoke_at-Ended now hash s h = ground arith

revoked_shut : (now : ℕ) (hash : Str) (s : Session) → is_open_under hash (revoke_at now s) ≡ false
revoked_shut now hash s = ground arith

revoke_if_of-Ended :
    (now : ℕ) (user_id hash : Str) (s : Session)
    → is_open_under hash s ≡ false
    → is_open_under hash (revoke_if_of now user_id s) ≡ false
revoke_if_of-Ended now user_id hash s h =
    elim (Bool-cases (str_eq s.user_id user_id && not (is_some s.revoked_at))) [
      | inl e ↦ rw e (revoke_at-Ended now hash s h)
      | inr e ↦ rw e h
    ]

insert-Ended :
    (hash : Str) (new : Session) (t s : Tables)
    → str_eq new.token_hash hash ≡ false
    → insert_session new t ≡ ok s
    → Ended hash t.sessions
    → Ended hash s.sessions
unfolding insert_session
insert-Ended hash new t s other done h =
    let (_, same) = if_err_eq_ok _ _ s _ done in
    subst (λ (x : Tables). Ended hash x.sessions) same
      (absent-append (is_open_under hash) t.sessions new h (rw other refl))

pub Ended-Stands :
    (lib : Library) (n : ℕ) (hash : Str) → IsNeverDrawnAfter lib n hash → Stands lib n (Ended hash)
unfolding revoke_all
Ended-Stands lib n hash never = record {
  insert = λ k token new t s le e named done h.
      insert-Ended hash new t s
        (subst (λ x. str_eq x hash ≡ false) (sym named) (never k token le e)) done h;
  touch = λ now id ss h. absent-update_row (is_open_under hash) _ (seen_at now) ss (λ x k. k) h;
  revoke = λ now id user_id ss h.
      absent-update_row (is_open_under hash) _ (revoke_at now) ss (revoke_at-Ended now hash) h;
  revoke_every = λ now user_id ss h.
      absent-map (is_open_under hash) (revoke_if_of now user_id) ss
        (revoke_if_of-Ended now user_id hash) h;
  delete = λ q ss h. absent-select (is_open_under hash) q ss h;
}

abbrev pub same_session_id : Session → Session → Bool
same_session_id a b = str_eq a.id b.id

abbrev pub same_session_hash : Session → Session → Bool
same_session_hash a b = str_eq a.token_hash b.token_hash

contradiction : (b : Bool) → b ≡ true → b ≡ false → ⊥
contradiction true h k = cc
contradiction false h k = cc

-- No row under the hash of a row that stands in front of it.
none_under :
    (hash : Str) (x : Session) (xs : List Session)
    → session_has_hash hash x ≡ true
    → any_of (same_session_hash x) xs ≡ false
    → Ended hash xs
none_under hash x xs e h = rw (← str_eq-eq _ _ e) (by_hash xs h)
  where
    by_hash : (ys : List Session) → any_of (same_session_hash x) ys ≡ false → Ended x.token_hash ys
    by_hash [] k = refl
    by_hash (y ∷ ys) k =
        let (a, b) = either_absent (same_session_hash x y) (any_of (same_session_hash x) ys) k in
        rw (str_eq_comm y.token_hash x.token_hash, a) (by_hash ys b)

-- Two rows with one identifier, one after the other.
no_twin :
    (x y : Session) (xs : List Session)
    → any_of (same_session_id x) xs ≡ false
    → IsRow y xs
    → y.id ≡ x.id
    → ⊥
no_twin x y xs no_id row e =
    contradiction _ (IsRow-any_of (same_session_id x) xs y row ((str_eq_iff x.id y.id).1 (sym e)))
      no_id

open_id : (id user_id : Str) (s : Session) → is_open_session id user_id s ≡ true → s.id ≡ id
open_id id user_id s h = str_eq-eq _ _ (&&_eq_true _ _ h).0

module _ (now : ℕ) (hash user_id : Str) (s : Session) where
  -- The end of the session that is found under a hash, where the keys are unique.
  pub revoke-Ended :
      (xs : List Session)
      → find_first (session_has_hash hash) xs ≡ some s
      → distinct same_session_id xs ≡ true
      → distinct same_session_hash xs ≡ true
      → any_of (is_open_session s.id user_id) xs ≡ true
      → Ended hash (update_row (is_open_session s.id user_id) (revoke_at now) xs)
  unfolding update_row
  revoke-Ended [] f d e h = cc
  revoke-Ended (x ∷ xs) f d e h =
      let (no_id, d') = distinct_tail _ x xs d in
      let (no_hash, e') = distinct_tail _ x xs e in
      elim (Bool-cases (session_has_hash hash x)) [
        | inl here ↦ elim (Bool-cases (is_open_session s.id user_id x)) [
          | inl hit ↦ rw hit (
              both_absent (is_open_under hash (revoke_at now x)) _ (revoked_shut now hash x)
                (none_under hash x xs here no_hash))
          | inr miss ↦
              let same : x ≡ s = first_row (session_has_hash hash) s x _ here f in
              let (y, row, q) = any_of-IsRow (is_open_session s.id user_id) xs (
                subst (λ b. (if b then true else any_of (is_open_session s.id user_id) xs) ≡ true)
                  miss h) in
              absurd (
                no_twin x y xs no_id row
                  (open_id s.id user_id y q ∙ sym (ap (λ (z : Session). z.id) same)))
        ]
        | inr there ↦ elim (Bool-cases (is_open_session s.id user_id x)) [
          | inl hit ↦
              let (row, _) =
                find_first-IsRow (session_has_hash hash) xs s
                  (later_row (session_has_hash hash) s x _ there f) in
              absurd (no_twin x s xs no_id row (sym (open_id s.id user_id x hit)))
          | inr miss ↦
              rw (miss, there)
                (revoke-Ended xs (later_row (session_has_hash hash) s x _ there f) d' e' (
                  subst (λ b. (if b then true else any_of (is_open_session s.id user_id) xs) ≡ true)
                    miss h))
        ]
      ]
