-- ===== src/WebDav/Handler/Admitted.antt =====
-- Whom the WebDAV handler admits.
use nexuscloud.Base.{
  ◌≡◌, refl, sym, ◌∙◌, ap, ℕ, false, not, Option, none, some, [], Str, Bool-cases, inl, inr, ◌&&◌,
}
use nexuscloud.Storage.Errors.{ok}
use nexuscloud.Storage.Action.{pure, attempt, ◌>>=◌}
use nexuscloud.Storage.Action.Reads.{ok_injective}
use nexuscloud.Accounts.Model.{User}
use nexuscloud.Accounts.World.{Library, World}
use nexuscloud.Accounts.Tokens.Verdict.{credentials_of, or_invalid, authenticate-verdict}
use nexuscloud.WebDav.Handler.{
  Options, HttpRequest, admitted, is_read_method, is_over, admit, with_credentials, serve_http,
}

-- An admission rests on credentials of an active user, and obeys the mode and the limit.
abbrev pub IsAdmitted : Library → Options → HttpRequest → World → User → Type 0
IsAdmitted lib opts r w u =
    (c : Str × Str) × (r.basic_auth ≡ some c)
    × (credentials_of lib c.0 c.1 w.tables ≡ some u)
    × ((opts.read_only && not (is_read_method r.method)) ≡ false)
    × (is_over opts.max_upload_size_bytes r.content_length ≡ false)

admitted_injective : {u v : User} → admitted u ≡ admitted v → u ≡ v
admitted_injective e = cc

admit-admitted :
    (opts : Options) (r : HttpRequest) (o : Option User) (u : User)
    → admit opts r (or_invalid o) ≡ admitted u
    → (o ≡ some u)
      × ((opts.read_only && not (is_read_method r.method)) ≡ false)
      × (is_over opts.max_upload_size_bytes r.content_length ≡ false)
unfolding admit
admit-admitted opts r none u h = cc
admit-admitted opts r (some v) u h =
    elim (Bool-cases (opts.read_only && not (is_read_method r.method))) [
      | inl closed ↦ cc (rw (admit, closed) at h)
      | inr free ↦ elim (Bool-cases (is_over opts.max_upload_size_bytes r.content_length)) [
        | inl over ↦ cc (rw (admit, free, over) at h)
        | inr fits ↦ (ap some (admitted_injective (rw (admit, free, fits) at h)), free, fits)
      ]
    ]

module _ (lib : Library) (opts : Options) (throttle now : ℕ) (r : HttpRequest) (w : World)
    (u : User) (q : w.db_faults ≡ []) where
  with_credentials-IsAdmitted :
      (c : Option (Str × Str))
      → r.basic_auth ≡ c
      → (with_credentials lib opts throttle now r c w).0 ≡ ok (admitted u)
      → IsAdmitted lib opts r w u
  unfolding with_credentials ◌>>=◌ attempt pure
  with_credentials-IsAdmitted none e h = cc
  with_credentials-IsAdmitted (some (name, token)) e h =
      let verdict = authenticate-verdict lib throttle now name token w q in
      let passed =
        admit-admitted opts r (credentials_of lib name token w.tables) u
          (ap (admit opts r) (sym verdict) ∙ ok_injective h) in
      ((name, token), e, passed.0, passed.1, passed.2)

  -- While the database answers, the WebDAV handler admits a request only with the name of an active
  -- user and a token of that user, in the read-only mode only for a method that reads, and only if the
  -- announced length is within the limit, where there is one.
  pub serve_http-IsAdmitted :
      (serve_http lib opts throttle now r w).0 ≡ ok (admitted u) → IsAdmitted lib opts r w u
  unfolding serve_http
  serve_http-IsAdmitted h = with_credentials-IsAdmitted r.basic_auth refl h
