-- ===== src/WebDav/Handler.antt =====
-- `Handler.ServeHTTP` of nexuscloud/internal/webdav/handler.go, up to the point where `x/net/webdav` takes
-- over: who may go on, and with which requests.
pub mod Admitted
use nexuscloud.Base.{
  ℕ, zero, suc, Bool, true, false, not, Option, none, some, List, [], ◌∷◌, Str, str, str_eq,
  if◌then◌else◌, any_of, ◌&&◌,
}
use nexuscloud.GoText.{Int64, positive, negative}
use nexuscloud.Storage.Errors.{Error, Result, ok, err, invalid_credentials}
use nexuscloud.Storage.Action.{pure, attempt, ◌>>=◌}
use nexuscloud.Accounts.Model.{User}
use nexuscloud.Accounts.World.{Library, Accounts}
use nexuscloud.Accounts.Tokens.{authenticate}
use nexuscloud.Config.Validate.{int_gt}

-- `Options`, less what only builds answers.
pub record Options : Type 0 where
  pub read_only : Bool
  pub max_upload_size_bytes : Int64

-- A request, as far as the handler looks at it: the length is -1 when it is not told.
pub record HttpRequest : Type 0 where
  pub method : Str
  pub basic_auth : Option (Str × Str)
  pub content_length : Int64

-- What becomes of a request: 401, 500, 403, 413, or the user's own handler.
pub data Admission : Type 0 where
  challenged internal_error read_only_mode too_large : Admission
  admitted : User → Admission

-- `isReadMethod`
unfoldable pub is_read_method : Str → Bool
is_read_method m = any_of (str_eq m) (str "OPTIONS" ∷ str "GET" ∷ str "HEAD" ∷ str "PROPFIND" ∷ [])

-- `limit > 0 && r.ContentLength > limit`
unfoldable pub is_over : Int64 → Int64 → Bool
is_over (positive zero) size = false
is_over (positive (suc k)) size = int_gt size (suc k)
is_over (negative k) size = false

-- What follows the check of the credentials.
unfoldable pub admit : Options → HttpRequest → Result User → Admission
admit opts r (err invalid_credentials) = challenged
admit opts r (err e) = internal_error
admit opts r (ok u) =
    if opts.read_only && not (is_read_method r.method)
    then read_only_mode
    else if is_over opts.max_upload_size_bytes r.content_length
    then too_large
    else admitted u

module _ (lib : Library) (opts : Options) where
  unfoldable pub with_credentials : ℕ → ℕ → HttpRequest → Option (Str × Str) → Accounts Admission
  unfolding admit
  with_credentials throttle now r none = pure challenged
  with_credentials throttle now r (some (username, token)) =
      attempt (authenticate lib throttle now username token) >>= λ u. pure (admit opts r u)

  -- `ServeHTTP`
  unfoldable pub serve_http : ℕ → ℕ → HttpRequest → Accounts Admission
  unfolding with_credentials
  serve_http throttle now r = with_credentials throttle now r r.basic_auth
