-- ===== src/Accounts/World.antt =====
-- The tables of accounts, the faults of the database to come, and what the code takes from outside
-- the program: identifiers, tokens and their hash, the password library and TOTP.
pub mod Reading
pub mod Invariants
use nexuscloud.Base.{ℕ, ◌+◌, Bool, List, [], ◌∷◌, Str, if◌then◌else◌}
use nexuscloud.Storage.Errors.{Result, ok, err, failed}
use nexuscloud.Storage.Action.{Action}
use nexuscloud.Storage.World.{fault_of, rest_of}
use nexuscloud.Accounts.Model.{User, Role, Group, Session, Invitation, WebAuthnCredential, Token}

-- `idgen.New`, `idgen.Token`, `HashToken`, `Hasher.Hash`, `Hasher.Verify` and `ValidateTOTP`, as
-- they are called. `n` counts what was drawn before.
pub record Library : Type 0 where
  pub new_id : ℕ → Str
  pub new_token : ℕ → Result Str
  pub hash_token : Str → Str
  pub hash_password : ℕ → Str → Result Str
  pub verify_password : Str → Str → Bool
  pub validate_totp : Str → Str → Bool

-- `user_roles` and `user_groups` are pairs of a user and a role or a group.
pub record Tables : Type 0 where
  pub users : List User
  pub roles : List Role
  pub user_roles : List (Str × Str)
  pub groups : List Group
  pub user_groups : List (Str × Str)
  pub sessions : List Session
  pub invitations : List Invitation
  pub credentials : List WebAuthnCredential
  pub tokens : List Token

pub record World : Type 0 where
  pub tables : Tables
  pub db_faults : List Bool
  pub drawn : ℕ

abbrev pub Accounts : Type 0 → Type 0
Accounts A = Action World A

unfoldable pub query : {A : Type 0} → (Tables → Result A) → Accounts A
unfolding fault_of rest_of
query f w = (
  (if fault_of w.db_faults then err failed else f w.tables),
  record w { db_faults = rest_of w.db_faults },
)

abbrev pub applied : World → List Bool → Result Tables → Result (Unit {0}) × World
applied w bs (ok t) = (ok tt, record w { db_faults = bs; tables = t })
applied w bs (err e) = (err e, record w { db_faults = bs })

-- A statement that changes the tables, or is refused and changes nothing.
unfoldable pub execute : (Tables → Result Tables) → Accounts (Unit {0})
unfolding fault_of rest_of
execute f w =
    applied w (rest_of w.db_faults) (if fault_of w.db_faults then err failed else f w.tables)

-- A call of the library that draws random bytes.
unfoldable pub draw : {A : Type 0} → (ℕ → Result A) → Accounts A
draw f w = (f w.drawn, record w { drawn = w.drawn + 1 })
