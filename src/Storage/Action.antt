-- ===== src/Storage/Action.antt =====
-- Operations of package `storage`: they change the world and may fail. What was written before a
-- failure stays written.
pub mod Keeps
pub mod Reads
pub mod Answers
use nexuscloud.Base.{Bool, true, false, Option, none, some}
use nexuscloud.Storage.Errors.{Error, Result, ok, err}

abbrev pub Action : Type 0 → Type 0 → Type 0
Action W A = W → Result A × W

module _ {W A : Type 0} where
  unfoldable pub pure : A → Action W A
  pure a w = (ok a, w)

  unfoldable pub raise : Error → Action W A
  raise e w = (err e, w)

  unfoldable pub lift : Result A → Action W A
  lift r w = (r, w)

  -- Runs the action and gives its result as a value.
  unfoldable pub attempt : Action W A → Action W (Result A)
  attempt m w = let (r, w') = m w in (ok r, w')

  -- A deferred clean-up that runs if the action fails; its own result is dropped.
  abbrev clean : Result A → Action W (Unit {0}) → Action W A
  clean (ok a) c w = (ok a, w)
  clean (err e) c w = (err e, (c w).1)

  unfoldable pub on_failure : Action W A → Action W (Unit {0}) → Action W A
  on_failure m c w = let (r, w') = m w in clean r c w'

module _ {W A B : Type 0} where
  abbrev pub continue : Result A → (A → Action W B) → Action W B
  continue (ok a) f w = f a w
  continue (err e) f w = (err e, w)

  infixl 5 ◌>>=◌ ◌>>◌
  unfoldable pub ◌>>=◌ : Action W A → (A → Action W B) → Action W B
  unfolding pure raise lift
  ◌>>=◌ m f w = let (r, w') = m w in continue r f w'

  abbrev pub ◌>>◌ : Action W A → Action W B → Action W B
  m >> n = m >>= λ _. n

-- `if test { return err }`
unfoldable pub reject_if : {W : Type 0} → Bool → Error → Action W (Unit {0})
reject_if true e w = (err e, w)
reject_if false e w = (ok tt, w)
