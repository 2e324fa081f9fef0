-- ===== src/Storage/Action/Answers.antt =====
-- What holds of the values that an action returns where an invariant holds.
use nexuscloud.Base.{◌≡◌, refl, subst, Bool, true, false, if◌then◌else◌}
use nexuscloud.Storage.Errors.{Error, Result, ok, err}
use nexuscloud.Storage.Action.{Action, pure, raise, continue, ◌>>=◌}
use nexuscloud.Storage.Action.Keeps.{Keeps}
use nexuscloud.Storage.Action.Reads.{ok_injective}

-- Run where `P` holds, the action returns only values that pass `F`.
pub record Answers {W A : Type 0} (P : W → Type 0) (F : A → Type 0) (m : Action W A) : Type 0 where
  pub gives : (w : W) → P w → (a : A) → (m w).0 ≡ ok a → F a

module _ {W A : Type 0} {P : W → Type 0} where
  pub Answers-pure : {F : A → Type 0} (a : A) → F a → Answers P F (pure a)
  unfolding pure
  Answers-pure {F} a f = record { gives = λ w h x e. subst F (ok_injective e) f }

  pub Answers-any : (m : Action W A) → Answers P (λ _. Unit {0}) m
  Answers-any m = record { gives = λ w h a e. tt }

  pub Answers-raise : {F : A → Type 0} (e : Error) → Answers P F (raise e)
  unfolding raise
  Answers-raise e = record { gives = λ w h a k. cc }

  pub Answers-if :
      {F : A → Type 0} (b : Bool) (m n : Action W A)
      → Answers P F m
      → Answers P F n
      → Answers P F (if b then m else n)
  Answers-if true m n y z = y
  Answers-if false m n y z = z

module _ {W A B : Type 0} {P : W → Type 0} {F : A → Type 0} {G : B → Type 0} where
  pub Answers-bind :
      (m : Action W A) (f : A → Action W B)
      → Keeps P m
      → Answers P F m
      → ((a : A) → F a → Answers P G (f a))
      → Answers P G (m >>= f)
  unfolding ◌>>=◌
  Answers-bind m f k y z = record { gives = λ w h. given (m w).0 (m w).1 (k.at w h) (y.gives w h) }
    where
      given :
          (r : Result A) (w : W)
          → P w
          → ((a : A) → r ≡ ok a → F a)
          → (b : B) → (continue r f w).0 ≡ ok b
          → G b
      given (ok a) w h p b e = (z a (p a refl)).gives w h b e
      given (err x) w h p b e = cc
