-- ===== src/Storage/Action/Keeps.antt =====
-- Invariants of actions, with one rule for each way to build an action.
use nexuscloud.Base.{◌≡◌, refl, Bool, true, false, if◌then◌else◌}
use nexuscloud.Storage.Errors.{Error, Result, ok, err}
use nexuscloud.Storage.Action.{
  Action, pure, raise, lift, attempt, on_failure, clean, reject_if, ◌>>=◌, continue,
}

-- Whether the action returns or fails, it keeps `P`.
pub record Keeps {W A : Type 0} (P : W → Type 0) (m : Action W A) : Type 0 where
  pub at : (w : W) → P w → P (m w).1

module _ {W A : Type 0} {P : W → Type 0} where
  pub Keeps-lift : (r : Result A) → Keeps P (lift r)
  unfolding lift
  Keeps-lift r = record { at = λ w. λ h. h }

  pub Keeps-pure : (a : A) → Keeps P (pure a)
  unfolding pure
  Keeps-pure a = record { at = λ w. λ h. h }

  pub Keeps-raise : (e : Error) → Keeps P (raise {A = A} e)
  unfolding raise
  Keeps-raise e = record { at = λ w. λ h. h }

  pub Keeps-attempt : (m : Action W A) → Keeps P m → Keeps P (attempt m)
  unfolding attempt
  Keeps-attempt m k = record { at = λ w h. k.at w h }

  clean-keeps :
      (r : Result A) (c : Action W (Unit {0})) (w : W) → Keeps P c → P w → P (clean r c w).1
  clean-keeps (ok a) c w k h = h
  clean-keeps (err e) c w k h = k.at w h

  pub Keeps-on_failure :
      (m : Action W A) (c : Action W (Unit {0})) → Keeps P m → Keeps P c → Keeps P (on_failure m c)
  unfolding on_failure
  Keeps-on_failure m c k l = record { at = λ w h. clean-keeps (m w).0 c (m w).1 l (k.at w h) }

  pub Keeps-if :
      (b : Bool) (m n : Action W A) → Keeps P m → Keeps P n → Keeps P (if b then m else n)
  Keeps-if true m n km kn = km
  Keeps-if false m n km kn = kn

module _ {W : Type 0} {P : W → Type 0} where
  pub Keeps-reject_if : (b : Bool) (e : Error) → Keeps P (reject_if b e)
  unfolding reject_if
  Keeps-reject_if true e = record { at = λ w h. h }
  Keeps-reject_if false e = record { at = λ w h. h }

module _ {W A B : Type 0} {P : W → Type 0} where
  pub Keeps-bind :
      (m : Action W A) (f : A → Action W B)
      → Keeps P m
      → ((a : A) → Keeps P (f a))
      → Keeps P (m >>= f)
  unfolding ◌>>=◌
  Keeps-bind m f km kf = record { at = λ w h. continue_keeps (m w).0 (m w).1 (km.at w h) }
    where
      continue_keeps : (r : Result A) (w : W) → P w → P (continue r f w).1
      continue_keeps (ok a) w h = (kf a).at w h
      continue_keeps (err e) w h = h

pub ruleset keeps_rules = (
  Keeps-attempt, Keeps-lift, Keeps-pure, Keeps-raise, Keeps-on_failure, Keeps-if, Keeps-reject_if,
  Keeps-bind,
)

-- `m` keeps `P` if `R` holds when it starts.
pub record KeepsIf {W A : Type 0} (R P : W → Type 0) (m : Action W A) : Type 0 where
  pub at : (w : W) → R w → P w → P (m w).1

-- `m` keeps `P`; when it returns a value, then the value passes `F` and `R` holds.
pub record Finds {W A : Type 0} (R P : W → Type 0) (F : A → Type 0) (m : Action W A) : Type 0 where
  pub at : (w : W) → P w → P (m w).1
  pub found : (w : W) → P w → (a : A) → (m w).0 ≡ ok a → F a × R (m w).1

module _ {W A : Type 0} {R P : W → Type 0} where
  pub KeepsIf-Keeps : (m : Action W A) → Keeps P m → KeepsIf R P m
  KeepsIf-Keeps m k = record { at = λ w r h. k.at w h }

  pub KeepsIf-attempt : (m : Action W A) → KeepsIf R P m → KeepsIf R P (attempt m)
  unfolding attempt
  KeepsIf-attempt m k = record { at = λ w r h. k.at w r h }

  pub KeepsIf-on_failure :
      (m : Action W A) (c : Action W (Unit {0}))
      → KeepsIf R P m
      → Keeps P c
      → KeepsIf R P (on_failure m c)
  unfolding on_failure
  KeepsIf-on_failure m c k l = record { at = λ w r h. clean-keeps (m w).0 c (m w).1 l (k.at w r h) }

  pub KeepsIf-if :
      (b : Bool) (m n : Action W A)
      → KeepsIf R P m
      → KeepsIf R P n
      → KeepsIf R P (if b then m else n)
  KeepsIf-if true m n km kn = km
  KeepsIf-if false m n km kn = kn

module _ {W A B : Type 0} {R P : W → Type 0} where
  -- What `m` does leaves `R` in place for the rest.
  pub KeepsIf-bind :
      (m : Action W A) (f : A → Action W B)
      → Keeps P m
      → Keeps R m
      → ((a : A) → KeepsIf R P (f a))
      → KeepsIf R P (m >>= f)
  unfolding ◌>>=◌
  KeepsIf-bind m f km kr kf = record {
    at = λ w r h. continue_keeps (m w).0 (m w).1 (kr.at w r) (km.at w h);
  }
    where
      continue_keeps : (r : Result A) (w : W) → R w → P w → P (continue r f w).1
      continue_keeps (ok a) w r h = (kf a).at w r h
      continue_keeps (err e) w r h = h

  -- The rest only has to keep `P` once `m` has changed what `R` speaks of.
  pub KeepsIf-then :
      (m : Action W A) (f : A → Action W B)
      → KeepsIf R P m
      → ((a : A) → Keeps P (f a))
      → KeepsIf R P (m >>= f)
  unfolding ◌>>=◌
  KeepsIf-then m f km kf = record { at = λ w r h. continue_keeps (m w).0 (m w).1 (km.at w r h) }
    where
      continue_keeps : (r : Result A) (w : W) → P w → P (continue r f w).1
      continue_keeps (ok a) w h = (kf a).at w h
      continue_keeps (err e) w h = h

  pub Keeps-found :
      {F : A → Type 0} (m : Action W A) (f : A → Action W B)
      → Finds R P F m
      → ((a : A) → F a → KeepsIf R P (f a))
      → Keeps P (m >>= f)
  unfolding ◌>>=◌
  Keeps-found {F = F} m f fm kf = record {
    at = λ w h. continue_keeps (m w).0 (m w).1 (fm.found w h) (fm.at w h);
  }
    where
      continue_keeps :
          (r : Result A) (w : W) → ((a : A) → r ≡ ok a → F a × R w) → P w → P (continue r f w).1
      continue_keeps (ok a) w g h = let (x, y) = g a refl in (kf a x).at w y h
      continue_keeps (err e) w g h = h

pub ruleset keeps_if_rules =
    (KeepsIf-Keeps, KeepsIf-attempt, KeepsIf-on_failure, KeepsIf-if, KeepsIf-bind)
