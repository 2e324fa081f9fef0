-- ===== src/Storage/Action/Reads.antt =====
-- Actions that leave a part of the world alone, and what holds of the values that they return.
-- `view` is the part: the tables of a database.
use nexuscloud.Base.{◌≡◌, refl, ◌∙◌, sym, subst, Bool, true, false, if◌then◌else◌}
use nexuscloud.Storage.Errors.{Error, Result, ok, err}
use nexuscloud.Storage.Action.{Action, pure, lift, attempt, reject_if, continue, ◌>>=◌}

-- Run where the view is `t`, the action leaves it so, and a value that it returns passes `P`.
pub record Reads {W T A : Type 0} (view : W → T) (t : T) (P : A → Type 0) (m : Action W A)
    : Type 0 where
  pub keeps : (w : W) → view w ≡ t → view (m w).1 ≡ t
  pub gives : (w : W) → view w ≡ t → (a : A) → (m w).0 ≡ ok a → P a

pub ok_injective : {A : Type 0} {x y : A} → ok x ≡ ok y → x ≡ y
ok_injective h = cc

module _ {W T A : Type 0} {view : W → T} {t : T} {P : A → Type 0} where
  pub Reads-pure : (a : A) → P a → Reads view t P (pure a)
  unfolding pure
  Reads-pure a p = record { keeps = λ w h. h; gives = λ w h x e. subst P (ok_injective e) p }

  pub Reads-if :
      (b : Bool) (m n : Action W A)
      → (b ≡ true → Reads view t P m)
      → (b ≡ false → Reads view t P n)
      → Reads view t P (if b then m else n)
  Reads-if true m n y z = y refl
  Reads-if false m n y z = z refl

  pub Reads-weaken :
      {Q : A → Type 0} (m : Action W A)
      → ((a : A) → P a → Q a)
      → Reads view t P m
      → Reads view t Q m
  Reads-weaken m i y = record { keeps = y.keeps; gives = λ w h a e. i a (y.gives w h a e) }

  pub Reads-attempt :
      (m : Action W A) → Reads view t P m → Reads view t (λ r. (a : A) → r ≡ ok a → P a) (attempt m)
  unfolding attempt
  Reads-attempt m y = record {
    keeps = λ w h. y.keeps w h;
    gives = λ w h r e a k. y.gives w h a (ok_injective e ∙ k);
  }

module _ {W T A : Type 0} {view : W → T} {t : T} where
  pub Reads-lift : (r : Result A) → Reads view t (λ a. r ≡ ok a) (lift r)
  unfolding lift
  Reads-lift r = record { keeps = λ w h. h; gives = λ w h a e. e }

module _ {W T : Type 0} {view : W → T} {t : T} where
  pub Reads-reject_if : (b : Bool) (e : Error) → Reads view t (λ _. b ≡ false) (reject_if b e)
  unfolding reject_if
  Reads-reject_if true e = record { keeps = λ w h. h; gives = λ w h a k. cc }
  Reads-reject_if false e = record { keeps = λ w h. h; gives = λ w h a k. refl }

module _ {W T A B : Type 0} {view : W → T} {t : T} {P : A → Type 0} {Q : B → Type 0} where
  pub Reads-bind :
      (m : Action W A) (f : A → Action W B)
      → Reads view t P m
      → ((a : A) → P a → Reads view t Q (f a))
      → Reads view t Q (m >>= f)
  unfolding ◌>>=◌
  Reads-bind m f y z = record {
    keeps = λ w h. kept (m w).0 (m w).1 (y.keeps w h) (y.gives w h);
    gives = λ w h. given (m w).0 (m w).1 (y.keeps w h) (y.gives w h);
  }
    where
      kept :
          (r : Result A) (w : W)
          → view w ≡ t
          → ((a : A) → r ≡ ok a → P a)
          → view (continue r f w).1 ≡ t
      kept (ok a) w h p = (z a (p a refl)).keeps w h
      kept (err e) w h p = h

      given :
          (r : Result A) (w : W)
          → view w ≡ t
          → ((a : A) → r ≡ ok a → P a)
          → (b : B) → (continue r f w).0 ≡ ok b
          → Q b
      given (ok a) w h p b k = (z a (p a refl)).gives w h b k
      given (err e) w h p b k = cc

-- A value that the action returns, run where the view is `t`, passes `P` together with the view
-- that it leaves.
pub record Leads {W T A : Type 0} (view : W → T) (t : T) (P : A → T → Type 0) (m : Action W A)
    : Type 0 where
  pub gives : (w : W) → view w ≡ t → (a : A) → (m w).0 ≡ ok a → P a (view (m w).1)

module _ {W T A B : Type 0} {view : W → T} {t : T} {P : A → Type 0} {Q : B → T → Type 0} where
  -- A part that reads, before one that need not.
  pub Leads-bind :
      (m : Action W A) (f : A → Action W B)
      → Reads view t P m
      → ((a : A) → P a → Leads view t Q (f a))
      → Leads view t Q (m >>= f)
  unfolding ◌>>=◌
  Leads-bind m f y z = record { gives = λ w h. given (m w).0 (m w).1 (y.keeps w h) (y.gives w h) }
    where
      given :
          (r : Result A) (w : W)
          → view w ≡ t
          → ((a : A) → r ≡ ok a → P a)
          → (b : B) → (continue r f w).0 ≡ ok b
          → Q b (view (continue r f w).1)
      given (ok a) w h p b k = (z a (p a refl)).gives w h b k
      given (err e) w h p b k = cc

module _ {W T A B : Type 0} {view : W → T} {t : T} {P : A → T → Type 0} {Q : B → T → Type 0} where
  -- Two parts that may write: what the first leaves is where the second starts.
  pub Leads-then :
      (m : Action W A) (f : A → Action W B)
      → Leads view t P m
      → ((a : A) (s : T) → P a s → Leads view s Q (f a))
      → Leads view t Q (m >>= f)
  unfolding ◌>>=◌
  Leads-then m f y z = record { gives = λ w h. given (m w).0 (m w).1 (y.gives w h) }
    where
      given :
          (r : Result A) (w : W)
          → ((a : A) → r ≡ ok a → P a (view w))
          → (b : B) → (continue r f w).0 ≡ ok b
          → Q b (view (continue r f w).1)
      given (ok a) w p b k = (z a (view w) (p a refl)).gives w refl b k
      given (err e) w p b k = cc

module _ {W T A : Type 0} {view : W → T} {t : T} where
  pub Leads-weaken :
      {P Q : A → T → Type 0} (m : Action W A)
      → ((a : A) (s : T) → P a s → Q a s)
      → Leads view t P m
      → Leads view t Q m
  Leads-weaken m i y = record { gives = λ w h a e. i a _ (y.gives w h a e) }

  pub Leads-pure : {P : A → T → Type 0} (a : A) → P a t → Leads view t P (pure a)
  unfolding pure
  Leads-pure {P} a p = record {
    gives = λ w h x e. subst (λ y. P y (view w)) (ok_injective e) (subst (P a) (sym h) p);
  }

  pub Leads-any : (m : Action W A) → Leads view t (λ _ _. Unit {0}) m
  Leads-any m = record { gives = λ w h a e. tt }
