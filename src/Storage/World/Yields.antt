-- ===== src/Storage/World/Yields.antt =====
-- Actions that leave the tables alone, and what holds of the values that they return.
use nexuscloud.Base.{◌≡◌, refl, ◌∙◌, subst, Bool, true, false, Str, if◌then◌else◌}
use nexuscloud.Storage.Errors.{Error, Result, ok, err, failed}
use nexuscloud.Storage.Action.{Action, pure, lift, attempt, reject_if, continue, ◌>>=◌}
use nexuscloud.Storage.World.{Outside, Db, World, query, fault_of, from_disk}
use nexuscloud.Storage.Pools.{get_pool_by_id, cache_pool, is_cached, open_provider, provider_for}

-- Run on the tables `d`, the action leaves them as they are, and a value that it returns passes `P`.
pub record Yields {Disk A : Type 0} (d : Db) (P : A → Type 0) (m : Action (World Disk) A)
    : Type 0 where
  pub keeps : (w : World Disk) → w.db ≡ d → (m w).1.db ≡ d
  pub gives : (w : World Disk) → w.db ≡ d → (a : A) → (m w).0 ≡ ok a → P a

ok_injective : {A : Type 0} {x y : A} → ok x ≡ ok y → x ≡ y
ok_injective h = cc

module _ {Disk A : Type 0} {d : Db} {P : A → Type 0} where
  pub Yields-pure : (a : A) → P a → Yields {Disk = Disk} d P (pure a)
  unfolding pure
  Yields-pure a p = record { keeps = λ w h. h; gives = λ w h x e. subst P (ok_injective e) p }

  pub Yields-if :
      (b : Bool) (m n : Action (World Disk) A)
      → (b ≡ true → Yields d P m)
      → (b ≡ false → Yields d P n)
      → Yields d P (if b then m else n)
  Yields-if true m n y z = y refl
  Yields-if false m n y z = z refl

  pub Yields-weaken :
      {Q : A → Type 0} (m : Action (World Disk) A)
      → ((a : A) → P a → Q a)
      → Yields d P m
      → Yields d Q m
  Yields-weaken m i y = record { keeps = y.keeps; gives = λ w h a e. i a (y.gives w h a e) }

module _ {Disk A : Type 0} {d : Db} where
  pub Yields-lift : (r : Result A) → Yields {Disk = Disk} d (λ a. r ≡ ok a) (lift r)
  unfolding lift
  Yields-lift r = record { keeps = λ w h. h; gives = λ w h a e. e }

  pub Yields-query : (f : Db → Result A) → Yields {Disk = Disk} d (λ a. f d ≡ ok a) (query f)
  unfolding query
  Yields-query f = record {
    keeps = λ w h. h;
    gives = λ w h a e. subst (λ x. f x ≡ ok a) h (answered (fault_of w.db_faults) (f w.db) a e);
  }
    where
      answered : (b : Bool) (r : Result A) (a : A) → (if b then err failed else r) ≡ ok a → r ≡ ok a
      answered true r a e = cc
      answered false r a e = e

  pub Yields-attempt :
      {P : A → Type 0} (m : Action (World Disk) A)
      → Yields d P m
      → Yields d (λ r. (a : A) → r ≡ ok a → P a) (attempt m)
  unfolding attempt
  Yields-attempt m y = record {
    keeps = λ w h. y.keeps w h;
    gives = λ w h r e a k. y.gives w h a (ok_injective e ∙ k);
  }

module _ {Disk : Type 0} {d : Db} where
  pub Yields-reject_if :
      (b : Bool) (e : Error) → Yields {Disk = Disk} d (λ _. b ≡ false) (reject_if b e)
  unfolding reject_if
  Yields-reject_if true e = record { keeps = λ w h. h; gives = λ w h a k. cc }
  Yields-reject_if false e = record { keeps = λ w h. h; gives = λ w h a k. refl }

module _ {Disk A B : Type 0} {d : Db} {P : A → Type 0} {Q : B → Type 0} where
  pub Yields-bind :
      (m : Action (World Disk) A) (f : A → Action (World Disk) B)
      → Yields d P m
      → ((a : A) → P a → Yields d Q (f a))
      → Yields d Q (m >>= f)
  unfolding ◌>>=◌
  Yields-bind m f y z = record {
    keeps = λ w h. kept (m w).0 (m w).1 (y.keeps w h) (y.gives w h);
    gives = λ w h. given (m w).0 (m w).1 (y.keeps w h) (y.gives w h);
  }
    where
      kept :
          (r : Result A) (w : World Disk)
          → w.db ≡ d
          → ((a : A) → r ≡ ok a → P a)
          → (continue r f w).1.db ≡ d
      kept (ok a) w h p = (z a (p a refl)).keeps w h
      kept (err e) w h p = h

      given :
          (r : Result A) (w : World Disk)
          → w.db ≡ d
          → ((a : A) → r ≡ ok a → P a)
          → (b : B) → (continue r f w).0 ≡ ok b
          → Q b
      given (ok a) w h p b k = (z a (p a refl)).gives w h b k
      given (err e) w h p b k = cc

-- What provides a content store leaves the tables alone.
module _ (o : Outside) {d : Db} where
  cache_pool-Yields : (id : Str) → Yields d (λ _. Unit) (cache_pool o id)
  unfolding cache_pool
  cache_pool-Yields id = record { keeps = λ w h. h; gives = λ w h a e. tt }

  open_provider-Yields : (id : Str) → Yields d (λ _. Unit) (open_provider o id)
  unfolding open_provider get_pool_by_id
  open_provider-Yields id = Yields-bind _ _ (Yields-query _) (λ pool _.
      Yields-bind _ _ (Yields-reject_if _ _)
        (λ _ _. Yields-bind _ _ (Yields-lift _) (λ _ _. cache_pool-Yields id)))

  is_cached-Yields : (id : Str) → Yields d (λ _. Unit) (is_cached o id)
  unfolding is_cached
  is_cached-Yields id = record { keeps = λ w h. h; gives = λ w h a e. tt }

  pub provider_for-Yields : (id : Str) → Yields d (λ _. Unit) (provider_for o id)
  unfolding provider_for
  provider_for-Yields id =
      Yields-bind _ _ (is_cached-Yields id)
        (λ cached _. Yields-if cached _ _ (λ _. Yields-pure tt tt) (λ _. open_provider-Yields id))

  pub from_disk-Yields : {A : Type 0} (f : o.Disk → Result A) → Yields d (λ _. Unit) (from_disk o f)
  unfolding from_disk
  from_disk-Yields f = record { keeps = λ w h. h; gives = λ w h a e. tt }

-- A value that the action returns passes `P`, whatever it does to the world.
pub record Returns {Disk A : Type 0} (P : A → Type 0) (m : Action (World Disk) A) : Type 0 where
  pub gives : (w : World Disk) (a : A) → (m w).0 ≡ ok a → P a

-- A value that the action returns, run on the tables `d`, passes `P`.
pub record Gives {Disk A : Type 0} (d : Db) (P : A → Type 0) (m : Action (World Disk) A)
    : Type 0 where
  pub gives : (w : World Disk) → w.db ≡ d → (a : A) → (m w).0 ≡ ok a → P a

module _ {Disk A B : Type 0} {Q : B → Type 0} where
  pub Returns-bind :
      (m : Action (World Disk) A) (f : A → Action (World Disk) B)
      → ((a : A) → Returns Q (f a))
      → Returns Q (m >>= f)
  unfolding ◌>>=◌
  Returns-bind m f z = record { gives = λ w. given (m w).0 (m w).1 }
    where
      given : (r : Result A) (w : World Disk) (b : B) → (continue r f w).0 ≡ ok b → Q b
      given (ok a) w b k = (z a).gives w b k
      given (err e) w b k = cc

module _ {Disk A B : Type 0} {d : Db} {P : A → Type 0} {Q : B → Type 0} where
  -- A part that leaves the tables alone, before one that need not.
  pub Gives-bind :
      (m : Action (World Disk) A) (f : A → Action (World Disk) B)
      → Yields d P m
      → ((a : A) → P a → Gives d Q (f a))
      → Gives d Q (m >>= f)
  unfolding ◌>>=◌
  Gives-bind m f y z = record { gives = λ w h. given (m w).0 (m w).1 (y.keeps w h) (y.gives w h) }
    where
      given :
          (r : Result A) (w : World Disk)
          → w.db ≡ d
          → ((a : A) → r ≡ ok a → P a)
          → (b : B) → (continue r f w).0 ≡ ok b
          → Q b
      given (ok a) w h p b k = (z a (p a refl)).gives w h b k
      given (err e) w h p b k = cc

module _ {Disk A : Type 0} {P : A → Type 0} where
  pub Yields-Returns : (m : Action (World Disk) A) → ((d : Db) → Yields d P m) → Returns P m
  Yields-Returns m y = record { gives = λ w a e. (y w.db).gives w refl a e }

  pub Returns-Gives : {d : Db} (m : Action (World Disk) A) → Returns P m → Gives d P m
  Returns-Gives m r = record { gives = λ w h. r.gives w }

  pub Returns-weaken :
      {Q : A → Type 0} (m : Action (World Disk) A)
      → ((a : A) → P a → Q a)
      → Returns P m
      → Returns Q m
  Returns-weaken m i r = record { gives = λ w a e. i a (r.gives w a e) }
