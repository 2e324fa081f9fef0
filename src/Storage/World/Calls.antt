-- ===== src/Storage/World/Calls.antt =====
-- What a call of the database gives when no fault is to come.
use nexuscloud.Base.{◌≡◌, refl, sym, ◌∙◌, ap, [], if◌then◌else◌}
use nexuscloud.Storage.Errors.{Error, Result, ok, err, failed}
use nexuscloud.Storage.Action.{Action, ◌>>=◌}
use nexuscloud.Storage.World.{Db, World, query, execute, applied, fault_of, rest_of}

module _ {W A B : Type 0} where
  pub bind-err :
      (m : Action W A) (f : A → Action W B) (e : Error) (w w' : W)
      → m w ≡ (err e, w')
      → (m >>= f) w ≡ (err e, w')
  unfolding ◌>>=◌
  bind-err m f e w w' h = rw h refl

  pub bind-ok :
      (m : Action W A) (f : A → Action W B) (a : A) (w w' : W)
      → m w ≡ (ok a, w')
      → (m >>= f) w ≡ f a w'
  unfolding ◌>>=◌
  bind-ok m f a w w' h = rw h refl

module _ {Disk : Type 0} (w : World Disk) (q : w.db_faults ≡ []) where
  pub query-eq : {A : Type 0} (f : Db → Result A) → query f w ≡ (f w.db, w)
  unfolding query
  query-eq f =
      ap (λ bs. ((if fault_of bs then err failed else f w.db), record w { db_faults = rest_of bs }))
        q
      ∙ ap (λ bs. (f w.db, record w { db_faults = bs })) (sym q)

  pub execute-eq :
      (f : Db → Result Db) (d : Db) → f w.db ≡ ok d → execute f w ≡ (ok tt, record w { db = d })
  unfolding execute
  execute-eq f d h =
      ap (λ bs. applied w (rest_of bs) (if fault_of bs then err failed else f w.db)) q
      ∙ ap (applied w []) h
      ∙ ap (λ bs. (ok tt, record w { db_faults = bs; db = d })) (sym q)
