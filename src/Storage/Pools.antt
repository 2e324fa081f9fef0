-- ===== src/Storage/Pools.antt =====
-- Pools: `GetPoolByID` and `DefaultPool` of nexuscloud/internal/storage/pool_sql_repository.go,
-- and the provider of a pool in provider_resolver.go.
use nexuscloud.Base.{
  Bool, true, false, Option, none, some, not, List, [], ◌∷◌, Str, if◌then◌else◌, ltb, str_eq,
  any_of, find_first, ◌==◌,
}
use nexuscloud.Storage.Table.Times.{time_lt}
use nexuscloud.Storage.Errors.{Error, Result, ok, err, pool_not_found, unsupported_pool}
use nexuscloud.Storage.Model.{Pool}
use nexuscloud.Storage.Action.{pure, lift, reject_if, ◌>>=◌, ◌>>◌}
use nexuscloud.Storage.World.{Outside, Service, query}

abbrev pub or_not_found : {A : Type 0} → Error → Option A → Result A
or_not_found e none = err e
or_not_found e (some a) = ok a

unfoldable pub get_pool_by_id : (o : Outside) → Str → Service o Pool
get_pool_by_id o id =
    query λ d. or_not_found pool_not_found (find_first (λ p. str_eq p.id id) d.pools)

-- `ORDER BY priority, created_at`
abbrev before : Pool → Pool → Bool
before p q =
    if ltb p.priority q.priority
    then true
    else if p.priority == q.priority
    then time_lt p.created_at q.created_at
    else false

-- `WHERE status = 'active' ORDER BY priority, created_at LIMIT 1`
unfoldable pub first_active : List Pool → Option Pool
first_active [] = none
first_active (p ∷ ps) =
    let rest = first_active ps in
    if p.is_active
    then elim rest [ none ↦ some p | some q ↦ if before q p then some q else some p ]
    else rest

unfoldable pub default_pool : (o : Outside) → Service o Pool
unfolding first_active
default_pool o = query λ d. or_not_found pool_not_found (first_active d.pools)

-- The cache of `poolProviderResolver`
unfoldable pub cache_pool : (o : Outside) → Str → Service o (Unit {0})
cache_pool o id w = (ok tt, record w { opened = id ∷ w.opened })

unfoldable pub is_cached : (o : Outside) → Str → Service o Bool
is_cached o id w = (ok (any_of (str_eq id) w.opened), w)

unfoldable pub open_provider : (o : Outside) → Str → Service o (Unit {0})
open_provider o id = do
  pool ← get_pool_by_id o id
  reject_if (not pool.is_local) unsupported_pool
  lift (o.open_pool id)
  cache_pool o id

-- `poolProviderResolver.For`: afterwards the store of the pool can be called.
unfoldable pub provider_for : (o : Outside) → Str → Service o (Unit {0})
provider_for o id = do cached ← is_cached o id; if cached then pure tt else open_provider o id

-- `resolveTargetPool`
unfoldable pub resolve_target_pool : (o : Outside) → Str → Service o Pool
resolve_target_pool o pool_id =
    if str_eq pool_id [] then default_pool o else get_pool_by_id o pool_id
