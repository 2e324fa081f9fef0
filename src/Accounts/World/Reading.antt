-- ===== src/Accounts/World/Reading.antt =====
-- Queries and statements on the tables of accounts, as actions with a view of the tables.
use nexuscloud.Base.{ℕ, ◌≡◌, refl, ◌∙◌, ap, sym, subst, Bool, true, false, List, [], if◌then◌else◌}
use nexuscloud.Storage.Errors.{Result, ok, err, failed}
use nexuscloud.Storage.Action.{attempt}
use nexuscloud.Storage.Action.Reads.{Reads, Leads}
use nexuscloud.Storage.World.{fault_of, rest_of}
use nexuscloud.Accounts.World.{Tables, World, query, execute, applied, draw}

abbrev pub tables_of : World → Tables
tables_of w = w.tables

answered :
    {A : Type 0} (b : Bool) (r : Result A) (a : A) → (if b then err failed else r) ≡ ok a → r ≡ ok a
answered true r a e = cc
answered false r a e = e

module _ {A : Type 0} {t : Tables} where
  pub Reads-query : (f : Tables → Result A) → Reads tables_of t (λ a. f t ≡ ok a) (query f)
  unfolding query
  Reads-query f = record {
    keeps = λ w h. h;
    gives = λ w h a e. subst (λ x. f x ≡ ok a) h (answered (fault_of w.db_faults) _ a e);
  }

  pub Reads-draw : (f : ℕ → Result A) → Reads tables_of t (λ a. (n : ℕ) × (f n ≡ ok a)) (draw f)
  unfolding draw
  Reads-draw f = record { keeps = λ w h. h; gives = λ w h a e. (w.drawn, e) }

applied_tables :
    (w : World) (bs : List Bool) (r : Result Tables) (a : Unit {0})
    → (applied w bs r).0 ≡ ok a
    → r ≡ ok (applied w bs r).1.tables
applied_tables w bs (ok s) a e = refl
applied_tables w bs (err x) a e = cc

-- A statement that succeeds has put its result in place of the tables.
pub Leads-execute :
    {t : Tables} (f : Tables → Result Tables) → Leads tables_of t (λ _ s. f t ≡ ok s) (execute f)
unfolding execute
Leads-execute f = record {
  gives = λ w h a e.
      subst (λ x. f x ≡ ok (execute f w).1.tables) h
        (answered (fault_of w.db_faults) _ _ (applied_tables w _ _ a e));
}

-- A query when no fault is to come.
pub query-eq :
    {A : Type 0} (f : Tables → Result A) (w : World)
    → w.db_faults ≡ []
    → query f w ≡ (f w.tables, w)
unfolding query
query-eq f w q =
    ap
      (λ bs.
        ((if fault_of bs then err failed else f w.tables), record w { db_faults = rest_of bs }))
      q
    ∙ ap (λ bs. (f w.tables, record w { db_faults = bs })) (sym q)

pub attempt-query-eq :
    {A : Type 0} (f : Tables → Result A) (w : World)
    → w.db_faults ≡ []
    → attempt (query f) w ≡ (ok (f w.tables), w)
unfolding attempt
attempt-query-eq f w q = rw (query-eq f w q) refl
