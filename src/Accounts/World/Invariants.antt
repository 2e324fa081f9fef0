-- ===== src/Accounts/World/Invariants.antt =====
-- Invariants of actions on accounts: of the number of draws so far and of the tables.
use nexuscloud.Base.{ℕ, ◌+◌, ◌≤◌, ◌≡◌, refl, arith, Bool, true, false, List, if◌then◌else◌}
use nexuscloud.Storage.Errors.{Result, ok, err, failed}
use nexuscloud.Storage.Action.Keeps.{Keeps, Keeps-found, KeepsIf-Keeps}
use nexuscloud.Storage.Action.{◌>>=◌}
use nexuscloud.Storage.World.{fault_of}
use nexuscloud.Accounts.World.{Tables, World, Accounts, query, execute, applied, draw}

-- At least `n` draws were made, and `Q` holds of the tables.
pub record After (n : ℕ) (Q : Tables → Type 0) (w : World) : Type 0 where
  pub drew : n ≤ w.drawn
  pub holds : Q w.tables

module _ {n : ℕ} {Q : Tables → Type 0} where
  pub Keeps-query : {A : Type 0} (f : Tables → Result A) → Keeps (After n Q) (query f)
  unfolding query
  Keeps-query f = record { at = λ w h. record { drew = h.drew; holds = h.holds } }

  applied_keeps :
      (w : World) (bs : List Bool) (r : Result Tables)
      → ((s : Tables) → r ≡ ok s → Q s)
      → After n Q w
      → After n Q (applied w bs r).1
  applied_keeps w bs (ok s) k h = record { drew = h.drew; holds = k s refl }
  applied_keeps w bs (err e) k h = record { drew = h.drew; holds = h.holds }

  -- A statement keeps `Q` if each result of it does.
  pub Keeps-execute :
      (f : Tables → Result Tables)
      → ((t s : Tables) → f t ≡ ok s → Q t → Q s)
      → Keeps (After n Q) (execute f)
  unfolding execute
  Keeps-execute f k = record {
    at = λ w h.
        applied_keeps w _ _ (λ s e. k w.tables s (answered (fault_of w.db_faults) _ s e) h.holds) h;
  }
    where
      answered :
          (b : Bool) (r : Result Tables) (s : Tables)
          → (if b then err failed else r) ≡ ok s
          → r ≡ ok s
      answered true r s e = cc
      answered false r s e = e

  later : (w : World) → n ≤ w.drawn → Q w.tables → After n Q (record w { drawn = w.drawn + 1 })
  later w le q = record { drew = omega arith; holds = q }

  pub Keeps-draw : {A : Type 0} (f : ℕ → Result A) → Keeps (After n Q) (draw f)
  unfolding draw
  Keeps-draw f = record { at = λ w h. later w h.drew h.holds }

  -- What is drawn now is drawn after the first `n`.
  pub Keeps-drawn :
      {A B : Type 0} (f : ℕ → Result A) (next : A → Accounts B)
      → ((k : ℕ) (a : A) → n ≤ k → f k ≡ ok a → Keeps (After n Q) (next a))
      → Keeps (After n Q) (draw f >>= next)
  unfolding draw
  Keeps-drawn f next k =
      Keeps-found {R = λ _. Unit {0}} {F = λ a. (m : ℕ) × (n ≤ m) × (f m ≡ ok a)} (draw f) next
        (record {
          at = λ w h. later w h.drew h.holds;
          found = λ w h a e. ((w.drawn, h.drew, e), tt);
        })
        (λ a (m, le, e). KeepsIf-Keeps _ (k m a le e))
