-- ===== src/Storage/Service/Isolation/Owned.antt =====
-- The checks of ownership in front of the operations of the file service.
use nexuscloud.Base.{
  ◌≡◌, refl, sym, ◌∙◌, ap, Bool, true, false, not, Option, none, some, [], Str, if◌then◌else◌,
  str_eq, str_eq-eq, find_first, subst, ◌⊎◌, inl, inr,
}
use nexuscloud.Storage.Errors.{Error, Result, ok, err, forbidden, failed}
use nexuscloud.Storage.Model.{FileMeta, Directory}
use nexuscloud.Storage.Action.{Action, pure, reject_if, continue, ◌>>=◌}
use nexuscloud.Storage.Action.Keeps.{Finds}
use nexuscloud.Storage.World.{Outside, Db, World, query, fault_of}
use nexuscloud.Storage.World.Calls.{query-eq}
use nexuscloud.Storage.World.Tables.{Tables, On}
use nexuscloud.Storage.Files.{has_id, get_file_by_id, or_file_not_found}
use nexuscloud.Storage.Directories.{dir_has_id, get_directory_by_id, or_directory_not_found}
use nexuscloud.Storage.Service.History.{owned_file}
use nexuscloud.Storage.Service.Move.{owned_directory}
use nexuscloud.Storage.Service.Isolation.Rows.{
  MineFile, MineDir, not_of, dir_not_of, find_first-passes,
}

module _ {W A : Type 0} (mine : A → Bool) (m : Action W A) where
  -- What was looked up is passed on if it is the user's.
  abbrev pub guarded : Action W A
  guarded = m >>= λ a. reject_if (not (mine a)) forbidden >>= λ _. pure a

  pub guarded-eq_ok : (w : W) (a : A) → (guarded w).0 ≡ ok a → ((m w).0 ≡ ok a) × (mine a ≡ true)
  unfolding ◌>>=◌ pure reject_if
  guarded-eq_ok w = inverted (m w).0
    where
      passed :
          (b : Bool) (x a : A)
          → mine x ≡ b
          → (continue
              (reject_if (not b) forbidden (m w).1).0
              (λ _. pure x)
              (reject_if (not b) forbidden (m w).1).1).0
            ≡ ok a
          → (ok x ≡ ok a) × (mine a ≡ true)
      passed true x a e h = (h, subst (λ y. mine y ≡ true) (ok_injective h) e)
        where
          ok_injective : ok x ≡ ok a → x ≡ a
          ok_injective k = cc
      passed false x a e h = cc

      inverted :
          (r : Result A) (a : A)
          → (continue r (λ x. reject_if (not (mine x)) forbidden >>= λ _. pure x) (m w).1).0 ≡ ok a
          → (r ≡ ok a) × (mine a ≡ true)
      inverted (ok x) a h = passed (mine x) x a refl h
      inverted (err e) a h = cc

  pub guarded-state : (w : W) → (guarded w).1 ≡ (m w).1
  unfolding ◌>>=◌ pure reject_if
  guarded-state w = inverted (m w).0
    where
      passed :
          (b : Bool) (x : A)
          → (continue
              (reject_if (not b) forbidden (m w).1).0
              (λ _. pure x)
              (reject_if (not b) forbidden (m w).1).1).1
            ≡ (m w).1
      passed true x = refl
      passed false x = refl

      inverted :
          (r : Result A)
          → (continue r (λ x. reject_if (not (mine x)) forbidden >>= λ _. pure x) (m w).1).1
            ≡ (m w).1
      inverted (ok x) = passed (mine x) x
      inverted (err e) = refl

query-eq_ok :
    {Disk A : Type 0} (f : Db → Result A) (w : World Disk) (a : A)
    → (query f w).0 ≡ ok a
    → f w.db ≡ ok a
unfolding query
query-eq_ok f w a = no_fault (fault_of w.db_faults)
  where
    no_fault : (b : Bool) → (if b then err failed else f w.db) ≡ ok a → f w.db ≡ ok a
    no_fault true h = cc
    no_fault false h = h

or_file_not_found-eq_ok :
    (r : Option FileMeta) (f : FileMeta) → or_file_not_found r ≡ ok f → r ≡ some f
or_file_not_found-eq_ok none f h = cc
or_file_not_found-eq_ok (some g) f h = cc

or_directory_not_found-eq_ok :
    (r : Option Directory) (d : Directory) → or_directory_not_found r ≡ ok d → r ≡ some d
or_directory_not_found-eq_ok none f h = cc
or_directory_not_found-eq_ok (some g) f h = cc

is_mine : (user owner : Str) → str_eq owner user ≡ true → not (str_eq owner user) ≡ false
is_mine user owner e = rw e refl

only_row : {A : Type 0} (r : Option A) (x y : A) → r ≡ some x → r ≡ some y → x ≡ y
only_row r x y h k = some_injective (sym h ∙ k)
  where
    some_injective : some x ≡ some y → x ≡ y
    some_injective e = cc

abbrev pub file_is_of : Str → FileMeta → Bool
file_is_of user f = str_eq f.owner_id user

abbrev pub dir_is_of : Str → Directory → Bool
dir_is_of user d = str_eq d.owner_id user

module _ (o : Outside) (user id : Str) (D : Tables) where
  pub owned_file-found :
      Finds
        (On (MineFile user id))
        (On D)
        (λ f. (f.id ≡ id) × (f.owner_id ≡ user))
        (owned_file o user id)
  unfolding owned_file get_file_by_id On query has_id MineFile
  owned_file-found = record {
    at = λ w h. subst (On D) (sym (guarded-state (file_is_of user) (get_file_by_id o id) w)) h;
    found = λ w h a e.
        let (e1, e2) = guarded-eq_ok (file_is_of user) (get_file_by_id o id) w a e in
        let row =
          or_file_not_found-eq_ok (find_first (has_id id) w.db.files) a
            (query-eq_ok (λ d. or_file_not_found (find_first (has_id id) d.files)) w a e1) in
        (
          (str_eq-eq _ _ (find_first-passes (has_id id) w.db.files a row), str_eq-eq _ _ e2),
          subst (On (MineFile user id))
              (sym (guarded-state (file_is_of user) (get_file_by_id o id) w))
              (λ f k.
                subst (λ x. not_of user x ≡ false) (only_row _ a f row k)
                  (is_mine user a.owner_id e2)),
        );
  }

  pub owned_directory-found :
      Finds
        (On (MineDir user id))
        (On D)
        (λ d. (d.id ≡ id) × (d.owner_id ≡ user))
        (owned_directory o user id)
  unfolding owned_directory get_directory_by_id On query dir_has_id MineDir
  owned_directory-found = record {
    at = λ w h. subst (On D) (sym (guarded-state (dir_is_of user) (get_directory_by_id o id) w)) h;
    found = λ w h a e.
        let (e1, e2) = guarded-eq_ok (dir_is_of user) (get_directory_by_id o id) w a e in
        let row = or_directory_not_found-eq_ok (find_first (dir_has_id id) w.db.directories) a (
          query-eq_ok (λ d. or_directory_not_found (find_first (dir_has_id id) d.directories)) w a
            e1) in
        (
          (
            str_eq-eq _ _ (find_first-passes (dir_has_id id) w.db.directories a row),
            str_eq-eq _ _ e2,
          ),
          subst (On (MineDir user id))
              (sym (guarded-state (dir_is_of user) (get_directory_by_id o id) w))
              (λ d k.
                subst (λ x. dir_not_of user x ≡ false) (only_row _ a d row k)
                  (is_mine user a.owner_id e2)),
        );
  }

-- With no fault to come the lookup finds the row, and passes it on or refuses it.
module _ (o : Outside) (user id : Str) (w : World o.Disk) (q : w.db_faults ≡ []) where
  file_lookup :
      (f : FileMeta)
      → find_first (has_id id) w.db.files ≡ some f
      → get_file_by_id o id w ≡ (ok f, w)
  unfolding get_file_by_id
  file_lookup f h = query-eq w q _ ∙ ap (λ r. (or_file_not_found r, w)) h

  pub owned_file-eq :
      (f : FileMeta)
      → find_first (has_id id) w.db.files ≡ some f
      → str_eq f.owner_id user ≡ true
      → owned_file o user id w ≡ (ok f, w)
  unfolding owned_file reject_if pure ◌>>=◌
  owned_file-eq f h k = rw (file_lookup f h, k) refl

-- The call did not succeed, and neither tables nor store have changed.
abbrev pub Refuses : {Disk A : Type 0} → World Disk → Result A × World Disk → Type 0
Refuses w r = ((e : Error) × (r.0 ≡ err e)) × (r.1.db ≡ w.db) × (r.1.disk ≡ w.disk)

-- There is a row with that identifier, the one that a lookup finds, and it is the user's.
abbrev pub OwnsFile : {Disk : Type 0} → Str → Str → World Disk → Type 0
OwnsFile user id w =
    (f : FileMeta) × (find_first (has_id id) w.db.files ≡ some f) × (f.owner_id ≡ user)

abbrev pub OwnsFolder : {Disk : Type 0} → Str → Str → World Disk → Type 0
OwnsFolder user id w =
    (d : Directory) × (find_first (dir_has_id id) w.db.directories ≡ some d) × (d.owner_id ≡ user)

result-cases : {A : Type 0} (r : Result A) → ((a : A) × (r ≡ ok a)) ⊎ ((e : Error) × (r ≡ err e))
result-cases (ok a) = inl (a, refl)
result-cases (err e) = inr (e, refl)

module _ (o : Outside) (user id : Str) (w : World o.Disk) where
  pub owned_file-verdict : OwnsFile user id w ⊎ Refuses w (owned_file o user id w)
  unfolding owned_file get_file_by_id query
  owned_file-verdict = elim (result-cases (owned_file o user id w).0) [
    | inl (a, e) ↦
        let (e1, e2) = guarded-eq_ok (file_is_of user) (get_file_by_id o id) w a e in
        let row =
          or_file_not_found-eq_ok (find_first (has_id id) w.db.files) a
            (query-eq_ok (λ d. or_file_not_found (find_first (has_id id) d.files)) w a e1) in
        inl (a, row, str_eq-eq _ _ e2)
    | inr e ↦
        let state = guarded-state (file_is_of user) (get_file_by_id o id) w in
        inr (e, ap (λ x. x.db) state, ap (λ x. x.disk) state)
  ]

  pub owned_directory-verdict : OwnsFolder user id w ⊎ Refuses w (owned_directory o user id w)
  unfolding owned_directory get_directory_by_id query
  owned_directory-verdict = elim (result-cases (owned_directory o user id w).0) [
    | inl (a, e) ↦
        let (e1, e2) = guarded-eq_ok (dir_is_of user) (get_directory_by_id o id) w a e in
        let row = or_directory_not_found-eq_ok (find_first (dir_has_id id) w.db.directories) a (
          query-eq_ok (λ d. or_directory_not_found (find_first (dir_has_id id) d.directories)) w a
            e1) in
        inl (a, row, str_eq-eq _ _ e2)
    | inr e ↦
        let state = guarded-state (dir_is_of user) (get_directory_by_id o id) w in
        inr (e, ap (λ x. x.db) state, ap (λ x. x.disk) state)
  ]
