-- ===== src/Storage/Service/Isolation/Rows.antt =====
-- The rows of other users in the tables, and what changes of the rows leave of them.
use nexuscloud.Base.{
  ◌≡◌, refl, sym, ◌∙◌, ap, Bool, true, false, not, Bool-cases, inl, inr, Option, none, some, List,
  [], ◌∷◌, ◌++◌, append-nil, map, Str, if◌then◌else◌, str_eq, str_eq-eq, str_eq_refl, select,
  find_first, any_of, ◌&&◌, &&_eq_true, subst, ◌⊎◌,
}
use nexuscloud.Storage.Errors.{
  ok, err, if_eq_ok, if_if_eq_ok, if_err_ok, file_not_found, unique_violation,
}
use nexuscloud.Storage.Model.{FileMeta, Directory}
use nexuscloud.Storage.Table.{delete_row}
use nexuscloud.Storage.Table.Rows.{select-update_row, select-delete_row, select-append}
use nexuscloud.Storage.World.Tables.{Tables}
use nexuscloud.Storage.Files.{
  has_id, has_key, same_key, overwrite, upsert_rows, update_by_id, move_rows,
}
use nexuscloud.Storage.Directories.{dir_has_id}

-- The row is not the user's.
abbrev pub not_of : Str → FileMeta → Bool
not_of user f = not (str_eq f.owner_id user)

abbrev pub dir_not_of : Str → Directory → Bool
dir_not_of user d = not (str_eq d.owner_id user)

-- The rows of other users are these.
unfoldable pub Others : Str → List FileMeta → List Directory → Tables
Others user X Y fs ds = (select (not_of user) fs ≡ X) × (select (dir_not_of user) ds ≡ Y)

-- The first row with this identifier is the user's, if there is one.
unfoldable pub MineFile : Str → Str → Tables
MineFile user id fs ds = (f : FileMeta) → find_first (has_id id) fs ≡ some f → not_of user f ≡ false

unfoldable pub MineDir : Str → Str → Tables
MineDir user id fs ds =
    (d : Directory) → find_first (dir_has_id id) ds ≡ some d → dir_not_of user d ≡ false

module _ {A : Type 0} where
  some_injective : {x y : A} → some x ≡ some y → x ≡ y
  some_injective h = cc

  find_first-head :
      (p : A → Bool) (y x : A) (r : Option A)
      → (p y ≡ true) ⊎ (p y ≡ false)
      → (if p y then some y else r) ≡ some x
      → (p x ≡ true) ⊎ (r ≡ some x)
  find_first-head p y x r (inl e) h =
      inl (some-passes (subst (λ b. (if b then some y else r) ≡ some x) e h))
    where
      some-passes : some y ≡ some x → p x ≡ true
      some-passes k = subst (λ z. p z ≡ true) (some_injective k) e
  find_first-head p y x r (inr e) h = inr (subst (λ b. (if b then some y else r) ≡ some x) e h)

  pub find_first-passes :
      (p : A → Bool) (xs : List A) (x : A) → find_first p xs ≡ some x → p x ≡ true
  find_first-passes p [] x h = cc
  find_first-passes p (y ∷ ys) x h =
      elim (find_first-head p y x (find_first p ys) (Bool-cases (p y)) h) [
        | inl e ↦ e
        | inr e ↦ find_first-passes p ys x e
      ]

pub same_key-owner : (new f : FileMeta) → same_key new f ≡ true → f.owner_id ≡ new.owner_id
unfolding has_key
same_key-owner new f h = let k = &&_eq_true _ _ h in str_eq-eq _ _ (&&_eq_true _ _ k.1).0

pub upsert_rows-others :
    (new : FileMeta) (fs fs' : List FileMeta)
    → upsert_rows new fs ≡ ok fs'
    → select (not_of new.owner_id) fs' ≡ select (not_of new.owner_id) fs
unfolding upsert_rows overwrite
upsert_rows-others new fs fs' h =
    elim (if_if_eq_ok (any_of (same_key new) fs) (any_of (has_id new.id) fs) _ _ fs'
      unique_violation h) [
        | inl (_, e) ↦ rw (sym e) (
            select-update_row (same_key new) (not_of new.owner_id) (overwrite new) fs (λ f k.
              let q = is_mine f (same_key-owner new f (find_first-passes _ fs f k)) in (q, q)))
        | inr (_, _, e) ↦ rw (sym e) (
            select-append (not_of new.owner_id) fs (_ ∷ [])
            ∙ ap (λ r. select (not_of new.owner_id) fs ++ r) (drop_mine new (is_mine new refl))
            ∙ append-nil _)
      ]
  where
    is_mine : (f : FileMeta) → f.owner_id ≡ new.owner_id → not_of new.owner_id f ≡ false
    is_mine f e = rw (e, str_eq_refl new.owner_id) refl

    drop_mine :
        (f : FileMeta)
        → not_of new.owner_id f ≡ false
        → select (not_of new.owner_id) (record f { deleted_at = none } ∷ []) ≡ []
    drop_mine f q = rw q refl

pub update_by_id-others :
    (user id : Str) (g : FileMeta → FileMeta) (fs fs' : List FileMeta)
    → ((f : FileMeta) → (g f).owner_id ≡ f.owner_id)
    → MineFile user id fs []
    → update_by_id id g fs ≡ ok fs'
    → select (not_of user) fs' ≡ select (not_of user) fs
unfolding update_by_id MineFile
update_by_id-others user id g fs fs' hg hm h =
    rw (sym (if_eq_ok (any_of (has_id id) fs) _ _ _ h).1)
      (select-update_row (has_id id) (not_of user) g fs (λ f e. (hm f e, rw (hg f) (hm f e))))

pub delete_by_id-others :
    (user id : Str) (fs fs' : List FileMeta)
    → MineFile user id fs []
    → (if any_of (has_id id) fs then ok (delete_row (has_id id) fs) else err file_not_found)
      ≡ ok fs'
    → select (not_of user) fs' ≡ select (not_of user) fs
unfolding MineFile
delete_by_id-others user id fs fs' hm h =
    rw (sym (if_eq_ok (any_of (has_id id) fs) _ _ _ h).1)
      (select-delete_row (has_id id) (not_of user) fs hm)

pub move_rows-others :
    (user id parent name : Str) (fs fs' : List FileMeta)
    → MineFile user id fs []
    → move_rows id parent name fs ≡ ok fs'
    → select (not_of user) fs' ≡ select (not_of user) fs
unfolding move_rows
move_rows-others user id parent name fs fs' hm h = moved (find_first (has_id id) fs) h
  where
    moved :
        (r : Option FileMeta)
        → elim r [
          | none ↦ err file_not_found
          | some f ↦
              if any_of (λ g. has_key f.pool_id f.owner_id parent name g && not (has_id id g)) fs
              then err unique_violation
              else update_by_id id (λ g. record g { parent_path = parent; name = name }) fs
        ]
          ≡ ok fs'
        → select (not_of user) fs' ≡ select (not_of user) fs
    moved none k = cc
    moved (some f) k = update_by_id-others user id _ fs fs' (λ g. refl) hm (if_err_ok _ _ _ k)

module _ {A : Type 0} (q : A → Bool) (g : A → A) where
  pub select-map :
      ((x : A) → q (g x) ≡ q x)
      → ((x : A) → q x ≡ true → g x ≡ x)
      → (xs : List A) → select q (map g xs) ≡ select q xs
  select-map hq hg [] = refl
  select-map hq hg (x ∷ xs) = elim (Bool-cases (q x)) [
    | inl e ↦ rw (hq x, hg x e, e, select-map hq hg xs) refl
    | inr e ↦ rw (hq x, e) (select-map hq hg xs)
  ]
