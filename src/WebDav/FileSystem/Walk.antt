-- ===== src/WebDav/FileSystem/Walk.antt =====
-- The walk of `removeTree`: what makes it end, and how the paths on it grow.
use nexuscloud.Base.{
  ◌≡◌, ◌≢◌, refl, ap, ◌∙◌, ◌≤◌, ◌<◌, ℕ, false, Option, none, some, List, [], ◌∷◌, ◌++◌, Str, str_eq,
  All, length, length-append, arith,
}
use nexuscloud.GoPath.{slash, join, path_join}
use nexuscloud.GoPath.Segments.{join-append}
use nexuscloud.GoPath.Clean.{
  IsNormal, abs_path, clean_rooted, descend-abs_path, descend_name, path_join-abs_path,
}
use nexuscloud.Storage.Errors.{Result, ok, err}
use nexuscloud.Storage.Model.{Directory}
use nexuscloud.Storage.Action.{lift, attempt, ◌>>=◌}
use nexuscloud.Storage.Action.Keeps.{Keeps}
use nexuscloud.Storage.Action.Answers.{Answers, Answers-pure, Answers-bind}
use nexuscloud.Storage.World.{Outside, Service}
use nexuscloud.Storage.World.Tables.{Tables, On}
use nexuscloud.Storage.Names.{normalize_parent_path}
use nexuscloud.WebDav.FileSystem.{Dav, call, ask, mapped}
use nexuscloud.WebDav.FileSystem.Remove.{and_then, remove_trees}
use nexuscloud.WebDav.FileSystem.Tables.{OnTree}
use nexuscloud.WebDav.FileSystem.Folders.{IgnoresTrash}

-- The folder has a name, and the path of its parent is no longer than `n` bytes.
abbrev pub Placed : ℕ → Directory → Type 0
Placed n d = IsNormal d.name × (length d.parent_path ≤ n)

pub Placed-IgnoresTrash : (n : ℕ) → IgnoresTrash (Placed n)
Placed-IgnoresTrash n d t h = h

-- The walk has not run out of fuel.
abbrev pub Finished : Option (Unit {0}) → Type 0
Finished r = r ≢ none

module _ (o : Outside) (D : Tables) where
  pub ask-Answers :
      {A : Type 0} (F : A → Type 0) (m : Service o A)
      → Answers (On D) F m
      → Answers (OnTree D) F (ask o m)
  unfolding ask call attempt lift ◌>>=◌ OnTree
  ask-Answers F m k = record {
    gives = λ v h a e. k.gives v.world h a (mapped_ok (m v.world).0 a e);
  }
    where
      mapped_ok : {A : Type 0} (r : Result A) (a : A) → mapped r ≡ ok a → r ≡ ok a
      mapped_ok (ok x) a e = e
      mapped_ok (err x) a e = cc

  pub and_then-Finished :
      (done : Option (Unit {0})) (m : Dav o (Option (Unit {0})))
      → Finished done
      → Answers (OnTree D) Finished m
      → Answers (OnTree D) Finished (and_then o done m)
  and_then-Finished none m f k = absurd (f refl)
  and_then-Finished (some u) m f k = k

  pub remove_trees-Finished :
      (F : Directory → Type 0) (go : Str → Directory → Dav o (Option (Unit {0}))) (path : Str)
      (ds : List Directory)
      → ((path : Str) (d : Directory) → Keeps (OnTree D) (go path d))
      → ((d : Directory)
          → F d
          → Answers (OnTree D) Finished (go (path_join (path ∷ d.name ∷ [])) d))
      → All F ds
      → Answers (OnTree D) Finished (remove_trees o go path ds)
  unfolding remove_trees
  remove_trees-Finished F go path [] k f h = Answers-pure (some tt) (λ e. cc)
  remove_trees-Finished F go path (d ∷ ds) k f h =
      Answers-bind _ _ (k _ d) (f d h.0)
        (λ done g. and_then-Finished done _ g (remove_trees-Finished F go path ds k f h.1))

pub normalize-abs_path :
    (segs : List Str) → All IsNormal segs → normalize_parent_path (abs_path segs) ≡ abs_path segs
unfolding normalize_parent_path
normalize-abs_path segs h = clean_rooted (abs_path segs) ∙ ap abs_path (descend-abs_path [] segs h)

-- The path of a folder is longer than that of its parent.
pub length-abs_path :
    (segs : List Str) (name : Str)
    → IsNormal name
    → length (abs_path segs) < length (abs_path (segs ++ (name ∷ [])))
unfolding join
length-abs_path [] [] h = absurd (not_false h.0)
  where
    not_false : str_eq [] [] ≡ false → ⊥
    not_false e = unfold str_eq in cc
length-abs_path [] (c ∷ name) h = ground arith
length-abs_path (s ∷ segs) name h =
    rw
      (
        join-append slash (s ∷ segs) name [] (λ e. cc),
        length-append (join slash (s ∷ segs)) (slash ∷ name),
      )
      (ground arith)

pub path_join-name :
    (segs : List Str) (name : Str)
    → All IsNormal segs
    → IsNormal name
    → path_join (abs_path segs ∷ name ∷ []) ≡ abs_path (segs ++ (name ∷ []))
path_join-name segs name h n =
    path_join-abs_path segs (name ∷ []) h ∙ ap abs_path (descend_name segs name n)
