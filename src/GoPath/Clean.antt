-- ===== src/GoPath/Clean.antt =====
-- What `Clean` leaves of a rooted path: its elements, each a plain name.
use mathlib.Core.List.{reverse, reverse-reverse, reverse-append}
use nexuscloud.Base.{
  ◌≡◌, refl, sym, ap, ◌∙◌, Bool, true, false, List, [], ◌∷◌, ◌++◌, arith, Str, str, str_eq, All,
  All-append, append_assoc,
}
use nexuscloud.GoPath.{
  split, join, slash, split_dir, dir_of, clean, clean_step, clean_loop, go_up, path_join,
  join_buffer,
}
use nexuscloud.GoPath.Segments.{join-append, IsFree, split-append, split-IsFree, split-join}

-- A name that stands for one step down: not empty, neither `.` nor `..`, and without a slash.
abbrev pub IsNormal : Str → Type 0
IsNormal s =
    (str_eq s [] ≡ false)
    × (str_eq s (str ".") ≡ false)
    × (str_eq s (str "..") ≡ false)
    × IsFree slash s

-- The rooted path with these elements.
abbrev pub abs_path : List Str → Str
abs_path segs = slash ∷ join slash segs

-- The elements of the place that `rel` leads to from the place with the elements `base`.
unfoldable pub descend : List Str → Str → List Str
descend base rel = reverse (clean_loop true (reverse base) (split slash rel))

pub clean_loop-append :
    (r : Bool) (st a b : List Str) → clean_loop r st (a ++ b) ≡ clean_loop r (clean_loop r st a) b
unfolding clean_loop
clean_loop-append r st [] b = refl
clean_loop-append r st (x ∷ a) b = clean_loop-append r (clean_step r st x) a b

clean_step_normal : (r : Bool) (st : List Str) (s : Str) → IsNormal s → clean_step r st s ≡ s ∷ st
unfolding clean_step
clean_step_normal r st s h = rw (h.0, h.1, h.2) refl

pub clean_loop_normal :
    (r : Bool) (st segs : List Str) → All IsNormal segs → clean_loop r st segs ≡ reverse segs ++ st
unfolding clean_loop
clean_loop_normal r st [] h = refl
clean_loop_normal r st (x ∷ segs) h =
    rw (clean_step_normal r st x h.0, clean_loop_normal r (x ∷ st) segs h.1)
      (rw (reverse-append (x ∷ []) segs) (sym (append_assoc (reverse segs) (x ∷ []) st)))

clean_step-IsNormal :
    (st : List Str) (s : Str)
    → All IsNormal st
    → IsFree slash s
    → All IsNormal (clean_step true st s)
unfolding clean_step go_up
clean_step-IsNormal [] s h f = ground arith
clean_step-IsNormal (t ∷ st) s h f = ground arith

clean_loop-IsNormal :
    (st segs : List Str)
    → All IsNormal st
    → All (IsFree slash) segs
    → All IsNormal (clean_loop true st segs)
unfolding clean_loop
clean_loop-IsNormal st [] h f = h
clean_loop-IsNormal st (s ∷ segs) h f =
    clean_loop-IsNormal (clean_step true st s) segs (clean_step-IsNormal st s h f.0) f.1

pub All-reverse : (xs : List Str) → All IsNormal xs → All IsNormal (reverse xs)
All-reverse [] h = tt
All-reverse (x ∷ xs) h =
    rw (reverse-append (x ∷ []) xs)
      (All-append IsNormal (reverse xs) (x ∷ []) (All-reverse xs h.1) (h.0, tt))

pub descend-IsNormal :
    (base : List Str) (rel : Str) → All IsNormal base → All IsNormal (descend base rel)
unfolding descend
descend-IsNormal base rel h =
    All-reverse _
      (clean_loop-IsNormal (reverse base) _ (All-reverse base h) (split-IsFree slash rel))

-- Cleaning a rooted path gives the path of its elements.
pub clean_rooted : (p : Str) → clean (slash ∷ p) ≡ abs_path (descend [] p)
unfolding clean descend
clean_rooted p = refl

pub All-IsFree : (segs : List Str) → All IsNormal segs → All (IsFree slash) segs
All-IsFree [] h = tt
All-IsFree (s ∷ segs) h = (h.0.3, All-IsFree segs h.1)

-- The elements of a joined list of plain names are those names.
clean_loop-join :
    (st segs : List Str)
    → All IsNormal segs
    → clean_loop true st (split slash (join slash segs)) ≡ reverse segs ++ st
clean_loop-join st [] h = unfold clean_loop split join clean_step str_eq in refl
clean_loop-join st (s ∷ segs) h =
    rw (split-join slash s segs (All-IsFree (s ∷ segs) h)) (clean_loop_normal true st (s ∷ segs) h)

reverse_onto : (base segs : List Str) → reverse (reverse segs ++ reverse base) ≡ base ++ segs
reverse_onto base segs = rw (reverse-append, reverse-reverse base, reverse-reverse segs)

pub descend-join :
    (base segs : List Str) → All IsNormal segs → descend base (join slash segs) ≡ base ++ segs
unfolding descend
descend-join base segs k =
    ap reverse (clean_loop-join (reverse base) segs k) ∙ reverse_onto base segs

-- Elements are read back from their path.
pub descend-abs_path :
    (base segs : List Str) → All IsNormal segs → descend base (abs_path segs) ≡ base ++ segs
descend-abs_path base segs k = descend_slash base (join slash segs) ∙ descend-join base segs k
  where
    descend_slash : (base : List Str) (p : Str) → descend base (slash ∷ p) ≡ descend base p
    descend_slash base p = unfold descend split clean_loop clean_step str_eq in refl

-- One more plain name.
pub descend_name : (base : List Str) (s : Str) → IsNormal s → descend base s ≡ base ++ (s ∷ [])
descend_name base s n = unfold join in descend-join base (s ∷ []) (n, tt)

pub clean-abs_path : (segs : List Str) → All IsNormal segs → clean (abs_path segs) ≡ abs_path segs
clean-abs_path segs h = clean_rooted (join slash segs) ∙ ap abs_path (descend-join [] segs h)

pub descend_append : (b r : Str) → descend [] (b ++ (slash ∷ r)) ≡ descend (descend [] b) r
unfolding descend
descend_append b r = rw (split-append slash b r, clean_loop-append, reverse-reverse)

-- The place that several paths lead to, one after the other.
abbrev pub descend_all : List Str → List Str → List Str
descend_all base [] = base
descend_all base (rel ∷ rels) = descend_all (descend base rel) rels

clean-join_buffer :
    (b : Str) (rels : List Str)
    → clean (join_buffer (slash ∷ b) rels) ≡ abs_path (descend_all (descend [] b) rels)
clean-join_buffer b [] = unfold join_buffer in clean_rooted b
clean-join_buffer b (r ∷ rels) =
    join_step b r rels
    ∙ clean-join_buffer (b ++ (slash ∷ r)) rels
    ∙ ap (λ base. abs_path (descend_all base rels)) (descend_append b r)
  where
    join_step :
        (b r : Str) (rels : List Str)
        → clean (join_buffer (slash ∷ b) (r ∷ rels))
          ≡ clean (join_buffer (slash ∷ (b ++ (slash ∷ r))) rels)
    join_step b r rels = unfold join_buffer str_eq in refl

join_buffer-rooted : (b : Str) (rels : List Str) → str_eq (join_buffer (slash ∷ b) rels) [] ≡ false
unfolding join_buffer str_eq
join_buffer-rooted b [] = refl
join_buffer-rooted b (r ∷ rels) = join_buffer-rooted (b ++ (slash ∷ r)) rels

-- `path.Join` of a clean rooted path and any others.
pub path_join-abs_path :
    (base rels : List Str)
    → All IsNormal base
    → path_join (abs_path base ∷ rels) ≡ abs_path (descend_all base rels)
path_join-abs_path base rels h =
    join_first base rels
    ∙ clean-join_buffer (join slash base) rels
    ∙ ap (λ b. abs_path (descend_all b rels)) (descend-join [] base h)
  where
    join_first :
        (base rels : List Str)
        → path_join (abs_path base ∷ rels) ≡ clean (join_buffer (abs_path base) rels)
    join_first base rels = unfold path_join in rw (join_buffer-rooted (join slash base) rels) refl

split_dir_free : (s : Str) → IsFree slash s → split_dir s ≡ []
unfolding split_dir str_eq
split_dir_free [] h = refl
split_dir_free (c ∷ s) h = rw (split_dir_free s h.1) (rw h.0)

split_dir-append : (a b : Str) → IsFree slash b → split_dir (a ++ (slash ∷ b)) ≡ a ++ (slash ∷ [])
unfolding split_dir
split_dir-append [] b h = rw (split_dir_free b h) (unfold str_eq in refl)
split_dir-append (c ∷ a) b h = rw (split_dir-append a b h, append-ne a) refl
  where
    append-ne : (a : Str) → str_eq (a ++ (slash ∷ [])) [] ≡ false
    append-ne [] = unfold str_eq in refl
    append-ne (x ∷ a) = unfold str_eq in refl

pub descend_nil : (base : List Str) → descend base [] ≡ base
unfolding descend split clean_loop clean_step str_eq
descend_nil base = reverse-reverse base

-- `path.Dir` takes the last element off.
pub dir_of-abs_path :
    (segs : List Str) (s : Str)
    → All IsNormal segs
    → IsNormal s
    → dir_of (abs_path (segs ++ (s ∷ []))) ≡ abs_path segs
unfolding dir_of
dir_of-abs_path [] s h n = ap clean (split_dir-append [] s n.3) ∙ clean-abs_path [] tt
dir_of-abs_path (t ∷ segs) s h n = rw (join-append slash (t ∷ segs) s [] (λ e. cc)) (
    ap clean (split_dir-append (abs_path (t ∷ segs)) s n.3)
    ∙ clean_rooted (join slash (t ∷ segs) ++ (slash ∷ []))
    ∙ ap abs_path
        (descend_append (join slash (t ∷ segs)) [] ∙ descend_nil _ ∙ descend-join [] (t ∷ segs) h))

pub abs_path-injective :
    (a b : List Str) → All IsNormal a → All IsNormal b → abs_path a ≡ abs_path b → a ≡ b
abs_path-injective a b h k e =
    sym (descend-abs_path [] a h) ∙ ap (descend []) e ∙ descend-abs_path [] b k
