-- ===== src/WebDav/FileSystem/Listing.antt =====
-- `dirFile.Readdir` of nexuscloud/internal/webdav/filesystem.go: a folder's listing, in pages.
use nexuscloud.Base.{
  ◌≡◌, refl, sym, ap, ◌∙◌, ◌≤◌, ◌<◌, ◌+◌, ◌-◌, ℕ, zero, suc, Bool, true, Option, none, some, List,
  [], ◌∷◌, ◌++◌, map, Str, take, drop, length, length-drop, take-append-drop, subst, arith,
  if◌then◌else◌, min,
}
use nexuscloud.GoText.{Int64, positive, negative}
use nexuscloud.Storage.Model.{FileMeta, Directory}
use nexuscloud.Storage.Action.{pure, ◌>>=◌}
use nexuscloud.Storage.Table.{sort_rows, str_lt}
use nexuscloud.Storage.World.{Outside, Settings}
use nexuscloud.Storage.Service.Folders.{list_folder}
use nexuscloud.WebDav.FileSystem.{FileInfo, folder, file, info_of, Dav, ask}

-- `dirFile`
pub record DirFile : Type 0 where
  pub path : Str
  pub entries : List FileInfo
  pub loaded : Bool
  pub cursor : ℕ

-- What `Readdir` answers: entries, or `io.EOF`.
pub data Page : Type 0 where
  page : List FileInfo → Page
  end_of_listing : Page

abbrev by_info_name : FileInfo → FileInfo → Bool
by_info_name a b = str_lt a.name b.name

-- The entries of a listing, sorted by their names.
unfoldable pub infos_of : ℕ → List Directory × List FileMeta → List FileInfo
unfolding info_of sort_rows str_lt
infos_of created (dirs, files) =
    sort_rows by_info_name
      (map (λ d. info_of created (folder d)) dirs ++ map (λ f. info_of created (file f)) files)

-- The rest of the listing at once.
abbrev whole : DirFile → Page × DirFile
whole d = (page (drop d.cursor d.entries), record d { cursor = length d.entries })

-- At most `count` entries of what remains.
unfoldable pub some_of : ℕ → List FileInfo → DirFile → Page × DirFile
some_of count [] d = (end_of_listing, d)
some_of count (e ∷ remaining) d =
    let taken = min count (length (e ∷ remaining)) in
    (page (take taken (e ∷ remaining)), record d { cursor = d.cursor + taken })

-- The end of `Readdir`, when the listing is loaded.
unfoldable pub next_page : Int64 → DirFile → Page × DirFile
unfolding some_of
next_page (positive zero) d = whole d
next_page (positive (suc n)) d = some_of (suc n) (drop d.cursor d.entries) d
next_page (negative n) d = whole d

module _ (o : Outside) (s : Settings) where
  -- `Readdir`
  unfoldable pub readdir : ℕ → Str → Int64 → DirFile → Dav o (Page × DirFile)
  unfolding infos_of next_page ask
  readdir created owner count d =
      if d.loaded
      then pure (next_page count d)
      else (ask o (list_folder o s owner d.path) >>= λ res. pure (
          next_page count
            (record d { entries = d.entries ++ infos_of created res; loaded = true })))

-- The entries of a page, in front of those of the pages after it.
abbrev in_front : Page → Option (List FileInfo) → Option (List FileInfo)
in_front end_of_listing rest = some []
in_front (page es) none = none
in_front (page es) (some rest) = some (es ++ rest)

-- A client that reads pages up to the end of the listing; `none` means that the fuel ran out.
unfoldable pub read_pages : ℕ → ℕ → DirFile → Option (List FileInfo)
read_pages zero count d = none
read_pages (suc fuel) count d =
    let answer = next_page (positive count) d in in_front answer.0 (read_pages fuel count answer.1)

drop_nil : {A : Type 0} (n : ℕ) → drop {A = A} n [] ≡ []
drop_nil zero = refl
drop_nil (suc n) = refl

drop_add : {A : Type 0} (m n : ℕ) (xs : List A) → drop (m + n) xs ≡ drop n (drop m xs)
drop_add zero n xs = ap (λ k. drop k xs) (omega arith)
drop_add (suc m) n [] = drop_nil (suc m + n) ∙ sym (drop_nil n)
drop_add (suc m) n (x ∷ xs) = ap (λ k. drop k (x ∷ xs)) (next m n) ∙ drop_add m n xs
  where
    next : (m n : ℕ) → suc m + n ≡ suc (m + n)
    next m n = omega arith

-- What is left behind a page of `t` entries, one at least, is shorter.
shorter : (t l fuel : ℕ) → 1 ≤ t → 1 ≤ l → l < suc fuel → l - t < fuel
shorter t l fuel one some_left enough = omega arith

taken_some : (n l : ℕ) → 1 ≤ min (suc n) (suc l)
taken_some n l = omega arith

-- One page, and what the reading of the others gives.
read_pages_step :
    (fuel n : ℕ) (d : DirFile) (r : List FileInfo)
    → ((d' : DirFile)
        → length (drop d'.cursor d'.entries) < fuel
        → read_pages fuel (suc n) d' ≡ some (drop d'.cursor d'.entries))
    → drop d.cursor d.entries ≡ r
    → length r < suc fuel
    → read_pages (suc fuel) (suc n) d ≡ some r
unfolding read_pages next_page some_of
read_pages_step fuel n d [] again e lt = rw (read_pages, next_page, e) refl
read_pages_step fuel n d (x ∷ r) again e lt =
    let t = min (suc n) (suc (length r)) in
    let after : drop (d.cursor + t) d.entries ≡ drop t (x ∷ r) =
      drop_add d.cursor t d.entries ∙ ap (drop t) e in
    let fits : length (drop (d.cursor + t) d.entries) < fuel =
      rw (after, length-drop t (x ∷ r))
        (shorter t (suc (length r)) fuel (taken_some n (length r)) (omega arith) lt) in
    let rest : read_pages fuel (suc n) (record d { cursor = d.cursor + t })
        ≡ some (drop t (x ∷ r)) =
      again (record d { cursor = d.cursor + t }) fits ∙ ap some after in
    let answer : next_page (positive (suc n)) d
        ≡ (page (take t (x ∷ r)), record d { cursor = d.cursor + t }) =
      rw (next_page, e) refl in
    subst (λ a. in_front a.0 (read_pages fuel (suc n) a.1) ≡ some (x ∷ r)) (sym answer)
      (rw rest (ap some (take-append-drop t (x ∷ r))))

-- Pages of at least one entry, read up to the end, are the whole rest of the listing, in its order; one
-- page more than there are entries is enough.
pub read_pages-drop :
    (fuel n : ℕ) (d : DirFile)
    → length (drop d.cursor d.entries) < fuel
    → read_pages fuel (suc n) d ≡ some (drop d.cursor d.entries)
read_pages-drop zero n d enough = absurd (ground arith)
read_pages-drop (suc fuel) n d enough =
    read_pages_step fuel n d (drop d.cursor d.entries) (λ d' lt. read_pages-drop fuel n d' lt) refl
      enough
