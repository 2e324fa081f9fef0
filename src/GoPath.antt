-- ===== src/GoPath.antt =====
-- Package `path` of Go's standard library, as the program uses it on logical paths and (through
-- `path/filepath` on a Unix host) on physical ones: `Clean`, `Join`, `Dir`, `Base`, and
-- `strings.Split`, `strings.Join`, `strings.Trim` on one separator byte.
pub mod Segments
pub mod Clean
use mathlib.Core.List.{reverse}
use nexuscloud.Base.{
  ℕ, Bool, true, false, List, [], ◌∷◌, ◌++◌, ◌==◌, ◌&&◌, if◌then◌else◌, Str, str, str_eq,
}

abbrev pub slash : ℕ
slash = b'/'

-- Puts a byte in front of the first piece.
abbrev pub cons_head : ℕ → List Str → List Str
cons_head c [] = (c ∷ []) ∷ []
cons_head c (s ∷ rest) = (c ∷ s) ∷ rest

-- `strings.Split(s, sep)`: never the empty list.
unfoldable pub split : ℕ → Str → List Str
split sep [] = [] ∷ []
split sep (c ∷ s) = let rest = split sep s in if c == sep then [] ∷ rest else cons_head c rest

-- `strings.Join(parts, sep)`
unfoldable pub join : ℕ → List Str → Str
join sep [] = []
join sep (s ∷ []) = s
join sep (s ∷ t ∷ rest) = s ++ (sep ∷ join sep (t ∷ rest))

-- `..` in `Clean`: above the root of a rooted path there is nothing, and a relative path keeps
-- the `..` that it cannot take back.
unfoldable pub go_up : Bool → List Str → List Str
go_up true [] = []
go_up true (_ ∷ stack) = stack
go_up false [] = str ".." ∷ []
go_up false (top ∷ stack) = if str_eq top (str "..") then str ".." ∷ top ∷ stack else stack

-- What `Clean` does at one element: `stack` holds the output so far, the last element first.
unfoldable pub clean_step : Bool → List Str → Str → List Str
clean_step rooted stack seg =
    if str_eq seg []
    then stack
    else if str_eq seg (str ".")
    then stack
    else if str_eq seg (str "..")
    then go_up rooted stack
    else seg ∷ stack

unfoldable pub clean_loop : Bool → List Str → List Str → List Str
clean_loop rooted stack [] = stack
clean_loop rooted stack (seg ∷ segs) = clean_loop rooted (clean_step rooted stack seg) segs

abbrev pub starts_slash : Str → Bool
starts_slash [] = false
starts_slash (c ∷ s) = c == slash

-- `path.Clean`
unfoldable pub clean : Str → Str
unfolding clean_loop clean_step go_up split join str_eq
clean p =
    let body = join slash (reverse (clean_loop (starts_slash p) [] (split slash p))) in
    if starts_slash p then slash ∷ body else if str_eq body [] then str "." else body

-- The buffer that `path.Join` cleans: leading empty elements are skipped.
unfoldable pub join_buffer : Str → List Str → Str
join_buffer buf [] = buf
join_buffer buf (e ∷ es) =
    join_buffer
      (if str_eq buf [] && str_eq e []
        then buf
        else if str_eq buf []
        then e
        else buf ++ (slash ∷ e))
      es

-- `path.Join`
unfoldable pub path_join : List Str → Str
unfolding join_buffer clean str_eq
path_join es = let buf = join_buffer [] es in if str_eq buf [] then [] else clean buf

-- The text up to the last slash, that slash included, and the rest: `path.Split`.
unfoldable pub split_dir : Str → Str
split_dir [] = []
split_dir (c ∷ s) =
    let rest = split_dir s in
    if str_eq rest [] then (if c == slash then c ∷ [] else []) else c ∷ rest

-- `path.Dir`
unfoldable pub dir_of : Str → Str
unfolding split_dir clean str_eq
dir_of p = clean (split_dir p)

unfoldable pub drop_slashes : Str → Str
drop_slashes [] = []
drop_slashes (c ∷ s) = let rest = drop_slashes s in if c == slash then rest else c ∷ s

-- `strings.Trim(s, "/")`
unfoldable pub trim_slashes : Str → Str
unfolding drop_slashes
trim_slashes s = reverse (drop_slashes (reverse (drop_slashes s)))

abbrev last_of : List Str → Str
last_of [] = []
last_of (s ∷ []) = s
last_of (s ∷ t ∷ rest) = last_of (t ∷ rest)

-- `path.Base`
unfoldable pub base_of : Str → Str
unfolding drop_slashes split str_eq
base_of [] = str "."
base_of (c ∷ s) =
    let name = last_of (split slash (reverse (drop_slashes (reverse (c ∷ s))))) in
    if str_eq name [] then str "/" else name
