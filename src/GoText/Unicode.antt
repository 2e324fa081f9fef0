-- ===== src/GoText/Unicode.antt =====
-- What the program uses of Go's `strings` and `unicode/utf8` on characters: `TrimSpace` and
-- `RuneCountInString`, over bytes.
use mathlib.Core.List.{reverse}
use nexuscloud.Base.{
  ℕ, zero, suc, Bool, false, List, [], ◌∷◌, map, Str, if◌then◌else◌, has_prefix, length, drop, leb,
  ◌==◌, ◌&&◌, ◌||◌,
}

-- The encodings of the characters that `unicode.IsSpace` accepts.
abbrev white_space : List Str
white_space =
    (9 ∷ [])
    ∷ (10 ∷ [])
    ∷ (11 ∷ [])
    ∷ (12 ∷ [])
    ∷ (13 ∷ [])
    ∷ (32 ∷ [])
    ∷ (0xC2 ∷ 0x85 ∷ [])
    ∷ (0xC2 ∷ 0xA0 ∷ [])
    ∷ (0xE1 ∷ 0x9A ∷ 0x80 ∷ [])
    ∷ (0xE2 ∷ 0x80 ∷ 0x80 ∷ [])
    ∷ (0xE2 ∷ 0x80 ∷ 0x81 ∷ [])
    ∷ (0xE2 ∷ 0x80 ∷ 0x82 ∷ [])
    ∷ (0xE2 ∷ 0x80 ∷ 0x83 ∷ [])
    ∷ (0xE2 ∷ 0x80 ∷ 0x84 ∷ [])
    ∷ (0xE2 ∷ 0x80 ∷ 0x85 ∷ [])
    ∷ (0xE2 ∷ 0x80 ∷ 0x86 ∷ [])
    ∷ (0xE2 ∷ 0x80 ∷ 0x87 ∷ [])
    ∷ (0xE2 ∷ 0x80 ∷ 0x88 ∷ [])
    ∷ (0xE2 ∷ 0x80 ∷ 0x89 ∷ [])
    ∷ (0xE2 ∷ 0x80 ∷ 0x8A ∷ [])
    ∷ (0xE2 ∷ 0x80 ∷ 0xA8 ∷ [])
    ∷ (0xE2 ∷ 0x80 ∷ 0xA9 ∷ [])
    ∷ (0xE2 ∷ 0x80 ∷ 0xAF ∷ [])
    ∷ (0xE2 ∷ 0x81 ∷ 0x9F ∷ [])
    ∷ (0xE3 ∷ 0x80 ∷ 0x80 ∷ [])
    ∷ []

-- The length of the first of the texts with which `s` begins, or 0.
prefix_width : List Str → Str → ℕ
prefix_width [] s = 0
prefix_width (p ∷ ps) s = let rest = prefix_width ps s in if has_prefix s p then length p else rest

trim_start : ℕ → List Str → Str → Str
unfolding prefix_width has_prefix
trim_start zero spaces s = s
trim_start (suc fuel) spaces s =
    let rest = trim_start fuel spaces (drop (prefix_width spaces s) s) in
    if prefix_width spaces s == 0 then s else rest

-- `strings.TrimSpace`
unfoldable pub trim_space : Str → Str
unfolding trim_start
trim_space s =
    let t = trim_start (length s) white_space s in
    reverse (trim_start (length t) (map reverse white_space) (reverse t))

abbrev between : ℕ → ℕ → List ℕ → Bool
between lo hi [] = false
between lo hi (c ∷ s) = leb lo c && leb c hi

-- How many bytes after the first byte `c` belong to its character; a byte that begins no character
-- stands alone.
unfoldable pub more_bytes : ℕ → Str → ℕ
more_bytes c s =
    if leb 0xC2 c && (leb c 0xDF && between 0x80 0xBF s)
    then 1
    else if (c == 0xE0 && between 0xA0 0xBF s
          || (c == 0xED && between 0x80 0x9F s
              || ((leb 0xE1 c && (leb c 0xEC && between 0x80 0xBF s))
                  || (leb 0xEE c && (leb c 0xEF && between 0x80 0xBF s)))))
        && between 0x80 0xBF (drop 1 s)
    then 2
    else if (c == 0xF0 && between 0x90 0xBF s
          || (c == 0xF4 && between 0x80 0x8F s
              || (leb 0xF1 c && (leb c 0xF3 && between 0x80 0xBF s))))
        && (between 0x80 0xBF (drop 1 s) && between 0x80 0xBF (drop 2 s))
    then 3
    else 0

count_runes : ℕ → Str → ℕ
unfolding more_bytes
count_runes skip [] = 0
count_runes (suc skip) (c ∷ s) = count_runes skip s
count_runes zero (c ∷ s) = suc (count_runes (more_bytes c s) s)

-- `utf8.RuneCountInString`
unfoldable pub rune_count : Str → ℕ
unfolding count_runes
rune_count s = count_runes 0 s
