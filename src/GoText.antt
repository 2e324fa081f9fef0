-- ===== src/GoText.antt =====
-- What the program uses of `strconv` and `strings` on numbers in text: `Itoa`, `ParseInt` in base
-- ten, `HasSuffix`, `TrimPrefix`, `TrimSuffix`.
pub mod Decimal
pub mod Unicode
use mathlib.Core.List.{reverse}
use nexuscloud.Base.{
  ℕ, zero, suc, ◌+◌, ◌-◌, ◌*◌, ◌/◌, ◌%◌, ◌^◌, Bool, true, false, Option, none, some, List, [], ◌∷◌,
  ◌==◌, ◌&&◌, leb, ltb, if◌then◌else◌, Str, str, str_eq, has_prefix, drop, length,
}

unfoldable pub digits_onto : ℕ → ℕ → Str → Str
digits_onto zero n out = out
digits_onto (suc fuel) n out =
    let out' = (b'0' + n % 10) ∷ out in
    let rest = digits_onto fuel (n / 10) out' in if n / 10 == 0 then out' else rest

-- `strconv.Itoa` of a number that is not negative
unfoldable pub itoa : ℕ → Str
unfolding digits_onto
itoa n = digits_onto (suc n) n []

-- The number that the digits after `acc` stand for.
unfoldable pub parse_digits : ℕ → Str → Option ℕ
parse_digits acc [] = some acc
parse_digits acc (c ∷ s) =
    let rest = parse_digits (acc * 10 + (c - b'0')) s in
    if leb b'0' c && leb c b'9' then rest else none

-- An `int64`: `negative n` is -n.
pub data Int64 : Type 0 where
  positive negative : ℕ → Int64

unfoldable pub parse_unsigned : Str → Option ℕ
unfolding parse_digits
parse_unsigned [] = none
parse_unsigned (c ∷ s) = parse_digits 0 (c ∷ s)

abbrev within_int64 : Bool → Option ℕ → Option Int64
within_int64 neg none = none
within_int64 false (some n) = if ltb n (2 ^ 63) then some (positive n) else none
within_int64 true (some n) = if leb n (2 ^ 63) then some (negative n) else none

-- `strconv.ParseInt(s, 10, 64)`
unfoldable pub parse_int : Str → Option Int64
unfolding parse_unsigned
parse_int [] = none
parse_int (c ∷ s) =
    if c == b'+'
    then within_int64 false (parse_unsigned s)
    else if c == b'-'
    then within_int64 true (parse_unsigned s)
    else within_int64 false (parse_unsigned (c ∷ s))

-- `strings.HasSuffix`
unfoldable pub has_suffix : Str → Str → Bool
unfolding has_prefix
has_suffix s p = has_prefix (reverse s) (reverse p)

-- `strings.TrimPrefix`
unfoldable pub trim_prefix : Str → Str → Str
unfolding has_prefix
trim_prefix s p = if has_prefix s p then drop (length p) s else s

-- `strings.TrimSuffix`
unfoldable pub trim_suffix : Str → Str → Str
unfolding has_suffix
trim_suffix s p = if has_suffix s p then reverse (drop (length p) (reverse s)) else s
