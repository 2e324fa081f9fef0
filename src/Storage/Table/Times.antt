-- ===== src/Storage/Table/Times.antt =====
-- Times in the database: nexuscloud/internal/db/timeutil.go. A time is a number of nanoseconds, and its column
-- holds a text in RFC 3339 with the fraction that `time.RFC3339Nano` writes: without trailing zeros, and
-- without the point when nothing is left. SQL compares those texts.
use nexuscloud.Base.{
  ◌≡◌, ℕ, zero, suc, ◌/◌, ◌%◌, ◌^◌, ◌+◌, ◌≤◌, Bool, true, Bool-cases, inl, inr, [], ◌∷◌, ◌++◌, ◌==◌,
  ==_iff, Str, str, str_eq, if◌then◌else◌, ltb, ltb→lt, ◌&&◌, arith,
}
use nexuscloud.Storage.Table.{str_lt}

abbrev pub second : ℕ
second = 1_000_000_000

-- The last `k` decimal digits of a number.
abbrev last_digits : ℕ → ℕ → Str
last_digits zero n = []
last_digits (suc k) n = (b'0' + n / 10 ^ k % 10) ∷ last_digits k n

abbrev without_zeros : Str → Str
without_zeros [] = []
without_zeros (c ∷ s) =
    let rest = without_zeros s in if c == b'0' && str_eq rest [] then [] else c ∷ rest

-- The text behind the seconds: the fraction, if it is not zero, and the `Z` of UTC.
unfoldable pub fraction_text : ℕ → Str
unfolding str_eq
fraction_text t =
    let digits = without_zeros (last_digits 9 t) in
    if str_eq digits [] then str "Z" else b'.' ∷ (digits ++ str "Z")

-- `<` between the texts of two times. Up to the second the texts have one width, and compare as the
-- seconds do; within a second the fractions compare as texts.
unfoldable pub time_lt : ℕ → ℕ → Bool
unfolding fraction_text str_lt
time_lt a b =
    if a / second == b / second
    then str_lt (fraction_text a) (fraction_text b)
    else ltb (a / second) (b / second)

-- What the database takes for earlier is not in a later second.
pub time_lt-le : (a b : ℕ) → time_lt a b ≡ true → a / second ≤ b / second
unfolding time_lt
time_lt-le a b h = elim (Bool-cases (a / second == b / second)) [
  | inl same ↦ let e = (==_iff (a / second) (b / second)).0 same in omega arith
  | inr other ↦ let lt = ltb→lt (a / second) (b / second) (rw other at h) in omega arith
]
