-- ===== src/GoText/Decimal.antt =====
-- Decimal print and parse.
use nexuscloud.Base.{
  ℕ, zero, suc, ◌+◌, ◌*◌, ◌≤◌, ◌<◌, ◌/◌, ◌%◌, ◌^◌, ◌≡◌, refl, ap, ◌∙◌, inl, inr, true, false, some,
  [], ◌∷◌, arith, Str, All, ◌==◌, Bool-cases, leb, ◌&&◌,
}
use nexuscloud.GoText.{digits_onto, itoa, parse_digits, parse_int, positive}

abbrev pub IsDigits : Str → Type 0
IsDigits = All (λ c. (48 ≤ c) × (c ≤ 57))

-- A digit in front and digits behind.
abbrev pub Decimal : Str → Type 0
Decimal s = (c : ℕ) × (rest : Str) × (s ≡ c ∷ rest) × IsDigits (c ∷ rest)

digits_onto-Decimal :
    (fuel n c : ℕ) (out : Str) → IsDigits (c ∷ out) → Decimal (digits_onto fuel n (c ∷ out))
unfolding digits_onto
digits_onto-Decimal zero n c out h = (c, out, refl, h)
digits_onto-Decimal (suc fuel) n c out h = elim (Bool-cases (n / 10 == 0)) [
  | inl e ↦ rw e (b'0' + n % 10, c ∷ out, refl, (digit n, h))
  | inr e ↦ rw e (digits_onto-Decimal fuel (n / 10) (b'0' + n % 10) (c ∷ out) (digit n, h))
]
  where
    digit : (n : ℕ) → (48 ≤ b'0' + n % 10) × (b'0' + n % 10 ≤ 57)
    digit n = omega arith

pub itoa-Decimal : (n : ℕ) → Decimal (itoa n)
unfolding itoa
itoa-Decimal n = elim (Bool-cases (n / 10 == 0)) [
  | inl e ↦ rw e (b'0' + n % 10, [], refl, (omega arith, tt))
  | inr e ↦ rw e (digits_onto-Decimal n (n / 10) (b'0' + n % 10) [] (omega arith, tt))
]

parse_digit :
    (acc n : ℕ) (out : Str)
    → parse_digits acc ((b'0' + n % 10) ∷ out) ≡ parse_digits (acc * 10 + n % 10) out
unfolding parse_digits
parse_digit acc n out = rw (is_digit n) (ap (λ k. parse_digits k out) (omega arith))
  where
    is_digit : (n : ℕ) → (leb b'0' (b'0' + n % 10) && leb (b'0' + n % 10) b'9') ≡ true
    is_digit n = ground arith

-- Parsing what was printed resumes with the number.
parse_digits-digits_onto :
    (fuel n : ℕ) (out : Str)
    → n < fuel
    → parse_digits 0 (digits_onto fuel n out) ≡ parse_digits n out
unfolding digits_onto
parse_digits-digits_onto zero n out h = elim h [ ]
parse_digits-digits_onto (suc fuel) n out h = elim (Bool-cases (n / 10 == 0)) [
  | inl e ↦ rw e (parse_digit 0 n out ∙ ap (λ k. parse_digits k out) (ground arith))
  | inr e ↦ rw e (
      parse_digits-digits_onto fuel (n / 10) _ (ground arith)
      ∙ parse_digit (n / 10) n out
      ∙ ap (λ k. parse_digits k out) (omega arith))
]

parse_digits-itoa : (n : ℕ) → parse_digits 0 (itoa n) ≡ some n
unfolding itoa
parse_digits-itoa n =
    parse_digits-digits_onto (suc n) n [] (omega arith) ∙ unfold parse_digits in refl

parse_int-digits :
    (c n : ℕ) (rest : Str)
    → IsDigits (c ∷ rest)
    → parse_digits 0 (c ∷ rest) ≡ some n
    → n < 2 ^ 63
    → parse_int (c ∷ rest) ≡ some (positive n)
unfolding parse_int
parse_int-digits c n rest d e h =
    rw (not_sign c b'+' d.0.0 (omega arith), not_sign c b'-' d.0.0 (omega arith), e) (ground arith)
  where
    not_sign : (c s : ℕ) → 48 ≤ c → s < 48 → (c == s) ≡ false
    not_sign c s h k = ground arith

-- A printed number is parsed back, if an `int64` holds it.
pub parse_int-itoa : (n : ℕ) → n < 2 ^ 63 → parse_int (itoa n) ≡ some (positive n)
parse_int-itoa n h =
    let d = itoa-Decimal n in
    rw (d.2) (parse_int-digits d.0 n d.1 d.3 (rw (d.2) at (parse_digits-itoa n)) h)
