-- ===== src/Api/Range/Resume.antt =====
-- A client that resumes gets what it lacks.
use mathlib.Core.List.{reverse-append, reverse-reverse}
use nexuscloud.Base.{
  ℕ, ◌-◌, ◌^◌, ◌<◌, ◌≡◌, refl, ◌∙◌, Bool, true, false, Option, none, some, [], ◌∷◌, ◌++◌, ◌||◌, leb,
  if◌then◌else◌, Str, arith, str, has_prefix, has_byte, take, take-append-drop, not, length,
  length-drop,
}
use nexuscloud.GoText.{
  Int64, positive, negative, parse_int, itoa, has_suffix, trim_prefix, trim_suffix,
}
use nexuscloud.GoText.Decimal.{IsDigits, itoa-Decimal, parse_int-itoa}
use nexuscloud.Api.Range.{
  RangeResult, range_none, range_valid, range_unsatisfiable, check_start, parse_resume_range,
  Download, effective_range, respond, serve_file_content,
}

-- The header of a client that holds the first `n` bytes.
abbrev pub resume_header : ℕ → Str
resume_header n = str "bytes=" ++ (itoa n ++ str "-")

digits_comma : (s : Str) → IsDigits s → has_byte b',' (s ++ str "-") ≡ false
unfolding has_byte
digits_comma [] h = refl
digits_comma (c ∷ s) h = rw (digits_comma s h.1) (ground arith)

dash_suffix : (s : Str) → has_suffix (s ++ str "-") (str "-") ≡ true
unfolding has_suffix
dash_suffix s = rw reverse-append refl

dash_trimmed : (s : Str) → trim_suffix (s ++ str "-") (str "-") ≡ s
unfolding trim_suffix
dash_trimmed s = rw reverse-append (reverse-reverse s)

header_range :
    (n size : ℕ) (s : Str)
    → IsDigits s
    → parse_int s ≡ some (positive n)
    → parse_resume_range (str "bytes=" ++ (s ++ str "-")) size
      ≡ (if leb size n then range_unsatisfiable else range_valid n)
unfolding parse_resume_range trim_prefix
header_range n size s d p = rw (digits_comma s d, dash_suffix s, dash_trimmed s, p) refl

itoa-IsDigits : (n : ℕ) → IsDigits (itoa n)
itoa-IsDigits n = let d = itoa-Decimal n in rw (d.2) d.3

-- The header of a client that holds `n` bytes is understood, and is refused from the end on.
pub parse_resume_range-resume_header :
    (n size : ℕ)
    → n < 2 ^ 63
    → parse_resume_range (resume_header n) size
      ≡ (if leb size n then range_unsatisfiable else range_valid n)
parse_resume_range-resume_header n size h =
    header_range n size (itoa n) (itoa-IsDigits n) (parse_int-itoa n h)

check_start-lt :
    (o : Option Int64) (size : ℕ) {n : ℕ} → check_start o size ≡ range_valid n → n < size
unfolding check_start
check_start-lt none size e = cc
check_start-lt (some (positive m)) size e = ground arith
check_start-lt (some (negative m)) size e = ground arith

third_branch :
    (a b : Bool) (r : RangeResult) {n : ℕ}
    → (if a then range_none else if b then range_none else r) ≡ range_valid n
    → r ≡ range_valid n
third_branch a b r e = ground arith

-- Whatever the header, a valid range starts inside the file.
pub parse_resume_range-lt :
    (header : Str) (size : ℕ) {n : ℕ} → parse_resume_range header size ≡ range_valid n → n < size
unfolding parse_resume_range
parse_resume_range-lt header size e =
    let spec = trim_prefix header (str "bytes=") in
    check_start-lt (parse_int (trim_suffix spec (str "-"))) size (
      third_branch (not (has_prefix header (str "bytes=")))
        (has_byte b',' spec || not (has_suffix spec (str "-")))
        (check_start (parse_int (trim_suffix spec (str "-"))) size) e)

resumed_range :
    (d : Download) (n : ℕ)
    → d.seek ≡ some true
    → n < d.size_bytes
    → d.size_bytes < 2 ^ 63
    → effective_range d (resume_header n) ≡ range_valid n
unfolding effective_range
resumed_range d n s h b =
    rw (s, effective_range)
      (parse_resume_range-resume_header n d.size_bytes (omega arith) ∙ ground arith)

-- A reader that can be sought gives a client that holds the first `n` bytes, fewer than all, a 206
-- with exactly the rest of the content, of the announced length.
pub serve_file_content-resumes :
    (d : Download) (n : ℕ)
    → d.seek ≡ some true
    → length d.content ≡ d.size_bytes
    → n < d.size_bytes
    → d.size_bytes < 2 ^ 63
    → let r = serve_file_content d (resume_header n) in
      (r.status ≡ 206)
      × (take n d.content ++ r.body ≡ d.content)
      × (length r.body ≡ d.size_bytes - n)
unfolding serve_file_content
serve_file_content-resumes d n s l h b = rw (resumed_range d n s h b) (
    unfold respond in
    (refl, take-append-drop n d.content, omega (arith, length-drop n d.content, l)))
