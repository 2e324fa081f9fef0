-- ===== src/Api/Range.antt =====
-- nexuscloud/internal/api/v1/range.go: downloads that are resumed by `Range: bytes=N-`.
pub mod Resume
use nexuscloud.Base.{
  ℕ, ◌-◌, Bool, true, false, Option, none, some, List, [], ◌∷◌, ◌++◌, ◌||◌, leb, if◌then◌else◌, Str,
  str, has_prefix, has_byte, drop, not,
}
use nexuscloud.GoText.{
  Int64, positive, negative, parse_int, itoa, has_suffix, trim_prefix, trim_suffix,
}

-- `rangeResult`, with the start of a valid range
pub data RangeResult : Type 0 where
  range_none : RangeResult
  range_valid : ℕ → RangeResult
  range_unsatisfiable : RangeResult

-- What follows from the parsed number: `n < 0` is no recognised form.
unfoldable pub check_start : Option Int64 → ℕ → RangeResult
check_start none size = range_none
check_start (some (positive n)) size = if leb size n then range_unsatisfiable else range_valid n
check_start (some (negative n)) size =
    if leb n 0 then (if leb size 0 then range_unsatisfiable else range_valid 0) else range_none

-- `parseResumeRange`
unfoldable pub parse_resume_range : Str → ℕ → RangeResult
unfolding check_start
parse_resume_range header size =
    let spec = trim_prefix header (str "bytes=") in
    if not (has_prefix header (str "bytes="))
    then range_none
    else if has_byte b',' spec || not (has_suffix spec (str "-"))
    then range_none
    else check_start (parse_int (trim_suffix spec (str "-"))) size

-- A response: its status, the headers in the order in which they are set, and the bytes of the body.
-- A 416 has the standard error envelope for its body, which is `error_code`.
pub record Response : Type 0 where
  pub status : ℕ
  pub headers : List (Str × Str)
  pub error_code : Option Str
  pub body : List ℕ

-- What is downloaded: the metadata, and the reader with its content. `seek` is `none` if the reader
-- is no `io.Seeker`, or tells whether `Seek` works.
pub record Download : Type 0 where
  pub disposition : Str
  pub mime_type : Str
  pub sha256_hex : Str
  pub size_bytes : ℕ
  pub content : List ℕ
  pub seek : Option Bool

abbrev common_headers : Download → List (Str × Str)
common_headers d =
    (str "Accept-Ranges", str "bytes")
    ∷ (str "Content-Type", d.mime_type)
    ∷ (str "Content-Disposition", d.disposition)
    ∷ (str "X-Content-SHA256", d.sha256_hex)
    ∷ (str "X-Content-Type-Options", str "nosniff")
    ∷ []

-- A failing `Seek` falls back to the whole file.
abbrev after_seek : Bool → RangeResult → RangeResult
after_seek true r = r
after_seek false (range_valid n) = range_none
after_seek false r = r

-- The range that is served.
unfoldable pub effective_range : Download → Str → RangeResult
effective_range d header = elim d.seek [
  | none ↦ range_none
  | some works ↦ after_seek works (parse_resume_range header d.size_bytes)
]

-- The `switch` of `serveFileContent`.
unfoldable pub respond : Download → RangeResult → Response
respond d range_unsatisfiable = record {
  status = 416;
  headers = common_headers d ++ ((str "Content-Range", str "bytes */" ++ itoa d.size_bytes) ∷ []);
  error_code = some (str "range_not_satisfiable");
  body = [];
}
respond d (range_valid start) = record {
  status = 206;
  headers =
      common_headers d
      ++ ((
        str "Content-Range",
        str "bytes "
            ++ (itoa start
                ++ (str "-" ++ (itoa (d.size_bytes - 1) ++ (str "/" ++ itoa d.size_bytes)))),
      )
          ∷ (str "Content-Length", itoa (d.size_bytes - start))
          ∷ []);
  error_code = none;
  body = drop start d.content;
}
respond d range_none = record {
  status = 200;
  headers = common_headers d ++ ((str "Content-Length", itoa d.size_bytes) ∷ []);
  error_code = none;
  body = d.content;
}

-- `serveFileContent`, for a request with this `Range` header, empty if there is none
unfoldable pub serve_file_content : Download → Str → Response
unfolding effective_range respond
serve_file_content d header = respond d (effective_range d header)
