-- ===== src/Sharing/Reader.antt =====
-- `errLimitReader` of file_service_sharing.go, call by call, and what a whole copy through it gives.
pub mod Copy
use nexuscloud.Base.{
  ℕ, zero, suc, ◌+◌, ◌-◌, ◌≤◌, ◌<◌, ◌≡◌, refl, ap, sym, ◌∙◌, inl, inr, true, false, Option, none,
  some, ltb, leb, arith, if◌then◌else◌, List, [], ◌∷◌, ◌++◌, take, drop, length, length-take,
  length-drop, take-append-drop, append-nil, ◌⊎◌, Bool-cases, ltb→lt, min, Bool,
}
use nexuscloud.Storage.Errors.{Error, share_upload_too_large, panicked}

-- A reader: the bytes that it will give, and how it ends: `none` is `io.EOF`.
pub record Reader : Type 0 where
  pub bytes : List ℕ
  pub ending : Option Error

-- How a call of `Read` ended: without an error, at the end of the stream, or with an error.
pub data Signal : Type 0 where
  more eof : Signal
  fault : Error → Signal

abbrev pub end_signal : Option Error → Signal
end_signal none = eof
end_signal (some e) = fault e

-- A reader with its pace: how many bytes each coming call gives at most, and whether it reports the end
-- together with the last bytes. Calls after those fill the room and report the end by a call of its own.
pub record Paced : Type 0 where
  pub content : Reader
  pub pace : List (ℕ × Bool)

-- How a call ends that leaves these bytes.
abbrev pub signal_of : Bool → List ℕ → Option Error → Signal
signal_of true [] ending = end_signal ending
signal_of true (c ∷ cs) ending = more
signal_of false left ending = more

-- One call of `Read` with room for `room` bytes: what it gives, how it ended, what is left.
unfoldable pub read : ℕ → Paced → List ℕ × Signal × Paced
read room p = elim p.content.bytes [
  | [] ↦ ([], end_signal p.content.ending, p)
  | c ∷ cs ↦ elim p.pace [
    | [] ↦ (
      take room (c ∷ cs),
      more,
      record p { content = record p.content { bytes = drop room (c ∷ cs) } },
    )
    | (most, eager) ∷ pace ↦ (
      take (min room most) (c ∷ cs),
      signal_of eager (drop (min room most) (c ∷ cs)) p.content.ending,
      record { content = record p.content { bytes = drop (min room most) (c ∷ cs) }; pace = pace },
    )
  ]
]

abbrev pub int64_max : ℕ
int64_max = 9_223_372_036_854_775_807

-- `errLimitReader`: `remaining` is what may still be read, an `int64` that is `none` once it is below 0.
pub record LimitReader : Type 0 where
  pub inner : Paced
  pub remaining : Option ℕ

-- `errLimitReader.Read`. With `remaining` at the greatest `int64`, `remaining+1` is negative, so that the
-- slice of the buffer up to it panics.
unfoldable pub limit_read : ℕ → LimitReader → List ℕ × Signal × LimitReader
unfolding read
limit_read room l = elim l.remaining [
  | none ↦ ([], fault share_upload_too_large, l)
  | some left ↦
      let (got, signal, r) = read (if ltb (left + 1) room then left + 1 else room) l.inner in
      if leb int64_max left
      then ([], fault panicked, l)
      else if ltb left (length got)
      then (got, fault share_upload_too_large, record { inner = r; remaining = none })
      else (got, signal, record { inner = r; remaining = some (left - length got) })
]

-- `io.Copy` from the reader, with a buffer of `room` bytes: what was copied, and the error if there
-- was one. `none` means that the fuel ran out.
unfoldable pub copy_all : ℕ → ℕ → LimitReader → Option (List ℕ × Option Error)
copy_all zero room l = none
copy_all (suc fuel) room l =
    let (got, signal, l') = limit_read room l in
    elim signal [
      | eof ↦ some (got, none)
      | fault e ↦ some (got, some e)
      | more ↦ elim (copy_all fuel room l') [ none ↦ none | some (rest, e) ↦ some (got ++ rest, e) ]
    ]

-- What a copy of at most `limit` bytes amounts to: the whole content if it is within the limit, and
-- otherwise the error, after one byte more than the limit.
unfoldable pub copied_within : ℕ → Reader → List ℕ × Option Error
copied_within limit r =
    if leb (length r.bytes) limit
    then (r.bytes, r.ending)
    else (take (limit + 1) r.bytes, some share_upload_too_large)

-- What a copy through the limited reader amounts to: with the greatest `int64` as its limit it panics.
unfoldable pub copy_within : ℕ → Reader → List ℕ × Option Error
unfolding copied_within
copy_within limit r = if leb int64_max limit then ([], some panicked) else copied_within limit r
