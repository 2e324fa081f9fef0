-- ===== src/Sharing/Reader/Copy.antt =====
-- What `io.Copy` through `errLimitReader` of file_service_sharing.go amounts to.
use nexuscloud.Base.{
  ℕ, zero, suc, ◌+◌, ◌-◌, ◌≤◌, ◌<◌, ◌≡◌, refl, ap, sym, ◌∙◌, inl, inr, true, false, Option, none,
  some, ltb, leb, arith, if◌then◌else◌, List, [], ◌∷◌, ◌++◌, take, drop, length, length-take,
  length-drop, take-append-drop, append-nil, ◌⊎◌, Bool-cases, ltb→lt, min, Bool,
}
use nexuscloud.Storage.Errors.{Error, share_upload_too_large, panicked}
use nexuscloud.Sharing.Reader.{
  Reader, Signal, more, fault, end_signal, Paced, signal_of, read, int64_max, LimitReader,
  limit_read, copy_all, copied_within, copy_within,
}

take_nil : (n : ℕ) → take {A = ℕ} n [] ≡ []
take_nil zero = refl
take_nil (suc n) = refl

take-take-drop : (k j : ℕ) (xs : List ℕ) → take k xs ++ take j (drop k xs) ≡ take (k + j) xs
take-take-drop zero j xs = let q : j ≡ 0 + j = omega arith in ap (λ n. take n xs) q
take-take-drop (suc k) j [] = take_nil j ∙ sym (take_nil (suc k + j))
take-take-drop (suc k) j (x ∷ xs) =
    let q : suc k + j ≡ suc (k + j) = omega arith in
    rw q (ap (λ ys. x ∷ ys) (take-take-drop k j xs))

-- The room that the limited reader asks for.
abbrev asked : ℕ → ℕ → ℕ
asked left room = if ltb (left + 1) room then left + 1 else room

copied_within_cut :
    (k left : ℕ) (bs : List ℕ) (e : Option Error)
    → k ≤ left + 1
    → left < length (take k bs)
    → (take k bs, some share_upload_too_large)
      ≡ copied_within left (record { bytes = bs; ending = e })
unfolding copied_within
copied_within_cut k left bs e h lt =
    let q : k ≡ left + 1 = omega (arith, length-take k bs) in
    let long : leb (length bs) left ≡ false = ground (arith, length-take k bs) in
    rw long (ap (λ n. (take n bs, some share_upload_too_large)) q)

copied_within_step :
    (k left : ℕ) (bs : List ℕ) (e : Option Error)
    → length (take k bs) ≤ left
    → let (rest, e') =
        copied_within (left - length (take k bs)) (record { bytes = drop k bs; ending = e }) in
      (take k bs ++ rest, e') ≡ copied_within left (record { bytes = bs; ending = e })
unfolding copied_within
copied_within_step k left bs e h = elim (Bool-cases (leb (length bs) left)) [
  | inl short ↦
      let short' : leb (length (drop k bs)) (left - length (take k bs)) ≡ true =
        ground (arith, length-take k bs, length-drop k bs) in
      rw (short, short') (ap (λ xs. (xs, e)) (take-append-drop k bs))
  | inr long ↦
      let whole : length (take k bs) ≡ k = ground (arith, length-take k bs) in
      let long' : leb (length (drop k bs)) (left - length (take k bs)) ≡ false =
        ground (arith, length-take k bs, length-drop k bs) in
      let sum : k + (left - k + 1) ≡ left + 1 = omega arith in
      rw (long, long', whole)
        (ap (λ xs. (xs, some share_upload_too_large))
          (take-take-drop k (left - k + 1) bs ∙ ap (λ n. take n bs) sum))
]

-- A source with these bytes, this end and this pace.
abbrev paced : List ℕ → Option Error → List (ℕ × Bool) → Paced
paced bs e pace = record { content = record { bytes = bs; ending = e }; pace = pace }

abbrev limited_to : ℕ → Paced → LimitReader
limited_to left p = record { inner = p; remaining = some left }

module _ (room left : ℕ) (p r : Paced) (got : List ℕ) (sg : Signal)
    (call : read (asked left room) p ≡ (got, sg, r)) (small : left < int64_max) where
  limit_read_over :
      ltb left (length got) ≡ true
      → limit_read room (limited_to left p)
        ≡ (got, fault share_upload_too_large, record { inner = r; remaining = none })
  unfolding limit_read
  limit_read_over h =
      let below : leb int64_max left ≡ false = ground arith in rw (limit_read, call, below, h) refl

  limit_read_fits :
      ltb left (length got) ≡ false
      → limit_read room (limited_to left p) ≡ (got, sg, limited_to (left - length got) r)
  unfolding limit_read
  limit_read_fits h =
      let below : leb int64_max left ≡ false = ground arith in rw (limit_read, call, below, h) refl

module _ (fuel room : ℕ) (l : LimitReader) {got : List ℕ} {l' : LimitReader} where
  copy_all_fault :
      {x : Error}
      → limit_read room l ≡ (got, fault x, l')
      → copy_all (suc fuel) room l ≡ some (got, some x)
  unfolding copy_all
  copy_all_fault e = ground arith

  copy_all_end :
      (x : Option Error)
      → limit_read room l ≡ (got, end_signal x, l')
      → copy_all (suc fuel) room l ≡ some (got, x)
  unfolding copy_all
  copy_all_end none e = ground arith
  copy_all_end (some x) e = ground arith

  copy_all_more :
      {copied : List ℕ × Option Error}
      → limit_read room l ≡ (got, more, l')
      → copy_all fuel room l' ≡ some copied
      → copy_all (suc fuel) room l ≡ some (got ++ copied.0, copied.1)
  unfolding copy_all
  copy_all_more e h = ground arith

-- A call that took everything: the copy is the whole content.
copied_within_all :
    (k left : ℕ) (bs : List ℕ) (e : Option Error)
    → drop k bs ≡ []
    → length (take k bs) ≤ left
    → (take k bs, e) ≡ copied_within left (record { bytes = bs; ending = e })
unfolding copied_within
copied_within_all k left bs e h fits =
    let all : take k bs ≡ bs =
      sym (append-nil (take k bs)) ∙ ap (λ x. take k bs ++ x) (sym h) ∙ take-append-drop k bs in
    let short : leb (length bs) left ≡ true = ground (arith, ap length all) in rw (short, all) refl

-- A call that gives `k` bytes, and says more or, when none is left, the end.
copy_all_step :
    (fuel room left k : ℕ) (bs : List ℕ) (e : Option Error) (pace pace' : List (ℕ × Bool))
    (sg : Signal)
    → left < int64_max
    → k ≤ left + 1
    → read (asked left room) (paced bs e pace) ≡ (take k bs, sg, paced (drop k bs) e pace')
    → (sg ≡ more) ⊎ (sg ≡ end_signal e) × (drop k bs ≡ [])
    → copy_all fuel room (limited_to (left - length (take k bs)) (paced (drop k bs) e pace'))
      ≡ some (copied_within (left - length (take k bs)) (record { bytes = drop k bs; ending = e }))
    → copy_all (suc fuel) room (limited_to left (paced bs e pace))
      ≡ some (copied_within left (record { bytes = bs; ending = e }))
copy_all_step fuel room left k bs e pace pace' sg small le call said again =
    elim (Bool-cases (ltb left (length (take k bs)))) [
      | inl over ↦
          copy_all_fault fuel room _ (limit_read_over room left _ _ _ sg call small over)
          ∙ ap some (copied_within_cut k left bs e le (ltb→lt _ _ over))
      | inr fits ↦
          let at_most : length (take k bs) ≤ left = ground arith in
          let result = limit_read_fits room left _ _ _ sg call small fits in
          elim said [
            | inl goes_on ↦
                copy_all_more fuel room _ (rw goes_on at result) again
                ∙ ap some (copied_within_step k left bs e at_most)
            | inr (ends, none_left) ↦
                copy_all_end fuel room _ e (rw ends at result)
                ∙ ap some (copied_within_all k left bs e none_left at_most)
          ]
    ]

-- What a call says after it has left these bytes.
signal_of-cases :
    (eager : Bool) (rest : List ℕ) (e : Option Error)
    → (signal_of eager rest e ≡ more) ⊎ (signal_of eager rest e ≡ end_signal e) × (rest ≡ [])
signal_of-cases true [] e = inr (refl, refl)
signal_of-cases true (c ∷ cs) e = inl refl
signal_of-cases false rest e = inl refl

copy_all_bytes :
    (fuel room left : ℕ) (bs : List ℕ) (e : Option Error) (pace : List (ℕ × Bool))
    → 0 < room
    → left < int64_max
    → length bs + length pace < fuel
    → copy_all fuel room (limited_to left (paced bs e pace))
      ≡ some (copied_within left (record { bytes = bs; ending = e }))
unfolding copied_within read
copy_all_bytes zero room left bs e pace p small h = absurd (ground arith)
copy_all_bytes (suc fuel) room left [] e pace p small h =
    let none_left : leb 0 left ≡ true = ground arith in
    rw none_left (
      copy_all_end fuel room _ e (
        limit_read_fits room left (paced [] e pace) (paced [] e pace) [] (end_signal e) refl small
          (ground arith)))
copy_all_bytes (suc fuel) room left (c ∷ cs) e [] p small h =
    let k = asked left room in
    let some_room : 0 < k = ground arith in
    let shorter : length (drop k (c ∷ cs)) + 0 < fuel = omega (arith, length-drop k (c ∷ cs)) in
    copy_all_step fuel room left k (c ∷ cs) e [] [] more small (ground arith) refl (inl refl) (
      copy_all_bytes fuel room (left - length (take k (c ∷ cs))) (drop k (c ∷ cs)) e [] p
        (omega arith) shorter)
copy_all_bytes (suc fuel) room left (c ∷ cs) e ((most, eager) ∷ pace) p small h =
    let k = min (asked left room) most in
    let within_room : k ≤ left + 1 = ground arith in
    let shorter : length (drop k (c ∷ cs)) + length pace < fuel =
      omega (arith, length-drop k (c ∷ cs)) in
    copy_all_step fuel room left k (c ∷ cs) e ((most, eager) ∷ pace) pace
      (signal_of eager (drop k (c ∷ cs)) e) small within_room refl
      (signal_of-cases eager (drop k (c ∷ cs)) e)
      (copy_all_bytes fuel room (left - length (take k (c ∷ cs))) (drop k (c ∷ cs)) e pace p
        (omega arith) shorter)

copy_all_panics :
    (fuel room limit : ℕ) (p : Paced)
    → leb int64_max limit ≡ true
    → copy_all (suc fuel) room (limited_to limit p) ≡ some ([], some panicked)
unfolding limit_read
copy_all_panics fuel room limit p h =
    copy_all_fault fuel room (limited_to limit p) {l' = limited_to limit p} (rw h refl)

-- Through the limited reader, whatever the pace of the reader inside, a copy ends, with a buffer that is
-- not empty and fuel for the bytes and the calls of the pace: with the whole content and the reader's own
-- end if it is within the limit, and otherwise with the error for an upload that is too large, after one
-- byte more than the limit. With the greatest `int64` as its limit it panics.
pub copy_all-copy_within :
    (fuel room limit : ℕ) (r : Reader) (pace : List (ℕ × Bool))
    → 0 < room
    → length r.bytes + length pace < fuel
    → copy_all fuel room
        (record { inner = record { content = r; pace = pace }; remaining = some limit })
      ≡ some (copy_within limit r)
unfolding copy_within
copy_all-copy_within zero room limit r pace p h = absurd (ground arith)
copy_all-copy_within (suc fuel) room limit r pace p h = elim (Bool-cases (leb int64_max limit)) [
  | inl over ↦ rw over (copy_all_panics fuel room limit _ over)
  | inr below ↦
      rw below (copy_all_bytes (suc fuel) room limit r.bytes r.ending pace p (ground arith) h)
]
