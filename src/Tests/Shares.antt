-- ===== src/Tests/Shares.antt =====
-- The theorems on shares and downloads at concrete inputs.
use nexuscloud.Base.{
  ◌+◌, ◌≤◌, ◌<◌, ◌≡◌, refl, ◌↔◌, true, false, none, some, [], ◌∷◌, length, All, str, arith,
}
use nexuscloud.Storage.Errors.{ok, share_upload_too_large, panicked}
use nexuscloud.Sharing.Reader.{int64_max, read, limit_read, copy_all, copy_within}
use nexuscloud.Sharing.Reader.Copy.{copy_all-copy_within}
use nexuscloud.Sharing.Grants.{
  IsAmong, LimitLe, most_permissive_upload_grant, most_permissive_upload_grant-best,
}
use nexuscloud.Sharing.Lifecycle.{
  IsOpen, check_lifecycle, check_lifecycle_iff, download_many, download_many-limit,
}
use nexuscloud.Api.Range.{Download, range_valid, parse_resume_range, serve_file_content}
use nexuscloud.Api.Range.Resume.{
  resume_header, parse_resume_range-resume_header, parse_resume_range-lt,
  serve_file_content-resumes,
}
use nexuscloud.Tests.{share, two_bytes}

check_lifecycle_iff_example :
    (check_lifecycle 9 (share (some 3) none) ≡ ok tt) ↔ IsOpen 9 (share (some 3) none)
check_lifecycle_iff_example = check_lifecycle_iff 9 (share (some 3) none)

-- Of five downloads that are tried, the two that are left get through.
download_many-limit_example :
    let (s', k) = download_many 5 (share (some 3) none) in
    (s'.download_count ≡ 1 + k) × (s'.download_count ≤ 3) × (k ≡ 2)
download_many-limit_example = download_many-limit 5 3 (share (some 3) none) refl (omega arith)

most_permissive_upload_grant-best_example :
    let best =
      most_permissive_upload_grant
        (share none (some 4))
        (share none (some 9) ∷ share none (some 2) ∷ []) in
    IsAmong best (share none (some 4) ∷ share none (some 9) ∷ share none (some 2) ∷ [])
    × All
        (λ h. LimitLe h.max_upload_size_bytes best.max_upload_size_bytes)
        (share none (some 4) ∷ share none (some 9) ∷ share none (some 2) ∷ [])
most_permissive_upload_grant-best_example =
    most_permissive_upload_grant-best (share none (some 4))
      (share none (some 9) ∷ share none (some 2) ∷ [])

copy_all-copy_within_example :
    copy_all 4 8 (record {
      inner = record { content = two_bytes; pace = (1, false) ∷ [] };
      remaining = some 1;
    })
    ≡ some (1 ∷ 2 ∷ [], some share_upload_too_large)
unfolding copy_within
copy_all-copy_within_example =
    copy_all-copy_within 4 8 1 two_bytes ((1, false) ∷ []) (omega arith) (omega arith)

copy_all_panic_test :
    copy_all 1 8
      (record { inner = record { content = two_bytes; pace = [] }; remaining = some int64_max })
    ≡ some ([], some panicked)
unfolding copy_all limit_read read
copy_all_panic_test = refl

parse_resume_range-resume_header_example :
    parse_resume_range (resume_header 12) 100 ≡ range_valid 12
parse_resume_range-resume_header_example = parse_resume_range-resume_header 12 100 (omega arith)

parse_resume_range-lt_example : 12 < 100
parse_resume_range-lt_example =
    parse_resume_range-lt (resume_header 12) 100
      (parse_resume_range-resume_header 12 100 (omega arith))

abbrev five_bytes : Download
five_bytes = record {
  disposition = str "attachment";
  mime_type = str "text/plain";
  sha256_hex = str "00";
  size_bytes = 5;
  content = 1 ∷ 2 ∷ 3 ∷ 4 ∷ 5 ∷ [];
  seek = some true;
}

serve_file_content-resumes_example :
    let r = serve_file_content five_bytes (resume_header 2) in
    (r.status ≡ 206) × (1 ∷ 2 ∷ r.body ≡ 1 ∷ 2 ∷ 3 ∷ 4 ∷ 5 ∷ []) × (length r.body ≡ 3)
serve_file_content-resumes_example =
    serve_file_content-resumes five_bytes 2 refl refl (omega arith) (omega arith)
