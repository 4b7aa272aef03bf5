-- ===== src/Versions/Delta/Uploads.antt =====
-- How often uploads write a byte, and that their order does not count where it is once at most.
use orgmodule_services.Common.{ℕ, ◌+◌, ◌≤◌, ◌≡◌, ◌∙◌, ap, List, [], ◌∷◌, ◌++◌, ltb, arith, if-cases}
use orgmodule_services.Versions.Intervals.{within}
use orgmodule_services.Versions.Intervals.Gaps.{once_if}
use orgmodule_services.Versions.Delta.{UploadRange, insert_upload, sort_uploads}
use orgmodule_services.Versions.Delta.Memory.{upload_at, uploads_at}

-- How many uploads write a byte.
unfoldable pub upload_hits : ℕ → List UploadRange → ℕ
upload_hits x [] = 0
upload_hits x (u ∷ us) = once_if (within x u.dst_offset (u.dst_offset + u.size)) + upload_hits x us

pub upload_hits-append :
    (x : ℕ) (es fs : List UploadRange)
    → upload_hits x (es ++ fs) ≡ upload_hits x es + upload_hits x fs
unfolding upload_hits
upload_hits-append x [] fs = omega arith
upload_hits-append x (a ∷ es) fs = omega (arith, upload_hits-append x es fs)

uploads_at-none :
    (x : ℕ) (us : List UploadRange) (old : ℕ) → upload_hits x us ≡ 0 → uploads_at x us old ≡ old
unfolding uploads_at upload_hits upload_at
uploads_at-none x [] old h = λ i. old
uploads_at-none x (u ∷ us) old h = ground (arith, uploads_at-none x us old)

swap :
    (x : ℕ) (u v : UploadRange) (old : ℕ)
    → once_if (within x u.dst_offset (u.dst_offset + u.size))
        + once_if (within x v.dst_offset (v.dst_offset + v.size))
      ≤ 1
    → upload_at x u (upload_at x v old) ≡ upload_at x v (upload_at x u old)
unfolding upload_at
swap x u v old h = ground arith

-- Where each byte is written once at most, sorting changes nothing.
insert_upload-at :
    (x : ℕ) (u : UploadRange) (us : List UploadRange) (old : ℕ)
    → upload_hits x (u ∷ us) ≤ 1
    → (uploads_at x (insert_upload u us) old ≡ uploads_at x (u ∷ us) old)
unfolding uploads_at upload_hits insert_upload
insert_upload-at x u [] old h = λ i. upload_at x u old
insert_upload-at x u (v ∷ us) old h =
    if-cases (λ z. uploads_at x z old ≡ uploads_at x (u ∷ v ∷ us) old)
      (ltb v.dst_offset u.dst_offset) _ _
      (λ p.
        insert_upload-at x u us (upload_at x v old) (omega arith)
        ∙ ap (uploads_at x us) (swap x u v old (omega arith)))
      (λ p i. uploads_at x (u ∷ v ∷ us) old)

insert_upload-hits :
    (x : ℕ) (u : UploadRange) (us : List UploadRange)
    → upload_hits x (insert_upload u us) ≡ upload_hits x (u ∷ us)
unfolding upload_hits insert_upload
insert_upload-hits x u [] = λ i. upload_hits x (u ∷ [])
insert_upload-hits x u (v ∷ us) =
    if-cases (λ z. upload_hits x z ≡ upload_hits x (u ∷ v ∷ us)) (ltb v.dst_offset u.dst_offset) _ _
      (λ p. omega (arith, insert_upload-hits x u us)) (λ p i. upload_hits x (u ∷ v ∷ us))

pub sort_uploads-hits :
    (x : ℕ) (us : List UploadRange) → upload_hits x (sort_uploads us) ≡ upload_hits x us
unfolding upload_hits sort_uploads
sort_uploads-hits x [] = λ i. 0
sort_uploads-hits x (u ∷ us) =
    omega (arith, insert_upload-hits x u (sort_uploads us), sort_uploads-hits x us)

pub sort_uploads-at :
    (x : ℕ) (us : List UploadRange) (old : ℕ)
    → upload_hits x us ≤ 1
    → (uploads_at x (sort_uploads us) old ≡ uploads_at x us old)
unfolding sort_uploads upload_hits uploads_at
sort_uploads-at x [] old h = λ i. old
sort_uploads-at x (u ∷ us) old h =
    insert_upload-at x u (sort_uploads us) old (omega (arith, sort_uploads-hits x us))
    ∙ sort_uploads-at x us (upload_at x u old) (omega arith)
