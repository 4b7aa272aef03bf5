-- ===== src/Versions/Delta/Memory.antt =====
-- What writes, uploads and copies make of a byte of a backing.
use orgmodule_services.Common.{
  Bool, false, ◌||◌, ℕ, ◌+◌, ◌-◌, ◌≡◌, ◌∙◌, ap, List, [], ◌∷◌, ◌++◌, if◌then◌else◌,
}
use orgmodule_services.Versions.Intervals.{Interval, within}
use orgmodule_services.Versions.Delta.{ByteRange, DeltaWrite, UploadRange, reversed}

-- The byte at a place after a write, an upload, a list of each in order, and a list of copies from a
-- predecessor whose byte there is given.
unfoldable pub upload_at : ℕ → UploadRange → ℕ → ℕ
upload_at x u old =
    if within x u.dst_offset (u.dst_offset + u.size) then u.bytes_of (x - u.dst_offset) else old

unfoldable pub uploads_at : ℕ → List UploadRange → ℕ → ℕ
uploads_at x [] old = old
uploads_at x (u ∷ us) old = uploads_at x us (upload_at x u old)

unfoldable pub write_at : ℕ → DeltaWrite → ℕ → ℕ
write_at x w old = if within x w.offset (w.offset + w.size) then w.bytes_of (x - w.offset) else old

unfoldable pub writes_at : ℕ → List DeltaWrite → ℕ → ℕ
writes_at x [] old = old
writes_at x (w ∷ ws) old = writes_at x ws (write_at x w old)

unfoldable pub copies_at : ℕ → List Interval → ℕ → ℕ → ℕ
copies_at x [] before old = old
copies_at x (i ∷ is) before old =
    copies_at x is before (if within x i.begin i.end then before else old)

-- The latest write of a list that starts with the latest.
unfoldable pub latest_at : ℕ → List DeltaWrite → ℕ → ℕ
latest_at x [] old = old
latest_at x (w ∷ ws) old = write_at x w (latest_at x ws old)

latest_at-append :
    (x : ℕ) (es : List DeltaWrite) (w : DeltaWrite) (old : ℕ)
    → latest_at x (es ++ w ∷ []) old ≡ latest_at x es (write_at x w old)
unfolding latest_at
latest_at-append x [] w old = λ i. write_at x w old
latest_at-append x (a ∷ es) w old = ap (write_at x a) (latest_at-append x es w old)

pub latest_at-reversed :
    (x : ℕ) (ws : List DeltaWrite) (old : ℕ) → latest_at x (reversed ws) old ≡ writes_at x ws old
unfolding latest_at reversed writes_at
latest_at-reversed x [] old = λ i. old
latest_at-reversed x (w ∷ ws) old =
    latest_at-append x (reversed ws) w old ∙ latest_at-reversed x ws (write_at x w old)

pub uploads_at-append :
    (x : ℕ) (es fs : List UploadRange) (old : ℕ)
    → uploads_at x (es ++ fs) old ≡ uploads_at x fs (uploads_at x es old)
unfolding uploads_at
uploads_at-append x [] fs old = λ i. uploads_at x fs old
uploads_at-append x (a ∷ es) fs old = uploads_at-append x es fs (upload_at x a old)

-- Whether a byte lies in one of the ranges.
unfoldable pub in_ranges : ℕ → List ByteRange → Bool
in_ranges x [] = false
in_ranges x (r ∷ rs) = within x r.offset (r.offset + r.size) || in_ranges x rs
