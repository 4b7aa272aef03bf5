-- ===== src/Versions/Delta/Contents.antt =====
-- What a backing holds after the copies and the uploads of a build.
use orgmodule_services.Common.{
  ℕ, ◌≡◌, false, not, List, [], ◌∷◌, ◌++◌, if◌then◌else◌, ◌&&◌, ◌||◌, arith,
}
use orgmodule_services.Versions.Intervals.{Interval, within, covers, for_each_gap}
use orgmodule_services.Versions.Intervals.Adding.{IsApart}
use orgmodule_services.Versions.Intervals.Gaps.{for_each_gap-hits}
use orgmodule_services.Versions.Delta.{DeltaWrite, delta_uploads, copy_ranges}
use orgmodule_services.Versions.Delta.Memory.{uploads_at, write_at, writes_at, copies_at}
use orgmodule_services.Versions.Delta.Pieces.{covers-hits}
use orgmodule_services.Versions.Delta.Resolve.{
  is_written, delta_uploads-covers, delta_uploads-writes,
}

-- Copies.
copies_at-append :
    (x : ℕ) (es fs : List Interval) (before old : ℕ)
    → copies_at x (es ++ fs) before old ≡ copies_at x fs before (copies_at x es before old)
unfolding copies_at
copies_at-append x [] fs before old = λ i. copies_at x fs before old
copies_at-append x (e ∷ es) fs before old =
    copies_at-append x es fs before (if within x e.begin e.end then before else old)

copies_at-covers :
    (x : ℕ) (es : List Interval) (before old : ℕ)
    → copies_at x es before old ≡ (if covers x es then before else old)
unfolding copies_at covers
copies_at-covers x [] before old = λ i. old
copies_at-covers x (e ∷ es) before old =
    ground (arith, copies_at-covers x es before (if within x e.begin e.end then before else old))

covers-append : (x : ℕ) (es fs : List Interval) → covers x (es ++ fs) ≡ (covers x es || covers x fs)
unfolding covers
covers-append x [] fs = λ i. covers x fs
covers-append x (e ∷ es) fs = ground (arith, covers-append x es fs)

-- The copies hold exactly the bytes that are missing and that the delta does not write.
pub copy_ranges-covers :
    (x : ℕ) (delta missing : List Interval)
    → IsApart delta
    → covers x (copy_ranges delta missing) ≡ (covers x missing && not (covers x delta))
unfolding copy_ranges covers
copy_ranges-covers x delta [] a = λ i. false
copy_ranges-covers x delta (i ∷ missing) a =
    let gaps = for_each_gap i.begin i.end delta in
    ground (
      arith,
      covers-append x gaps (copy_ranges delta missing),
      covers-hits x gaps,
      for_each_gap-hits x i.begin i.end delta a,
      copy_ranges-covers x delta missing a,
    )

pub writes_at-old :
    (x : ℕ) (ws : List DeltaWrite) (a b : ℕ)
    → writes_at x ws a ≡ (if is_written x ws then writes_at x ws b else a)
unfolding writes_at is_written write_at
writes_at-old x [] a b = λ i. a
writes_at-old x (w ∷ ws) a b =
    ground (arith, writes_at-old x ws (write_at x w a) (write_at x w b), writes_at-old x ws)

-- A build from a predecessor leaves at every byte what the delta's writes make of the predecessor's
-- byte where that is copied, and of the backing's own byte elsewhere; no byte is both copied and
-- uploaded.
pub build-contents :
    (ws : List DeltaWrite) (missing : List Interval) (x before old : ℕ)
    → (uploads_at x
          (delta_uploads ws).0
          (copies_at x (copy_ranges (delta_uploads ws).1 missing) before old)
        ≡ writes_at x ws (if covers x missing then before else old))
      × (covers x (copy_ranges (delta_uploads ws).1 missing) && is_written x ws ≡ false)
build-contents ws missing x before old =
    let m = (delta_uploads ws).1 in
    let copied = copies_at x (copy_ranges m missing) before old in
    (
      ground (
        arith,
        (delta_uploads-writes ws x copied).2,
        copies_at-covers x (copy_ranges m missing) before old,
        copy_ranges-covers x m missing (delta_uploads-covers x ws).0,
        (delta_uploads-covers x ws).1,
        writes_at-old x ws copied (if covers x missing then before else old),
      ),
      ground (
        arith,
        copy_ranges-covers x m missing (delta_uploads-covers x ws).0,
        (delta_uploads-covers x ws).1,
      ),
    )
