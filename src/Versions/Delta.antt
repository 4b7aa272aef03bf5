-- ===== src/Versions/Delta.antt =====
-- The writes of a build from a predecessor (`BuildFromPredecessor` of src/VersionedBufferBuild.cpp):
-- the delta with its overlaps resolved, and what is copied of the predecessor. A pointer to
-- data is the function from an index to the byte there.
pub mod Memory
pub mod Uploads
pub mod Pieces
pub mod Resolve
pub mod Contents
use orgmodule_services.Common.{
  ℕ, ◌+◌, ◌-◌, ◌≤◌, Bool, true, false, List, [], ◌∷◌, ◌++◌, Option, none, some, ltb, leb, ◌==◌, min,
  if◌then◌else◌, ◌||◌, map,
}
use orgmodule_services.Versions.Intervals.{Interval, add, for_each_gap}

-- What `emitDelta` hands to its callback: a pointer (null: none), a size and an offset.
pub record Emitted : Type 0 where
  pub source : Option (ℕ → ℕ)
  pub bytes : ℕ
  pub offset : ℕ

pub record DeltaWrite : Type 0 where
  pub bytes_of : ℕ → ℕ
  pub size : ℕ
  pub offset : ℕ

-- The callback: an empty write is passed over, one outside the used bytes fails the build.
unfoldable pub collect : ℕ → List Emitted → Option (List DeltaWrite)
collect used [] = some []
collect used (w ∷ ws) =
    let rest = collect used ws in
    if w.bytes == 0 then rest else elim w.source [
      | none ↦ none
      | some bytes_of ↦
          (if ltb used w.offset || ltb (used - w.offset) w.bytes then none else elim rest [
            | none ↦ none
            | some writes ↦
                some (record { bytes_of = bytes_of; size = w.bytes; offset = w.offset } ∷ writes)
          ])
    ]

-- `StreamingUploadRange`: bytes of host memory for a place of the backing.
pub record UploadRange : Type 0 where
  pub bytes_of : ℕ → ℕ
  pub size : ℕ
  pub dst_offset : ℕ

-- The part of a write for a gap.
unfoldable pub piece : DeltaWrite → Interval → UploadRange
piece w gap = record {
  bytes_of = λ i. w.bytes_of (gap.begin - w.offset + i);
  size = gap.end - gap.begin;
  dst_offset = gap.begin;
}

unfoldable pub pieces : DeltaWrite → List Interval → List UploadRange
pieces w [] = []
pieces w (gap ∷ gaps) = piece w gap ∷ pieces w gaps

-- The loop over the writes from the last to the first: each uploads what no later one covers.
unfoldable pub resolve : List DeltaWrite → List Interval → List UploadRange × List Interval
resolve [] delta = ([], delta)
resolve (w ∷ ws) delta =
    let (uploads, covered) = resolve ws (add w.offset (w.offset + w.size) delta) in
    (pieces w (for_each_gap w.offset (w.offset + w.size) delta) ++ uploads, covered)

unfoldable pub reversed : List DeltaWrite → List DeltaWrite
reversed [] = []
reversed (w ∷ ws) = reversed ws ++ w ∷ []

-- `std::ranges::sort` by the place.
unfoldable pub insert_upload : UploadRange → List UploadRange → List UploadRange
insert_upload u [] = u ∷ []
insert_upload u (v ∷ us) =
    let rest = insert_upload u us in if ltb v.dst_offset u.dst_offset then v ∷ rest else u ∷ v ∷ us

unfoldable pub sort_uploads : List UploadRange → List UploadRange
sort_uploads [] = []
sort_uploads (u ∷ us) = insert_upload u (sort_uploads us)

-- The uploads of a delta, and the bytes they cover.
unfoldable pub delta_uploads : List DeltaWrite → List UploadRange × List Interval
delta_uploads writes =
    let (uploads, covered) = resolve (reversed writes) [] in (sort_uploads uploads, covered)

-- `BufferByteRange`.
pub record ByteRange : Type 0 where
  pub offset : ℕ
  pub size : ℕ

-- What changed since the backing's epoch, clipped to the bytes that are copied.
unfoldable pub add_changed : ℕ → List ByteRange → List Interval → List Interval
add_changed limit [] missing = missing
add_changed limit (r ∷ rs) missing =
    let begin = min r.offset limit in
    add_changed limit rs (add begin (begin + min r.size (limit - begin)) missing)

-- The parts of what is missing that the delta does not write, as `StreamingCopyRange`s: source and
-- destination are the same place.
unfoldable pub copy_ranges : List Interval → List Interval → List Interval
copy_ranges delta [] = []
copy_ranges delta (i ∷ missing) = for_each_gap i.begin i.end delta ++ copy_ranges delta missing
