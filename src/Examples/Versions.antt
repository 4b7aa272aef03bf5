-- ===== src/Examples/Versions.antt =====
-- Versioned buffers at concrete inputs.
use native.Mathlib.Omega.{arith}
use orgmodule_services.Common.{
  ℕ, ◌≡◌, ◌≤◌, refl, true, false, not, ◌&&◌, ◌||◌, none, some, List, [], ◌∷◌,
}
use orgmodule_services.BackingPool.Backing.{Backing, BackingFlags}
use orgmodule_services.BackingPool.State.{create}
use orgmodule_services.BackingPool.Circulation.{create-Inv}
use orgmodule_services.Examples.Pools.{config, allocate, no_pins}
use orgmodule_services.Growth.Window.{never, observe}
use orgmodule_services.Versions.Intervals.{
  Interval, within, covers, add, for_each_gap, starts_past, absorb, place, walk,
}
use orgmodule_services.Versions.Intervals.Adding.{IsApart, add-covers}
use orgmodule_services.Versions.Intervals.Gaps.{hits, once_if, for_each_gap-hits}
use orgmodule_services.Versions.Delta.{
  DeltaWrite, delta_uploads, resolve, reversed, pieces, piece, sort_uploads, insert_upload,
  copy_ranges,
}
use orgmodule_services.Versions.Delta.Memory.{uploads_at, copies_at, writes_at}
use orgmodule_services.Versions.Delta.Uploads.{upload_hits}
use orgmodule_services.Versions.Delta.Resolve.{is_written, delta_uploads-writes}
use orgmodule_services.Versions.Version.{PublishedVersion, BuildInput, patch, replace}
use orgmodule_services.Versions.Choice.{ClassChoice, choose_class, no_window, keep_class}
use orgmodule_services.Versions.Choice.Fits.{IsFit, choose_class-IsFit}
use orgmodule_services.Versions.Predecessor.{
  Caller, plan, plan_copies, missing_of, queue, version_of,
}
use orgmodule_services.Versions.Build.{
  build_versioned_buffer, IsOrderlyEnd, build_versioned_buffer-IsOrderlyEnd,
}
use orgmodule_services.Versions.Predecessor.Bytes.{plan-bytes}
use orgmodule_services.Images.{BufferImage, from_bytes, materialize}
use orgmodule_services.Versions.Snapshot.{
  dirty_ranges, journal_covers, dirty_since, sort_ranges, insert_range, merge_ranges, merge_from,
  dirty_bytes,
}
use orgmodule_services.Images.Flat.{materialize-from_bytes}

abbrev two : List Interval
two = record { begin = 1; end = 3 } ∷ record { begin = 5; end = 6 } ∷ []

two-IsApart : IsApart two
two-IsApart = (omega arith, omega arith, (omega arith, tt, tt))

-- A range that reaches both entries joins them.
joined : add 2 5 two ≡ record { begin = 1; end = 6 } ∷ []
unfolding add place starts_past absorb
joined = refl

add-covers_example :
    IsApart (add 2 5 two) × ((x : ℕ) → covers x (add 2 5 two) ≡ (within x 2 5 || covers x two))
add-covers_example = add-covers 2 5 two two-IsApart

for_each_gap-hits_example :
    hits 4 (for_each_gap 2 9 two) ≡ once_if (within 4 2 9 && not (covers 4 two))
for_each_gap-hits_example = for_each_gap-hits 4 2 9 two two-IsApart

-- Two writes that overlap in the bytes 4 and 5.
abbrev writes : List DeltaWrite
writes =
    record { bytes_of = λ i. 1; size = 4; offset = 2 }
    ∷ record { bytes_of = λ i. 2; size = 4; offset = 4 }
    ∷ []

delta_uploads-writes_example :
    (upload_hits 4 (delta_uploads writes).0 ≤ 1)
    × (covers 4 (delta_uploads writes).1 ≡ is_written 4 writes)
    × (uploads_at 4 (delta_uploads writes).0 0 ≡ writes_at 4 writes 0)
delta_uploads-writes_example = delta_uploads-writes writes 4 0

abbrev pub no_flags : BackingFlags
no_flags = record { unordered_access = false; indirect_arguments = false; device_address = false }

abbrev pub before : PublishedVersion
before = record {
  revision = 1;
  write_sequence = 5;
  element_count = 6;
  capacity = 8;
  element_stride = 1;
  revision_mode = replace;
  content_version = 1;
  content_epoch = 5;
  backing_epoch = 1;
  resource = some 3;
  image = none;
  tag = none;
  uploaded_bytes = 6;
  copied_bytes = 0;
  copied_whole = false;
  shrink_window = no_window;
  shrunk = false;
}

abbrev pub input : BuildInput
input = record {
  has_upload_service = true;
  write_sequence = 6;
  element_stride = 1;
  element_count = 8;
  capacity = 8;
  flags = no_flags;
  gpu_written = false;
  tag = none;
  previous = some before;
  has_pool = true;
  writes = [];
  image = none;
  journal_base_sequence = 0;
  bytes = [];
  predecessor_copy = true;
  changed_since = none;
  emit_delta = some [];
  growth = none;
  shrink = never;
}

abbrev caller : Caller
caller = record {
  revision = 2;
  stops = λ n. false;
  suspension = none;
  has_notify = false;
  allocate = allocate;
  pins = no_pins;
  completed = 0;
  now = 0;
  takes_copies = λ copies. true;
  takes_uploads = λ uploads. true;
}

abbrev kept : ClassChoice
kept = record { mode = patch; capacity_class = 8; window = no_window; shrunk = false }

choose_class-IsFit_example : IsFit input kept
unfolding choose_class observe keep_class
choose_class-IsFit_example = choose_class-IsFit 0 input kept (omega arith) refl

build_versioned_buffer-IsOrderlyEnd_example :
    IsOrderlyEnd (build_versioned_buffer caller (λ queued. true) (λ g. none) input (create config))
unfolding create
build_versioned_buffer-IsOrderlyEnd_example =
    build_versioned_buffer-IsOrderlyEnd caller (λ queued. true) (λ g. none) input (create config)
      (omega arith) (create-Inv config)

-- A backing that an older version was built into, which the journal does not reach back to.
abbrev pub stale : Backing
stale = record {
  buffer = some 4;
  generation = 2;
  capacity_class = 8;
  byte_capacity = 8;
  address = 0;
  srv_index = 0;
  stride = 1;
  flags = no_flags;
  compatibility = 0;
  content_epoch = 3;
  sealed_bytes = 0;
  safe_at = 0;
  leases = 1;
  retired = false;
  readback_pins = 0;
  binding_consumers = 0;
}

abbrev made : PublishedVersion
made =
    version_of caller input kept stale (record { begin = 0; end = 2 } ∷ []) true
      (delta_uploads writes).0

plan-bytes_example :
    uploads_at 1
      (plan caller input kept
        (record { allocated = false; released = 0; write_after = 0 })
        stale
        writes
        (create config)).uploads
      (copies_at 1
        (plan caller input kept
          (record { allocated = false; released = 0; write_after = 0 })
          stale
          writes
          (create config)).copies
        9
        7)
    ≡ writes_at 1 writes 9
unfolding plan plan_copies missing_of queue delta_uploads resolve reversed pieces piece sort_uploads
    insert_upload copy_ranges for_each_gap walk add place absorb starts_past
plan-bytes_example =
    plan-bytes caller input kept (record { allocated = false; released = 0; write_after = 0 }) stale
      writes (create config) 1 9 7 made (omega arith)
      (
        omega arith,
        record {
          same = λ e. absurd (omega (arith, e));
          outside = λ changed ranges given told out. absurd cc;
        },
      )
      refl

materialize-from_bytes_example : materialize (from_bytes (7 ∷ 8 ∷ [])) ≡ 7 ∷ 8 ∷ []
materialize-from_bytes_example = materialize-from_bytes (7 ∷ 8 ∷ [])

-- Eight bytes, of which a write changed four since the stale backing was filled.
abbrev image : BufferImage
image = from_bytes (0 ∷ 1 ∷ 2 ∷ 3 ∷ 4 ∷ 5 ∷ 6 ∷ 7 ∷ [])

abbrev journaled : BuildInput
journaled = record input {
  writes = record { sequence = 6; byte_offset = 2; byte_size = 3 } ∷ [];
  image = some image;
}

dirty : dirty_ranges journaled false stale (some image) image ≡ record { offset = 2; size = 3 } ∷ []
unfolding dirty_ranges journal_covers dirty_since sort_ranges insert_range merge_ranges merge_from
    dirty_bytes from_bytes
dirty = refl
