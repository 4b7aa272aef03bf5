-- ===== src/Versions/Snapshot.antt =====
-- `Build` of src/VersionedBufferBuild.cpp: a version made of the journal's image, of which what the
-- leased backing lacks is uploaded. Reading past the end of a page, which C++ leaves undefined,
-- gives the bytes up to the end here.
pub mod Dirty
pub mod Order
use orgmodule_services.Common.{
  ℕ, zero, suc, ◌+◌, ◌*◌, ◌-◌, ◌/◌, ◌%◌, Bool, true, false, not, ◌&&◌, ◌||◌, Option, none, some,
  Result, ok, err, List, [], ◌∷◌, length, get_or, take, drop, ltb, leb, ◌==◌, min, max, u64,
  u64_mod, if◌then◌else◌,
}
use orgmodule_services.BackingPool.Backing.{Backing}
use orgmodule_services.BackingPool.Store.{lookup}
use orgmodule_services.BackingPool.State.{Pool}
use orgmodule_services.BackingPool.Acquire.{AcquireInfo, Outcome, acquire, leased, exhausted, threw}
use orgmodule_services.BackingPool.Upkeep.{release_lease, set_contents}
use orgmodule_services.Images.{BufferImage, page_bytes, from_bytes}
use orgmodule_services.Versions.Delta.{ByteRange}
use orgmodule_services.Versions.Version.{
  BufferWrite, PublishedVersion, BuildInput, BuildError, input_missing, no_pool, backing_small,
  no_buffer, not_covered, backing_retired, enqueue_failed, BuildOutcome, ready, failed, cancelled,
}
use orgmodule_services.Versions.Choice.{ClassChoice, choose_class}
use orgmodule_services.Versions.Replay.{Replayed, replayed, refused, replay, is_empty}
use orgmodule_services.Versions.Predecessor.{Caller, suspend, version_of, request_of, used_bytes}

-- A range that is queued: the segments of the pages, its size and its place.
pub record Queued : Type 0 where
  pub segments : List (List ℕ)
  pub size : ℕ
  pub offset : ℕ

-- The outcome, the pool after it, and what was queued by then.
pub record Made : Type 0 where
  pub outcome : BuildOutcome
  pub pool : Pool
  pub queued : List Queued

abbrev pub no_writes : BuildOutcome → Pool → Made
no_writes outcome p = record { outcome = outcome; pool = p; queued = [] }

abbrev pub drop_lease : BuildOutcome → ℕ → Pool → Made
drop_lease outcome g p = no_writes outcome (release_lease g p)

-- Whether the journal reaches back to what the backing holds.
unfoldable pub journal_covers :
    BuildInput → Bool → Backing → Option BufferImage → BufferImage → Bool
journal_covers input allocated b held image =
    not allocated
    && (elim input.image [ none ↦ false | some own ↦ true ]
        && (not (b.content_epoch == 0)
            && (leb input.journal_base_sequence b.content_epoch
                && (leb b.content_epoch input.write_sequence && elim held [
                  | none ↦ false
                  | some last ↦ last.byte_size == image.byte_size
                ]))))

-- The ranges of the writes past a position.
unfoldable pub dirty_since : ℕ → List BufferWrite → List ByteRange
dirty_since held [] = []
dirty_since held (w ∷ ws) =
    let rest = dirty_since held ws in
    if leb w.sequence held || w.byte_size == 0
    then rest
    else record { offset = w.byte_offset; size = w.byte_size } ∷ rest

-- `std::ranges::sort` by the offset.
unfoldable pub insert_range : ByteRange → List ByteRange → List ByteRange
insert_range r [] = r ∷ []
insert_range r (s ∷ rs) =
    let rest = insert_range r rs in if ltb s.offset r.offset then s ∷ rest else r ∷ s ∷ rs

unfoldable pub sort_ranges : List ByteRange → List ByteRange
sort_ranges [] = []
sort_ranges (r ∷ rs) = insert_range r (sort_ranges rs)

-- The loop that merges ranges less than 256 bytes apart, with the last merged one.
unfoldable pub merge_from : ByteRange → List ByteRange → List ByteRange
merge_from last [] = last ∷ []
merge_from last (r ∷ rs) =
    let end = max (last.offset + last.size) (r.offset + r.size) in
    let joined = merge_from (record { offset = last.offset; size = end - last.offset }) rs in
    let apart = merge_from r rs in
    if leb r.offset (last.offset + last.size + 256) then joined else last ∷ apart

unfoldable pub merge_ranges : List ByteRange → List ByteRange
merge_ranges [] = []
merge_ranges (r ∷ rs) = merge_from r rs

unfoldable pub dirty_bytes : List ByteRange → ℕ
dirty_bytes [] = 0
dirty_bytes (r ∷ rs) = u64 (r.size + dirty_bytes rs)

abbrev pub whole_range : BufferImage → List ByteRange
whole_range image = record { offset = 0; size = image.byte_size } ∷ []

-- What is uploaded of the image: the merged ranges, unless they are many or most of it.
unfoldable pub dirty_ranges :
    BuildInput → Bool → Backing → Option BufferImage → BufferImage → List ByteRange
dirty_ranges input allocated b held image =
    let ranges =
      if journal_covers input allocated b held image
      then merge_ranges (sort_ranges (dirty_since b.content_epoch input.writes))
      else whole_range image in
    if ltb 128 (length ranges) || ltb image.byte_size (u64 (dirty_bytes ranges * 2))
    then whole_range image
    else ranges

-- The loop over the pages of a range; each round takes a byte at least, so the bytes bound the rounds.
-- None: the pages end before the range does.
unfoldable pub segments_of : ℕ → ℕ → ℕ → List (List ℕ) → Option (List (List ℕ))
segments_of zero remaining offset pages = if remaining == 0 then some [] else none
segments_of (suc fuel) remaining offset pages =
    let page = get_or pages (offset / page_bytes) [] in
    let at = offset % page_bytes in
    let size = min remaining (u64 (length page + u64_mod - at)) in
    let rest = segments_of fuel (remaining - size) (offset + size) pages in
    if remaining == 0
    then some []
    else if leb (length pages) (offset / page_bytes) || size == 0
    then none
    else elim rest [ none ↦ none | some more ↦ some (take size (drop at page) ∷ more) ]

-- The loop over the ranges: what is queued, and why it ends early.
unfoldable pub queue_ranges :
    (Queued → Bool) → Backing → BufferImage → List ByteRange → List Queued × Option BuildError
queue_ranges takes b image [] = ([], none)
queue_ranges takes b image (r ∷ rs) =
    let rest = queue_ranges takes b image rs in
    elim (segments_of r.size r.size r.offset image.pages) [
      | none ↦ ([], some not_covered)
      | some segments ↦
          (if b.retired
            then ([], some backing_retired)
            else if takes (record { segments = segments; size = r.size; offset = r.offset })
            then (record { segments = segments; size = r.size; offset = r.offset } ∷ rest.0, rest.1)
            else ([], some enqueue_failed))
    ]

-- Whether the version has contents to upload: not one that the GPU writes, nor a blank buffer of
-- indirect arguments.
abbrev pub needs_contents : BuildInput → Bool
needs_contents input =
    not input.gpu_written
    && not (
        input.flags.unordered_access
        && (input.flags.indirect_arguments && (is_empty input.bytes && is_empty input.writes)))

abbrev pub image_version :
    Caller → BuildInput → ClassChoice → Backing → Option BufferImage → PublishedVersion
image_version caller input choice b image = record (version_of caller input choice b [] false []) {
  image = if input.gpu_written then none else image;
}

-- The end of a build whose writes are queued.
abbrev pub publish :
    Caller → BuildInput → ClassChoice → Backing → Option BufferImage → List Queued → Pool → Made
publish caller input choice b image queued p = record {
  outcome = ready (image_version caller input choice b image);
  pool = set_contents b.generation input.write_sequence p;
  queued = queued;
}

-- The uploads of an image. From here the backing holds nothing until the new epoch is set.
unfoldable pub upload_image :
    Caller
    → (Queued → Bool)
    → BuildInput
    → ClassChoice
    → Bool
    → Backing
    → Option BufferImage
    → BufferImage
    → Pool
    → Made
upload_image caller takes input choice allocated b held image p =
    let forgot = set_contents b.generation 0 p in
    let queueing = queue_ranges takes b image (dirty_ranges input allocated b held image) in
    elim queueing.1 [
      | some why ↦ record {
        outcome = failed why;
        pool = release_lease b.generation forgot;
        queued = queueing.0;
      }
      | none ↦ publish caller input choice b (some image) queueing.0 forgot
    ]

-- The image of the version: the input's, or a replay's unless the GPU writes it.
pub data Source : Type 0 where
  source : Option BufferImage → Source
  no_source : BuildError → Source

unfoldable pub source_image : BuildInput → Source
source_image input = elim input.image [
  | some image ↦ source (some image)
  | none ↦
      (if input.gpu_written then source none else elim (replay input) [
        | refused why ↦ no_source why
        | replayed bytes ↦ source (some (from_bytes bytes))
      ])
]

-- The build with a backing and an image in hand.
unfoldable pub fill_from_image :
    Caller
    → (Queued → Bool)
    → BuildInput
    → ClassChoice
    → Bool
    → Backing
    → Option BufferImage
    → Option BufferImage
    → Pool
    → Made
fill_from_image caller takes input choice allocated b held image p =
    if caller.stops 1 then drop_lease cancelled b.generation p else elim b.buffer [
      | none ↦ drop_lease (failed no_buffer) b.generation p
      | some buffer ↦ elim image [
        | none ↦ publish caller input choice b none [] p
        | some contents ↦
            (if needs_contents input && not (contents.byte_size == 0)
              then upload_image caller takes input choice allocated b held contents p
              else publish caller input choice b (some contents) [] p)
      ]
    ]

-- The build with a backing in hand, and the image that it holds.
unfoldable pub fill_backing :
    Caller
    → (Queued → Bool)
    → BuildInput
    → ClassChoice
    → Bool
    → Backing
    → Option BufferImage
    → Pool
    → Made
fill_backing caller takes input choice allocated b held p =
    if ltb b.byte_capacity (used_bytes input)
    then drop_lease (failed backing_small) b.generation p
    else elim (source_image input) [
      | no_source why ↦ drop_lease (failed why) b.generation p
      | source image ↦ fill_from_image caller takes input choice allocated b held image p
    ]

-- What an Acquire's outcome leads to. `images` gives the image of each backing.
unfoldable pub use_backing :
    Caller
    → (Queued → Bool)
    → (ℕ → Option BufferImage)
    → BuildInput
    → ClassChoice
    → Pool
    → Outcome
    → Made
use_backing caller takes images input choice p threw = no_writes (failed BuildError.threw) p
use_backing caller takes images input choice p (exhausted info) =
    no_writes (suspend caller p).outcome (suspend caller p).pool
use_backing caller takes images input choice p (leased g info) = elim (lookup g p.all) [
  | none ↦ no_writes (failed no_buffer) p
  | some b ↦ fill_backing caller takes input choice info.allocated b (images g) p
]

unfoldable pub build :
    Caller → (Queued → Bool) → (ℕ → Option BufferImage) → BuildInput → Pool → Made
build caller takes images input p =
    if not input.has_upload_service || input.element_stride == 0
    then no_writes (failed input_missing) p
    else if not input.has_pool
    then no_writes (failed no_pool) p
    else if caller.stops 0
    then no_writes cancelled p
    else elim (choose_class caller.now input) [
      | err e ↦ no_writes (failed BuildError.threw) p
      | ok choice ↦
          let (q, got) =
            acquire caller.allocate caller.pins caller.completed
              (request_of input choice.capacity_class) input.write_sequence p in
          use_backing caller takes images input choice q got
    ]
