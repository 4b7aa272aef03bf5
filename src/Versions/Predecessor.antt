-- ===== src/Versions/Predecessor.antt =====
-- `BuildFromPredecessor` of src/VersionedBufferBuild.cpp: a version made of its predecessor's
-- contents, copied by the GPU where the leased backing lacks them, and of the delta, uploaded.
pub mod Order
pub mod Bytes
use orgmodule_services.Common.{
  ℕ, ◌+◌, ◌*◌, ◌-◌, ◌/◌, Bool, true, false, not, ◌&&◌, ◌||◌, Option, none, some, Result, ok, err,
  ltb, leb, ◌==◌, min, max, u64, u64_max, if◌then◌else◌, List, [], ◌∷◌,
}
use orgmodule_services.BackingPool.Backing.{Backing, BackingRequest, BackingAllocation}
use orgmodule_services.BackingPool.Store.{lookup}
use orgmodule_services.BackingPool.State.{Pool}
use orgmodule_services.BackingPool.Acquire.{AcquireInfo, Outcome, acquire, leased, exhausted, threw}
use orgmodule_services.BackingPool.Upkeep.{release_lease, subscribe_availability, set_contents}
use orgmodule_services.Versions.Intervals.{Interval, add}
use orgmodule_services.Versions.Delta.{
  DeltaWrite, UploadRange, collect, delta_uploads, add_changed, copy_ranges, ByteRange, Emitted,
}
use orgmodule_services.Versions.Version.{
  RevisionMode, PublishedVersion, BuildInput, BuildError, input_missing, no_pool, cannot_suspend,
  backing_small, no_buffer, backing_retired, enqueue_failed, no_emit_delta, gpu_written_copy,
  count_invalid, previous_unfit, bound_backing, predecessor_backing, delta_outside, delta_uncovered,
  copy_enqueue_failed, BuildOutcome, ready, suspended, failed, cancelled,
}
use orgmodule_services.Versions.Choice.{ClassChoice, choose_class}

-- What a build finds around it: the answers of `stopRequested` at each look, the identity that
-- `allocateSuspension` gives (none: it is not given), whether `notifySuspension` is, the pool's
-- allocation hook, the consumers that other threads pin during the Acquire, the clock's completed
-- point and the time, and whether the upload service takes a list of copies or of uploads.
pub record Caller : Type 0 where
  pub revision : ℕ
  pub stops : ℕ → Bool
  pub suspension : Option ℕ
  pub has_notify : Bool
  pub allocate : BackingRequest → Option BackingAllocation
  pub pins : ℕ → ℕ
  pub completed : ℕ
  pub now : ℕ
  pub takes_copies : List Interval → Bool
  pub takes_uploads : List UploadRange → Bool

-- The outcome, the pool after it, and what the upload service was given.
pub record Built : Type 0 where
  pub outcome : BuildOutcome
  pub pool : Pool
  pub copies : List Interval
  pub uploads : List UploadRange

abbrev pub end_with : BuildOutcome → Pool → Built
end_with outcome p = record { outcome = outcome; pool = p; copies = []; uploads = [] }

-- An end after the backing was leased: the lease goes.
abbrev pub let_go : BuildOutcome → ℕ → Pool → Built
let_go outcome g p = end_with outcome (release_lease g p)

abbrev pub is_given : {A : Type 0} → Option A → Bool
is_given o = elim o [ none ↦ false | some a ↦ true ]

-- Why an input is refused before the pool is asked.
unfoldable pub refused_copy : BuildInput → Option BuildError
refused_copy input =
    if not input.has_upload_service || input.element_stride == 0
    then some input_missing
    else if not input.has_pool
    then some no_pool
    else if not (is_given input.emit_delta)
    then some no_emit_delta
    else if input.gpu_written
    then some gpu_written_copy
    else if ltb input.capacity input.element_count
        || ltb (u64_max / input.element_stride) input.element_count
    then some count_invalid
    else elim input.previous [
      | none ↦ none
      | some previous ↦
          (if not (is_given previous.resource)
              || not (previous.element_stride == input.element_stride)
            then some previous_unfit
            else none)
    ]

abbrev pub used_bytes : BuildInput → ℕ
used_bytes input = u64 (input.element_count * input.element_stride)

abbrev pub request_of : BuildInput → ℕ → BackingRequest
request_of input class = record {
  capacity_class = class;
  stride = input.element_stride;
  flags = input.flags;
  compatibility = 0;
}

-- No backing is left: the build waits for the pool where its caller can.
unfoldable pub suspend : Caller → Pool → Built
suspend caller p = elim caller.suspension [
  | none ↦ end_with (failed cannot_suspend) p
  | some identity ↦
      end_with (suspended identity)
        (if caller.has_notify then subscribe_availability identity p else p)
]

-- The bytes of the predecessor that the version keeps.
abbrev pub copy_limit : PublishedVersion → ℕ → ℕ
copy_limit previous used = min (u64 (previous.element_count * previous.element_stride)) used

-- What the backing lacks of the predecessor, and whether that is all of it.
unfoldable pub missing_of :
    BuildInput → PublishedVersion → Backing → Bool → ℕ → List Interval × Bool
missing_of input previous b allocated used =
    let limit = copy_limit previous used in
    let all : List Interval × Bool = (add 0 limit [], true) in
    if allocated
      || b.content_epoch == 0
      || ltb previous.write_sequence b.content_epoch
      || not (b.capacity_class == previous.capacity)
    then all
    else if b.content_epoch == previous.write_sequence
    then ([], false)
    else elim input.changed_since [
      | none ↦ all
      | some changed ↦ elim (changed b.content_epoch) [
        | none ↦ all
        | some ranges ↦ (add_changed limit ranges [], false)
      ]
    ]

-- Whether the delta alone is the whole version.
unfoldable pub is_whole : ℕ → List Interval → Bool
is_whole used [] = used == 0
is_whole used (i ∷ []) = used == 0 || (i.begin == 0 && i.end == used)
is_whole used (i ∷ j ∷ rest) = used == 0

-- The copies, and whether they are the predecessor whole; without one the delta must be the version.
unfoldable pub plan_copies :
    BuildInput → Backing → Bool → ℕ → List Interval → Option (List Interval × Bool)
plan_copies input b allocated used delta = elim input.previous [
  | none ↦ if is_whole used delta then some ([], false) else none
  | some previous ↦
      let (missing, whole) = missing_of input previous b allocated used in
      some (copy_ranges delta missing, whole && not (copy_limit previous used == 0))
]

unfoldable pub total_uploaded : List UploadRange → ℕ
total_uploaded [] = 0
total_uploaded (u ∷ us) = u64 (u.size + total_uploaded us)

unfoldable pub total_copied : List Interval → ℕ
total_copied [] = 0
total_copied (i ∷ is) = u64 (i.end - i.begin + total_copied is)

abbrev pub version_of :
    Caller
    → BuildInput
    → ClassChoice
    → Backing
    → List Interval
    → Bool
    → List UploadRange
    → PublishedVersion
version_of caller input choice b copies whole uploads = record {
  revision = caller.revision;
  write_sequence = input.write_sequence;
  element_count = input.element_count;
  capacity = b.capacity_class;
  element_stride = input.element_stride;
  revision_mode = choice.mode;
  content_version = caller.revision;
  content_epoch = input.write_sequence;
  backing_epoch = b.generation;
  resource = b.buffer;
  image = none;
  tag = input.tag;
  uploaded_bytes = total_uploaded uploads;
  copied_bytes = total_copied copies;
  copied_whole = whole;
  shrink_window = choice.window;
  shrunk = choice.shrunk;
}

abbrev pub is_nil : {A : Type 0} → List A → Bool
is_nil xs = elim xs [ [] ↦ true | x ∷ rest ↦ false ]

-- The writes are queued, the copies first. Until the new epoch is set the backing holds nothing.
unfoldable pub queue :
    Caller
    → BuildInput
    → ClassChoice
    → Backing
    → List Interval
    → Bool
    → List UploadRange
    → Pool
    → Built
queue caller input choice b copies whole uploads p =
    let g = b.generation in
    let forgot = set_contents g 0 p in
    if b.retired
    then let_go (failed backing_retired) g forgot
    else if not (is_nil copies) && not (caller.takes_copies copies)
    then let_go (failed copy_enqueue_failed) g forgot
    else if not (is_nil uploads) && not (caller.takes_uploads uploads)
    then let_go (failed enqueue_failed) g forgot
    else record {
      outcome = ready (version_of caller input choice b copies whole uploads);
      pool = set_contents g input.write_sequence forgot;
      copies = copies;
      uploads = uploads;
    }

abbrev pub same_buffer : ℕ → Option PublishedVersion → Bool
same_buffer buffer none = false
same_buffer buffer (some previous) = elim previous.resource [
  | none ↦ false
  | some other ↦ buffer == other
]

-- The delta that the hook hands over; a hook that is not given was refused before.
abbrev pub emitted_of : BuildInput → List Emitted
emitted_of input = elim input.emit_delta [ none ↦ [] | some writes ↦ writes ]

-- The plan of a delta for the leased backing, and its queueing.
unfoldable pub plan :
    Caller → BuildInput → ClassChoice → AcquireInfo → Backing → List DeltaWrite → Pool → Built
plan caller input choice info b writes p =
    let (uploads, covered) = delta_uploads writes in
    elim (plan_copies input b info.allocated (used_bytes input) covered) [
      | none ↦ let_go (failed delta_uncovered) b.generation p
      | some planned ↦
          (if caller.stops 2
            then let_go cancelled b.generation p
            else queue caller input choice b planned.0 planned.1 uploads p)
    ]

-- The build with a backing in hand.
unfoldable pub fill : Caller → BuildInput → ClassChoice → AcquireInfo → Backing → Pool → Built
fill caller input choice info b p =
    let g = b.generation in
    if not (info.write_after == 0) then let_go (failed bound_backing) g p else elim b.buffer [
      | none ↦ let_go (failed no_buffer) g p
      | some buffer ↦
          (if same_buffer buffer input.previous
            then let_go (failed predecessor_backing) g p
            else if ltb b.byte_capacity (used_bytes input)
            then let_go (failed backing_small) g p
            else elim (collect (used_bytes input) (emitted_of input)) [
              | none ↦ let_go (failed delta_outside) g p
              | some writes ↦
                  (if caller.stops 1
                    then let_go cancelled g p
                    else plan caller input choice info b writes p)
            ])
    ]

-- The epoch that the pool is asked to be near to.
abbrev pub preferred : BuildInput → ℕ
preferred input = elim input.previous [
  | none ↦ input.write_sequence
  | some previous ↦ previous.write_sequence
]

-- What an Acquire's outcome leads to; what it throws ends as a failure. A lease is of a backing of
-- the pool.
unfoldable pub use_lease : Caller → BuildInput → ClassChoice → Pool → Outcome → Built
use_lease caller input choice p threw = end_with (failed BuildError.threw) p
use_lease caller input choice p (exhausted info) = suspend caller p
use_lease caller input choice p (leased g info) = elim (lookup g p.all) [
  | none ↦ end_with (failed no_buffer) p
  | some b ↦ fill caller input choice info b p
]

unfoldable pub build_from_predecessor : Caller → BuildInput → Pool → Built
build_from_predecessor caller input p = elim (refused_copy input) [
  | some why ↦ end_with (failed why) p
  | none ↦
      (if caller.stops 0 then end_with cancelled p else elim (choose_class caller.now input) [
        | err e ↦ end_with (failed BuildError.threw) p
        | ok choice ↦
            let (q, got) =
              acquire caller.allocate caller.pins caller.completed
                (request_of input choice.capacity_class) (preferred input) p in
            use_lease caller input choice q got
      ])
]
