-- ===== src/Journal.antt =====
-- include/ORGModuleServices/BufferJournal.h and src/BufferJournal.cpp: an allocator's desired image
-- and its writes since the last acknowledged version. Its mutex makes each call one step. A page
-- that a capture shares is cloned before it is written, so a page is a value here.
pub mod Trim
use orgmodule_services.Common.{
  ℕ, zero, suc, ◌+◌, ◌*◌, ◌-◌, ◌/◌, ◌%◌, Bool, true, false, not, ◌&&◌, ◌||◌, Option, none, some,
  List, [], ◌∷◌, ◌++◌, length, get_or, take, drop, keep_if, Result, ok, err, Fault,
  invalid_argument, out_of_range, ltb, leb, ◌==◌, min, max, u64, u64_max, if◌then◌else◌,
}
use orgmodule_services.BackingPool.State.{Pool}
use orgmodule_services.BackingPool.Upkeep.{oldest_content_epoch}
use orgmodule_services.Images.{BufferImage, page_bytes, pages_of, from_pages, zeros}
use orgmodule_services.Versions.Version.{BufferWrite, PublishedVersion}

-- Of the backing pool, which the journal does not own, a call that reads it has what `lock` gives.
pub record Journal : Type 0 where
  pub element_stride : ℕ
  pub write_sequence : ℕ
  pub element_count : ℕ
  pub capacity : ℕ
  pub previous : Option PublishedVersion
  pub writes : List BufferWrite
  pub base_sequence : ℕ
  pub byte_size : ℕ
  pub pages : List (List ℕ)

abbrev pub new_journal : ℕ → Journal
new_journal stride = record {
  element_stride = stride;
  write_sequence = 0;
  element_count = 0;
  capacity = 0;
  previous = none;
  writes = [];
  base_sequence = 0;
  byte_size = 0;
  pages = [];
}

-- The test of an image that `Initialize` and `ReplaceImage` are given.
abbrev pub is_invalid_image : Journal → List ℕ → ℕ → ℕ → Bool
is_invalid_image j bytes element_count capacity =
    j.element_stride == 0
    || (ltb capacity element_count || not (length bytes == u64 (element_count * j.element_stride)))

unfoldable pub initialize : List ℕ → ℕ → ℕ → Journal → Result Journal
initialize bytes element_count capacity j =
    if is_invalid_image j bytes element_count capacity
    then err invalid_argument
    else ok (record j {
      previous = none;
      writes = [];
      base_sequence = 0;
      byte_size = length bytes;
      pages = pages_of bytes;
      element_count = element_count;
      capacity = capacity;
      write_sequence = 1;
    })

-- The pages that are pushed until as many are there as the size takes, each as long as the size
-- leaves; `missing` counts them.
unfoldable pub push_pages : ℕ → ℕ → List (List ℕ) → List (List ℕ)
push_pages zero desired pages = pages
push_pages (suc missing) desired pages =
    push_pages missing desired
      (pages ++ zeros (min page_bytes (desired - length pages * page_bytes)) ∷ [])

-- `resize`: zeros fill a page up.
unfoldable pub resized : ℕ → List ℕ → List ℕ
resized size page = page ++ zeros (size - length page)

-- Every covered page grows to what the size takes of it.
unfoldable pub grow_pages : ℕ → ℕ → List (List ℕ) → List (List ℕ)
grow_pages begin desired [] = []
grow_pages begin desired (page ∷ pages) =
    (if leb (min page_bytes (desired - begin)) (length page)
      then page
      else resized (min page_bytes (desired - begin)) page)
    ∷ grow_pages (begin + page_bytes) desired pages

-- `std::copy_n` into a page at an offset.
unfoldable pub overwrite : ℕ → List ℕ → List ℕ → List ℕ
overwrite offset [] page = page
overwrite offset (b ∷ bs) [] = []
overwrite zero (b ∷ bs) (x ∷ page) = b ∷ overwrite zero bs page
overwrite (suc offset) (b ∷ bs) (x ∷ page) = x ∷ overwrite offset (b ∷ bs) page

unfoldable pub at_index : ℕ → (List ℕ → List ℕ) → List (List ℕ) → List (List ℕ)
at_index i f [] = []
at_index zero f (page ∷ pages) = f page ∷ pages
at_index (suc i) f (page ∷ pages) = page ∷ at_index i f pages

-- The loop that copies a write into the pages; `source` counts the bytes copied, and the bytes bound
-- the rounds.
unfoldable pub copy_into : ℕ → ℕ → ℕ → List ℕ → List (List ℕ) → List (List ℕ)
copy_into zero source offset bytes pages = pages
copy_into (suc fuel) source offset bytes pages =
    let index = (offset + source) / page_bytes in
    let at = (offset + source) % page_bytes in
    let size = min (length bytes - source) (length (get_or pages index []) - at) in
    let rest =
      copy_into fuel (source + size) offset bytes
        (at_index index (overwrite at (take size (drop source bytes))) pages) in
    if ltb source (length bytes) then rest else pages

abbrev pub page_count : ℕ → ℕ
page_count size = (size + (page_bytes - 1)) / page_bytes

-- The pages after a write of a range, for a size.
unfoldable pub written_pages : ℕ → ℕ → List ℕ → List (List ℕ) → List (List ℕ)
written_pages desired offset bytes pages =
    copy_into (length bytes) 0 offset bytes
      (grow_pages 0 desired (push_pages (page_count desired - length pages) desired pages))

-- The tests of `AppendWrite`, and what it throws.
unfoldable pub refused_write : ℕ → List ℕ → ℕ → Journal → Option Fault
refused_write offset bytes resulting j =
    if j.element_stride == 0 || (length bytes == 0 || not (length bytes % j.element_stride == 0))
    then some invalid_argument
    else if ltb (u64_max - length bytes / j.element_stride) offset
        || ltb resulting (u64 (offset + length bytes / j.element_stride))
    then some out_of_range
    else if ltb j.capacity resulting
    then some out_of_range
    else none

-- `AppendWrite` past its tests.
unfoldable pub enter_write : ℕ → List ℕ → ℕ → Journal → Journal
enter_write offset bytes resulting j =
    let sequence = u64 (j.write_sequence + 1) in
    let count = max j.element_count resulting in
    let size = u64 (count * j.element_stride) in
    let at = u64 (offset * j.element_stride) in
    record j {
      write_sequence = sequence;
      pages = written_pages size at bytes j.pages;
      byte_size = size;
      writes =
          j.writes
          ++ record { sequence = sequence; byte_offset = at; byte_size = length bytes } ∷ [];
      element_count = count;
    }

unfoldable pub append_write : ℕ → List ℕ → ℕ → Journal → Result Journal
append_write offset bytes resulting j = elim (refused_write offset bytes resulting j) [
  | some fault ↦ err fault
  | none ↦ ok (enter_write offset bytes resulting j)
]

unfoldable pub replace_image : List ℕ → ℕ → ℕ → Journal → Result Journal
replace_image bytes element_count capacity j =
    if is_invalid_image j bytes element_count capacity
    then err invalid_argument
    else let sequence = u64 (j.write_sequence + 1) in
      ok (record j {
        capacity = max j.capacity capacity;
        element_count = element_count;
        write_sequence = sequence;
        byte_size = length bytes;
        pages = pages_of bytes;
        writes =
            j.writes
            ++ record { sequence = sequence; byte_offset = 0; byte_size = length bytes } ∷ [];
      })

unfoldable pub request_capacity : ℕ → Journal → Journal
request_capacity capacity j =
    if leb capacity j.capacity
    then j
    else let sequence = u64 (j.write_sequence + 1) in
      record j {
        capacity = capacity;
        write_sequence = sequence;
        writes =
            j.writes
            ++ record {
              sequence = sequence;
              byte_offset = u64 (j.element_count * j.element_stride);
              byte_size = 0;
            }
              ∷ [];
      }

pub record Capture : Type 0 where
  pub write_sequence : ℕ
  pub element_count : ℕ
  pub capacity : ℕ
  pub previous : Option PublishedVersion
  pub writes : List BufferWrite
  pub image : BufferImage
  pub base_sequence : ℕ

unfoldable pub capture_desired : Journal → Capture
capture_desired j = record {
  write_sequence = j.write_sequence;
  element_count = j.element_count;
  capacity = j.capacity;
  previous = j.previous;
  writes = j.writes;
  image = from_pages j.pages j.byte_size;
  base_sequence = j.base_sequence;
}

-- A version that the journal has not seen: newer than the last one, and not past its writes.
abbrev pub is_stale : PublishedVersion → Journal → Bool
is_stale version j =
    ltb j.write_sequence version.write_sequence
    || elim j.previous [ none ↦ false | some last ↦ leb version.write_sequence last.write_sequence ]

-- The floor of the pool, where one is set and lives.
abbrev pub floor_of : Option Pool → Option ℕ
floor_of none = none
floor_of (some pool) = oldest_content_epoch pool

-- The base that a version of a sequence leaves: never back past writes already dropped.
unfoldable pub base_after : Option ℕ → ℕ → ℕ → ℕ
base_after none sequence base = max base sequence
base_after (some floor) sequence base = max base (min sequence floor)

unfoldable pub trim_to : ℕ → Journal → Journal
trim_to base j = record j {
  base_sequence = base;
  writes = keep_if (λ w. not (leb w.sequence base)) j.writes;
}

unfoldable pub acknowledge : Option Pool → Option PublishedVersion → Journal → Journal
acknowledge pool none j = j
acknowledge pool (some version) j =
    if is_stale version j
    then j
    else trim_to (base_after (floor_of pool) version.write_sequence j.base_sequence)
        (record j { previous = some version })

abbrev pub desired_sequence : Journal → ℕ
desired_sequence j = j.write_sequence

unfoldable pub has_unpublished_changes : Journal → Bool
has_unpublished_changes j = elim j.previous [
  | none ↦ true
  | some last ↦ not (last.write_sequence == j.write_sequence)
]
