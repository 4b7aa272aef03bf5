-- ===== src/Versions/Replay.antt =====
-- `ReplayVersionedBuffer` of src/VersionedBufferBuild.cpp: the bytes that an input stands for.
pub mod Sized
pub mod Contents
use orgmodule_services.Common.{
  ℕ, ◌+◌, ◌*◌, ◌-◌, ◌/◌, ◌%◌, Bool, true, false, not, ◌&&◌, ◌||◌, Option, none, some, List, [], ◌∷◌,
  ◌++◌, length, take, ltb, leb, ◌==◌, min, u64, u64_max, u32_max, if◌then◌else◌,
}
use orgmodule_services.Images.{BufferImage, materialize, zeros}
use orgmodule_services.Versions.Version.{
  BufferWrite, PublishedVersion, BuildInput, BuildError, count_invalid, bytes_overflow,
  journal_range, journal_open, image_mismatch, bytes_mismatch, delta_needs_image,
}

-- The bytes, or why there are none.
pub data Replayed : Type 0 where
  replayed : List ℕ → Replayed
  refused : BuildError → Replayed

-- The rows of the input as bytes, where they fit 64 bits.
abbrev pub required_bytes : BuildInput → ℕ
required_bytes input = u64 (input.element_count * input.element_stride)

-- The test of one write against the last sequence validated.
unfoldable pub is_invalid_write : BuildInput → ℕ → BufferWrite → Bool
is_invalid_write input validated w =
    leb w.sequence validated
    || (ltb input.write_sequence w.sequence
        || (ltb (required_bytes input) w.byte_offset
            || (ltb (required_bytes input - w.byte_offset) w.byte_size
                || (not (w.byte_offset % input.element_stride == 0)
                    || not (w.byte_size % input.element_stride == 0)))))

-- The loop over the writes: the last sequence, unless one is invalid.
unfoldable pub validate : BuildInput → List BufferWrite → ℕ → Option ℕ
validate input [] validated = some validated
validate input (w ∷ ws) validated =
    let rest = validate input ws w.sequence in
    if is_invalid_write input validated w then none else rest

abbrev pub sequence_of : Option PublishedVersion → ℕ
sequence_of none = 0
sequence_of (some previous) = previous.write_sequence

-- Where validation starts: a journal may keep writes from before the predecessor.
abbrev pub validated_from : BuildInput → ℕ
validated_from input = elim input.previous [
  | none ↦ 0
  | some previous ↦ min previous.write_sequence input.journal_base_sequence
]

abbrev pub is_empty : {A : Type 0} → List A → Bool
is_empty xs = elim xs [ [] ↦ true | x ∷ rest ↦ false ]

-- Without an image: the whole bytes, or the predecessor's, cut or filled up with zeros.
unfoldable pub shadow_of : BuildInput → Replayed
shadow_of input =
    let size = required_bytes input in
    if not (is_empty input.bytes)
    then (if size == length input.bytes then replayed input.bytes else refused bytes_mismatch)
    else elim input.previous [
      | none ↦ replayed (zeros size)
      | some previous ↦ elim previous.image [
        | none ↦ replayed (zeros size)
        | some image ↦
            let bytes = materialize image in
            replayed
              (take (min size (length bytes)) bytes ++ zeros (size - min size (length bytes)))
      ]
    ]

-- The loop over the writes past a sequence: only checkpoints may be replayed without an image.
unfoldable pub last_checkpoint : List BufferWrite → ℕ → Option ℕ
last_checkpoint [] last = some last
last_checkpoint (w ∷ ws) last =
    let skipped = last_checkpoint ws last in
    let taken = last_checkpoint ws w.sequence in
    if leb w.sequence last then skipped else if w.byte_size == 0 then taken else none

-- Whether the journal of an input without an image ends before the asked sequence.
unfoldable pub is_open : BuildInput → ℕ → Bool
is_open input last =
    is_empty input.bytes
    && ((not (is_empty input.writes) && not (last == input.write_sequence))
        || (is_empty input.writes && elim input.previous [
          | none ↦ false
          | some previous ↦ not (input.write_sequence == previous.write_sequence)
        ]))

abbrev pub close_with : BuildInput → List ℕ → Option ℕ → Replayed
close_with input bytes none = refused delta_needs_image
close_with input bytes (some last) =
    if is_open input last then refused journal_open else replayed bytes

unfoldable pub replay_bytes : BuildInput → Replayed
replay_bytes input = elim (shadow_of input) [
  | refused why ↦ refused why
  | replayed bytes ↦
      close_with input bytes (last_checkpoint input.writes (sequence_of input.previous))
]

unfoldable pub replay_image : BuildInput → BufferImage → Replayed
replay_image input image =
    if image.byte_size == required_bytes input
    then replayed (materialize image)
    else refused image_mismatch

-- The input past the tests of its sizes.
unfoldable pub replay_journal : BuildInput → Replayed
replay_journal input = elim (validate input input.writes (validated_from input)) [
  | none ↦ refused journal_range
  | some last ↦
      (if not (is_empty input.writes) && not (last == input.write_sequence)
        then refused journal_open
        else elim input.image [ some image ↦ replay_image input image | none ↦ replay_bytes input ])
]

unfoldable pub replay : BuildInput → Replayed
replay input =
    if input.element_stride == 0
      || (ltb input.capacity input.element_count || ltb u32_max input.capacity)
    then refused count_invalid
    else if ltb (u64_max / input.element_stride) input.element_count
    then refused bytes_overflow
    else replay_journal input
