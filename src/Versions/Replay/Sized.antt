-- ===== src/Versions/Replay/Sized.antt =====
-- A replay gives the bytes of every row, and of a closed journal alone.
use native.Mathlib.Nat.{le-div_iff_mul-le}
use orgmodule_services.Common.{
  ℕ, zero, suc, ◌+◌, ◌*◌, ◌-◌, ◌/◌, ◌%◌, ◌≡◌, ◌≤◌, ◌∙◌, refl, Option-cases, inl, inr, All, false,
  not, ◌&&◌, Option, none, some, List, [], ◌∷◌, ◌++◌, length, length-append, take, ◌==◌, min,
  u64_max, arith, if-cases, some-cases,
}
use orgmodule_services.Images.{BufferImage, materialize, fill_from, zeros}
use orgmodule_services.Images.Flat.{length-take}
use orgmodule_services.Versions.Version.{BufferWrite, BuildInput, BuildError}
use orgmodule_services.Versions.Replay.Contents.{
  IsOrdered, Contents, replay_bytes-Contents, replay_image-Contents,
}
use orgmodule_services.Versions.Replay.{
  Replayed, replayed, refused, required_bytes, validate, is_invalid_write, validated_from,
  shadow_of, close_with, replay_bytes, replay_image, replay_journal, replay, last_checkpoint,
  is_open, is_empty, sequence_of,
}

length-zeros : (n : ℕ) → length (zeros n) ≡ n
unfolding zeros
length-zeros zero = refl
length-zeros (suc n) = omega (arith, length-zeros n)

length-fill_from : (pages : List (List ℕ)) (left : ℕ) → length (fill_from pages left) ≡ left
unfolding fill_from
length-fill_from [] left = length-zeros left
length-fill_from (page ∷ pages) left =
    if-cases (λ z. length z ≡ left) (left == 0) [] _ (λ e. ground (arith, e))
      (λ e. omega (
        arith,
        length-append (take (min (length page) left) page)
            (fill_from pages (left - min (length page) left)),
        length-take (min (length page) left) page,
        length-fill_from pages (left - min (length page) left),
      ))

-- What a replay promises: as many bytes as the rows take.
record IsSized (input : BuildInput) (r : Replayed) : Type 0 where
  pub sized : (bytes : List ℕ) → r ≡ replayed bytes → length bytes ≡ required_bytes input

refused-IsSized : (input : BuildInput) (why : BuildError) → IsSized input (refused why)
refused-IsSized input why = record { sized = λ bytes e. absurd cc }

replayed-IsSized :
    (input : BuildInput) (bytes : List ℕ)
    → length bytes ≡ required_bytes input
    → IsSized input (replayed bytes)
replayed-IsSized input bytes h = record { sized = λ other e. ground (arith, h, e) }

shadow_of-IsSized : (input : BuildInput) → IsSized input (shadow_of input)
unfolding shadow_of
shadow_of-IsSized input =
    let size = required_bytes input in
    let blank = replayed-IsSized input (zeros size) (length-zeros size) in
    if-cases (IsSized input) (not (is_empty input.bytes)) _ _
      (λ e.
        if-cases (IsSized input) (size == length input.bytes) _ _
          (λ e. replayed-IsSized input input.bytes (ground (arith, e)))
          (λ e. refused-IsSized input _))
      (λ e. some-cases (IsSized input) input.previous _ _ blank (λ previous e.
        some-cases (IsSized input) previous.image _
          (λ image. replayed (
            take (min size (length (materialize image))) (materialize image)
            ++ zeros (size - min size (length (materialize image)))))
          blank
          (λ image e. replayed-IsSized input _ (
            omega (
              arith,
              length-append (take (min size (length (materialize image))) (materialize image))
                  (zeros (size - min size (length (materialize image)))),
              length-take (min size (length (materialize image))) (materialize image),
              length-zeros (size - min size (length (materialize image))),
            )))))

close_with-IsSized :
    (input : BuildInput) (bytes : List ℕ) (o : Option ℕ)
    → length bytes ≡ required_bytes input
    → IsSized input (close_with input bytes o)
close_with-IsSized input bytes none h = refused-IsSized input _
close_with-IsSized input bytes (some last) h =
    if-cases (IsSized input) (is_open input last) _ _ (λ e. refused-IsSized input _)
      (λ e. replayed-IsSized input bytes h)

replay_bytes-IsSized : (input : BuildInput) → IsSized input (replay_bytes input)
unfolding replay_bytes
replay_bytes-IsSized input = closed (shadow_of input) (shadow_of-IsSized input)
  where
    closed :
        (r : Replayed)
        → IsSized input r
        → IsSized input (elim r [
          | refused why ↦ refused why
          | replayed bytes ↦
              close_with input bytes (last_checkpoint input.writes (sequence_of input.previous))
        ])
    closed (refused why) h = refused-IsSized input why
    closed (replayed bytes) h = close_with-IsSized input bytes _ (h.sized bytes refl)

replay_image-IsSized :
    (input : BuildInput) (image : BufferImage) → IsSized input (replay_image input image)
unfolding replay_image materialize
replay_image-IsSized input image =
    if-cases (IsSized input) (image.byte_size == required_bytes input) _ _
      (λ e.
        replayed-IsSized input _ (ground (arith, e, length-fill_from image.pages image.byte_size)))
      (λ e. refused-IsSized input _)

replay_journal-IsSized : (input : BuildInput) → IsSized input (replay_journal input)
unfolding replay_journal
replay_journal-IsSized input =
    some-cases (IsSized input) (validate input input.writes (validated_from input)) _ _
      (refused-IsSized input _)
      (λ last e.
        if-cases (IsSized input) (not (is_empty input.writes) && not (last == input.write_sequence))
          _ _ (λ e. refused-IsSized input _)
          (λ e.
            some-cases (IsSized input) input.image _ _ (replay_bytes-IsSized input)
              (λ image e. replay_image-IsSized input image)))

required_bytes_lem :
    (input : BuildInput)
    → 1 ≤ input.element_stride
    → input.element_count ≤ u64_max / input.element_stride
    → required_bytes input ≡ input.element_count * input.element_stride
required_bytes_lem input n h =
    let small : input.element_count * input.element_stride ≤ u64_max = (le-div_iff_mul-le n).0 h in
    omega (arith, small)

-- A write that validation lets through: at most at the asked sequence, inside the rows, and of whole rows.
abbrev pub IsInside : BuildInput → BufferWrite → Type 0
IsInside input w =
    (w.sequence ≤ input.write_sequence)
    × (w.byte_offset + w.byte_size ≤ required_bytes input)
    × (w.byte_offset % input.element_stride ≡ 0)
    × (w.byte_size % input.element_stride ≡ 0)

-- The last sequence of the writes.
unfoldable pub last_sequence : ℕ → List BufferWrite → ℕ
last_sequence from [] = from
last_sequence from (w ∷ ws) = last_sequence w.sequence ws

validate-All :
    (input : BuildInput) (ws : List BufferWrite) (from last : ℕ)
    → validate input ws from ≡ some last
    → All (IsInside input) ws × IsOrdered from ws × (last ≡ last_sequence from ws)
unfolding validate is_invalid_write last_sequence
validate-All input [] from last h = (tt, tt, ground (arith, h))
validate-All input (w ∷ ws) from last h =
    let ok : is_invalid_write input from w ≡ false = ground (arith, h) in
    let rest = validate-All input ws w.sequence last (ground (arith, h)) in
    (
      ((ground (arith, ok), ground (arith, ok), ground (arith, ok), ground (arith, ok)), rest.0),
      (ground (arith, ok), rest.1),
      rest.2,
    )

-- What the bytes of a replay say of their input.
pub record IsReplay (input : BuildInput) (bytes : List ℕ) : Type 0 where
  pub rows : length bytes ≡ input.element_count * input.element_stride
  pub fits : input.element_count ≤ input.capacity
  pub inside : All (IsInside input) input.writes
  pub ordered : IsOrdered (validated_from input) input.writes
  pub closed :
      is_empty input.writes ≡ false
      → last_sequence (validated_from input) input.writes ≡ input.write_sequence
  pub contents : Contents input bytes

-- Where a replay gives bytes: they are as many as the rows take, none lost to 64 bits, and the rows fit the
-- capacity; the writes rise in sequence, each inside the rows and of whole rows, and the last of them
-- is at the asked sequence. The bytes are those of the image, where there is one. Where there is none,
-- they are the bytes given, else the predecessor's image cut or filled up with zeros to the rows,
-- else zeros; no write past the predecessor then writes a byte; and unless bytes are given, the asked
-- sequence is the predecessor's, or with writes not before it.
pub replay-IsReplay :
    (input : BuildInput) (bytes : List ℕ) → replay input ≡ replayed bytes → IsReplay input bytes
unfolding replay replay_journal
replay-IsReplay input bytes h =
    elim (Option-cases (validate input input.writes (validated_from input))) [
      | inl n ↦ absurd (ground (arith, h, n))
      | inr (last, e) ↦
          (let checked = validate-All input input.writes (validated_from input) last e in
            let end = checked.2 in
            record {
              rows =
                  (replay_journal-IsSized input).sized bytes (ground (arith, h))
                  ∙ required_bytes_lem input (ground (arith, h)) (ground (arith, h));
              fits = ground (arith, h);
              inside = checked.0;
              ordered = checked.1;
              closed = λ some_writes. ground (arith, h, e, end, some_writes);
              contents = elim (Option-cases input.image) [
                | inl i ↦
                    replay_bytes-Contents input bytes (validated_from input) i checked.1
                      (ground (arith, h, e, i))
                | inr (image, i) ↦
                    replay_image-Contents input image bytes i (ground (arith, h, e, i))
              ];
            })
    ]
