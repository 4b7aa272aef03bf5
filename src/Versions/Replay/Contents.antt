-- ===== src/Versions/Replay/Contents.antt =====
-- What the bytes of a replay are, and of which writes.
use orgmodule_services.Common.{
  ℕ, zero, suc, ◌-◌, ◌≡◌, ◌≤◌, ◌<◌, ◌⊎◌, inl, inr, refl, ◌∙◌, sym, subst, All, true, false, not,
  Option, none, some, List, [], ◌∷◌, ◌++◌, length, take, ◌==◌, leb, min, arith, if-cases,
  elim-cases, Bool-cases,
}
use orgmodule_services.Images.{BufferImage, materialize, zeros}
use orgmodule_services.Versions.Version.{BufferWrite, PublishedVersion, BuildInput}
use orgmodule_services.Versions.Replay.{
  Replayed, replayed, refused, required_bytes, shadow_of, close_with, replay_bytes, replay_image,
  last_checkpoint, is_open, is_empty, sequence_of,
}

-- The bytes that stand for the rows without an image: those given, or the predecessor's, cut or filled up
-- with zeros, or zeros.
pub data IsShadow (input : BuildInput) (bytes : List ℕ) : Type 0 where
  given : is_empty input.bytes ≡ false → bytes ≡ input.bytes → IsShadow input bytes
  carried :
      (previous : PublishedVersion) (image : BufferImage)
      → input.bytes ≡ []
      → input.previous ≡ some previous
      → previous.image ≡ some image
      → bytes ≡ take (required_bytes input) (materialize image ++ zeros (required_bytes input))
      → IsShadow input bytes
  blank :
      input.bytes ≡ []
      → ((previous : PublishedVersion) → input.previous ≡ some previous → previous.image ≡ none)
      → bytes ≡ zeros (required_bytes input)
      → IsShadow input bytes

-- A write that changes no byte past what the predecessor has.
abbrev pub IsCheckpoint : ℕ → BufferWrite → Type 0
IsCheckpoint from w = (w.sequence ≤ from) ⊎ (w.byte_size ≡ 0)

-- The bytes of a replay: the image's, or others where no write past the predecessor writes a byte, and,
-- unless the bytes are given, the asked sequence is the predecessor's, or with writes not before it.
pub data Contents (input : BuildInput) (bytes : List ℕ) : Type 0 where
  of_image :
      (image : BufferImage)
      → input.image ≡ some image
      → image.byte_size ≡ required_bytes input
      → bytes ≡ materialize image
      → Contents input bytes
  of_shadow :
      input.image ≡ none
      → IsShadow input bytes
      → All (IsCheckpoint (sequence_of input.previous)) input.writes
      → (is_empty input.bytes ≡ true
          → is_empty input.writes ≡ false
          → sequence_of input.previous ≤ input.write_sequence)
      → (is_empty input.bytes ≡ true
          → is_empty input.writes ≡ true
          → (previous : PublishedVersion) → input.previous ≡ some previous
          → previous.write_sequence ≡ input.write_sequence)
      → Contents input bytes

is_empty-nil : (xs : List ℕ) → is_empty xs ≡ true → xs ≡ []
is_empty-nil [] h = refl
is_empty-nil (x ∷ xs) h = absurd cc

take-zeros : (n k : ℕ) → n ≤ k → take n (zeros k) ≡ zeros n
unfolding zeros
take-zeros zero k h = refl
take-zeros (suc n) zero h = absurd (omega (arith, h))
take-zeros (suc n) (suc k) h = cc (take-zeros n k (omega (arith, h)))

-- Cut or filled up to a length.
cut_or_filled :
    (n k : ℕ) (xs : List ℕ)
    → n ≤ k
    → take (min n (length xs)) xs ++ zeros (n - min n (length xs)) ≡ take n (xs ++ zeros k)
unfolding zeros
cut_or_filled n k [] h =
    let e : min n 0 ≡ 0 = omega arith in
    let d : n - 0 ≡ n = omega arith in rw (e, d) (sym (take-zeros n k h))
cut_or_filled zero k (x ∷ xs) h = let e : min 0 (suc (length xs)) ≡ 0 = omega arith in rw e refl
cut_or_filled (suc n) k (x ∷ xs) h =
    let e : min (suc n) (suc (length xs)) ≡ suc (min n (length xs)) = omega arith in
    let d : suc n - suc (min n (length xs)) ≡ n - min n (length xs) = omega arith in
    rw (e, d) (cc (cut_or_filled n k xs (omega (arith, h))))

-- Writes of rising sequences past one.
abbrev pub IsOrdered : ℕ → List BufferWrite → Type 0
IsOrdered low [] = Unit {0}
IsOrdered low (w ∷ ws) = (low < w.sequence) × IsOrdered w.sequence ws

IsOrdered-weaken : (a b : ℕ) (ws : List BufferWrite) → a ≤ b → IsOrdered b ws → IsOrdered a ws
IsOrdered-weaken a b [] l o = tt
IsOrdered-weaken a b (w ∷ ws) l (h, o) = (omega (arith, l, h), o)

checkpoints-past :
    (from low : ℕ) (ws : List BufferWrite)
    → IsOrdered low ws
    → All (IsCheckpoint low) ws
    → All (IsCheckpoint from) ws
checkpoints-past from low [] o k = tt
checkpoints-past from low (w ∷ ws) (l, o) (inl early, k) = absurd (omega (arith, l, early))
checkpoints-past from low (w ∷ ws) (l, o) (inr none_written, k) = (
  inr none_written,
  checkpoints-past from low ws (IsOrdered-weaken low w.sequence ws (omega (arith, l)) o) k,
)

-- The loop over the writes lets only checkpoints through, and does not go back.
last_checkpoint_lem :
    (from low last : ℕ) (ws : List BufferWrite)
    → IsOrdered low ws
    → last_checkpoint ws from ≡ some last
    → (from ≤ last) × All (IsCheckpoint from) ws
unfolding last_checkpoint
last_checkpoint_lem from low last [] o h = (ground (arith, h), tt)
last_checkpoint_lem from low last (w ∷ ws) (l, o) h = elim (Bool-cases (leb w.sequence from)) [
  | inl early ↦
      (let rest = last_checkpoint_lem from w.sequence last ws o (ground (arith, early, h)) in
        (rest.0, (inl (ground (arith, early)), rest.1)))
  | inr past ↦
      (let empty : w.byte_size ≡ 0 = ground (arith, past, h) in
        let rest = last_checkpoint_lem w.sequence w.sequence last ws o (ground (arith, past, h)) in
        let first = rest.0 in
        (ground (arith, first, past), (inr empty, checkpoints-past from w.sequence ws o rest.1)))
]

module _ (input : BuildInput) where
  abbrev Shadows : Replayed → Type 0
  Shadows r = (bytes : List ℕ) → r ≡ replayed bytes → IsShadow input bytes

  shadow_of-IsShadow : Shadows (shadow_of input)
  unfolding shadow_of
  shadow_of-IsShadow =
      let size = required_bytes input in
      if-cases Shadows (not (is_empty input.bytes)) _ _
        (λ e.
          if-cases Shadows (size == length input.bytes) _ _
            (λ same bytes h. given (ground (arith, e)) (cc)) (λ other bytes h. absurd cc))
        (λ e.
          let none_given : input.bytes ≡ [] = is_empty-nil input.bytes (ground (arith, e)) in
          elim-cases Shadows input.previous _ _
            (λ no bytes h. blank none_given (λ p f. absurd cc) (cc))
            (λ previous p.
              elim-cases Shadows previous.image _ _
                (λ no bytes h.
                  blank none_given
                    (λ q f.
                      (let same : previous ≡ q = cc in
                        subst (λ (x : PublishedVersion). x.image ≡ none) same no))
                    (cc))
                (λ image i bytes h.
                  let cut = cut_or_filled size size (materialize image) (omega arith) in
                  carried previous image none_given p i (
                    let same : bytes
                        ≡ take (min size (length (materialize image))) (materialize image)
                          ++ zeros (size - min size (length (materialize image))) =
                      cc in
                    same ∙ cut))))

  close_with-Contents :
      (bytes shadow : List ℕ) (low : ℕ) (o : Option ℕ)
      → input.image ≡ none
      → IsOrdered low input.writes
      → IsShadow input shadow
      → last_checkpoint input.writes (sequence_of input.previous) ≡ o
      → close_with input shadow o ≡ replayed bytes
      → Contents input bytes
  unfolding is_open
  close_with-Contents bytes shadow low none no_image ordered k e h = absurd cc
  close_with-Contents bytes shadow low (some last) no_image ordered k e h =
      let closed : is_open input last ≡ false = ground (arith, h) in
      let same : shadow ≡ bytes = ground (arith, h) in
      let past = last_checkpoint_lem (sequence_of input.previous) low last input.writes ordered e in
      let first = past.0 in
      of_shadow no_image (subst (IsShadow input) same k) past.1
        (λ no_bytes some_writes. ground (arith, closed, no_bytes, some_writes, first))
        (λ no_bytes no_writes previous p. ground (arith, closed, no_bytes, no_writes, p))

  pub replay_bytes-Contents :
      (bytes : List ℕ) (low : ℕ)
      → input.image ≡ none
      → IsOrdered low input.writes
      → replay_bytes input ≡ replayed bytes
      → Contents input bytes
  unfolding replay_bytes
  replay_bytes-Contents bytes low no_image ordered h = closed (shadow_of input) shadow_of-IsShadow h
    where
      closed :
          (r : Replayed)
          → Shadows r
          → elim r [
            | refused why ↦ refused why
            | replayed shadow ↦
                close_with input shadow (last_checkpoint input.writes (sequence_of input.previous))
          ]
            ≡ replayed bytes
          → Contents input bytes
      closed (refused why) k e = absurd cc
      closed (replayed shadow) k e =
          close_with-Contents bytes shadow low _ no_image ordered (k shadow refl) refl e

  pub replay_image-Contents :
      (image : BufferImage) (bytes : List ℕ)
      → input.image ≡ some image
      → replay_image input image ≡ replayed bytes
      → Contents input bytes
  unfolding replay_image
  replay_image-Contents image bytes i h = of_image image i (ground (arith, h)) (ground (arith, h))
