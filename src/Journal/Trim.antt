-- ===== src/Journal/Trim.antt =====
-- What a journal keeps: every write past its base, and the base stays where the pool's backings need
-- it.
use orgmodule_services.Common.{
  ℕ, suc, ◌+◌, ◌≡◌, ◌≤◌, ◌<◌, ◌∙◌, ap, sym, subst, refl, ◌==◌, Bool, true, not, ◌||◌, Option, none,
  some, List, [], ◌∷◌, ◌++◌, ◌*◌, length, length-append, keep_if, All, ok, leb, u64, u64_max, arith,
  Option-cases, Bool-cases, inl, inr, if-cases,
}
use orgmodule_services.BackingPool.Backing.{Backing}
use orgmodule_services.BackingPool.Store.{lookup}
use orgmodule_services.BackingPool.State.{Pool}
use orgmodule_services.BackingPool.Upkeep.{oldest_content_epoch}
use orgmodule_services.BackingPool.Epochs.{IsOldest, oldest_content_epoch-IsOldest}
use orgmodule_services.Versions.Version.{BufferWrite, PublishedVersion}
use orgmodule_services.Journal.{
  Journal, new_journal, initialize, refused_write, append_write, enter_write, replace_image,
  request_capacity, acknowledge, is_stale, floor_of, base_after, trim_to,
}

-- A journal's life and the writes since it was initialized, each with the journal's sequence after it.
-- The sequence has room.
pub data Reached : Journal → List BufferWrite → Type 0 where
  made : (stride : ℕ) → Reached (new_journal stride) []
  initialized :
      (bytes : List ℕ) (count capacity : ℕ) (j k : Journal) (h : List BufferWrite)
      → initialize bytes count capacity j ≡ ok k
      → Reached j h
      → Reached k []
  appended :
      (offset : ℕ) (bytes : List ℕ) (resulting : ℕ) (j k : Journal) (h : List BufferWrite)
      → append_write offset bytes resulting j ≡ ok k
      → j.write_sequence < u64_max
      → Reached j h
      → Reached k (
          h
          ++ record {
            sequence = suc j.write_sequence;
            byte_offset = u64 (offset * j.element_stride);
            byte_size = length bytes;
          }
            ∷ [])
  replaced :
      (bytes : List ℕ) (count capacity : ℕ) (j k : Journal) (h : List BufferWrite)
      → replace_image bytes count capacity j ≡ ok k
      → j.write_sequence < u64_max
      → Reached j h
      → Reached k (
          h
          ++ record { sequence = suc j.write_sequence; byte_offset = 0; byte_size = length bytes }
            ∷ [])
  widened :
      (capacity : ℕ) (j : Journal) (h : List BufferWrite)
      → j.capacity < capacity
      → j.write_sequence < u64_max
      → Reached j h
      → Reached (request_capacity capacity j) (
          h
          ++ record {
            sequence = suc j.write_sequence;
            byte_offset = u64 (j.element_count * j.element_stride);
            byte_size = 0;
          }
            ∷ [])
  acknowledged :
      (pool : Option Pool) (version : Option PublishedVersion) (j : Journal) (h : List BufferWrite)
      → Reached j h
      → Reached (acknowledge pool version j) h

abbrev pub after : ℕ → BufferWrite → Bool
after base w = not (leb w.sequence base)

-- The sequences of a history: one after another up to the last.
abbrev pub IsCounted : ℕ → List BufferWrite → Type 0
IsCounted last [] = Unit {0}
IsCounted last (w ∷ ws) = (w.sequence + length ws ≡ last) × IsCounted last ws

pub record IsComplete (j : Journal) (h : List BufferWrite) : Type 0 where
  pub kept : j.writes ≡ keep_if (after j.base_sequence) h
  pub counted : IsCounted j.write_sequence h
  pub based : j.base_sequence ≤ j.write_sequence

keep_if-append :
    {A : Type 0} (p : A → Bool) (es fs : List A)
    → keep_if p (es ++ fs) ≡ keep_if p es ++ keep_if p fs
keep_if-append p [] fs = refl
keep_if-append p (e ∷ es) fs = elim (Bool-cases (p e)) [
  | inl t ↦ rw t (ap (λ z. e ∷ z) (keep_if-append p es fs))
  | inr t ↦ rw t (keep_if-append p es fs)
]

keep_if-twice :
    (a b : ℕ) (h : List BufferWrite)
    → a ≤ b
    → keep_if (after b) (keep_if (after a) h) ≡ keep_if (after b) h
keep_if-twice a b [] l = refl
keep_if-twice a b (w ∷ h) l = ground (arith, keep_if-twice a b h l)

IsCounted-append :
    (last : ℕ) (h : List BufferWrite) (w : BufferWrite)
    → w.sequence ≡ suc last
    → IsCounted last h
    → IsCounted (suc last) (h ++ w ∷ [])
IsCounted-append last [] w e c = (omega (arith, e), tt)
IsCounted-append last (v ∷ h) w e (s, c) =
    (omega (arith, length-append h (w ∷ []), s), IsCounted-append last h w e c)

-- One more write.
entered :
    (j k : Journal) (h : List BufferWrite) (w : BufferWrite)
    → k.writes ≡ j.writes ++ w ∷ []
    → k.base_sequence ≡ j.base_sequence
    → k.write_sequence ≡ suc j.write_sequence
    → w.sequence ≡ suc j.write_sequence
    → IsComplete j h
    → IsComplete k (h ++ w ∷ [])
entered j k h w e b s q c = record {
  kept =
      let last : keep_if (after k.base_sequence) (w ∷ []) ≡ w ∷ [] =
        ground (arith, b, q, c.based) in
      e
      ∙ ap (λ z. z ++ w ∷ []) (c.kept ∙ ap (λ n. keep_if (after n) h) (sym b))
      ∙ ap (λ z. keep_if (after k.base_sequence) h ++ z) (sym last)
      ∙ sym (keep_if-append (after k.base_sequence) h (w ∷ []));
  counted = rw s (IsCounted-append j.write_sequence h w q c.counted);
  based = omega (arith, b, s, c.based);
}

base_after-ge : (floor : Option ℕ) (sequence base : ℕ) → base ≤ base_after floor sequence base
unfolding base_after
base_after-ge none sequence base = omega arith
base_after-ge (some floor) sequence base = omega arith

base_after-le :
    (floor : Option ℕ) (sequence base last : ℕ)
    → sequence ≤ last
    → base ≤ last
    → base_after floor sequence base ≤ last
unfolding base_after
base_after-le none sequence base last h l = omega arith
base_after-le (some floor) sequence base last h l = omega arith

acknowledge-IsComplete :
    (pool : Option Pool) (version : Option PublishedVersion) (j : Journal) (h : List BufferWrite)
    → IsComplete j h
    → IsComplete (acknowledge pool version j) h
unfolding acknowledge trim_to
acknowledge-IsComplete pool none j h c = c
acknowledge-IsComplete pool (some version) j h c =
    if-cases (λ k. IsComplete k h) (is_stale version j) j _ (λ t. c)
      (λ t.
        let base = base_after (floor_of pool) version.write_sequence j.base_sequence in
        record {
          kept =
              ap (keep_if (after base)) c.kept
              ∙ keep_if-twice j.base_sequence base h
                  (base_after-ge (floor_of pool) version.write_sequence j.base_sequence);
          counted = c.counted;
          based =
              base_after-le (floor_of pool) version.write_sequence j.base_sequence j.write_sequence
                (ground (arith, t)) c.based;
        })

-- In every journal reached from a new one: its writes are, in their order, exactly those of its
-- history past its base; the history has every sequence up to the journal's own, one after another;
-- and the base is not past it.
pub Reached-IsComplete : (j : Journal) (h : List BufferWrite) → Reached j h → IsComplete j h
unfolding initialize append_write enter_write replace_image request_capacity
Reached-IsComplete j h (made stride) = record { kept = refl; counted = tt; based = omega arith }
Reached-IsComplete _ _ (initialized bytes count capacity j k h' e r) = record {
  kept = ground (arith, e);
  counted = tt;
  based = ground (arith, e);
}
Reached-IsComplete _ _ (appended offset bytes resulting j k h' e l r) =
    elim (Option-cases (refused_write offset bytes resulting j)) [
      | inr (fault, n) ↦ absurd (ground (arith, e, n))
      | inl n ↦
          entered j k h' _ (ground (arith, e, n)) (ground (arith, e, n)) (ground (arith, e, n, l))
            refl (Reached-IsComplete j h' r)
    ]
Reached-IsComplete _ _ (replaced bytes count capacity j k h' e l r) =
    entered j k h' _ (ground (arith, e, l)) (ground (arith, e)) (ground (arith, e, l)) refl
      (Reached-IsComplete j h' r)
Reached-IsComplete _ _ (widened capacity j h' w l r) =
    entered j _ h' _ (ground (arith, w, l)) (ground (arith, w)) (ground (arith, w, l)) refl
      (Reached-IsComplete j h' r)
Reached-IsComplete _ _ (acknowledged pool version j h r) =
    acknowledge-IsComplete pool version j h (Reached-IsComplete j h r)

All-lookup :
    (P : Backing → Type 0) (bs : List Backing) (g : ℕ) (b : Backing)
    → lookup g bs ≡ some b
    → All P bs
    → P b
unfolding lookup
All-lookup P [] g b f a = absurd cc
All-lookup P (c ∷ bs) g b f (h, a) = elim (Bool-cases (c.generation == g)) [
  | inl t ↦ subst P (ground (arith, f, t)) h
  | inr t ↦ All-lookup P bs g b (ground (arith, f, t)) a
]

base_after-reaches :
    (bs : List Backing) (floor : Option ℕ) (sequence base g : ℕ) (b : Backing)
    → IsOldest bs floor
    → lookup g bs ≡ some b
    → 1 ≤ b.content_epoch
    → base ≤ b.content_epoch
    → base_after floor sequence base ≤ b.content_epoch
unfolding base_after
base_after-reaches bs none sequence base g b o f n h =
    absurd (omega (arith, All-lookup (λ c. c.content_epoch ≡ 0) bs g b f o))
base_after-reaches bs (some e) sequence base g b (one, (here, all)) f n h =
    ground
      (arith, All-lookup (λ c. (c.content_epoch == 0 || leb e c.content_epoch) ≡ true) bs g b f all)

-- An acknowledgement never drops writes that a backing of the pool still needs: one that holds
-- contents past the base before still holds contents past the base after it.
pub acknowledge-reaches :
    (pool : Pool) (version : Option PublishedVersion) (j : Journal) (g : ℕ) (b : Backing)
    → lookup g pool.all ≡ some b
    → 1 ≤ b.content_epoch
    → j.base_sequence ≤ b.content_epoch
    → (acknowledge (some pool) version j).base_sequence ≤ b.content_epoch
unfolding acknowledge trim_to
acknowledge-reaches pool none j g b f n h = h
acknowledge-reaches pool (some version) j g b f n h =
    if-cases (λ k. k.base_sequence ≤ b.content_epoch) (is_stale version j) j _ (λ t. h)
      (λ t.
        base_after-reaches pool.all (oldest_content_epoch pool) version.write_sequence
          j.base_sequence g b (oldest_content_epoch-IsOldest pool) f n h)
