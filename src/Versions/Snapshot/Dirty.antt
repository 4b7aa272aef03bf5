-- ===== src/Versions/Snapshot/Dirty.antt =====
-- What a build from an image uploads holds every byte that the backing lacks.
use orgmodule_services.Common.{
  ℕ, ◌+◌, ◌≡◌, ◌≤◌, ◌<◌, Bool, true, false, not, ◌&&◌, ◌||◌, Option, none, some, ◌≢◌, List, [], ◌∷◌,
  leb,
}
use orgmodule_services.BackingPool.Backing.{Backing}
use orgmodule_services.Images.{BufferImage}
use orgmodule_services.Versions.Intervals.{within}
use orgmodule_services.Versions.Delta.{ByteRange}
use orgmodule_services.Versions.Version.{BufferWrite, BuildInput}

-- Whether a write past a position writes a byte.
unfoldable pub is_changed : ℕ → ℕ → List BufferWrite → Bool
is_changed x held [] = false
is_changed x held (w ∷ ws) =
    (not (leb w.sequence held) && within x w.byte_offset (w.byte_offset + w.byte_size))
    || is_changed x held ws

-- Ranges in the order of their offsets, none before a place.
abbrev IsSorted : ℕ → List ByteRange → Type 0
IsSorted lo [] = Unit {0}
IsSorted lo (r ∷ rs) = (lo ≤ r.offset) × IsSorted r.offset rs

-- Why a backing may lack a byte of the image: a write past its epoch changed it; or nothing of what the
-- backing holds is known to be the image's, as it is new, or the input has no image of its own, or
-- the backing holds nothing, or an epoch that the journal does not go back to or has not come to, or
-- no image, or one of another size.
pub data IsLacking (input : BuildInput) (allocated : Bool) (b : Backing) (held : Option BufferImage)
    (image : BufferImage) (x : ℕ) : Type 0 where
  rewritten :
      is_changed x b.content_epoch input.writes ≡ true → IsLacking input allocated b held image x
  new_backing : allocated ≡ true → IsLacking input allocated b held image x
  no_own_image : input.image ≡ none → IsLacking input allocated b held image x
  no_contents : b.content_epoch ≡ 0 → IsLacking input allocated b held image x
  trimmed : b.content_epoch < input.journal_base_sequence → IsLacking input allocated b held image x
  ahead : input.write_sequence < b.content_epoch → IsLacking input allocated b held image x
  no_held_image : held ≡ none → IsLacking input allocated b held image x
  resized :
      (last : BufferImage)
      → held ≡ some last
      → last.byte_size ≢ image.byte_size
      → IsLacking input allocated b held image x
