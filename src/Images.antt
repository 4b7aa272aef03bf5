-- ===== src/Images.antt =====
-- include/ORGModuleServices/BufferImage.h and src/BufferImage.cpp: the paged image of a buffer's
-- contents. A byte is a number; a page is never null, since what makes an image makes every page.
pub mod Flat
use orgmodule_services.Common.{
  ℕ, zero, suc, ◌+◌, ◌-◌, Bool, List, [], ◌∷◌, ◌++◌, length, take, drop, ltb, min, if◌then◌else◌,
  ◌==◌,
}

abbrev pub page_bytes : ℕ
page_bytes = 65536

pub record BufferImage : Type 0 where
  pub byte_size : ℕ
  pub pages : List (List ℕ)

-- The loop of `FromBytes` from an offset; each round makes a page, so the bytes bound the rounds.
unfoldable pub pages_from : ℕ → ℕ → List ℕ → List (List ℕ)
pages_from zero offset bytes = []
pages_from (suc fuel) offset bytes =
    let rest = pages_from fuel (offset + page_bytes) bytes in
    if ltb offset (length bytes)
    then take (min page_bytes (length bytes - offset)) (drop offset bytes) ∷ rest
    else []

unfoldable pub pages_of : List ℕ → List (List ℕ)
pages_of bytes = pages_from (length bytes) 0 bytes

unfoldable pub from_bytes : List ℕ → BufferImage
from_bytes bytes = record { byte_size = length bytes; pages = pages_of bytes }

abbrev pub from_pages : List (List ℕ) → ℕ → BufferImage
from_pages pages byte_size = record { byte_size = byte_size; pages = pages }

unfoldable pub zeros : ℕ → List ℕ
zeros zero = []
zeros (suc n) = 0 ∷ zeros n

-- The loop of `Materialize` over the pages, with the bytes left to fill.
unfoldable pub fill_from : List (List ℕ) → ℕ → List ℕ
fill_from [] left = zeros left
fill_from (page ∷ pages) left =
    let size = min (length page) left in
    if left == 0 then [] else take size page ++ fill_from pages (left - size)

unfoldable pub materialize : BufferImage → List ℕ
materialize image = fill_from image.pages image.byte_size
