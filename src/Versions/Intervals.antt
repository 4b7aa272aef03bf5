-- ===== src/Versions/Intervals.antt =====
-- `ByteIntervals` of src/VersionedBufferBuild.cpp: disjoint byte intervals [begin, end) in the order of
-- their begins, as the map's entries. `upper_bound(begin)` splits the entries at the first whose
-- begin is past `begin`; the entry before it is the last one at or below.
pub mod Adding
pub mod Gaps
use orgmodule_services.Common.{
  ℕ, ◌<◌, Bool, true, false, List, [], ◌∷◌, ltb, leb, max, if◌then◌else◌, ◌&&◌, ◌||◌,
}

pub record Interval : Type 0 where
  pub begin : ℕ
  pub end : ℕ

-- Whether a byte lies in an interval, and in one of a list.
unfoldable pub within : ℕ → ℕ → ℕ → Bool
within x b e = leb b x && ltb x e

unfoldable pub covers : ℕ → List Interval → Bool
covers x [] = false
covers x (i ∷ m) = within x i.begin i.end || covers x m

-- Whether the first entry is past `begin`, so that the entry before it is the one `std::prev` gives.
unfoldable pub starts_past : ℕ → List Interval → Bool
starts_past b [] = true
starts_past b (i ∷ m) = ltb b i.begin

-- The loop that takes over every entry that begins at or below the end, and the `emplace`.
unfoldable pub absorb : ℕ → ℕ → List Interval → List Interval
absorb b e [] = record { begin = b; end = e } ∷ []
absorb b e (i ∷ m) =
    let rest = absorb b (max e i.end) m in
    if leb i.begin e then rest else record { begin = b; end = e } ∷ i ∷ m

-- The entry before the split is taken over when it reaches `begin`.
unfoldable pub place : ℕ → ℕ → List Interval → List Interval
place b e [] = absorb b e []
place b e (i ∷ m) =
    let rest = place b e m in
    if ltb b i.begin
    then absorb b e (i ∷ m)
    else (if starts_past b m
        then (if leb b i.end then absorb i.begin (max e i.end) m else i ∷ absorb b e m)
        else i ∷ rest)

unfoldable pub add : ℕ → ℕ → List Interval → List Interval
add b e m = if leb e b then m else place b e m

-- The loop of `ForEachGap`: the parts of [begin, end) outside the entries from the split on.
unfoldable pub walk : ℕ → ℕ → List Interval → List Interval
walk b e [] = if ltb b e then record { begin = b; end = e } ∷ [] else []
walk b e (i ∷ m) =
    let rest = walk (max b i.end) e m in
    if ltb b e
    then (if leb e i.begin
        then record { begin = b; end = e } ∷ []
        else (if ltb b i.begin then record { begin = b; end = i.begin } ∷ rest else rest))
    else []

unfoldable pub for_each_gap : ℕ → ℕ → List Interval → List Interval
for_each_gap b e [] = walk b e []
for_each_gap b e (i ∷ m) =
    let rest = for_each_gap b e m in
    if ltb b i.begin
    then walk b e (i ∷ m)
    else (if starts_past b m then walk (max b i.end) e m else rest)
