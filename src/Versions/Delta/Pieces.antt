-- ===== src/Versions/Delta/Pieces.antt =====
-- The uploads of one write: its parts in the gaps that later writes leave.
use orgmodule_services.Common.{
  ℕ, ◌-◌, ◌≤◌, ◌≡◌, ◌∙◌, Bool, false, List, [], ◌∷◌, ltb, leb, max, if◌then◌else◌, ◌||◌, arith,
  if-cases, All,
}
use orgmodule_services.Versions.Intervals.{
  Interval, within, covers, for_each_gap, walk, starts_past,
}
use orgmodule_services.Versions.Intervals.Gaps.{hits}
use orgmodule_services.Versions.Delta.{DeltaWrite, piece, pieces}
use orgmodule_services.Versions.Delta.Memory.{upload_at, uploads_at}
use orgmodule_services.Versions.Delta.Uploads.{upload_hits}

-- The pieces of a write.
pub covers-hits : (x : ℕ) (m : List Interval) → covers x m ≡ leb 1 (hits x m)
unfolding covers hits
covers-hits x [] = λ i. false
covers-hits x (i ∷ m) = ground (arith, covers-hits x m)

walk-from : (lo b e : ℕ) (m : List Interval) → lo ≤ b → All (λ g. lo ≤ g.begin) (walk b e m)
unfolding walk
walk-from lo b e [] h = if-cases (All (λ g. lo ≤ g.begin)) (ltb b e) _ _ (λ p. (h, tt)) (λ p. tt)
walk-from lo b e (i ∷ m) h =
    if-cases (All (λ g. lo ≤ g.begin)) (ltb b e) _ []
      (λ p.
        if-cases (All (λ g. lo ≤ g.begin)) (leb e i.begin) _ _ (λ q. (h, tt))
          (λ q.
            if-cases (All (λ g. lo ≤ g.begin)) (ltb b i.begin) _ _
              (λ r. (h, walk-from lo (max b i.end) e m (omega arith)))
              (λ r. walk-from lo (max b i.end) e m (omega arith))))
      (λ p. tt)

pub for_each_gap-from : (b e : ℕ) (m : List Interval) → All (λ g. b ≤ g.begin) (for_each_gap b e m)
unfolding for_each_gap
for_each_gap-from b e [] = walk-from b b e [] (omega arith)
for_each_gap-from b e (i ∷ m) =
    if-cases (All (λ g. b ≤ g.begin)) (ltb b i.begin) _ _
      (λ p. walk-from b b e (i ∷ m) (omega arith))
      (λ p.
        if-cases (All (λ g. b ≤ g.begin)) (starts_past b m) _ _
          (λ q. walk-from b (max b i.end) e m (omega arith)) (λ q. for_each_gap-from b e m))

pub pieces-hits :
    (x : ℕ) (w : DeltaWrite) (gaps : List Interval) → upload_hits x (pieces w gaps) ≡ hits x gaps
unfolding upload_hits pieces piece hits within
pieces-hits x w [] = λ i. 0
pieces-hits x w (g ∷ gaps) = ground (arith, pieces-hits x w gaps)

piece-at :
    (x : ℕ) (w : DeltaWrite) (g : Interval) (c : Bool) (old : ℕ)
    → w.offset ≤ g.begin
    → (if c then w.bytes_of (x - w.offset) else upload_at x (piece w g) old)
      ≡ (if within x g.begin g.end || c then w.bytes_of (x - w.offset) else old)
unfolding upload_at piece within
piece-at x w g c old l = ground arith

pub pieces-at :
    (x : ℕ) (w : DeltaWrite) (gaps : List Interval) (old : ℕ)
    → All (λ g. w.offset ≤ g.begin) gaps
    → uploads_at x (pieces w gaps) old ≡ (if covers x gaps then w.bytes_of (x - w.offset) else old)
unfolding uploads_at pieces covers
pieces-at x w [] old h = λ i. old
pieces-at x w (g ∷ gaps) old (l, h) =
    pieces-at x w gaps (upload_at x (piece w g) old) h ∙ piece-at x w g (covers x gaps) old l
