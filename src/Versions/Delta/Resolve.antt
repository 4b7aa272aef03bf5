-- ===== src/Versions/Delta/Resolve.antt =====
-- The delta with its overlaps resolved leaves what its writes leave in their order.
use orgmodule_services.Common.{
  ℕ, ◌+◌, ◌≤◌, ◌≡◌, ◌∙◌, Bool, false, List, [], ◌∷◌, ◌++◌, if◌then◌else◌, ◌||◌, arith,
}
use orgmodule_services.Versions.Intervals.{Interval, within, covers, add, for_each_gap}
use orgmodule_services.Versions.Intervals.Adding.{IsApart, add-covers}
use orgmodule_services.Versions.Intervals.Gaps.{once_if, for_each_gap-hits}
use orgmodule_services.Versions.Delta.{DeltaWrite, pieces, resolve, reversed, delta_uploads}
use orgmodule_services.Versions.Delta.Memory.{
  uploads_at, write_at, writes_at, latest_at, latest_at-reversed, uploads_at-append,
}
use orgmodule_services.Versions.Delta.Uploads.{
  upload_hits, upload_hits-append, sort_uploads-hits, sort_uploads-at,
}
use orgmodule_services.Versions.Delta.Pieces.{
  covers-hits, for_each_gap-from, pieces-hits, pieces-at,
}

-- Whether a write of the list writes a byte.
unfoldable pub is_written : ℕ → List DeltaWrite → Bool
is_written x [] = false
is_written x (w ∷ ws) = within x w.offset (w.offset + w.size) || is_written x ws

-- The bytes that are covered after a list of writes, the latest first.
resolve-covers :
    (x : ℕ) (ws : List DeltaWrite) (m : List Interval)
    → IsApart m
    → IsApart (resolve ws m).1 × (covers x (resolve ws m).1 ≡ (covers x m || is_written x ws))
unfolding resolve is_written
resolve-covers x [] m a = (a, ground arith)
resolve-covers x (w ∷ ws) m a =
    let (a', c) = add-covers w.offset (w.offset + w.size) m a in
    let (a'', c') = resolve-covers x ws (add w.offset (w.offset + w.size) m) a' in
    (a'', ground (arith, c x, c'))

-- No byte is written twice, and none that later writes cover.
resolve-hits :
    (x : ℕ) (ws : List DeltaWrite) (m : List Interval)
    → IsApart m
    → upload_hits x (resolve ws m).0 + once_if (covers x m) ≤ 1
unfolding resolve upload_hits
resolve-hits x [] m a = ground arith
resolve-hits x (w ∷ ws) m a =
    let b = w.offset in
    let e = w.offset + w.size in
    let (a', c) = add-covers b e m a in
    ground (
      arith,
      upload_hits-append x (pieces w (for_each_gap b e m)) (resolve ws (add b e m)).0,
      pieces-hits x w (for_each_gap b e m),
      for_each_gap-hits x b e m a,
      c x,
      resolve-hits x ws (add b e m) a',
    )

-- A byte that later writes cover stays, any other is what the latest write of the list leaves.
resolve-at :
    (x : ℕ) (ws : List DeltaWrite) (m : List Interval) (old : ℕ)
    → IsApart m
    → uploads_at x (resolve ws m).0 old ≡ (if covers x m then old else latest_at x ws old)
unfolding resolve uploads_at latest_at write_at
resolve-at x [] m old a = ground arith
resolve-at x (w ∷ ws) m old a =
    let b = w.offset in
    let e = w.offset + w.size in
    let gaps = for_each_gap b e m in
    let (a', c) = add-covers b e m a in
    ground (
      arith,
      uploads_at-append x (pieces w gaps) (resolve ws (add b e m)).0 old,
      pieces-at x w gaps old (for_each_gap-from b e m),
      covers-hits x gaps,
      for_each_gap-hits x b e m a,
      c x,
      resolve-at x ws (add b e m) (uploads_at x (pieces w gaps) old) a',
    )

is_written-append :
    (x : ℕ) (es : List DeltaWrite) (w : DeltaWrite)
    → is_written x (es ++ w ∷ []) ≡ (within x w.offset (w.offset + w.size) || is_written x es)
unfolding is_written
is_written-append x [] w = λ i. within x w.offset (w.offset + w.size) || false
is_written-append x (e ∷ es) w = ground (arith, is_written-append x es w)

is_written-reversed : (x : ℕ) (ws : List DeltaWrite) → is_written x (reversed ws) ≡ is_written x ws
unfolding is_written reversed
is_written-reversed x [] = λ i. false
is_written-reversed x (w ∷ ws) =
    ground (arith, is_written-append x (reversed ws) w, is_written-reversed x ws)

pub delta_uploads-covers :
    (x : ℕ) (ws : List DeltaWrite)
    → IsApart (delta_uploads ws).1 × (covers x (delta_uploads ws).1 ≡ is_written x ws)
unfolding delta_uploads covers
delta_uploads-covers x ws = (
  (resolve-covers x (reversed ws) [] tt).0,
  (resolve-covers x (reversed ws) [] tt).1 ∙ is_written-reversed x ws,
)

-- The uploads that a delta is resolved to write each byte at most once, and exactly the bytes of
-- the delta; in the order of their places they leave at every byte what the delta's writes leave
-- one after another, the later over the earlier.
pub delta_uploads-writes :
    (ws : List DeltaWrite) (x old : ℕ)
    → (upload_hits x (delta_uploads ws).0 ≤ 1)
      × (covers x (delta_uploads ws).1 ≡ is_written x ws)
      × (uploads_at x (delta_uploads ws).0 old ≡ writes_at x ws old)
unfolding delta_uploads covers
delta_uploads-writes ws x old = (
  omega (arith, sort_uploads-hits x (resolve (reversed ws) []).0, once),
  (delta_uploads-covers x ws).1,
  sort_uploads-at x (resolve (reversed ws) []).0 old once
      ∙ resolve-at x (reversed ws) [] old tt
      ∙ latest_at-reversed x ws old,
)
  where
    once : upload_hits x (resolve (reversed ws) []).0 ≤ 1
    once = omega (arith, resolve-hits x (reversed ws) [] tt)
