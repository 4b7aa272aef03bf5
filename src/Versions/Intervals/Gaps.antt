-- ===== src/Versions/Intervals/Gaps.antt =====
-- What `ForEachGap` emits.
use orgmodule_services.Common.{
  ℕ, ◌+◌, ◌<◌, ◌≤◌, ◌≡◌, Bool, false, not, List, [], ◌∷◌, ltb, leb, max, if◌then◌else◌, ◌&&◌, ◌||◌,
  arith, if-cases, leb→le, leb→lt, ltb→lt, ltb→le,
}
use orgmodule_services.Versions.Intervals.{
  Interval, within, covers, starts_past, walk, for_each_gap,
}
use orgmodule_services.Versions.Intervals.Adding.{IsApart, covers-Beyond, starts_past-lt}

-- How many of the ranges hold a byte.
unfoldable pub hits : ℕ → List Interval → ℕ
hits x [] = 0
hits x (i ∷ m) = (if within x i.begin i.end then 1 else 0) + hits x m

abbrev pub once_if : Bool → ℕ
once_if t = if t then 1 else 0

-- One round of the loop that passes an entry: the part of the range in front of it, and the rest.
module _ (x b e : ℕ) (i : Interval) (c : Bool) (n : ℕ)
    (h : n ≡ once_if (within x (max b i.end) e && not c)) where
  round_past :
      b < i.begin
      → i.begin < e
      → i.begin < i.end
      → (x ≤ i.end → c ≡ false)
      → (if within x b i.begin then 1 else 0) + n
        ≡ once_if (within x b e && not (within x i.begin i.end || c))
  unfolding within
  round_past l l' k f = ground arith

  round_inside : i.begin ≤ b → n ≡ once_if (within x b e && not (within x i.begin i.end || c))
  unfolding within
  round_inside l = ground arith

-- The round that ends the loop: the entries begin past the range.
last_round :
    (x b e : ℕ) (i : Interval) (c : Bool)
    → e ≤ i.begin
    → i.begin < i.end
    → (x ≤ i.end → c ≡ false)
    → (if within x b e then 1 else 0) + 0
      ≡ once_if (within x b e && not (within x i.begin i.end || c))
unfolding within
last_round x b e i c l k f = ground arith

walk-hits :
    (x b e : ℕ) (m : List Interval)
    → IsApart m
    → hits x (walk b e m) ≡ once_if (within x b e && not (covers x m))
unfolding walk hits covers within
walk-hits x b e [] a = ground arith
walk-hits x b e (i ∷ m) (n, l, a) =
    if-cases (λ z. hits x z ≡ once_if (within x b e && not (covers x (i ∷ m)))) (ltb b e) _ []
      (λ p.
        if-cases (λ z. hits x z ≡ once_if (within x b e && not (covers x (i ∷ m)))) (leb e i.begin)
          _ _
          (λ q.
            last_round x b e i (covers x m) (leb→le e i.begin q) n
              (λ h. covers-Beyond x i.end m h l a))
          (λ q.
            if-cases (λ z. hits x z ≡ once_if (within x b e && not (covers x (i ∷ m))))
              (ltb b i.begin) _ _
              (λ r.
                round_past x b e i (covers x m) _ (walk-hits x (max b i.end) e m a)
                  (ltb→lt b i.begin r) (leb→lt e i.begin q) n (λ h. covers-Beyond x i.end m h l a))
              (λ r.
                round_inside x b e i (covers x m) _ (walk-hits x (max b i.end) e m a)
                  (ltb→le b i.begin r))))
      (λ p. ground arith)

-- An entry that ends before the range takes nothing from it.
skipped :
    (x b e : ℕ) (i : Interval) (c : Bool) (n : ℕ)
    → n ≡ once_if (within x b e && not c)
    → i.end < b
    → n ≡ once_if (within x b e && not (within x i.begin i.end || c))
unfolding within
skipped x b e i c n h l = ground arith

-- `ForEachGap` emits ranges that hold each byte of [begin, end) outside the set once, and no other
-- byte.
pub for_each_gap-hits :
    (x b e : ℕ) (m : List Interval)
    → IsApart m
    → hits x (for_each_gap b e m) ≡ once_if (within x b e && not (covers x m))
unfolding for_each_gap covers
for_each_gap-hits x b e [] a = walk-hits x b e [] tt
for_each_gap-hits x b e (i ∷ m) (n, l, a) =
    if-cases (λ z. hits x z ≡ once_if (within x b e && not (covers x (i ∷ m)))) (ltb b i.begin) _ _
      (λ p. walk-hits x b e (i ∷ m) (n, l, a))
      (λ p.
        if-cases (λ z. hits x z ≡ once_if (within x b e && not (covers x (i ∷ m))))
          (starts_past b m) _ _
          (λ q.
            round_inside x b e i (covers x m) _ (walk-hits x (max b i.end) e m a)
              (ltb→le b i.begin p))
          (λ q.
            skipped x b e i (covers x m) _ (for_each_gap-hits x b e m a)
              (starts_past-lt b i.end m q l)))
