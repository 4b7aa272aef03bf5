-- ===== src/Versions/Intervals/Adding.antt =====
-- What the set of intervals holds after an `Add`.
use orgmodule_services.Common.{
  ℕ, ◌<◌, ◌≤◌, ◌≡◌, true, false, List, [], ◌∷◌, ltb, leb, max, ◌||◌, arith, if-cases, leb→le,
  leb→lt, ltb→lt, ltb→le,
}
use orgmodule_services.Versions.Intervals.{
  Interval, within, covers, starts_past, absorb, place, add,
}

-- The entries begin past a byte.
abbrev pub Beyond : ℕ → List Interval → Type 0
Beyond e [] = Unit {0}
Beyond e (i ∷ m) = e < i.begin

-- Nonempty entries in order, none touching the next.
abbrev pub IsApart : List Interval → Type 0
IsApart [] = Unit {0}
IsApart (i ∷ m) = (i.begin < i.end) × Beyond i.end m × IsApart m

pub covers-Beyond :
    (x e : ℕ) (m : List Interval) → x ≤ e → Beyond e m → IsApart m → covers x m ≡ false
unfolding covers within
covers-Beyond x e [] h b a = λ i. false
covers-Beyond x e (i ∷ m) h b (n, b', a) =
    ground (arith, covers-Beyond x i.end m (omega arith) b' a)

pub Beyond-weaken : (d e : ℕ) (m : List Interval) → d ≤ e → Beyond e m → Beyond d m
Beyond-weaken d e [] h b = tt
Beyond-weaken d e (i ∷ m) h b = omega arith

pub absorb-covers :
    (x b e : ℕ) (m : List Interval)
    → b < e
    → Beyond b m
    → IsApart m
    → covers x (absorb b e m) ≡ (within x b e || covers x m)
unfolding absorb covers within
absorb-covers x b e [] n h a = ground arith
absorb-covers x b e (i ∷ m) n h (n', b', a) = ground (
  arith,
  absorb-covers x b (max e i.end) m (omega arith) (Beyond-weaken b i.end m (omega arith) b') a,
)

absorb-Beyond : (b e d : ℕ) (m : List Interval) → d < b → Beyond d (absorb b e m)
unfolding absorb
absorb-Beyond b e d [] l = l
absorb-Beyond b e d (i ∷ m) l =
    if-cases (Beyond d) (leb i.begin e) _ _ (λ q. absorb-Beyond b (max e i.end) d m l) (λ q. l)

absorb-IsApart :
    (b e : ℕ) (m : List Interval) → b < e → Beyond b m → IsApart m → IsApart (absorb b e m)
unfolding absorb
absorb-IsApart b e [] n h a = (n, tt, tt)
absorb-IsApart b e (i ∷ m) n h (n', b', a) =
    if-cases IsApart (leb i.begin e) _ _
      (λ q.
        absorb-IsApart b (max e i.end) m (omega arith) (Beyond-weaken b i.end m (omega arith) b') a)
      (λ q. (n, leb→lt i.begin e q, (n', b', a)))

pub starts_past-Beyond : (b : ℕ) (m : List Interval) → starts_past b m ≡ true → Beyond b m
unfolding starts_past
starts_past-Beyond b [] h = tt
starts_past-Beyond b (i ∷ m) h = ltb→lt b i.begin h

pub within_empty : (x b e : ℕ) → e ≤ b → within x b e ≡ false
unfolding within
within_empty x b e h = ground arith

pub place-covers :
    (x b e : ℕ) (m : List Interval)
    → b < e
    → IsApart m
    → covers x (place b e m) ≡ (within x b e || covers x m)
unfolding place starts_past covers within
place-covers x b e [] n a = absorb-covers x b e [] n tt tt
place-covers x b e (i ∷ m) n (n', b', a) =
    if-cases (λ z. covers x z ≡ (within x b e || covers x (i ∷ m))) (ltb b i.begin)
      (absorb b e (i ∷ m)) _ (λ p. absorb-covers x b e (i ∷ m) n (ltb→lt b i.begin p) (n', b', a))
      (λ p.
        if-cases (λ z. covers x z ≡ (within x b e || covers x (i ∷ m))) (starts_past b m) _
          (i ∷ place b e m)
          (λ q.
            if-cases (λ z. covers x z ≡ (within x b e || covers x (i ∷ m))) (leb b i.end)
              (absorb i.begin (max e i.end) m) (i ∷ absorb b e m)
              (λ r. ground (
                arith,
                absorb-covers x i.begin (max e i.end) m (omega arith)
                    (Beyond-weaken i.begin i.end m (omega arith) b') a,
              ))
              (λ r. ground (arith, absorb-covers x b e m n (starts_past-Beyond b m q) a)))
          (λ q. ground (arith, place-covers x b e m n a)))

pub starts_past-lt : (b d : ℕ) (m : List Interval) → starts_past b m ≡ false → Beyond d m → d < b
unfolding starts_past
starts_past-lt b d [] h l = absurd cc
starts_past-lt b d (i ∷ m) h l = omega (arith, ltb→le b i.begin h)

place-Beyond : (b e d : ℕ) (m : List Interval) → d < b → Beyond d m → Beyond d (place b e m)
unfolding place absorb
place-Beyond b e d [] l h = l
place-Beyond b e d (i ∷ m) l h =
    if-cases (Beyond d) (ltb b i.begin) _ _ (λ p. absorb-Beyond b e d (i ∷ m) l)
      (λ p.
        if-cases (Beyond d) (starts_past b m) _ _
          (λ q.
            if-cases (Beyond d) (leb b i.end) _ _ (λ r. absorb-Beyond i.begin (max e i.end) d m h)
              (λ r. h))
          (λ q. h))

place-IsApart : (b e : ℕ) (m : List Interval) → b < e → IsApart m → IsApart (place b e m)
unfolding place absorb
place-IsApart b e [] n a = (n, tt, tt)
place-IsApart b e (i ∷ m) n (n', b', a) =
    if-cases IsApart (ltb b i.begin) _ _
      (λ p. absorb-IsApart b e (i ∷ m) n (ltb→lt b i.begin p) (n', b', a))
      (λ p.
        if-cases IsApart (starts_past b m) _ _
          (λ q.
            if-cases IsApart (leb b i.end) _ _
              (λ r.
                absorb-IsApart i.begin (max e i.end) m (omega arith)
                  (Beyond-weaken i.begin i.end m (omega arith) b') a)
              (λ r. (
                n',
                absorb-Beyond b e i.end m (leb→lt b i.end r),
                absorb-IsApart b e m n (starts_past-Beyond b m q) a,
              )))
          (λ q. (
            n',
            place-Beyond b e i.end m (starts_past-lt b i.end m q b') b',
            place-IsApart b e m n a,
          )))

-- `Add` keeps the entries nonempty, in order and apart, and they then cover exactly the bytes they
-- covered before and those of the added range.
pub add-covers :
    (b e : ℕ) (m : List Interval)
    → IsApart m
    → IsApart (add b e m) × ((x : ℕ) → covers x (add b e m) ≡ (within x b e || covers x m))
unfolding add
add-covers b e m a = (
  if-cases IsApart (leb e b) m (place b e m) (λ p. a) (λ p. place-IsApart b e m (leb→lt e b p) a),
  λ x.
      if-cases (λ z. covers x z ≡ (within x b e || covers x m)) (leb e b) m (place b e m)
        (λ p. rw (within_empty x b e (leb→le e b p)) (λ i. covers x m))
        (λ p. place-covers x b e m (leb→lt e b p) a),
)
