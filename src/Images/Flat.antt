-- ===== src/Images/Flat.antt =====
-- The contents of an image as one run of bytes.
use orgmodule_services.Common.{
  ℕ, zero, suc, ◌+◌, ◌-◌, ◌≤◌, ◌<◌, ◌≡◌, ◌∙◌, ap, sym, subst, List, [], ◌∷◌, ◌++◌, length, take,
  drop, ltb, min, if◌then◌else◌, ◌==◌, arith, if-cases, ltb→lt, Bool-cases, leb, leb→le, leb→lt,
  inl, inr, ltb→le,
}
use orgmodule_services.Images.{
  page_bytes, pages_from, pages_of, from_bytes, zeros, fill_from, materialize,
}

length-drop : (n : ℕ) (xs : List ℕ) → length (drop n xs) ≡ length xs - n
length-drop zero xs = omega arith
length-drop (suc n) [] = omega arith
length-drop (suc n) (x ∷ xs) = omega (arith, length-drop n xs)

pub length-take : (n : ℕ) (xs : List ℕ) → length (take n xs) ≡ min n (length xs)
length-take zero xs = omega arith
length-take (suc n) [] = omega arith
length-take (suc n) (x ∷ xs) = omega (arith, length-take n xs)

take-whole : (n : ℕ) (xs : List ℕ) → length xs ≤ n → take n xs ≡ xs
take-whole zero [] h = λ i. []
take-whole zero (x ∷ xs) h = absurd (omega arith)
take-whole (suc n) [] h = λ i. []
take-whole (suc n) (x ∷ xs) h = ap (λ z. x ∷ z) (take-whole n xs (omega arith))

take-drop : (n : ℕ) (xs : List ℕ) → take n xs ++ drop n xs ≡ xs
take-drop zero xs = λ i. xs
take-drop (suc n) [] = λ i. []
take-drop (suc n) (x ∷ xs) = ap (λ z. x ∷ z) (take-drop n xs)

drop-nil : (n : ℕ) → drop {A = ℕ} n [] ≡ []
drop-nil zero = λ i. []
drop-nil (suc n) = λ i. []

drop-drop : (m n : ℕ) (xs : List ℕ) → drop m (drop n xs) ≡ drop (n + m) xs
drop-drop m zero xs = let same : 0 + m ≡ m = omega arith in rw same (λ i. drop m xs)
drop-drop m (suc n) [] = drop-nil m ∙ sym (drop-nil (suc n + m))
drop-drop m (suc n) (x ∷ xs) =
    let next : suc n + m ≡ suc (n + m) = omega arith in rw next (drop-drop m n xs)

drop-past : (n : ℕ) (xs : List ℕ) → length xs ≤ n → drop n xs ≡ []
drop-past zero [] h = λ i. []
drop-past zero (x ∷ xs) h = absurd (omega arith)
drop-past (suc n) [] h = λ i. []
drop-past (suc n) (x ∷ xs) h = drop-past n xs (omega arith)

append-nil : (xs : List ℕ) → xs ++ [] ≡ xs
append-nil [] = λ i. []
append-nil (x ∷ xs) = ap (λ z. x ∷ z) (append-nil xs)

-- A page of the bytes that are left, and what follows it.
page-rest : (page : ℕ) (d : List ℕ) → take (min page (length d)) d ++ drop page d ≡ d
page-rest page d = elim (Bool-cases (leb page (length d))) [
  | inl p ↦
      let all : min page (length d) ≡ page = omega (arith, leb→le page (length d) p) in
      rw all (take-drop page d)
  | inr p ↦
      let all : min page (length d) ≡ length d = omega (arith, leb→lt page (length d) p) in
      rw (all, drop-past page d (omega (arith, leb→lt page (length d) p)))
        (append-nil (take (length d) d) ∙ take-whole (length d) d (omega arith))
]

-- One round of `Materialize`.
fill-round :
    (page left : ℕ) (d : List ℕ) (next : ℕ → List ℕ)
    → length d ≡ left
    → 0 < left
    → next (left - page) ≡ drop page d
    → (if left == 0
        then []
        else take (min (length (take (min page left) d)) left) (take (min page left) d)
          ++ next (left - min (length (take (min page left) d)) left))
      ≡ d
fill-round page left d next l h n =
    let size : min (length (take (min page left) d)) left ≡ min page left =
      omega (arith, length-take (min page left) d) in
    let after : left - min page left ≡ left - page = omega arith in
    let whole : take (min page left) (take (min page left) d) ≡ take (min page left) d =
      take-whole (min page left) (take (min page left) d)
        (omega (arith, length-take (min page left) d)) in
    let given : min page left ≡ min page (length d) = omega (arith, l) in
    if-cases (λ z. z ≡ d) (left == 0) [] _ (λ p. absurd (ground arith))
      (λ p. rw (size, after, whole, n, given) (page-rest page d))

next_page :
    (fuel offset : ℕ) (bytes : List ℕ)
    → fill_from (pages_from fuel (offset + page_bytes) bytes) (length bytes - (offset + page_bytes))
      ≡ drop (offset + page_bytes) bytes
    → fill_from (pages_from fuel (offset + page_bytes) bytes) (length bytes - offset - page_bytes)
      ≡ drop page_bytes (drop offset bytes)
next_page fuel offset bytes h =
    let left : length bytes - offset - page_bytes ≡ length bytes - (offset + page_bytes) =
      omega arith in
    rw left (h ∙ sym (drop-drop page_bytes offset bytes))

fill_from-pages_from :
    (fuel offset : ℕ) (bytes : List ℕ)
    → length bytes ≤ offset + fuel
    → fill_from (pages_from fuel offset bytes) (length bytes - offset) ≡ drop offset bytes
unfolding fill_from pages_from zeros
fill_from-pages_from zero offset bytes h =
    let past : length bytes - offset ≡ 0 = omega arith in
    rw past (sym (drop-past offset bytes (omega arith)))
fill_from-pages_from (suc fuel) offset bytes h =
    if-cases (λ z. fill_from z (length bytes - offset) ≡ drop offset bytes)
      (ltb offset (length bytes)) _ _
      (λ p.
        fill-round page_bytes (length bytes - offset) (drop offset bytes)
          (fill_from (pages_from fuel (offset + page_bytes) bytes)) (length-drop offset bytes)
          (omega (arith, ltb→lt offset (length bytes) p))
          (next_page fuel offset bytes
            (fill_from-pages_from fuel (offset + page_bytes) bytes (omega arith))))
      (λ p.
        let past : length bytes - offset ≡ 0 = omega (arith, ltb→le offset (length bytes) p) in
        rw past (sym (drop-past offset bytes (omega (arith, ltb→le offset (length bytes) p)))))

-- `Materialize` gives back the bytes that `FromBytes` made an image of.
pub materialize-from_bytes : (bytes : List ℕ) → materialize (from_bytes bytes) ≡ bytes
unfolding materialize from_bytes pages_of
materialize-from_bytes bytes =
    let all : length bytes - 0 ≡ length bytes = omega arith in
    subst (λ n. fill_from (pages_from (length bytes) 0 bytes) n ≡ bytes) all
      (fill_from-pages_from (length bytes) 0 bytes (omega arith))
