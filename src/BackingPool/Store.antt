-- ===== src/BackingPool/Store.antt =====
-- The pool's vectors: backings found by their generation, and lists of generations.
use mathlib.Core.Option
use orgmodule_services.Common.{
  ℕ, ◌+◌, ◌≡◌, ap, Bool, true, false, Option, none, some, ◌==◌, if◌then◌else◌, List, [], ◌∷◌, ◌++◌,
  arith, keep_if, Bool-cases, inl, inr,
}
use orgmodule_services.BackingPool.Backing.{Backing}

-- The first backing of a generation.
unfoldable pub lookup : ℕ → List Backing → Option Backing
lookup g [] = none
lookup g (b ∷ bs) = if b.generation == g then some b else lookup g bs

-- A write to a backing; `f` keeps the generation.
unfoldable pub modify : ℕ → (Backing → Backing) → List Backing → List Backing
modify h f [] = []
modify h f (b ∷ bs) = (if b.generation == h then f b else b) ∷ modify h f bs

unfoldable pub remove : ℕ → List Backing → List Backing
remove h [] = []
remove h (b ∷ bs) = let rest = remove h bs in if b.generation == h then rest else b ∷ rest

unfoldable pub erase : ℕ → List ℕ → List ℕ
erase h [] = []
erase h (g ∷ gs) = let rest = erase h gs in if g == h then rest else g ∷ rest

-- How often a generation occurs.
abbrev pub occ : ℕ → List ℕ → ℕ
occ g [] = 0
occ g (h ∷ hs) = (if h == g then 1 else 0) + occ g hs

abbrev pub is_known : List Backing → ℕ → Bool
is_known all g = elim (lookup g all) [ none ↦ false | some b ↦ true ]

pub lookup-modify :
    (g h : ℕ) (f : Backing → Backing) (bs : List Backing)
    → ((b : Backing) → (f b).generation ≡ b.generation)
    → lookup g (modify h f bs) ≡ (if h == g then Option.map f (lookup g bs) else lookup g bs)
unfolding lookup modify
lookup-modify g h f [] k = ground arith
lookup-modify g h f (b ∷ bs) k = ground (arith, k b, lookup-modify g h f bs k)

pub lookup-remove :
    (g h : ℕ) (bs : List Backing) → lookup g (remove h bs) ≡ (if h == g then none else lookup g bs)
unfolding lookup remove
lookup-remove g h [] = ground arith
lookup-remove g h (b ∷ bs) = ground (arith, lookup-remove g h bs)

pub lookup-append :
    (g : ℕ) (bs : List Backing) (c : Backing)
    → lookup g (bs ++ c ∷ [])
      ≡ elim (lookup g bs) [ some b ↦ some b | none ↦ if c.generation == g then some c else none ]
unfolding lookup
lookup-append g [] c = ground arith
lookup-append g (b ∷ bs) c = ground (arith, lookup-append g bs c)

pub occ-append : (g : ℕ) (xs ys : List ℕ) → occ g (xs ++ ys) ≡ occ g xs + occ g ys
occ-append g [] ys = omega arith
occ-append g (x ∷ xs) ys = omega (arith, occ-append g xs ys)

pub occ-erase : (g h : ℕ) (xs : List ℕ) → occ g (erase h xs) ≡ (if h == g then 0 else occ g xs)
unfolding erase
occ-erase g h [] = ground arith
occ-erase g h (x ∷ xs) = ground (arith, occ-erase g h xs)

pub occ-keep_if :
    (g : ℕ) (p : ℕ → Bool) (xs : List ℕ) → occ g (keep_if p xs) ≡ (if p g then occ g xs else 0)
occ-keep_if g p [] = ground arith
occ-keep_if g p (x ∷ xs) = elim (Bool-cases (x == g)) [
  | inl e ↦ let same : x ≡ g = ground arith in ground (arith, occ-keep_if g p xs, ap p same)
  | inr e ↦ ground (arith, occ-keep_if g p xs)
]
