-- ===== src/Versions/Choice/Fits.antt =====
-- The chosen class holds what the version asks for.
use native.Mathlib.Nat.{mul_assoc, pow-succ'}
use orgmodule_services.Common.{
  ℕ, zero, suc, ◌*◌, ◌^◌, ◌≡◌, ◌≤◌, ◌<◌, true, false, Option, none, some, ok, max, ltb, leb, arith,
  if-cases, ltb→le, Option-cases, Bool-cases, inl, inr, ◌&&◌, subst, >>=-ok,
}
use orgmodule_services.Growth.Policy.{next}
use orgmodule_services.Growth.Policy.Bounds.{next-ge}
use orgmodule_services.Growth.Window.{ShrinkWindow, observe, reset}
use orgmodule_services.Versions.Version.{patch, replace, PublishedVersion, BuildInput}
use orgmodule_services.Versions.Choice.{
  bit_ceil_from, required_of, replacement_capacity, ClassChoice, growth_of, capacity_of, window_of,
  has_resource, fresh_growth, keep_class, grown_class, choose_class,
}

bit_ceil_from-ge : (fuel power n : ℕ) → n ≤ power * 2 ^ fuel → n ≤ bit_ceil_from fuel power n
unfolding bit_ceil_from
bit_ceil_from-ge zero power n h = omega arith
bit_ceil_from-ge (suc fuel) power n h =
    if-cases (λ z. n ≤ z) (ltb power n) _ _
      (λ p.
        bit_ceil_from-ge fuel (power * 2) n
          (rw (mul_assoc power 2 (2 ^ fuel)) (rw (pow-succ' 2 fuel) at h)))
      (λ p. ltb→le power n p)

replacement_capacity-ge :
    (input : BuildInput) → input.capacity ≤ 2 ^ 63 → required_of input ≤ replacement_capacity input
unfolding replacement_capacity
replacement_capacity-ge input h =
    ground (arith, bit_ceil_from-ge 63 1 (required_of input) (omega arith))

-- What a choice promises: a class that holds the request, the predecessor's own for a patch, and a
-- smaller one where it says that memory is given back.
abbrev pub IsFit : BuildInput → ClassChoice → Type 0
IsFit input c =
    (input.capacity ≤ c.capacity_class)
    × (c.mode ≡ patch → c.capacity_class ≡ capacity_of input.previous)
    × (c.shrunk ≡ true → c.capacity_class < capacity_of input.previous)

keep_class-IsFit :
    (input : BuildInput) (previous : PublishedVersion) (seen : ShrinkWindow × Option ℕ)
    → input.previous ≡ some previous
    → input.capacity ≤ previous.capacity
    → IsFit input (keep_class (required_of input) previous seen)
unfolding keep_class
keep_class-IsFit input previous (window, none) e h = ground (arith, e)
keep_class-IsFit input previous (window, some target) e h =
    if-cases (IsFit input) (ltb (max target (required_of input)) previous.capacity) _ _
      (λ p. ground (arith, e)) (λ p. ground (arith, e))

grown_class-IsFit :
    (input : BuildInput) (c : ClassChoice)
    → input.capacity ≤ 2 ^ 63
    → grown_class input ≡ ok c
    → IsFit input c
unfolding grown_class
grown_class-IsFit input c h e = elim (Option-cases (growth_of input)) [
  | inl n ↦ ground (arith, e, n, replacement_capacity-ge input h)
  | inr (g, n) ↦
      let (class, r, same) =
        >>=-ok grown c (next g (capacity_of input.previous) (required_of input)) (rw n at e) in
      subst (IsFit input) same (
        ground (
          arith,
          next-ge g (capacity_of input.previous) (required_of input) class (ground arith) r,
        ))
]
  where
    grown : ℕ → ClassChoice
    grown class = record {
      mode = replace;
      capacity_class = class;
      window = reset (window_of input.previous);
      shrunk = false;
    }

-- Where ChooseClass returns, for a request of at most 2 ^ 63 elements: the class holds the
-- request; a patch keeps the predecessor's class; and a class that gives memory
-- back is below the predecessor's.
pub choose_class-IsFit :
    (now : ℕ) (input : BuildInput) (c : ClassChoice)
    → input.capacity ≤ 2 ^ 63
    → choose_class now input ≡ ok c
    → IsFit input c
unfolding choose_class
choose_class-IsFit now input c h e = elim (Option-cases input.previous) [
  | inl n ↦ grown_class-IsFit input c h (ground (arith, e, n))
  | inr (previous, n) ↦
      elim (Bool-cases (has_resource previous && leb input.capacity previous.capacity)) [
        | inl t ↦
            let (seen, r, same) =
              >>=-ok (keep_class (required_of input) previous) c
                (observe input.shrink (fresh_growth (growth_of input)) previous.capacity
                  (required_of input) now previous.shrink_window)
                (rw t at (rw n at e)) in
            subst (IsFit input) same (keep_class-IsFit input previous seen n (ground (arith, t)))
        | inr f ↦ grown_class-IsFit input c h (ground (arith, e, n, f))
      ]
]
