-- ===== src/Growth/Policy/Bounds.antt =====
-- What a growth policy returns: enough, and no more than it promises.
use native.Mathlib.Nat.{mul_assoc, pow-succ'}
use orgmodule_services.Common.{
  refl, ℕ, zero, suc, ◌+◌, ◌-◌, ◌*◌, ◌/◌, ◌^◌, ◌≤◌, ◌<◌, ◌≡◌, ◌⊎◌, inl, inr, false, Result, ok, err,
  Fault, length_error, ltb, leb, ◌==◌, if◌then◌else◌, u64, u64_mod, u64_max, max, arith, Bool-cases,
}
use orgmodule_services.Growth.Policy.{
  Kind, doubling, headroom, GrowthPolicy, double_until, extra_of, grow, next,
}

-- A result that satisfies `P`, or the length error where `E` holds; no other fault.
abbrev pub Grown : (ℕ → Type 0) → Type 0 → Result ℕ → Type 0
Grown P E (ok c) = P c
Grown P E (err length_error) = E
Grown P E (err _) = ⊥

Grown-map :
    (P Q : ℕ → Type 0) (E F : Type 0) (r : Result ℕ)
    → ((c : ℕ) → P c → Q c)
    → (E → F)
    → Grown P E r
    → Grown Q F r
Grown-map P Q E F (ok c) f g h = f c h
Grown-map P Q E F (err Fault.length_error) f g h = g h
Grown-map P Q E F (err Fault.invalid_argument) f g h = absurd h
Grown-map P Q E F (err Fault.out_of_range) f g h = absurd h
Grown-map P Q E F (err Fault.logic_error) f g h = absurd h
Grown-map P Q E F (err Fault.runtime_error) f g h = absurd h
Grown-map P Q E F (err Fault.no_fuel) f g h = absurd h

-- A capacity that holds the need, and is the first one or below twice the need.
abbrev IsLeast : ℕ → ℕ → ℕ → Type 0
IsLeast capacity needed c =
    (needed ≤ c) × (capacity ≤ c) × (c < u64_mod) × ((c ≡ capacity) ⊎ (c < needed * 2))

double-step :
    (fuel capacity needed : ℕ)
    → capacity < 2 ^ 63
    → needed ≤ capacity * 2 ^ suc fuel
    → needed ≤ u64 (capacity * 2) * 2 ^ fuel
double-step fuel capacity needed small n =
    let kept : u64 (capacity * 2) ≡ capacity * 2 = omega arith in
    rw (kept, mul_assoc capacity 2 (2 ^ fuel)) (rw (pow-succ' 2 fuel) at n)

double_until_lem :
    (fuel capacity needed : ℕ)
    → 0 < capacity
    → capacity < u64_mod
    → needed ≤ capacity * 2 ^ fuel
    → Grown (IsLeast capacity needed) (2 ^ 63 < needed) (double_until fuel capacity needed)
unfolding double_until
double_until_lem zero capacity needed pos small n = elim (Bool-cases (ltb capacity needed)) [
  | inl less ↦ absurd (ground arith)
  | inr enough ↦ rw (enough, double_until) (ground arith, omega arith, small, inl refl)
]
double_until_lem (suc fuel) capacity needed pos small n = elim (Bool-cases (ltb capacity needed)) [
  | inr enough ↦ rw (enough, double_until) (ground arith, omega arith, small, inl refl)
  | inl less ↦ elim (Bool-cases (ltb (u64_max / 2) capacity)) [
    | inl large ↦ rw (less, double_until) (rw large (ground arith))
    | inr room ↦
        rw (less, double_until)
          (rw room (
            Grown-map (IsLeast (u64 (capacity * 2)) needed) (IsLeast capacity needed)
              (2 ^ 63 < needed) (2 ^ 63 < needed) (double_until fuel (u64 (capacity * 2)) needed)
              (λ c (n', k, s, w). (n', ground arith, s, inr (ground arith))) (λ h. h)
              (double_until_lem fuel (u64 (capacity * 2)) needed (ground arith) (ground arith)
                (double-step fuel capacity needed (ground arith) n))))
  ]
]

-- The capacity that `Next` starts from.
abbrev pub start : GrowthPolicy → ℕ → ℕ
start policy current = max current policy.minimum

start_lem : (m c : ℕ) → (if ltb m c then c else m) ≡ max c m
start_lem m c = ground arith

-- For a Doubling policy and 64-bit numbers: the result holds the need, the current capacity and the
-- minimum, and is the larger of the last two or below twice the need; the length error is thrown
-- only for needs past 2 ^ 63, and nothing else is.
pub next-doubling :
    (policy : GrowthPolicy) (current needed : ℕ)
    → policy.kind ≡ doubling
    → policy.minimum < u64_mod
    → current < u64_mod
    → needed < u64_mod
    → Grown
        (λ c.
          (needed ≤ c)
          × (current ≤ c)
          × (policy.minimum ≤ c)
          × (c < u64_mod)
          × ((c ≡ start policy current) ⊎ (c < needed * 2)))
        (2 ^ 63 < needed)
        (next policy current needed)
unfolding next grow
next-doubling policy current needed k m c n =
    rw (start_lem policy.minimum current, next)
      (elim (Bool-cases (leb needed (start policy current))) [
        | inl enough ↦ rw enough (ground arith, omega arith, omega arith, omega arith, inl refl)
        | inr short ↦ rw short (
            rw k (
              Grown-map (IsLeast first needed) _ (2 ^ 63 < needed) (2 ^ 63 < needed)
                (double_until 64 first needed)
                (λ x (n', f, s, w). (n', ground arith, ground arith, s, ground (arith, w))) (λ h. h)
                (double_until_lem 64 first needed (ground arith) (ground arith) (ground arith))))
      ])
  where
    first : ℕ
    first = if start policy current == 0 then 1 else start policy current

double_until-ge :
    (fuel capacity needed c : ℕ) → double_until fuel capacity needed ≡ ok c → needed ≤ c
unfolding double_until
double_until-ge zero capacity needed c h = ground arith
double_until-ge (suc fuel) capacity needed c h =
    ground (arith, double_until-ge fuel (u64 (capacity * 2)) needed c)

grow-ge :
    (k : Kind) (percent minimum capacity needed c : ℕ)
    → needed < u64_mod
    → grow k percent minimum capacity needed ≡ ok c
    → needed ≤ c
unfolding grow
grow-ge doubling percent minimum capacity needed c n h =
    double_until-ge 64 (if capacity == 0 then 1 else capacity) needed c h
grow-ge headroom percent minimum capacity needed c n h = ground arith

-- No policy returns a capacity below a 64-bit need.
pub next-ge :
    (policy : GrowthPolicy) (current needed c : ℕ)
    → needed < u64_mod
    → next policy current needed ≡ ok c
    → needed ≤ c
unfolding next
next-ge policy current needed c n h = ground (
  arith,
  grow-ge policy.kind policy.percent policy.minimum
      (if ltb policy.minimum current then current else policy.minimum) needed c n,
)

-- Where a Headroom policy's percentage of the need passes 64 bits, and the wrapped headroom fits
-- beside the need, `Next` throws nothing and returns a capacity below the need plus its percentage.
pub next-headroom_wraps :
    (policy : GrowthPolicy) (current needed : ℕ)
    → policy.kind ≡ headroom
    → policy.minimum < u64_mod
    → needed < u64_mod
    → start policy current < needed
    → u64_max < needed * policy.percent / 100
    → extra_of policy.percent needed ≤ u64_max - needed
    → (c : ℕ) × (next policy current needed ≡ ok c) × (c < needed + needed * policy.percent / 100)
unfolding next grow
next-headroom_wraps policy current needed k m n short big fits = (
  if ltb policy.minimum (u64 (needed + extra_of policy.percent needed))
      then u64 (needed + extra_of policy.percent needed)
      else policy.minimum,
  rw (start_lem policy.minimum current, next) (rw (le-leb short) (rw k (rw (fits-ltb fits) refl))),
  ground (arith, short, big, fits),
)
  where
    le-leb : {a b : ℕ} → a < b → leb b a ≡ false
    le-leb h = ground arith

    fits-ltb : {a b : ℕ} → a ≤ b → ltb b a ≡ false
    fits-ltb h = ground arith
