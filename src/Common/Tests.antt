-- ===== src/Common/Tests.antt =====
-- Tests of numbers, machine integers, and the results of calls that may throw.
use mathlib.Core.Path.{◌≡◌, refl}
use mathlib.Core.Logic.{◌⊎◌, inl, inr}
use mathlib.Core.Bool.{Bool, true, false}
use mathlib.Core.Option.{Option, none, some}
use native.Mathlib.Omega.{arith}
use Prim.Native.Nat.{ℕ, ◌^◌, ◌%◌, ◌≤◌, ◌<◌, compare, lt, eq, gt}

abbrev pub ltb : ℕ → ℕ → Bool
ltb a b = elim (compare a b) [ lt ↦ true | eq ↦ false | gt ↦ false ]

abbrev pub leb : ℕ → ℕ → Bool
leb a b = elim (compare a b) [ lt ↦ true | eq ↦ true | gt ↦ false ]

infix 50 ◌==◌
abbrev pub ◌==◌ : ℕ → ℕ → Bool
a == b = elim (compare a b) [ lt ↦ false | eq ↦ true | gt ↦ false ]

infix 1 if◌then◌else◌
abbrev pub if◌then◌else◌ {ℓ} : {A : Type ℓ} → Bool → A → A → A
if true then x else y = x
if false then x else y = y

pub ltb→lt : (a b : ℕ) → ltb a b ≡ true → a < b
ltb→lt a b h = ground arith

pub ltb→le : (a b : ℕ) → ltb a b ≡ false → b ≤ a
ltb→le a b h = ground arith

pub leb→le : (a b : ℕ) → leb a b ≡ true → a ≤ b
leb→le a b h = ground arith

pub leb→lt : (a b : ℕ) → leb a b ≡ false → b < a
leb→lt a b h = ground arith

pub Bool-cases : (b : Bool) → (b ≡ true) ⊎ (b ≡ false)
Bool-cases true = inl refl
Bool-cases false = inr refl

pub Option-cases {ℓ} : {A : Type ℓ} (o : Option A) → (o ≡ none) ⊎ ((a : A) × (o ≡ some a))
Option-cases none = inl refl
Option-cases (some a) = inr (a, refl)

-- A property of a conditional holds when it holds of each branch under its test.
pub if-cases {ℓ κ} :
    {A : Type ℓ} (P : A → Type κ) (c : Bool) (x y : A)
    → (c ≡ true → P x)
    → (c ≡ false → P y)
    → P (if c then x else y)
if-cases P true x y f g = f refl
if-cases P false x y f g = g refl

-- The same for what is done with an optional value.
pub some-cases {ℓ κ μ} :
    {A : Type ℓ} {B : Type κ} (P : B → Type μ) (o : Option A) (y : B) (f : A → B)
    → P y
    → ((a : A) → o ≡ some a → P (f a))
    → P (elim o [ none ↦ y | some a ↦ f a ])
some-cases P none y f g h = g
some-cases P (some a) y f g h = h a refl

-- The same, where the first branch needs its equation too.
pub elim-cases {ℓ κ μ} :
    {A : Type ℓ} {B : Type κ} (P : B → Type μ) (o : Option A) (y : B) (f : A → B)
    → (o ≡ none → P y)
    → ((a : A) → o ≡ some a → P (f a))
    → P (elim o [ none ↦ y | some a ↦ f a ])
elim-cases P none y f g h = g refl
elim-cases P (some a) y f g h = h a refl

-- `std::uint64_t` and `std::uint32_t`: arithmetic wraps.
abbrev pub u64_mod : ℕ
u64_mod = 2 ^ 64

abbrev pub u32_mod : ℕ
u32_mod = 2 ^ 32

abbrev pub u64 : ℕ → ℕ
u64 n = n % u64_mod

abbrev pub u32 : ℕ → ℕ
u32 n = n % u32_mod

-- The largest value of `std::uint64_t`.
abbrev pub u64_max : ℕ
u64_max = 18446744073709551615

abbrev pub u32_max : ℕ
u32_max = 4294967295

-- What the code throws. `no_fuel` is the model's own: a loop whose rounds ran out.
pub data Fault : Type 0 where
  length_error invalid_argument out_of_range logic_error runtime_error no_fuel : Fault

pub data Result {ℓ} (A : Type ℓ) : Type ℓ where
  ok : A → Result A
  err : Fault → Result A

-- A call that throws ends the calls after it.
module _ {ℓ κ} {A : Type ℓ} {B : Type κ} where
  infixl 5 ◌>>=◌
  abbrev pub ◌>>=◌ : Result A → (A → Result B) → Result B
  r >>= next = elim r [ ok a ↦ next a | err e ↦ err e ]

  pub >>=-inversion :
      (next : A → Result B) (b : B) (r : Result A)
      → ok b ≡ (r >>= next)
      → (a : A) × (r ≡ ok a) × (ok b ≡ next a)
  >>=-inversion next b (ok a) h = (a, refl, h)
  >>=-inversion next b (err e) h = absurd cc

  -- A value computed from a call's result.
  pub >>=-ok :
      (f : A → B) (b : B) (r : Result A)
      → (r >>= λ a. ok (f a)) ≡ ok b
      → (a : A) × (r ≡ ok a) × (f a ≡ b)
  >>=-ok f b (ok a) h = (a, refl, cc)
  >>=-ok f b (err e) h = absurd cc

-- A property of what is done with a call's result.
pub Result-cases {ℓ κ μ} :
    {A : Type ℓ} {B : Type κ} (P : B → Type μ) (r : Result A) (f : Fault → B) (g : A → B)
    → ((e : Fault) → r ≡ err e → P (f e))
    → ((a : A) → r ≡ ok a → P (g a))
    → P (elim r [ ok a ↦ g a | err e ↦ f e ])
Result-cases P (ok a) f g h k = k a refl
Result-cases P (err e) f g h k = h e refl
