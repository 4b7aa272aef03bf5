-- ===== src/Versions/Choice.antt =====
-- The mode and the capacity class of a version (`ReplacementCapacity` and `ChooseClass` of
-- src/VersionedBufferBuild.cpp).
pub mod Fits
use orgmodule_services.Common.{
  ℕ, zero, suc, ◌+◌, ◌*◌, ◌/◌, Bool, true, false, ◌&&◌, Option, none, some, Result, ok, ◌>>=◌, ltb,
  leb, max, u64, if◌then◌else◌,
}
use orgmodule_services.Growth.Policy.{GrowthPolicy, doubling_policy, next}
use orgmodule_services.Growth.Window.{ShrinkWindow, reset, observe}
use orgmodule_services.Versions.Version.{RevisionMode, patch, replace, PublishedVersion, BuildInput}

-- `std::bit_ceil` for numbers up to 2 ^ 63 (it is undefined past that): the first power of two that
-- is not below a number.
unfoldable pub bit_ceil_from : ℕ → ℕ → ℕ → ℕ
bit_ceil_from zero power n = power
bit_ceil_from (suc fuel) power n =
    let rest = bit_ceil_from fuel (power * 2) n in if ltb power n then rest else power

abbrev pub bit_ceil : ℕ → ℕ
bit_ceil n = bit_ceil_from 63 1 n

abbrev pub required_of : BuildInput → ℕ
required_of input = max input.capacity 1

-- `ReplacementCapacity`
unfoldable pub replacement_capacity : BuildInput → ℕ
replacement_capacity input = elim input.previous [
  | none ↦ bit_ceil (required_of input)
  | some previous ↦
      max (bit_ceil (required_of input)) (u64 (previous.capacity + max (previous.capacity / 2) 1))
]

pub record ClassChoice : Type 0 where
  pub mode : RevisionMode
  pub capacity_class : ℕ
  pub window : ShrinkWindow
  pub shrunk : Bool

abbrev pub no_window : ShrinkWindow
no_window = record { peak = 0; seen = 0; since = 0 }

-- The growth of the input where it counts: with a predecessor copy.
abbrev pub growth_of : BuildInput → Option GrowthPolicy
growth_of input = if input.predecessor_copy then input.growth else none

-- `input.growth` or `GrowthPolicy::Doubling()`, whose minimum is 1.
abbrev pub fresh_growth : Option GrowthPolicy → GrowthPolicy
fresh_growth none = doubling_policy 1
fresh_growth (some growth) = growth

abbrev pub has_resource : PublishedVersion → Bool
has_resource previous = elim previous.resource [ none ↦ false | some buffer ↦ true ]

-- The class of a predecessor that holds the request: kept, unless the window gives memory back.
unfoldable pub keep_class : ℕ → PublishedVersion → ShrinkWindow × Option ℕ → ClassChoice
keep_class required previous (window, none) = record {
  mode = patch;
  capacity_class = previous.capacity;
  window = window;
  shrunk = false;
}
keep_class required previous (window, some target) =
    if ltb (max target required) previous.capacity
    then record {
      mode = replace;
      capacity_class = max target required;
      window = window;
      shrunk = true;
    }
    else record {
      mode = patch;
      capacity_class = previous.capacity;
      window = window;
      shrunk = false;
    }

abbrev pub capacity_of : Option PublishedVersion → ℕ
capacity_of none = 0
capacity_of (some previous) = previous.capacity

abbrev pub window_of : Option PublishedVersion → ShrinkWindow
window_of none = no_window
window_of (some previous) = previous.shrink_window

-- A grown class.
unfoldable pub grown_class : BuildInput → Result ClassChoice
grown_class input =
    elim (growth_of input) [
      | none ↦ ok (replacement_capacity input)
      | some growth ↦ next growth (capacity_of input.previous) (required_of input)
    ]
    >>= λ class. ok (record {
      mode = replace;
      capacity_class = class;
      window = reset (window_of input.previous);
      shrunk = false;
    })

-- `ChooseClass`; `now` is the clock's time. It throws where `Next` does.
unfoldable pub choose_class : ℕ → BuildInput → Result ClassChoice
choose_class now input = elim input.previous [
  | none ↦ grown_class input
  | some previous ↦
      (if has_resource previous && leb input.capacity previous.capacity
        then (observe input.shrink (fresh_growth (growth_of input)) previous.capacity
              (required_of input) now previous.shrink_window
            >>= λ seen. ok (keep_class (required_of input) previous seen))
        else grown_class input)
]
