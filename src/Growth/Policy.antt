-- ===== src/Growth/Policy.antt =====
-- include/ORGModuleServices/GrowthPolicy.h: the capacity to grow to.
pub mod Bounds
use orgmodule_services.Common.{
  ℕ, zero, suc, ◌+◌, ◌-◌, ◌*◌, ◌/◌, ◌%◌, Result, ok, err, length_error, no_fuel, ◌>>=◌, ltb, leb,
  ◌==◌, if◌then◌else◌, u64, u64_max,
}

pub data Kind : Type 0 where
  doubling headroom : Kind

pub record GrowthPolicy : Type 0 where
  pub kind : Kind
  pub percent : ℕ  -- std::uint32_t
  pub minimum : ℕ  -- std::uint64_t

abbrev pub doubling_policy : ℕ → GrowthPolicy
doubling_policy m = record { kind = Kind.doubling; percent = 0; minimum = m }

abbrev pub headroom_policy : ℕ → ℕ → GrowthPolicy
headroom_policy pct m = record { kind = Kind.headroom; percent = pct; minimum = m }

-- The loop of a Doubling policy; `fuel` bounds its rounds.
unfoldable pub double_until : ℕ → ℕ → ℕ → Result ℕ
double_until zero capacity needed = if ltb capacity needed then err no_fuel else ok capacity
double_until (suc fuel) capacity needed =
    let rest = double_until fuel (u64 (capacity * 2)) needed in
    if ltb capacity needed
    then (if ltb (u64_max / 2) capacity then err length_error else rest)
    else ok capacity

-- The headroom of a need, in 64-bit arithmetic.
abbrev pub extra_of : ℕ → ℕ → ℕ
extra_of percent needed = u64 (u64 (needed / 100 * percent) + u64 (needed % 100 * percent) / 100)

-- `Next` past the first test, by the policy's kind.
unfoldable pub grow : Kind → ℕ → ℕ → ℕ → ℕ → Result ℕ
unfolding double_until
grow doubling percent minimum capacity needed =
    double_until 64 (if capacity == 0 then 1 else capacity) needed
grow headroom percent minimum capacity needed =
    if ltb (u64_max - needed) (extra_of percent needed)
    then err length_error
    else ok (
        if ltb minimum (u64 (needed + extra_of percent needed))
        then u64 (needed + extra_of percent needed)
        else minimum)

-- `GrowthPolicy::Next`.
unfoldable pub next : GrowthPolicy → ℕ → ℕ → Result ℕ
unfolding grow
next policy current needed =
    let capacity = if ltb policy.minimum current then current else policy.minimum in
    if leb needed capacity
    then ok capacity
    else grow policy.kind policy.percent policy.minimum capacity needed

-- The result must fit the caller's type, whose largest value is `type_max`.
abbrev pub fit_type : ℕ → ℕ → Result ℕ
fit_type type_max capacity = if ltb type_max capacity then err length_error else ok capacity

-- `GrowthPolicy::NextAs<T>`.
unfoldable pub next_as : ℕ → GrowthPolicy → ℕ → ℕ → Result ℕ
next_as type_max policy current needed = next policy current needed >>= fit_type type_max
