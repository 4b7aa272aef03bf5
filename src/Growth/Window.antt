-- ===== src/Growth/Window.antt =====
-- include/ORGModuleServices/ElasticCapacity.h: when a growable capacity gives memory back.
-- Points of the steady clock are nanoseconds from its epoch; `settle` is in milliseconds.
pub mod Hysteresis
use orgmodule_services.Common.{
  ℕ, ◌+◌, ◌*◌, ◌/◌, ◌%◌, Result, ok, ◌>>=◌, ltb, leb, ◌==◌, if◌then◌else◌, u64, u32, u32_max, Bool,
  true, false, not, ◌&&◌, ◌||◌, Option, none, some,
}
use orgmodule_services.Growth.Policy.{GrowthPolicy, next, next_as}

pub record ShrinkPolicy : Type 0 where
  pub used_percent : ℕ  -- std::uint32_t; 0: never shrinks
  pub settle : ℕ
  pub observations : ℕ  -- std::uint32_t

abbrev pub never : ShrinkPolicy
never = record { used_percent = 0; settle = 0; observations = 1 }

unfoldable pub when_below : ℕ → ℕ → ℕ → ShrinkPolicy
when_below pct settle observations = record {
  used_percent = pct;
  settle = settle;
  observations = if observations == 0 then 1 else observations;
}

abbrev pub shrinks : ShrinkPolicy → Bool
shrinks policy = not (policy.used_percent == 0)

pub record ShrinkWindow : Type 0 where
  pub peak : ℕ  -- std::uint64_t
  pub seen : ℕ  -- std::uint32_t
  pub since : ℕ

abbrev pub reset : ShrinkWindow → ShrinkWindow
reset window = record window { peak = 0; seen = 0 }

-- `now - since >= settle`
abbrev pub settled : ShrinkPolicy → ShrinkWindow → ℕ → Bool
settled policy window now = leb (window.since + policy.settle * 1000000) now

-- `ShrinkWindow::Due`; `seen + 1` is a 32-bit sum.
unfoldable pub due : ShrinkPolicy → ShrinkWindow → ℕ → Bool
due policy window now =
    shrinks policy
    && (not (window.seen == 0)
        && (leb policy.observations (u32 (window.seen + 1)) && settled policy window now))

-- The test of `Observe`: the ask is at or below the policy's share of the capacity.
unfoldable pub is_low : ShrinkPolicy → ℕ → ℕ → Bool
is_low policy capacity need = leb need (
    u64 (
      u64 (capacity / 100 * policy.used_percent)
      + u64 (capacity % 100 * policy.used_percent) / 100))

-- A low ask enters the window: it opens one, or raises its peak, and counts (saturating).
unfoldable pub enter : ShrinkWindow → ℕ → ℕ → ShrinkWindow
enter window need now =
    let opened =
      if window.seen == 0
      then record window { since = now; peak = need }
      else if ltb window.peak need
      then record window { peak = need }
      else window in
    record opened { seen = if ltb opened.seen u32_max then opened.seen + 1 else opened.seen }

-- A window that is due closes: the target is 0, or the policy's fresh size for the peak; it counts
-- only below the capacity.
unfoldable pub close : GrowthPolicy → ℕ → ShrinkWindow → Result (ShrinkWindow × Option ℕ)
close growth capacity window =
    (if window.peak == 0 then ok 0 else next growth 0 window.peak) >>= λ target.
    ok (reset window, if leb capacity target then none else some target)

-- `ShrinkWindow::Observe`. It throws where `Next` does.
unfoldable pub observe :
    ShrinkPolicy → GrowthPolicy → ℕ → ℕ → ℕ → ShrinkWindow → Result (ShrinkWindow × Option ℕ)
observe policy growth capacity need now window =
    if not (shrinks policy) || capacity == 0
    then ok (window, none)
    else if not (is_low policy capacity need)
    then ok (reset window, none)
    else let entered = enter window need now in
      if ltb entered.seen policy.observations || not (settled policy entered now)
      then ok (entered, none)
      else close growth capacity entered

-- A capacity and its window, and whether the capacity moved.
pub record Fitted : Type 0 where
  pub value : ℕ
  pub window : ShrinkWindow
  pub moved : Bool

abbrev pub fit_grown : ℕ → ShrinkWindow → ℕ → Fitted
fit_grown current window value = record {
  value = value;
  window = reset window;
  moved = not (value == current);
}

abbrev pub fit_observed : ℕ → ShrinkWindow × Option ℕ → Fitted
fit_observed current (window, some target) = record {
  value = target;
  window = window;
  moved = true;
}
fit_observed current (window, none) = record { value = current; window = window; moved = false }

-- `FitCapacity<T>`; `type_max` is the largest value of `T`.
unfoldable pub fit_capacity :
    ℕ → GrowthPolicy → ShrinkPolicy → ℕ → ℕ → ℕ → ShrinkWindow → Result Fitted
fit_capacity type_max growth shrink current need now window =
    if ltb current need
    then (next_as type_max growth current need >>= λ value. ok (fit_grown current window value))
    else (observe shrink growth current need now window >>= λ seen. ok (fit_observed current seen))
