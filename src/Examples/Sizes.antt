-- ===== src/Examples/Sizes.antt =====
-- Capacities at concrete numbers.
use native.Mathlib.Omega.{arith}
use orgmodule_services.Common.{
  ◌&&◌, ℕ, ◌≡◌, ◌≤◌, ◌<◌, ◌⊎◌, ◌*◌, ◌+◌, ◌^◌, ◌/◌, refl, true, ok, none, some, u64_mod,
  if◌then◌else◌,
}
use orgmodule_services.Growth.Policy.{doubling_policy, headroom_policy, next, grow, double_until}
use orgmodule_services.Growth.Policy.Bounds.{
  Grown, start, next-doubling, next-ge, next-headroom_wraps,
}
use orgmodule_services.Growth.Contents.{merge, met_by}
use orgmodule_services.Growth.Contents.Laws.{met_by-merge}
use orgmodule_services.Growth.Window.{
  ShrinkPolicy, ShrinkWindow, due, is_low, enter, close, observe, fit_capacity,
}
use orgmodule_services.Growth.Window.Hysteresis.{
  IsFitted, due-observe, observe-shrinks, fit_capacity_lem,
}

-- Half of the capacity or less, twice, over three milliseconds.
abbrev policy : ShrinkPolicy
policy = record { used_percent = 50; settle = 3; observations = 2 }

abbrev window : ShrinkWindow
window = record { peak = 10; seen = 1; since = 0 }

shrunk :
    observe policy (doubling_policy 8) 64 9 3000000 window
    ≡ ok (record { peak = 0; seen = 0; since = 0 }, some 16)
unfolding observe is_low enter close next grow double_until
shrunk = refl

next-doubling_example :
    Grown
      (λ c.
        (9 ≤ c)
        × (4 ≤ c)
        × (8 ≤ c)
        × (c < u64_mod)
        × ((c ≡ start (doubling_policy 8) 4) ⊎ (c < 9 * 2)))
      (2 ^ 63 < 9)
      (next (doubling_policy 8) 4 9)
next-doubling_example =
    next-doubling (doubling_policy 8) 4 9 refl (omega arith) (omega arith) (omega arith)

next-ge_example : 9 ≤ 16
unfolding next grow double_until
next-ge_example = next-ge (doubling_policy 8) 4 9 16 (omega arith) refl

due-observe_example : observe policy (doubling_policy 8) 64 9 3000000 window ≡ (
    if due policy window 3000000
    then close (doubling_policy 8) 64 (record window { seen = 2 })
    else ok (record window { seen = 2 }, none))
unfolding is_low
due-observe_example =
    due-observe policy (doubling_policy 8) 64 9 3000000 window refl (omega arith) (omega arith)
      (omega arith) (omega arith) refl

observe-shrinks_example :
    (16 < 64)
    × (9 ≤ 16)
    × (is_low policy 64 9 ≡ true)
    × (2 ≤ (enter window 9 3000000).seen)
    × ((enter window 9 3000000).since + 3 * 1000000 ≤ 3000000)
    × (◌≡◌ {A = ℕ} 0 0)
unfolding observe is_low enter close next grow double_until
observe-shrinks_example =
    observe-shrinks policy (doubling_policy 8) 64 9 3000000 window
      (record { peak = 0; seen = 0; since = 0 }) 16 (omega arith) (omega arith) refl

fit_capacity_lem_example :
    IsFitted 4294967295 64 9
      (record { value = 16; window = record { peak = 0; seen = 0; since = 0 }; moved = true })
unfolding fit_capacity observe is_low enter close next grow double_until
fit_capacity_lem_example =
    fit_capacity_lem 4294967295 (doubling_policy 8) policy 64 9 3000000 window
      (record { value = 16; window = record { peak = 0; seen = 0; since = 0 }; moved = true })
      (omega arith) (omega arith) (omega arith) refl

next-headroom_wraps_example :
    (c : ℕ) × (next (headroom_policy 1600 0) 0 1152921504606846976 ≡ ok c)
    × (c < 1152921504606846976 + 1152921504606846976 * 1600 / 100)
next-headroom_wraps_example =
    next-headroom_wraps (headroom_policy 1600 0) 0 1152921504606846976 refl (omega arith)
      (omega arith) (omega arith) (omega arith) (omega arith)

met_by-merge_example :
    met_by (merge (record { units = 4; newer_than = 1 }) (record { units = 2; newer_than = 3 })) 5 4
    ≡ (met_by (record { units = 4; newer_than = 1 }) 5 4
        && met_by (record { units = 2; newer_than = 3 }) 5 4)
met_by-merge_example =
    met_by-merge (record { units = 4; newer_than = 1 }) (record { units = 2; newer_than = 3 }) 5 4
