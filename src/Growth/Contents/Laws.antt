-- ===== src/Growth/Contents/Laws.antt =====
-- Sizes of growable versions: round trips, and requirements that a growth meets.
use orgmodule_services.Common.{ℕ, ◌<◌, ◌≡◌, true, ◌&&◌, ok, u64_mod, arith}
use orgmodule_services.Growth.Policy.{GrowthPolicy}
use orgmodule_services.Growth.Policy.Bounds.{next-ge}
use orgmodule_services.Growth.Contents.{GrowableRequirement, merge, met_by, grow_to}

-- A version meets the merge of two requirements exactly where it meets both.
pub met_by-merge :
    (a b : GrowableRequirement) (units serial : ℕ)
    → met_by (merge a b) units serial ≡ (met_by a units serial && met_by b units serial)
unfolding met_by merge
met_by-merge a b units serial = ground arith

-- The units that a growth makes for a 64-bit requirement meet it, for any serial newer than it asks.
pub grow_to-met_by :
    (r : GrowableRequirement) (policy : GrowthPolicy) (held c serial : ℕ)
    → r.units < u64_mod
    → r.newer_than < serial
    → grow_to r policy held ≡ ok c
    → met_by r c serial ≡ true
unfolding grow_to met_by
grow_to-met_by r policy held c serial n s h = ground (arith, h, next-ge policy held r.units c n)
