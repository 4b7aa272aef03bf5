-- ===== src/Versions/Build.antt =====
-- `BuildVersionedBuffer` of src/VersionedBufferBuild.cpp: the one build or the other. What a build
-- throws is a failure of it already.
use orgmodule_services.Common.{ℕ, ◌<◌, Bool, Option, if◌then◌else◌, if-cases, u64_max}
use orgmodule_services.BackingPool.State.{Pool}
use orgmodule_services.BackingPool.Circulation.{Inv}
use orgmodule_services.Images.{BufferImage}
use orgmodule_services.Versions.Version.{BuildInput, BuildOutcome}
use orgmodule_services.Versions.Predecessor.{Caller, build_from_predecessor}
use orgmodule_services.Versions.Predecessor.Order.{IsKept, build_from_predecessor-IsOrderly}
use orgmodule_services.Versions.Snapshot.{Queued, build}
use orgmodule_services.Versions.Snapshot.Order.{build-IsOrderly}

unfoldable pub build_versioned_buffer :
    Caller → (Queued → Bool) → (ℕ → Option BufferImage) → BuildInput → Pool → BuildOutcome × Pool
build_versioned_buffer caller takes images input p =
    if input.predecessor_copy
    then (
      (build_from_predecessor caller input p).outcome,
      (build_from_predecessor caller input p).pool,
    )
    else ((build caller takes images input p).outcome, (build caller takes images input p).pool)

-- An outcome and the pool after it.
pub record IsOrderlyEnd (r : BuildOutcome × Pool) : Type 0 where
  pub inv : Inv r.1
  pub kept : IsKept r.1 r.0

-- From a pool in order, while generations are left, whatever the caller and the upload service
-- answer, the backings hold and other threads pin: a build of either kind leaves the pool in order; the version's backing is of its
-- class, held by its lease alone, with no pin and no consumer, and marked to hold the version's
-- contents.
pub build_versioned_buffer-IsOrderlyEnd :
    (caller : Caller) (takes : Queued → Bool) (images : ℕ → Option BufferImage) (input : BuildInput)
    (p : Pool)
    → p.next_generation < u64_max
    → Inv p
    → IsOrderlyEnd (build_versioned_buffer caller takes images input p)
unfolding build_versioned_buffer
build_versioned_buffer-IsOrderlyEnd caller takes images input p small v =
    if-cases IsOrderlyEnd input.predecessor_copy _ _
      (λ e.
        let (inv, kept) = build_from_predecessor-IsOrderly caller input p small v in
        record { inv = inv; kept = kept })
      (λ e.
        let m = build-IsOrderly caller takes images input p small v in
        record { inv = m.inv; kept = m.kept })
