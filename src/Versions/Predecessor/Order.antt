-- ===== src/Versions/Predecessor/Order.antt =====
-- A build from a predecessor and its pool.
use orgmodule_services.Common.{
  ℕ, ◌≡◌, ◌<◌, refl, Bool, false, not, ◌&&◌, some, Result, ok, err, ltb, ◌==◌, arith, u64_max,
  if-cases, some-cases, Option-cases, inl, inr, List,
}
use orgmodule_services.BackingPool.Backing.{Backing, BackingRequest}
use orgmodule_services.BackingPool.Store.{lookup, lookup-modify}
use orgmodule_services.BackingPool.State.{Pool}
use orgmodule_services.BackingPool.Acquire.{AcquireInfo, Outcome, acquire, leased, exhausted, threw}
use orgmodule_services.BackingPool.Upkeep.{release_lease, set_contents}
use orgmodule_services.BackingPool.Circulation.{Inv}
use orgmodule_services.BackingPool.Exclusive.{IsGrant}
use orgmodule_services.BackingPool.Granting.{acquire-Granted}
use orgmodule_services.BackingPool.Life.{
  release_lease-Inv, set_contents-Inv, subscribe_availability-Inv,
}
use orgmodule_services.Versions.Intervals.{Interval}
use orgmodule_services.Versions.Delta.{DeltaWrite, UploadRange, delta_uploads, collect}
use orgmodule_services.Versions.Version.{
  PublishedVersion, BuildInput, BuildError, BuildOutcome, ready, suspended, failed, cancelled,
}
use orgmodule_services.Versions.Choice.{ClassChoice, choose_class}
use orgmodule_services.Versions.Predecessor.{
  Caller, Built, end_with, suspend, plan_copies, queue, plan, fill, use_lease,
  build_from_predecessor, refused_copy, request_of, preferred, used_bytes, emitted_of, is_nil,
  same_buffer,
}

-- The backing of a version that was made: its lease alone holds it, it is of the version's class,
-- and it is marked to hold the version's contents.
pub record IsVersionBacking (v : PublishedVersion) (b : Backing) : Type 0 where
  pub one : b.leases ≡ 1
  pub circulates : b.retired ≡ false
  pub unpinned : b.readback_pins ≡ 0
  pub unconsumed : b.binding_consumers ≡ 0
  pub class : b.capacity_class ≡ v.capacity
  pub contents : b.content_epoch ≡ v.write_sequence

-- What an outcome says of the pool.
abbrev pub IsKept : Pool → BuildOutcome → Type 0
IsKept p (ready v) = (b : Backing) × (lookup v.backing_epoch p.all ≡ some b) × IsVersionBacking v b
IsKept p (suspended identity) = Unit {0}
IsKept p (failed why) = Unit {0}
IsKept p cancelled = Unit {0}

abbrev pub IsOrderly : Built → Type 0
IsOrderly r = Inv r.pool × IsKept r.pool r.outcome

-- A backing in hand.
pub record InHand (p : Pool) (b : Backing) : Type 0 where
  pub inv : Inv p
  pub found : lookup b.generation p.all ≡ some b
  pub one : b.leases ≡ 1
  pub circulates : b.retired ≡ false
  pub unpinned : b.readback_pins ≡ 0
  pub unconsumed : b.binding_consumers ≡ 0

pub release-Inv : (p : Pool) (b : Backing) → InHand p b → Inv (release_lease b.generation p)
release-Inv p b h = release_lease-Inv b.generation p (ground (arith, h.found, h.one)) h.inv

pub forgot-InHand :
    (e : ℕ) (p : Pool) (b : Backing)
    → InHand p b
    → InHand (set_contents b.generation e p) (record b { content_epoch = e })
unfolding set_contents
forgot-InHand e p b h = record {
  inv = set_contents-Inv b.generation e p h.inv;
  found = ground (
    arith,
    h.found,
    lookup-modify b.generation b.generation (λ x. record x { content_epoch = e }) p.all (λ x. refl),
  );
  one = h.one;
  circulates = h.circulates;
  unpinned = h.unpinned;
  unconsumed = h.unconsumed;
}

pub suspend-IsOrderly : (caller : Caller) (p : Pool) → Inv p → IsOrderly (suspend caller p)
unfolding suspend
suspend-IsOrderly caller p v =
    some-cases IsOrderly caller.suspension _ _ (v, tt)
      (λ identity e. (
        if-cases Inv caller.has_notify _ _ (λ e. subscribe_availability-Inv identity p v) (λ e. v),
        tt,
      ))

module _ (caller : Caller) (input : BuildInput) (choice : ClassChoice) where
  queue-IsOrderly :
      (b : Backing) (copies : List Interval) (whole : Bool) (uploads : List UploadRange) (p : Pool)
      → InHand p b
      → IsOrderly (queue caller input choice b copies whole uploads p)
  unfolding queue
  queue-IsOrderly b copies whole uploads p h =
      if-cases IsOrderly b.retired _ _ (λ e. (gone, tt))
        (λ e.
          if-cases IsOrderly (not (is_nil copies) && not (caller.takes_copies copies)) _ _
            (λ e. (gone, tt))
            (λ e.
              if-cases IsOrderly (not (is_nil uploads) && not (caller.takes_uploads uploads)) _ _
                (λ e. (gone, tt))
                (λ e. (
                  set_contents-Inv b.generation input.write_sequence _ forgot.inv,
                  (
                    record b { content_epoch = input.write_sequence },
                    after.found,
                    record {
                      one = h.one;
                      circulates = h.circulates;
                      unpinned = h.unpinned;
                      unconsumed = h.unconsumed;
                      class = refl;
                      contents = refl;
                    },
                  ),
                ))))
    where
      forgot : InHand (set_contents b.generation 0 p) (record b { content_epoch = 0 })
      forgot = forgot-InHand 0 p b h

      after :
          InHand
            (set_contents b.generation input.write_sequence (set_contents b.generation 0 p))
            (record b { content_epoch = input.write_sequence })
      after = forgot-InHand input.write_sequence _ (record b { content_epoch = 0 }) forgot

      gone : Inv (release_lease b.generation (set_contents b.generation 0 p))
      gone = release-Inv _ (record b { content_epoch = 0 }) forgot

  plan-IsOrderly :
      (info : AcquireInfo) (b : Backing) (writes : List DeltaWrite) (p : Pool)
      → InHand p b
      → IsOrderly (plan caller input choice info b writes p)
  unfolding plan
  plan-IsOrderly info b writes p h =
      some-cases IsOrderly
        (plan_copies input b info.allocated (used_bytes input) (delta_uploads writes).1) _ _
        (release-Inv p b h, tt)
        (λ planned e.
          if-cases IsOrderly (caller.stops 2) _ _ (λ e. (release-Inv p b h, tt))
            (λ e. queue-IsOrderly b planned.0 planned.1 (delta_uploads writes).0 p h))

  fill-IsOrderly :
      (info : AcquireInfo) (b : Backing) (p : Pool)
      → InHand p b
      → IsOrderly (fill caller input choice info b p)
  unfolding fill
  fill-IsOrderly info b p h =
      let gone : Inv (release_lease b.generation p) × Unit {0} = (release-Inv p b h, tt) in
      if-cases IsOrderly (not (info.write_after == 0)) _ _ (λ e. gone)
        (λ e. some-cases IsOrderly b.buffer _ _ gone (λ buffer e.
          if-cases IsOrderly (same_buffer buffer input.previous) _ _ (λ e. gone)
            (λ e.
              if-cases IsOrderly (ltb b.byte_capacity (used_bytes input)) _ _ (λ e. gone)
                (λ e.
                  some-cases IsOrderly (collect (used_bytes input) (emitted_of input)) _ _ gone
                    (λ writes e.
                      if-cases IsOrderly (caller.stops 1) _ _ (λ e. gone)
                        (λ e. plan-IsOrderly info b writes p h))))))

  use_lease-IsOrderly :
      (completed : ℕ) (request : BackingRequest) (q : Pool) (got : Outcome)
      → Inv q
      → IsGrant caller.allocate completed request q got
      → IsOrderly (use_lease caller input choice q got)
  unfolding use_lease
  use_lease-IsOrderly completed request q threw v h = (v, tt)
  use_lease-IsOrderly completed request q (exhausted info) v h = suspend-IsOrderly caller q v
  use_lease-IsOrderly completed request q (leased g info) v (b, e, x) =
      rw (e, use_lease)
        (fill-IsOrderly info b q (record {
          inv = v;
          found = ground (arith, e, v g);
          one = x.one;
          circulates = x.circulates;
          unpinned = x.unpinned;
          unconsumed = x.unconsumed;
        }))

-- From a pool in order, while generations are left, whatever the caller and the upload service
-- answer and other threads pin: a build from a predecessor leaves the pool in order; the version's
-- backing is of its class, held by its lease alone, with no pin and no consumer, and marked to hold the version's contents.
pub build_from_predecessor-IsOrderly :
    (caller : Caller) (input : BuildInput) (p : Pool)
    → p.next_generation < u64_max
    → Inv p
    → IsOrderly (build_from_predecessor caller input p)
unfolding build_from_predecessor
build_from_predecessor-IsOrderly caller input p small v = elim (Option-cases (refused_copy input)) [
  | inr (why, e) ↦ rw (e, build_from_predecessor) (v, tt)
  | inl e ↦
      rw (e, build_from_predecessor)
        (if-cases IsOrderly (caller.stops 0) _ _ (λ e. (v, tt))
          (λ e. chosen (choose_class caller.now input)))
]
  where
    chosen :
        (r : Result ClassChoice)
        → IsOrderly (elim r [
          | err e ↦ end_with (failed BuildError.threw) p
          | ok choice ↦
              let (q, got) =
                acquire caller.allocate caller.pins caller.completed
                  (request_of input choice.capacity_class)
                  (preferred input)
                  p in
              use_lease caller input choice q got
        ])
    chosen (err e) = (v, tt)
    chosen (ok choice) =
        let (v', got) =
          acquire-Granted caller.allocate caller.pins caller.completed
            (request_of input choice.capacity_class) (preferred input) p small v in
        use_lease-IsOrderly caller input choice caller.completed
          (request_of input choice.capacity_class) _ _ v' got
