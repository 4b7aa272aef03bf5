-- ===== src/BackingPool/Exclusive.antt =====
-- What an Acquire hands out: a backing that its lease alone holds, or none where the class is full.
use orgmodule_services.Common.{
  ℕ, ◌+◌, ◌<◌, ◌≡◌, refl, inl, inr, true, false, ◌||◌, Option, none, some, leb, ◌==◌, arith,
  Bool-cases, Option-cases, u32, u64_max,
}
use orgmodule_services.BackingPool.Backing.{
  Backing, BackingRequest, BackingAllocation, Key, same_key, request_key,
}
use orgmodule_services.BackingPool.Store.{lookup, occ, lookup-append, lookup-modify}
use orgmodule_services.BackingPool.State.{
  Pool, add_backing, fresh_backing, arm_availability, lease_free, of_class,
}
use orgmodule_services.BackingPool.Acquire.{
  AcquireInfo, Outcome, leased, exhausted, threw, class_full, exhaust_or_allocate,
}
use orgmodule_services.BackingPool.Circulation.{Inv, lease_free-Inv}
use orgmodule_services.BackingPool.Placement.{lists-Inv, add_backing-Inv, arm_availability-Inv}

-- The backing of a lease: no other lease, readback pin or binding consumer holds it, it is of the
-- asked class, and what is bound to it is completed or is the point that its writes wait for.
pub record IsExclusive (completed : ℕ) (request : BackingRequest) (info : AcquireInfo) (b : Backing)
    : Type 0 where
  pub one : b.leases ≡ 1
  pub circulates : b.retired ≡ false
  pub unpinned : b.readback_pins ≡ 0
  pub unconsumed : b.binding_consumers ≡ 0
  pub asked : of_class (request_key request) request.capacity_class b ≡ true
  pub passed : (leb b.safe_at completed || b.safe_at == info.write_after) ≡ true

abbrev pub IsGrant :
    (BackingRequest → Option BackingAllocation) → ℕ → BackingRequest → Pool → Outcome → Type 0
IsGrant allocate completed request q (leased g info) =
    (b : Backing) × (lookup g q.all ≡ some b) × (IsExclusive completed request info b)
IsGrant allocate completed request q (exhausted info) = class_full request q ≡ true
IsGrant allocate completed request q threw = allocate request ≡ none

abbrev pub Granted :
    (BackingRequest → Option BackingAllocation) → ℕ → BackingRequest → Pool × Outcome → Type 0
Granted allocate completed request r = Inv r.0 × IsGrant allocate completed request r.0 r.1

-- A free backing that a claim left with nobody is exclusive once it is leased.
pub record IsIdle (completed : ℕ) (request : BackingRequest) (info : AcquireInfo) (b : Backing)
    : Type 0 where
  pub unleased : b.leases ≡ 0
  pub circulates : b.retired ≡ false
  pub unpinned : b.readback_pins ≡ 0
  pub unconsumed : b.binding_consumers ≡ 0
  pub asked : of_class (request_key request) request.capacity_class b ≡ true
  pub passed : (leb b.safe_at completed || b.safe_at == info.write_after) ≡ true

same_key_self : (k : Key) → same_key k k ≡ true
unfolding same_key
same_key_self k = ground arith

module _ (allocate : BackingRequest → Option BackingAllocation) (completed : ℕ)
    (request : BackingRequest) where
  pub lease_free-Granted :
      (g : ℕ) (info : AcquireInfo) (p : Pool) (b : Backing)
      → lookup g p.all ≡ some b
      → IsIdle completed request info b
      → occ g p.free ≡ 1
      → Inv p
      → Granted allocate completed request (lease_free g p, leased g info)
  unfolding lease_free
  lease_free-Granted g info p b e i free v = (
    lease_free-Inv g p free v,
    (
      record b { leases = u32 (b.leases + 1) },
      ground (
        arith,
        e,
        lookup-modify g g (λ x. record x { leases = u32 (x.leases + 1) }) p.all (λ x. refl),
      ),
      record {
        one = ground (arith, i.unleased);
        circulates = i.circulates;
        unpinned = i.unpinned;
        unconsumed = i.unconsumed;
        asked = i.asked;
        passed = i.passed;
      },
    ),
  )

  exhausted-Granted :
      (info : AcquireInfo) (p : Pool)
      → class_full request p ≡ true
      → Inv p
      → Granted allocate completed request (arm_availability completed request p, exhausted info)
  unfolding arm_availability
  exhausted-Granted info p full v =
      (arm_availability-Inv completed request p v, ground (arith, full))

  made-Granted :
      (made : BackingAllocation) (info : AcquireInfo) (p : Pool)
      → p.next_generation < u64_max
      → Inv p
      → Granted allocate completed request
          (add_backing request made p, leased p.next_generation info)
  unfolding add_backing
  made-Granted made info p small v = (
    add_backing-Inv request made p small v,
    (
      fresh_backing request made p.next_generation,
      ground (
        arith,
        v p.next_generation,
        lookup-append p.next_generation p.all (fresh_backing request made p.next_generation),
      ),
      record {
        one = refl;
        circulates = refl;
        unpinned = refl;
        unconsumed = refl;
        asked = ground (arith, same_key_self (request_key request));
        passed = ground arith;
      },
    ),
  )

  pub exhaust_or_allocate-Granted :
      (info : AcquireInfo) (p : Pool)
      → p.next_generation < u64_max
      → Inv p
      → Granted allocate completed request (exhaust_or_allocate allocate completed request info p)
  unfolding exhaust_or_allocate
  exhaust_or_allocate-Granted info p small v = elim (Bool-cases (class_full request p)) [
    | inl full ↦
        rw (full, exhaust_or_allocate)
          (exhausted-Granted info _ full (lists-Inv p _ refl refl refl refl v))
    | inr room ↦
        rw (room, exhaust_or_allocate)
          (elim (Option-cases (allocate request)) [
            | inl e ↦ rw e (v, e)
            | inr (made, e) ↦ rw e (made-Granted made (record info { allocated = true }) p small v)
          ])
  ]
