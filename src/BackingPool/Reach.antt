-- ===== src/BackingPool/Reach.antt =====
-- A pool's life: its operations in any order, each under what its caller must hold.
use orgmodule_services.Common.{ℕ, ◌≡◌, Bool, true, ◌&&◌, Option, ltb, arith, u64_max}
use orgmodule_services.BackingPool.Backing.{BackingRequest, BackingAllocation}
use orgmodule_services.BackingPool.State.{Pool, Config, create}
use orgmodule_services.BackingPool.Acquire.{acquire}
use orgmodule_services.BackingPool.Upkeep.{
  copy_lease, bind_lease, release_lease, pin_consumer, unpin_consumer, subscribe_availability,
  clock_wake, set_contents, trim,
}
use orgmodule_services.BackingPool.Circulation.{Inv, create-Inv}
use orgmodule_services.BackingPool.Granting.{acquire-Granted}
use orgmodule_services.BackingPool.Life.{
  is_leased, has_room, copy_lease-Inv, release_lease-Inv, bind_lease-Inv, set_contents-Inv,
  pin_consumer-Inv, unpin_consumer-Inv, subscribe_availability-Inv, clock_wake-Inv, trim-Inv,
}

-- A call on the pool, a lease or a pin, or the clock's wake. An Acquire comes with the consumers that
-- other threads pin meanwhile, and the completed point that it reads.
pub data Act : Type 0 where
  acquire_act : (ℕ → ℕ) → ℕ → BackingRequest → ℕ → Act
  trim_act : ℕ → Act
  copy_act : ℕ → Act
  release_act : ℕ → Act
  bind_act : ℕ → ℕ → Act
  contents_act : ℕ → ℕ → Act
  pin_act : ℕ → Act
  unpin_act : ℕ → Act
  subscribe_act : ℕ → Act
  clock_act : ℕ → Act

unfoldable pub act : (BackingRequest → Option BackingAllocation) → Act → Pool → Pool
act allocate (acquire_act pins completed request prefer) p =
    (acquire allocate pins completed request prefer p).0
act allocate (trim_act completed) p = trim completed p
act allocate (copy_act g) p = copy_lease g p
act allocate (release_act g) p = release_lease g p
act allocate (bind_act g point) p = bind_lease g point p
act allocate (contents_act g epoch) p = set_contents g epoch p
act allocate (pin_act g) p = (pin_consumer g p).0
act allocate (unpin_act g) p = unpin_consumer g p
act allocate (subscribe_act identity) p = subscribe_availability identity p
act allocate (clock_act point) p = clock_wake point p

-- A lease is copied or released by one who has it; the counters have room.
unfoldable pub allowed : Act → Pool → Bool
allowed (acquire_act pins completed request prefer) p = ltb p.next_generation u64_max
allowed (copy_act g) p = is_leased g p && has_room g p
allowed (release_act g) p = is_leased g p
allowed (trim_act completed) p = true
allowed (bind_act g point) p = true
allowed (contents_act g epoch) p = true
allowed (pin_act g) p = true
allowed (unpin_act g) p = true
allowed (subscribe_act identity) p = true
allowed (clock_act point) p = true

-- The pools that allowed calls make of a new one.
pub data Reached (allocate : BackingRequest → Option BackingAllocation) : Pool → Type 0 where
  made : (config : Config) → Reached allocate (create config)
  acted :
      (a : Act) (p : Pool)
      → allowed a p ≡ true
      → Reached allocate p
      → Reached allocate (act allocate a p)

act-Inv :
    (allocate : BackingRequest → Option BackingAllocation) (a : Act) (p : Pool)
    → allowed a p ≡ true
    → Inv p
    → Inv (act allocate a p)
unfolding act allowed
act-Inv allocate (acquire_act pins completed request prefer) p h v =
    (acquire-Granted allocate pins completed request prefer p (ground (arith, h)) v).0
act-Inv allocate (trim_act completed) p h v = trim-Inv completed p v
act-Inv allocate (copy_act g) p h v = copy_lease-Inv g p h v
act-Inv allocate (release_act g) p h v = release_lease-Inv g p h v
act-Inv allocate (bind_act g point) p h v = bind_lease-Inv g point p v
act-Inv allocate (contents_act g epoch) p h v = set_contents-Inv g epoch p v
act-Inv allocate (pin_act g) p h v = pin_consumer-Inv g p v
act-Inv allocate (unpin_act g) p h v = unpin_consumer-Inv g p v
act-Inv allocate (subscribe_act identity) p h v = subscribe_availability-Inv identity p v
act-Inv allocate (clock_act point) p h v = clock_wake-Inv point p v

-- In every pool reached from a new one by calls whose callers hold the leases that they copy or
-- release, and whose counters have room: a backing of the pool waits exactly while it has no lease,
-- once, on the free list or the return stack; what waits there is of the pool; every backing is in
-- circulation; and no backing has a generation that is not given yet.
pub Reached-Inv :
    (allocate : BackingRequest → Option BackingAllocation) (p : Pool) → Reached allocate p → Inv p
Reached-Inv allocate p (made config) = create-Inv config
Reached-Inv allocate p (acted a q h r) = act-Inv allocate a q h (Reached-Inv allocate q r)
