-- ===== src/BackingPool/Upkeep.antt =====
-- What happens to a pool between its Acquires: leases copied, bound and released, binding consumers,
-- availability, trimming, and what is asked of it.
use orgmodule_services.Common.{
  ℕ, ◌+◌, ◌-◌, Bool, true, false, not, ◌&&◌, Option, none, some, ltb, ◌==◌, if◌then◌else◌, u64, u32,
  List, [], ◌∷◌, ◌++◌, keep_if, min,
}
use orgmodule_services.BackingPool.Backing.{Backing, key_of, same_key, reusable, bind, sort_by}
use orgmodule_services.BackingPool.Store.{lookup, modify}
use orgmodule_services.BackingPool.State.{
  Pool, Active, take_returned, raise_event, backings_of, release_all, sub32,
}

-- A copy of a lease.
unfoldable pub copy_lease : ℕ → Pool → Pool
copy_lease g p = record p { all = modify g (λ b. record b { leases = u32 (b.leases + 1) }) p.all }

unfoldable pub bind_lease : ℕ → ℕ → Pool → Pool
bind_lease g point p = record p { all = modify g (bind point) p.all }

-- `BackingPool::Returned`: the last lease went.
unfoldable pub push_returned : ℕ → Pool → Pool
push_returned g p = raise_event (record p {
  returned = g ∷ p.returned;
  census = record p.census { free_count = u64 (p.census.free_count + 1) };
})

-- `BackingLease::Reset` of a lease that its holder has.
unfoldable pub release_lease : ℕ → Pool → Pool
release_lease g p = elim (lookup g p.all) [
  | none ↦ p
  | some b ↦
      let q = record p { all = modify g (λ x. record x { leases = sub32 x.leases 1 }) p.all } in
      if b.leases == 1 then push_returned g q else q
]

-- `Pin`: refused (false) for a backing that the pool claimed; the hold that it made is undone.
unfoldable pub pin_consumer : ℕ → Pool → Pool × Bool
pin_consumer g p = elim (lookup g p.all) [
  | none ↦ (p, false)
  | some b ↦ if b.retired then (if b.binding_consumers == 0 then raise_event p else p, false) else (
    record p {
      all = modify g (λ x. record x { binding_consumers = u32 (x.binding_consumers + 1) }) p.all;
    },
    true,
  )
]

-- The destructor of a pin: the last one raises an event.
unfoldable pub unpin_consumer : ℕ → Pool → Pool
unpin_consumer g p = elim (lookup g p.all) [
  | none ↦ p
  | some b ↦
      let q = record p {
        all = modify g (λ x. record x { binding_consumers = sub32 x.binding_consumers 1 }) p.all;
      } in
      if b.binding_consumers == 1 then raise_event q else q
]

-- `SubscribeAvailability`: woken at once where an event came since the last Acquire looked.
unfoldable pub subscribe_availability : ℕ → Pool → Pool
subscribe_availability identity p =
    let q = record p { waiters = identity ∷ p.waiters } in
    if q.events == q.scan_events then q else raise_event q

-- The wake that ArmAvailability leaves with the clock, run when its point is reached.
unfoldable pub clock_wake : ℕ → Pool → Pool
clock_wake point p = raise_event (if p.armed_at == point then record p { armed_at = 0 } else p)

-- The lease holder's writes: what the contents are after a catch-up (0: nothing).
unfoldable pub set_contents : ℕ → ℕ → Pool → Pool
set_contents g epoch p = record p { all = modify g (λ b. record b { content_epoch = epoch }) p.all }

unfoldable pub oldest_of : List Backing → Option ℕ → Option ℕ
oldest_of [] oldest = oldest
oldest_of (b ∷ bs) none = oldest_of bs (if b.content_epoch == 0 then none else some b.content_epoch)
oldest_of (b ∷ bs) (some oldest) = oldest_of bs (
    if not (b.content_epoch == 0) && ltb b.content_epoch oldest
    then some b.content_epoch
    else some oldest)

-- `OldestContentEpoch`.
unfoldable pub oldest_content_epoch : Pool → Option ℕ
oldest_content_epoch p = oldest_of p.all none

abbrev pub newest_first : Backing → Backing → Bool
newest_first a b = ltb b.content_epoch a.content_epoch

-- The candidates of one key that are not kept as spares of its active class.
unfoldable pub beyond_spares : ℕ → ℕ → List Backing → List ℕ
beyond_spares class spare [] = []
beyond_spares class spare (b ∷ bs) =
    let kept = beyond_spares class (spare - 1) bs in
    let gone = b.generation ∷ beyond_spares class spare bs in
    if b.capacity_class == class && ltb 0 spare then kept else gone

unfoldable pub trim_list : ℕ → Pool → List Active → List ℕ
trim_list completed p [] = []
trim_list completed p (a ∷ rest) =
    beyond_spares a.capacity_class p.config.spare_free (
      sort_by newest_first (
        keep_if (λ b. same_key (key_of b) a.key && reusable completed b)
          (backings_of p.all p.free)))
    ++ trim_list completed p rest

-- `Trim`.
unfoldable pub trim : ℕ → Pool → Pool
trim completed p =
    let taken = take_returned p in (release_all (trim_list completed taken taken.active) taken).0

-- `Count`: the free ones are at most the live ones, and the rest are leased.
pub record Counted : Type 0 where
  pub live : ℕ
  pub leased : ℕ
  pub free : ℕ
  pub bytes : ℕ

unfoldable pub count_pool : Pool → Counted
count_pool p =
    let free = min p.census.free_count p.census.live in
    record {
      live = p.census.live;
      leased = p.census.live - free;
      free = free;
      bytes = p.census.bytes;
    }
