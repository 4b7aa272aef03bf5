-- ===== src/BackingPool/State.antt =====
-- What a pool holds, and the steps that every operation shares: taking returned backings in,
-- leaving circulation, events and the arming of the clock.
use orgmodule_services.Common.{
  ℕ, suc, ◌+◌, ◌-◌, Bool, true, false, not, ◌&&◌, ◌||◌, none, some, ltb, leb, ◌==◌, if◌then◌else◌,
  u64, u64_mod, u32, u32_mod, List, [], ◌∷◌, ◌++◌, keep_if,
}
use orgmodule_services.BackingPool.Backing.{
  Backing, BackingRequest, BackingAllocation, Key, key_of, request_key, same_key, try_claim,
  byte_capacity_of,
}
use orgmodule_services.BackingPool.Store.{lookup, modify, remove, erase, is_known}

-- `fetch_sub` of a 64-bit counter.
abbrev pub sub64 : ℕ → ℕ → ℕ
sub64 a b = u64 (a + u64_mod - b)

-- `fetch_sub` of a 32-bit counter.
abbrev pub sub32 : ℕ → ℕ → ℕ
sub32 a b = u32 (a + u32_mod - b)

pub record Config : Type 0 where
  pub max_per_class : ℕ  -- 0: none
  pub frames_in_flight : ℕ
  pub spare_free : ℕ
  pub reuse_bound : Bool

-- The class last asked for a key.
pub record Active : Type 0 where
  pub key : Key
  pub capacity_class : ℕ

-- `BackingHome`'s counters.
pub record Census : Type 0 where
  pub live : ℕ
  pub free_count : ℕ
  pub bytes : ℕ
  pub allocated : ℕ
  pub reused : ℕ
  pub released : ℕ
  pub exhausted : ℕ

-- `all`, `free` and `active` are the acquirer's vectors; `returned` and `waiters` are the stacks,
-- top first; `woken` lists the identities whose wake has run, and `subscribed` the points at which
-- the clock is asked to wake the pool.
pub record Pool : Type 0 where
  pub config : Config
  pub all : List Backing
  pub free : List ℕ
  pub returned : List ℕ
  pub active : List Active
  pub next_generation : ℕ
  pub census : Census
  pub events : ℕ
  pub scan_events : ℕ
  pub armed_at : ℕ
  pub waiters : List ℕ
  pub woken : List ℕ
  pub subscribed : List ℕ

abbrev pub no_census : Census
no_census = record {
  live = 0;
  free_count = 0;
  bytes = 0;
  allocated = 0;
  reused = 0;
  released = 0;
  exhausted = 0;
}

-- `BackingPool::Create`, with the hook and the clock that it requires.
unfoldable pub create : Config → Pool
create config = record {
  config = config;
  all = [];
  free = [];
  returned = [];
  active = [];
  next_generation = 1;
  census = no_census;
  events = 0;
  scan_events = 0;
  armed_at = 0;
  waiters = [];
  woken = [];
  subscribed = [];
}

-- `BackingHome::Event`: every waiter subscribed so far runs once.
unfoldable pub raise_event : Pool → Pool
raise_event p = record p { events = u64 (p.events + 1); waiters = []; woken = p.woken ++ p.waiters }

-- `TakeReturned`: what the pool still holds goes to the free list.
unfoldable pub take_returned : Pool → Pool
take_returned p = record p { free = p.free ++ keep_if (is_known p.all) p.returned; returned = [] }

-- The class last asked for a key is noted.
unfoldable pub note_class : Key → ℕ → List Active → List Active
note_class key class [] = record { key = key; capacity_class = class } ∷ []
note_class key class (a ∷ rest) =
    let noted = note_class key class rest in
    if same_key a.key key then record a { capacity_class = class } ∷ rest else a ∷ noted

-- The backings of a list of generations.
unfoldable pub backings_of : List Backing → List ℕ → List Backing
backings_of all [] = []
backings_of all (g ∷ gs) = elim (lookup g all) [
  | none ↦ backings_of all gs
  | some b ↦ b ∷ backings_of all gs
]

-- `ReleaseBacking`.
unfoldable pub release_backing : ℕ → Backing → Pool → Pool
release_backing g held p = record p {
  free = erase g p.free;
  all = remove g p.all;
  census = record p.census {
    free_count = sub64 p.census.free_count 1;
    live = sub64 p.census.live 1;
    bytes = sub64 p.census.bytes held.byte_capacity;
    released = u64 (p.census.released + 1);
  };
}

-- A claim for release: whether the backing was released.
unfoldable pub claim_release : ℕ → Pool → Pool × Bool
claim_release g p = elim (lookup g p.all) [
  | none ↦ (p, false)
  | some b ↦
      let q = record p { all = modify g (λ x. (try_claim x).0) p.all } in
      if (try_claim b).1 then (release_backing g b q, true) else (q, false)
]

unfoldable pub release_all : List ℕ → Pool → Pool × ℕ
release_all [] p = (p, 0)
release_all (g ∷ gs) p =
    let (q, done) = claim_release g p in
    let (r, count) = release_all gs q in (r, if done then suc count else count)

-- Back in circulation for a fresh fill: no version names it.
abbrev pub recirculate : Backing → Backing
recirculate b = record b { retired = false; sealed_bytes = 0 }

-- A claim for reuse: whether the backing may be leased.
unfoldable pub claim_reuse : ℕ → Pool → Pool × Bool
claim_reuse g p = elim (lookup g p.all) [
  | none ↦ (p, false)
  | some b ↦
      if (try_claim b).1
      then (record p { all = modify g (λ x. recirculate (try_claim x).0) p.all }, true)
      else (record p { all = modify g (λ x. (try_claim x).0) p.all }, false)
]

-- `BackingLease(backing)` of a backing taken off the free list.
unfoldable pub lease_free : ℕ → Pool → Pool
lease_free g p = record p {
  free = erase g p.free;
  all = modify g (λ b. record b { leases = u32 (b.leases + 1) }) p.all;
  census = record p.census {
    free_count = sub64 p.census.free_count 1;
    reused = u64 (p.census.reused + 1);
  };
}

abbrev pub fresh_backing : BackingRequest → BackingAllocation → ℕ → Backing
fresh_backing request made generation = record {
  buffer = made.buffer;
  generation = generation;
  capacity_class = request.capacity_class;
  byte_capacity = byte_capacity_of request;
  address = made.address;
  srv_index = made.srv_index;
  stride = request.stride;
  flags = request.flags;
  compatibility = request.compatibility;
  content_epoch = 0;
  sealed_bytes = 0;
  safe_at = 0;
  leases = 1;
  retired = false;
  readback_pins = 0;
  binding_consumers = 0;
}

-- `Allocate` with what the hook made: a new backing and its first lease.
unfoldable pub add_backing : BackingRequest → BackingAllocation → Pool → Pool
add_backing request made p = record p {
  all = p.all ++ fresh_backing request made p.next_generation ∷ [];
  next_generation = u64 (p.next_generation + 1);
  census = record p.census {
    live = u64 (p.census.live + 1);
    bytes = u64 (p.census.bytes + byte_capacity_of request);
    allocated = u64 (p.census.allocated + 1);
  };
}

-- The point at which a free backing of the class may become reusable by the clock (0: none).
unfoldable pub wake_point : ℕ → Backing → ℕ
wake_point completed b =
    if ltb completed b.safe_at
    then b.safe_at
    else if b.readback_pins == 0
    then 0
    else u64 (completed + 1)

unfoldable pub earliest : ℕ → List Backing → ℕ → ℕ
earliest completed [] point = point
earliest completed (b ∷ bs) point =
    let at = wake_point completed b in
    earliest completed bs (if not (at == 0) && (point == 0 || ltb at point) then at else point)

abbrev pub of_class : Key → ℕ → Backing → Bool
of_class key class b = same_key (key_of b) key && b.capacity_class == class

-- `ArmAvailability`: the clock is asked once for the earliest point.
unfoldable pub arm_availability : ℕ → BackingRequest → Pool → Pool
arm_availability completed request p =
    let point =
      earliest completed
        (keep_if (of_class (request_key request) request.capacity_class) (backings_of p.all p.free))
        0 in
    if point == 0 || (not (p.armed_at == 0) && leb p.armed_at point)
    then p
    else record p { armed_at = point; subscribed = p.subscribed ++ point ∷ [] }
