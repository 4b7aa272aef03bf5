-- ===== src/BackingPool/Acquire.antt =====
-- `BackingPool::Acquire`. The acquirer runs alone; what other threads may do meanwhile that its
-- result depends on is an argument: the binding consumers that pin a backing between the look at
-- the free list and the claims.
use orgmodule_services.Common.{
  ℕ, ◌+◌, Bool, true, false, not, ◌&&◌, Option, none, some, ltb, leb, ◌==◌, if◌then◌else◌, u64, u32,
  List, [], ◌∷◌, ◌++◌, map, keep_if, count_if, drop,
}
use orgmodule_services.BackingPool.Backing.{
  Backing, BackingRequest, BackingAllocation, key_of, request_key, same_key, reusable, nearer,
  sort_by,
}
use orgmodule_services.BackingPool.State.{
  Pool, take_returned, note_class, backings_of, release_all, claim_reuse, lease_free, add_backing,
  arm_availability, of_class,
}

pub record AcquireInfo : Type 0 where
  pub allocated : Bool
  pub released : ℕ  -- std::uint32_t
  pub write_after : ℕ

-- A lease of the backing with a generation, no lease, or what the allocation hook threw.
pub data Outcome : Type 0 where
  leased : ℕ → AcquireInfo → Outcome
  exhausted : AcquireInfo → Outcome
  threw : Outcome

-- The reusable backings of the asked class, and those of the key's other classes.
pub record Look : Type 0 where
  pub same_class : List Backing
  pub superseded : List Backing

unfoldable pub look : ℕ → BackingRequest → Pool → Look
look completed request p =
    let found =
      keep_if (λ b. same_key (key_of b) (request_key request) && reusable completed b)
        (backings_of p.all p.free) in
    record {
      same_class = keep_if (λ b. b.capacity_class == request.capacity_class) found;
      superseded = keep_if (λ b. not (b.capacity_class == request.capacity_class)) found;
    }

abbrev pub generations : List Backing → List ℕ
generations = map (λ b. b.generation)

-- The first backing that can be claimed, and those after it.
pub record Choice : Type 0 where
  pub pool : Pool
  pub chosen : Option ℕ
  pub rest : List ℕ

unfoldable pub choose : List ℕ → Pool → Choice
choose [] p = record { pool = p; chosen = none; rest = [] }
choose (g ∷ gs) p =
    let (q, claimed) = claim_reuse g p in
    elim claimed [ true ↦ record { pool = q; chosen = some g; rest = gs } | false ↦ choose gs q ]

-- Other threads pin backings: so many binding consumers more for each generation.
abbrev pub pin : (ℕ → ℕ) → Backing → Backing
pin pins b = record b { binding_consumers = u32 (b.binding_consumers + pins b.generation) }

unfoldable pub arrive : (ℕ → ℕ) → Pool → Pool
arrive pins p = record p { all = map (pin pins) p.all }

-- reuseBound: the class's free backing with no lease, pin or consumer that is bound longest ago.
abbrev pub is_bound_candidate : BackingRequest → Backing → Bool
is_bound_candidate request b =
    of_class (request_key request) request.capacity_class b
    && (b.leases == 0 && (b.readback_pins == 0 && b.binding_consumers == 0))

unfoldable pub oldest_bound : List Backing → Option Backing → Option Backing
oldest_bound [] best = best
oldest_bound (b ∷ bs) none = oldest_bound bs (some b)
oldest_bound (b ∷ bs) (some best) =
    oldest_bound bs (if ltb b.safe_at best.safe_at then some b else some best)

abbrev pub class_count : BackingRequest → Pool → ℕ
class_count request p = count_if (of_class (request_key request) request.capacity_class) p.all

abbrev pub class_full : BackingRequest → Pool → Bool
class_full request p =
    not (p.config.max_per_class == 0) && leb p.config.max_per_class (class_count request p)

-- Nothing bound can be reused: none is left where the class is full, else one is allocated.
unfoldable pub exhaust_or_allocate :
    (BackingRequest → Option BackingAllocation)
    → ℕ
    → BackingRequest
    → AcquireInfo
    → Pool
    → Pool × Outcome
exhaust_or_allocate allocate completed request info p =
    if class_full request p
    then (
      arm_availability completed request
          (record p { census = record p.census { exhausted = u64 (p.census.exhausted + 1) } }),
      exhausted info,
    )
    else elim (allocate request) [
      | none ↦ (p, threw)
      | some made ↦
          (add_backing request made p, leased p.next_generation (record info { allocated = true }))
    ]

-- A backing that a frame in flight still binds is claimed; the caller's writes wait for its point.
unfoldable pub reuse_bound_backing : Backing → AcquireInfo → Pool → Option (Pool × Outcome)
reuse_bound_backing b info p =
    let (q, claimed) = claim_reuse b.generation p in
    if claimed
    then some
        (lease_free b.generation q, leased b.generation (record info { write_after = b.safe_at }))
    else none

abbrev pub or_else : Option (Pool × Outcome) → Pool × Outcome → Pool × Outcome
or_else none other = other
or_else (some r) other = r

-- No reusable backing could be claimed.
unfoldable pub acquire_other :
    (BackingRequest → Option BackingAllocation)
    → ℕ
    → BackingRequest
    → AcquireInfo
    → Pool
    → Pool × Outcome
acquire_other allocate completed request info p =
    let otherwise = exhaust_or_allocate allocate completed request info p in
    if class_full request p && p.config.reuse_bound
    then elim (oldest_bound (keep_if (is_bound_candidate request) (backings_of p.all p.free))
        none) [ none ↦ otherwise | some b ↦ or_else (reuse_bound_backing b info p) otherwise ]
    else otherwise

-- The lease of the chosen backing.
unfoldable pub finish :
    (BackingRequest → Option BackingAllocation)
    → ℕ
    → BackingRequest
    → Option ℕ
    → AcquireInfo
    → Pool
    → Pool × Outcome
finish allocate completed request (some g) info p = (lease_free g p, leased g info)
finish allocate completed request none info p = acquire_other allocate completed request info p

unfoldable pub acquire :
    (BackingRequest → Option BackingAllocation)
    → (ℕ → ℕ)
    → ℕ
    → BackingRequest
    → ℕ
    → Pool
    → Pool × Outcome
acquire allocate pins completed request prefer p =
    let taken = take_returned (record p { scan_events = p.events }) in
    let noted = record taken {
      active = note_class (request_key request) request.capacity_class taken.active;
    } in
    let seen = look completed request noted in
    let picked =
      choose (generations (sort_by (nearer prefer) seen.same_class)) (arrive pins noted) in
    let spare = drop noted.config.spare_free picked.rest in
    let (q, count) = release_all (generations seen.superseded ++ spare) picked.pool in
    finish allocate completed request picked.chosen
      (record { allocated = false; released = u32 count; write_after = 0 }) q
