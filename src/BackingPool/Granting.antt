-- ===== src/BackingPool/Granting.antt =====
-- `BackingPool::Acquire` as a whole: its result is exclusive, and the pool stays in order.
use orgmodule_services.Common.{
  ℕ, ◌+◌, ◌≤◌, ◌<◌, ◌≡◌, refl, sym, ap, subst, ◌∙◌, inl, inr, true, false, ◌&&◌, Option, none, some,
  ◌==◌, List, ◌++◌, keep_if, drop, arith, Bool-cases, Option-cases, All, u32, u64_max,
}
use orgmodule_services.BackingPool.Backing.{
  Backing, BackingRequest, BackingAllocation, same_key, key_of, request_key, reusable, sort_by,
  nearer,
}
use orgmodule_services.BackingPool.Store.{lookup, occ, occ-append}
use orgmodule_services.BackingPool.State.{
  Pool, take_returned, note_class, release_all, claim_reuse, lease_free, of_class, backings_of,
}
use orgmodule_services.BackingPool.Acquire.{
  AcquireInfo, Outcome, leased, class_full, exhaust_or_allocate, reuse_bound_backing, or_else,
  acquire_other, finish, acquire, oldest_bound, is_bound_candidate, look, choose, Choice, arrive,
  generations, pin,
}
use orgmodule_services.BackingPool.Circulation.{
  Inv, CanGo, take_returned-Inv, claim_reuse-Inv, claim_reuse-lists, claim_reuse-won,
  release_all-Inv, release_all-other,
}
use orgmodule_services.BackingPool.Candidates.{
  Named, backings_of-Named, All-keep_if, All-sort_by, All-found, oldest_bound-All, occ-backings_of,
  occ-partition, occ-keep, occ-sort_by, occ-drop,
}
use orgmodule_services.BackingPool.Choosing.{Chose, choose-Chose, IsChosen}
use orgmodule_services.BackingPool.Placement.{
  lists-Inv, arrive-Inv, lookup-arrive, CanGo-occ, release_all-lists,
}
use orgmodule_services.BackingPool.Exclusive.{
  IsIdle, Granted, lease_free-Granted, exhaust_or_allocate-Granted,
}

bound-free :
    (request : BackingRequest) (b : Backing)
    → is_bound_candidate request b ≡ true
    → (of_class (request_key request) request.capacity_class b ≡ true)
      × ((b.leases ≡ 0) × (b.readback_pins ≡ 0))
bound-free request b h = ground (arith, h)

module _ (allocate : BackingRequest → Option BackingAllocation) (completed : ℕ)
    (request : BackingRequest) where
  -- The bound backing that is claimed is leased, or what else is done.
  reuse_bound_backing-Granted :
      (info : AcquireInfo) (p : Pool) (b : Backing) (other : Pool × Outcome)
      → Named p.all p.free b
      → is_bound_candidate request b ≡ true
      → Inv p
      → Granted allocate completed request other
      → Granted allocate completed request (or_else (reuse_bound_backing b info p) other)
  unfolding reuse_bound_backing
  reuse_bound_backing-Granted info p b other named candidate v g =
      elim (Bool-cases (claim_reuse b.generation p).1) [
        | inl won ↦ rw (won, reuse_bound_backing) (claimed (claim_reuse-won b.generation p won))
        | inr lost ↦ rw (lost, reuse_bound_backing) g
      ]
    where
      q : Pool
      q = (claim_reuse b.generation p).0

      info' : AcquireInfo
      info' = record info { write_after = b.safe_at }

      claimed :
          ((c : Backing) × (lookup b.generation p.all ≡ some c)
            × (c.binding_consumers ≡ 0)
            × (lookup b.generation q.all ≡ some (record c { retired = false; sealed_bytes = 0 })))
          → Granted allocate completed request
              (lease_free b.generation q, leased b.generation info')
      claimed (c, e, z, e') =
          let same : c ≡ b = ground (arith, named.0, e) in
          let free : q.free ≡ p.free = (claim_reuse-lists b.generation p).0 in
          lease_free-Granted allocate completed request b.generation info' q
            (record c { retired = false; sealed_bytes = 0 }) e'
            (record {
              unleased = ground (arith, same, (bound-free request b candidate).1);
              circulates = refl;
              unpinned = ground (arith, same, (bound-free request b candidate).1);
              unconsumed = z;
              asked =
                  subst (λ x. of_class (request_key request) request.capacity_class x ≡ true)
                    (sym same) (bound-free request b candidate).0;
              passed = ground (arith, same);
            })
            (ground (arith, free, named.0, named.1, v b.generation))
            (claim_reuse-Inv b.generation p v)

  acquire_other-Granted :
      (info : AcquireInfo) (p : Pool)
      → p.next_generation < u64_max
      → Inv p
      → Granted allocate completed request (acquire_other allocate completed request info p)
  unfolding acquire_other
  acquire_other-Granted info p small v =
      elim (Bool-cases (class_full request p && p.config.reuse_bound)) [
        | inl bound ↦
            rw (bound, acquire_other)
              (elim (Option-cases oldest) [
                | inl e ↦ rw e other
                | inr (b, e) ↦
                    let (named, candidate) =
                      oldest_bound-All
                        (λ x. Named p.all p.free x × (is_bound_candidate request x ≡ true))
                        (keep_if (is_bound_candidate request) (backings_of p.all p.free)) none b
                        (All-keep_if (Named p.all p.free) (is_bound_candidate request)
                          (backings_of p.all p.free) (backings_of-Named p.all p.free))
                        (λ c n. absurd cc) e in
                    rw e (
                      reuse_bound_backing-Granted info p b
                        (exhaust_or_allocate allocate completed request info p) named candidate v
                        other)
              ])
        | inr free ↦ rw (free, acquire_other) other
      ]
    where
      oldest : Option Backing
      oldest = oldest_bound (keep_if (is_bound_candidate request) (backings_of p.all p.free)) none

      other :
          Granted allocate completed request (exhaust_or_allocate allocate completed request info p)
      other = exhaust_or_allocate-Granted allocate completed request info p small v

-- What the look at the free list finds is free, each backing once in one of the two lists.
look-occ :
    (k completed : ℕ) (request : BackingRequest) (p : Pool)
    → occ k (generations (look completed request p).same_class)
        + occ k (generations (look completed request p).superseded)
      ≤ occ k p.free
unfolding look
look-occ k completed request p =
    let at_hand = backings_of p.all p.free in
    let fits = λ (b : Backing). same_key (key_of b) (request_key request) && reusable completed b in
    omega (
      arith,
      occ-partition k (λ b. b.capacity_class == request.capacity_class) (keep_if fits at_hand),
      occ-keep k fits at_hand,
      occ-backings_of k p.all p.free,
    )

-- A candidate: free, of the asked class, and reusable.
abbrev IsCandidate : ℕ → BackingRequest → Pool → Backing → Type 0
IsCandidate completed request p b =
    ((Named p.all p.free b)
      × ((same_key (key_of b) (request_key request) && reusable completed b) ≡ true))
    × ((b.capacity_class == request.capacity_class) ≡ true)

look-All :
    (completed : ℕ) (request : BackingRequest) (p : Pool)
    → All (IsCandidate completed request p) (look completed request p).same_class
unfolding look
look-All completed request p =
    let at_hand = backings_of p.all p.free in
    let fits = λ (b : Backing). same_key (key_of b) (request_key request) && reusable completed b in
    All-keep_if (λ b. Named p.all p.free b × (fits b ≡ true))
      (λ b. b.capacity_class == request.capacity_class) (keep_if fits at_hand)
      (All-keep_if (Named p.all p.free) fits at_hand (backings_of-Named p.all p.free))

-- A candidate that the claim finds without consumers is idle.
candidate-IsIdle :
    (completed : ℕ) (request : BackingRequest) (info : AcquireInfo) (p : Pool) (b c : Backing)
    (pins : ℕ → ℕ)
    → IsCandidate completed request p b
    → c ≡ pin pins b
    → c.binding_consumers ≡ 0
    → IsIdle completed request info (record c { retired = false; sealed_bytes = 0 })
unfolding reusable
candidate-IsIdle completed request info p b c pins ((n, fits), class) same z = record {
  unleased = ground (arith, fits, same);
  circulates = refl;
  unpinned = ground (arith, fits, same);
  unconsumed = z;
  asked = ground (arith, fits, class, same);
  passed = ground (arith, fits, same);
}

module _ (allocate : BackingRequest → Option BackingAllocation) (pins : ℕ → ℕ) (completed : ℕ)
    (request : BackingRequest) (prefer : ℕ) (p : Pool) (small : p.next_generation < u64_max)
    (v : Inv p) where
  abbrev same_class : List Backing
  same_class = sort_by (nearer prefer) (look completed request p).same_class

  abbrev picked : Choice
  picked = choose (generations same_class) (arrive pins p)

  abbrev gone : List ℕ
  gone = generations (look completed request p).superseded ++ drop p.config.spare_free picked.rest

  candidates-occ :
      (k : ℕ)
      → occ k (generations same_class) + occ k (generations (look completed request p).superseded)
        ≤ occ k p.free
  candidates-occ k = omega (
    arith,
    look-occ k completed request p,
    occ-sort_by k (nearer prefer) (look completed request p).same_class,
  )

  candidates-once : (k : ℕ) → occ k (generations same_class) ≤ 1
  candidates-once k = ground (arith, candidates-occ k, v k)

  choice : Chose (arrive pins p) (generations same_class) picked
  choice =
      choose-Chose (generations same_class) (arrive pins p) candidates-once (arrive-Inv pins p v)

  picked-free : picked.pool.free ≡ p.free
  unfolding arrive
  picked-free = choice.free

  gone-occ :
      (k : ℕ)
      → occ k gone ≤ occ k (generations (look completed request p).superseded) + occ k picked.rest
  gone-occ k = omega (
    arith,
    occ-append k (generations (look completed request p).superseded)
        (drop p.config.spare_free picked.rest),
    occ-drop k p.config.spare_free picked.rest,
  )

  gone-CanGo : All (CanGo picked.pool) gone
  gone-CanGo =
      CanGo-occ picked.pool gone
        (λ k. omega (arith, gone-occ k, choice.fewer k, candidates-occ k, ap (occ k) picked-free))
        choice.inv

  abbrev rest : Pool
  rest = (release_all gone picked.pool).0

  rest-Inv : Inv rest
  rest-Inv = release_all-Inv gone picked.pool gone-CanGo choice.inv

  rest-small : rest.next_generation < u64_max
  unfolding arrive
  rest-small = omega (arith, (release_all-lists gone picked.pool).1, choice.next, small)

  finish-Granted :
      (info : AcquireInfo) (o : Option ℕ)
      → IsChosen (arrive pins p) (generations same_class) picked o
      → Granted allocate completed request (finish allocate completed request o info rest)
  unfolding finish
  finish-Granted info none h =
      acquire_other-Granted allocate completed request info rest rest-small rest-Inv
  finish-Granted info (some g) (n, (c, e, z, e')) =
      lease_free-Granted allocate completed request g info rest
        (record c { retired = false; sealed_bytes = 0 }) (kept.0 ∙ e') idle
        (ground (arith, kept.1, ap (occ g) picked-free, candidates-occ g, n, v g)) rest-Inv
    where
      kept :
          (lookup g rest.all ≡ lookup g picked.pool.all)
          × (occ g rest.free ≡ occ g picked.pool.free)
      kept =
          release_all-other gone picked.pool g
            (ground (arith, gone-occ g, candidates-occ g, n, v g))

      found : (b : Backing) × (IsCandidate completed request p b) × (b.generation ≡ g)
      found =
          All-found (IsCandidate completed request p) g same_class
            (All-sort_by (IsCandidate completed request p) (nearer prefer)
              (look completed request p).same_class (look-All completed request p))
            (omega (arith, n))

      idle : IsIdle completed request info (record c { retired = false; sealed_bytes = 0 })
      idle =
          let (b, candidate, same) = found in
          candidate-IsIdle completed request info p b c pins candidate
            (ground (arith, e, lookup-arrive g pins p, candidate.0.0.0, same)) z

-- The pool with the returned backings taken in and the class noted.
abbrev prepared : BackingRequest → Pool → Pool
prepared request p =
    let taken = take_returned (record p { scan_events = p.events }) in
    record taken { active = note_class (request_key request) request.capacity_class taken.active }

prepared-Inv : (request : BackingRequest) (p : Pool) → Inv p → Inv (prepared request p)
prepared-Inv request p v =
    lists-Inv (take_returned scanned) (prepared request p) refl refl refl refl
      (take_returned-Inv scanned (lists-Inv p scanned refl refl refl refl v))
  where
    scanned : Pool
    scanned = record p { scan_events = p.events }

-- From a pool in order, whatever other threads pin meanwhile, and while generations are left:
-- the pool stays in order; a lease is of a backing of the asked class and key in circulation that
-- this lease alone holds, with no pin and no consumer, and whose bound points the clock has
-- completed or `write_after` names; no lease is given only where the class is full; and the call
-- throws only where the allocation hook does.
pub acquire-Granted :
    (allocate : BackingRequest → Option BackingAllocation) (pins : ℕ → ℕ) (completed : ℕ)
    (request : BackingRequest) (prefer : ℕ) (p : Pool)
    → p.next_generation < u64_max
    → Inv p
    → Granted allocate completed request (acquire allocate pins completed request prefer p)
unfolding acquire take_returned
acquire-Granted allocate pins completed request prefer p small v =
    finish-Granted allocate pins completed request prefer (prepared request p) small
      (prepared-Inv request p v)
      (record {
        allocated = false;
        released =
            u32
              (release_all
                (gone allocate pins completed request prefer (prepared request p) small
                  (prepared-Inv request p v))
                (picked allocate pins completed request prefer (prepared request p) small
                  (prepared-Inv request p v)).pool).1;
        write_after = 0;
      })
      (picked allocate pins completed request prefer (prepared request p) small
        (prepared-Inv request p v)).chosen
      (choice allocate pins completed request prefer (prepared request p) small
        (prepared-Inv request p v)).chosen
