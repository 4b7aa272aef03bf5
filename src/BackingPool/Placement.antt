-- ===== src/BackingPool/Placement.antt =====
-- The steps of an Acquire keep every backing in its place: what other threads pin meanwhile, what is
-- released, allocated or leased.
use mathlib.Core.Option
use orgmodule_services.Common.{
  ℕ, ◌≤◌, ◌<◌, ◌≡◌, refl, ap, ◌∙◌, List, [], ◌∷◌, map, arith, All, u64_max,
}
use orgmodule_services.BackingPool.Backing.{Backing, BackingRequest, BackingAllocation}
use orgmodule_services.BackingPool.Store.{lookup, occ, lookup-append}
use orgmodule_services.BackingPool.State.{
  Pool, add_backing, fresh_backing, arm_availability, release_all, claim_release, release_backing,
}
use orgmodule_services.BackingPool.Acquire.{pin, arrive}
use orgmodule_services.BackingPool.Circulation.{Inv, CanGo, claim_release-cases}

-- The lists and the next generation alone decide the invariant.
pub lists-Inv :
    (p q : Pool)
    → q.all ≡ p.all
    → q.free ≡ p.free
    → q.returned ≡ p.returned
    → q.next_generation ≡ p.next_generation
    → Inv p
    → Inv q
lists-Inv p q a f r n v g =
    ground (arith, v g, ap (λ x. lookup g x) a, ap (λ x. occ g x) f, ap (λ x. occ g x) r)

lookup-pin :
    (g : ℕ) (pins : ℕ → ℕ) (bs : List Backing)
    → lookup g (map (pin pins) bs) ≡ Option.map (pin pins) (lookup g bs)
unfolding lookup
lookup-pin g pins [] = refl
lookup-pin g pins (b ∷ bs) = ground (arith, lookup-pin g pins bs)

pub lookup-arrive :
    (g : ℕ) (pins : ℕ → ℕ) (p : Pool)
    → lookup g (arrive pins p).all ≡ Option.map (pin pins) (lookup g p.all)
unfolding arrive
lookup-arrive g pins p = lookup-pin g pins p.all

pub arrive-Inv : (pins : ℕ → ℕ) (p : Pool) → Inv p → Inv (arrive pins p)
unfolding arrive
arrive-Inv pins p v g = ground (arith, v g, lookup-pin g pins p.all)

pub add_backing-Inv :
    (request : BackingRequest) (made : BackingAllocation) (p : Pool)
    → p.next_generation < u64_max
    → Inv p
    → Inv (add_backing request made p)
unfolding add_backing
add_backing-Inv request made p small v g =
    ground (arith, v g, lookup-append g p.all (fresh_backing request made p.next_generation))

pub arm_availability-Inv :
    (completed : ℕ) (request : BackingRequest) (p : Pool)
    → Inv p
    → Inv (arm_availability completed request p)
unfolding arm_availability
arm_availability-Inv completed request p v =
    lists-Inv p (arm_availability completed request p) (ground arith) (ground arith) (ground arith)
      (ground arith) v

-- Backings named at most as often as they are free can go.
pub CanGo-occ :
    (p : Pool) (gs : List ℕ) → ((k : ℕ) → occ k gs ≤ occ k p.free) → Inv p → All (CanGo p) gs
CanGo-occ p gs few v = each gs (λ k. omega (arith, few k))
  where
    each : (hs : List ℕ) → ((k : ℕ) → occ k hs ≤ occ k p.free) → All (CanGo p) hs
    each [] less = tt
    each (h ∷ hs) less =
        (λ known. ground (arith, less h, v h), each hs (λ k. omega (arith, less k)))

claim_release-lists :
    (h : ℕ) (p : Pool)
    → ((claim_release h p).0.config ≡ p.config)
      × ((claim_release h p).0.next_generation ≡ p.next_generation)
unfolding release_backing
claim_release-lists h p =
    claim_release-cases (λ q. (q.config ≡ p.config) × (q.next_generation ≡ p.next_generation)) h p
      (λ e. (refl, refl)) (λ b e lost. (refl, refl)) (λ b e. (refl, refl))

pub release_all-lists :
    (gs : List ℕ) (p : Pool)
    → ((release_all gs p).0.config ≡ p.config)
      × ((release_all gs p).0.next_generation ≡ p.next_generation)
unfolding release_all
release_all-lists [] p = (refl, refl)
release_all-lists (g ∷ gs) p =
    let (c, n) = claim_release-lists g p in
    let (c', n') = release_all-lists gs (claim_release g p).0 in (c' ∙ c, n' ∙ n)
