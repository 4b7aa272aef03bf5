-- ===== src/BackingPool/Circulation.antt =====
-- Where each backing of a pool is: leased, or waiting once on the return stack or the free list.
use orgmodule_services.Common.{
  ℕ, ◌+◌, ◌≡◌, refl, ap, inl, inr, Bool, true, false, not, ◌&&◌, Option, none, some, leb, ◌==◌,
  if◌then◌else◌, u32, List, [], ◌∷◌, keep_if, arith, Bool-cases, Option-cases, All,
}
use orgmodule_services.BackingPool.Backing.{Backing, try_claim}
use orgmodule_services.BackingPool.Store.{
  lookup, modify, occ, is_known, lookup-modify, lookup-remove, occ-append, occ-erase, occ-keep_if,
}
use orgmodule_services.BackingPool.State.{
  Pool, Config, create, take_returned, release_backing, claim_release, release_all, claim_reuse,
  recirculate, lease_free,
}

-- A backing with no lease waits; one that is not of the pool does not.
abbrev pub waiting : Option Backing → ℕ
waiting none = 0
waiting (some b) = if b.leases == 0 then 1 else 0

abbrev pub named : ℕ → Option Backing → Bool
named g none = true
named g (some b) = not b.retired && b.generation == g

-- The invariant at one generation: the backing waits exactly while it has no lease, and then once;
-- it is in circulation; generations not yet given are of no backing.
pub record IsPlaced (p : Pool) (g : ℕ) : Type 0 where
  pub waits : occ g p.free + occ g p.returned ≡ waiting (lookup g p.all)
  pub circulates : named g (lookup g p.all) ≡ true
  pub fresh : (leb p.next_generation g && is_known p.all g) ≡ false

abbrev pub Inv : Pool → Type 0
Inv p = (g : ℕ) → IsPlaced p g

pub create-Inv : (config : Config) → Inv (create config)
unfolding create lookup
create-Inv config g = record { waits = omega arith; circulates = refl; fresh = ground arith }

pub take_returned-Inv : (p : Pool) → Inv p → Inv (take_returned p)
unfolding take_returned
take_returned-Inv p v g = ground (
  arith,
  v g,
  occ-append g p.free (keep_if (is_known p.all) p.returned),
  occ-keep_if g (is_known p.all) p.returned,
)

pub lease_free-Inv : (h : ℕ) (p : Pool) → occ h p.free ≡ 1 → Inv p → Inv (lease_free h p)
unfolding lease_free
lease_free-Inv h p e v g = ground (
  arith,
  v g,
  v h,
  occ-erase g h p.free,
  lookup-modify g h (λ b. record b { leases = u32 (b.leases + 1) }) p.all (λ b. refl),
)

-- A write to one backing that keeps whether it is leased and its place in circulation.
modify-Inv :
    (h : ℕ) (f : Backing → Backing) (p : Pool) (b : Backing)
    → lookup h p.all ≡ some b
    → ((x : Backing) → (f x).generation ≡ x.generation)
    → ((f b).leases == 0) ≡ (b.leases == 0)
    → (f b).retired ≡ false
    → Inv p
    → Inv (record p { all = modify h f p.all })
modify-Inv h f p b e k l r v g = modified (lookup g p.all) refl
  where
    modified :
        (o : Option Backing) → lookup g p.all ≡ o → IsPlaced (record p { all = modify h f p.all }) g
    modified none e' = ground (arith, v g, lookup-modify g h f p.all k)
    modified (some c) e' = elim (Bool-cases (h == g)) [
      | inl hit ↦
          let same : h ≡ g = ground arith in
          ground (arith, v g, lookup-modify g h f p.all k, k b, ap (λ n. lookup n p.all) same)
      | inr miss ↦ ground (arith, v g, lookup-modify g h f p.all k)
    ]

-- What is claimed for release is free, if it is still of the pool.
abbrev pub CanGo : Pool → ℕ → Type 0
CanGo p g = is_known p.all g ≡ true → occ g p.free ≡ 1

claim-generation : (b : Backing) → ((try_claim b).0).generation ≡ b.generation
unfolding try_claim
claim-generation b = ground arith

claim-leases : (b : Backing) → ((try_claim b).0).leases ≡ b.leases
unfolding try_claim
claim-leases b = ground arith

claim-refused :
    (b : Backing)
    → (try_claim b).1 ≡ false
    → (((try_claim b).0).leases ≡ b.leases) × (((try_claim b).0).retired ≡ false)
unfolding try_claim
claim-refused b h = ground arith

known : (h : ℕ) (b : Backing) (p : Pool) → lookup h p.all ≡ some b → is_known p.all h ≡ true
known h b p e = ground arith

claim-won :
    (b : Backing)
    → (try_claim b).1 ≡ true
    → (b.binding_consumers ≡ 0)
      × (recirculate (try_claim b).0 ≡ record b { retired = false; sealed_bytes = 0 })
unfolding try_claim
claim-won b h = ground arith

-- The three ways a claim for release ends: nothing to claim, refused, released.
pub claim_release-cases {ℓ} :
    (P : Pool → Type ℓ) (h : ℕ) (p : Pool)
    → (lookup h p.all ≡ none → P p)
    → ((b : Backing)
        → lookup h p.all ≡ some b
        → (try_claim b).1 ≡ false
        → P (record p { all = modify h (λ x. (try_claim x).0) p.all }))
    → ((b : Backing)
        → lookup h p.all ≡ some b
        → P (release_backing h b (record p { all = modify h (λ x. (try_claim x).0) p.all })))
    → P (claim_release h p).0
unfolding claim_release
claim_release-cases P h p missing refused released = elim (Option-cases (lookup h p.all)) [
  | inl e ↦ rw (e, claim_release) (missing e)
  | inr (b, e) ↦
      rw (e, claim_release)
        (elim (Bool-cases (try_claim b).1) [
          | inl won ↦ rw won (released b e)
          | inr lost ↦ rw lost (refused b e lost)
        ])
]

pub claim_release-Inv : (h : ℕ) (p : Pool) → CanGo p h → Inv p → Inv (claim_release h p).0
unfolding release_backing
claim_release-Inv h p c v =
    claim_release-cases Inv h p (λ e. v)
      (λ b e lost.
        modify-Inv h (λ x. (try_claim x).0) p b e claim-generation
          (ap (λ n. n == 0) (claim-refused b lost).0) (claim-refused b lost).1 v)
      (λ b e g. ground (
        arith,
        v g,
        v h,
        c (known h b p e),
        occ-erase g h p.free,
        lookup-modify g h (λ x. (try_claim x).0) p.all claim-generation,
        lookup-remove g h (modify h (λ x. (try_claim x).0) p.all),
      ))

pub claim_release-CanGo : (h : ℕ) (p : Pool) (g : ℕ) → CanGo p g → CanGo (claim_release h p).0 g
unfolding release_backing
claim_release-CanGo h p g c =
    claim_release-cases (λ q. CanGo q g) h p (λ e. c)
      (λ b e lost.
        ground (arith, lookup-modify g h (λ x. (try_claim x).0) p.all claim-generation, c))
      (λ b e. ground (
        arith,
        c,
        occ-erase g h p.free,
        lookup-modify g h (λ x. (try_claim x).0) p.all claim-generation,
        lookup-remove g h (modify h (λ x. (try_claim x).0) p.all),
      ))

pub release_all-Inv : (gs : List ℕ) (p : Pool) → All (CanGo p) gs → Inv p → Inv (release_all gs p).0
unfolding release_all
release_all-Inv [] p c v = v
release_all-Inv (g ∷ gs) p c v =
    release_all-Inv gs (claim_release g p).0 (keeps gs c.1) (claim_release-Inv g p c.0 v)
  where
    keeps : (hs : List ℕ) → All (CanGo p) hs → All (CanGo (claim_release g p).0) hs
    keeps [] c = tt
    keeps (h ∷ hs) c = (claim_release-CanGo g p h c.0, keeps hs c.1)

-- Other backings are left alone.
claim_release-other :
    (h : ℕ) (p : Pool) (g : ℕ)
    → (h == g) ≡ false
    → (lookup g (claim_release h p).0.all ≡ lookup g p.all)
      × (occ g (claim_release h p).0.free ≡ occ g p.free)
unfolding release_backing
claim_release-other h p g ne =
    claim_release-cases (λ q. (lookup g q.all ≡ lookup g p.all) × (occ g q.free ≡ occ g p.free)) h p
      (λ e. (refl, refl))
      (λ b e lost. ground (arith, lookup-modify g h (λ x. (try_claim x).0) p.all claim-generation))
      (λ b e. ground (
        arith,
        occ-erase g h p.free,
        lookup-modify g h (λ x. (try_claim x).0) p.all claim-generation,
        lookup-remove g h (modify h (λ x. (try_claim x).0) p.all),
      ))

pub release_all-other :
    (gs : List ℕ) (p : Pool) (g : ℕ)
    → occ g gs ≡ 0
    → (lookup g (release_all gs p).0.all ≡ lookup g p.all)
      × (occ g (release_all gs p).0.free ≡ occ g p.free)
unfolding release_all
release_all-other [] p g z = (refl, refl)
release_all-other (h ∷ hs) p g z = ground (
  arith,
  claim_release-other h p g (ground arith),
  release_all-other hs (claim_release h p).0 g (ground arith),
)

-- A claim for reuse leaves the lists alone, and succeeds for a backing with no consumer alone.
pub claim_reuse-Inv : (h : ℕ) (p : Pool) → Inv p → Inv (claim_reuse h p).0
unfolding claim_reuse
claim_reuse-Inv h p v = elim (Option-cases (lookup h p.all)) [
  | inl e ↦ rw (e, claim_reuse) v
  | inr (b, e) ↦
      rw (e, claim_reuse)
        (elim (Bool-cases (try_claim b).1) [
          | inl won ↦ rw won (
              modify-Inv h (λ x. recirculate (try_claim x).0) p b e claim-generation
                (ap (λ n. n == 0) (claim-leases b)) refl v)
          | inr lost ↦ rw lost (
              modify-Inv h (λ x. (try_claim x).0) p b e claim-generation
                (ap (λ n. n == 0) (claim-leases b)) (claim-refused b lost).1 v)
        ])
]

pub claim_reuse-lists :
    (h : ℕ) (p : Pool)
    → ((claim_reuse h p).0.free ≡ p.free)
      × ((claim_reuse h p).0.config ≡ p.config)
      × ((claim_reuse h p).0.next_generation ≡ p.next_generation)
unfolding claim_reuse
claim_reuse-lists h p = ground arith

pub claim_reuse-other :
    (h : ℕ) (p : Pool) (g : ℕ)
    → (h == g) ≡ false
    → lookup g (claim_reuse h p).0.all ≡ lookup g p.all
unfolding claim_reuse
claim_reuse-other h p g ne = elim (Option-cases (lookup h p.all)) [
  | inl e ↦ rw (e, claim_reuse) refl
  | inr (b, e) ↦
      rw (e, claim_reuse)
        (elim (Bool-cases (try_claim b).1) [
          | inl won ↦ rw won (
              ground (
                arith,
                lookup-modify g h (λ x. recirculate (try_claim x).0) p.all claim-generation,
              ))
          | inr lost ↦
              rw lost
                (ground (arith, lookup-modify g h (λ x. (try_claim x).0) p.all claim-generation))
        ])
]

pub claim_reuse-won :
    (h : ℕ) (p : Pool)
    → (claim_reuse h p).1 ≡ true
    → (b : Backing) × (lookup h p.all ≡ some b)
      × (b.binding_consumers ≡ 0)
      × (lookup h (claim_reuse h p).0.all ≡ some (record b { retired = false; sealed_bytes = 0 }))
unfolding claim_reuse
claim_reuse-won h p won = elim (Option-cases (lookup h p.all)) [
  | inl e ↦ absurd (missed (rw (e, claim_reuse) at won))
  | inr (b, e) ↦ elim (Bool-cases (try_claim b).1) [
    | inl free ↦ (
      b,
      e,
      (claim-won b free).0,
      rw (e, claim_reuse)
          (rw free (
            rw (lookup-modify h h (λ x. recirculate (try_claim x).0) p.all claim-generation, e)
              (ground (arith, claim-won b free)))),
    )
    | inr lost ↦ absurd (missed (rw lost at (rw (e, claim_reuse) at won)))
  ]
]
  where
    missed : false ≡ true → ⊥
    missed h = cc
