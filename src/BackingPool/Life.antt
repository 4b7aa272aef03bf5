-- ===== src/BackingPool/Life.antt =====
-- The operations between Acquires, and Trim, keep every backing in its place.
use orgmodule_services.Common.{
  ℕ, ◌+◌, ◌-◌, ◌≤◌, ◌≡◌, refl, inl, inr, Bool, true, false, not, ◌&&◌, Option, none, some, ltb, leb,
  ◌==◌, List, [], ◌∷◌, ◌++◌, keep_if, arith, Bool-cases, Option-cases, All, u32, u32_max,
}
use orgmodule_services.BackingPool.Backing.{Backing, bind, key_of, same_key, reusable, sort_by}
use orgmodule_services.BackingPool.Store.{lookup, modify, occ, lookup-modify}
use orgmodule_services.BackingPool.State.{
  Pool, Active, raise_event, take_returned, backings_of, sub32,
}
use orgmodule_services.BackingPool.Upkeep.{
  copy_lease, bind_lease, push_returned, release_lease, pin_consumer, unpin_consumer,
  subscribe_availability, clock_wake, set_contents, beyond_spares, trim_list, trim, newest_first,
}
use orgmodule_services.BackingPool.Circulation.{
  Inv, IsPlaced, CanGo, take_returned-Inv, release_all-Inv,
}
use orgmodule_services.BackingPool.Candidates.{Named, backings_of-Named, All-keep_if, All-sort_by}
use orgmodule_services.BackingPool.Placement.{lists-Inv}

raise_event-Inv : (p : Pool) → Inv p → Inv (raise_event p)
unfolding raise_event
raise_event-Inv p v = lists-Inv p (raise_event p) refl refl refl refl v

-- A write that keeps each backing's leases and its mark.
pub write-Inv :
    (g : ℕ) (f : Backing → Backing) (p : Pool)
    → ((b : Backing)
        → ((f b).generation ≡ b.generation)
          × (((f b).leases ≡ b.leases) × ((f b).retired ≡ b.retired)))
    → Inv p
    → Inv (record p { all = modify g f p.all })
write-Inv g f p same v k = placed (lookup k p.all) refl
  where
    placed :
        (o : Option Backing) → lookup k p.all ≡ o → IsPlaced (record p { all = modify g f p.all }) k
    placed none e = ground (arith, v k, e, lookup-modify k g f p.all (λ b. (same b).0))
    placed (some b) e = ground (arith, v k, e, lookup-modify k g f p.all (λ x. (same x).0), same b)

-- The backing has a lease, and their number is one of `std::uint32_t`.
abbrev pub is_leased : ℕ → Pool → Bool
is_leased g p = elim (lookup g p.all) [
  | none ↦ false
  | some b ↦ not (b.leases == 0) && leb b.leases u32_max
]

-- One more lease fits its counter.
abbrev pub has_room : ℕ → Pool → Bool
has_room g p = elim (lookup g p.all) [ none ↦ false | some b ↦ ltb b.leases u32_max ]

pub copy_lease-Inv :
    (g : ℕ) (p : Pool) → (is_leased g p && has_room g p) ≡ true → Inv p → Inv (copy_lease g p)
unfolding copy_lease
copy_lease-Inv g p h v k = ground (
  arith,
  v k,
  v g,
  h,
  lookup-modify k g (λ b. record b { leases = u32 (b.leases + 1) }) p.all (λ b. refl),
)

pub release_lease-Inv : (g : ℕ) (p : Pool) → is_leased g p ≡ true → Inv p → Inv (release_lease g p)
unfolding release_lease push_returned raise_event
release_lease-Inv g p h v k = elim (Option-cases (lookup g p.all)) [
  | inl e ↦ rw (e, release_lease) (v k)
  | inr (b, e) ↦
      rw (e, release_lease)
        (ground (
          arith,
          v k,
          v g,
          h,
          lookup-modify k g (λ x. record x { leases = sub32 x.leases 1 }) p.all (λ x. refl),
        ))
]

pub bind_lease-Inv : (g point : ℕ) (p : Pool) → Inv p → Inv (bind_lease g point p)
unfolding bind_lease bind
bind_lease-Inv g point p v = write-Inv g (bind point) p (λ b. ground arith) v

pub set_contents-Inv : (g epoch : ℕ) (p : Pool) → Inv p → Inv (set_contents g epoch p)
unfolding set_contents
set_contents-Inv g epoch p v =
    write-Inv g (λ b. record b { content_epoch = epoch }) p (λ b. (refl, (refl, refl))) v

pub pin_consumer-Inv : (g : ℕ) (p : Pool) → Inv p → Inv (pin_consumer g p).0
unfolding pin_consumer
pin_consumer-Inv g p v = elim (Option-cases (lookup g p.all)) [
  | inl e ↦ rw (e, pin_consumer) v
  | inr (b, e) ↦
      rw (e, pin_consumer)
        (elim (Bool-cases b.retired) [
          | inl claimed ↦ rw claimed (elim (Bool-cases (b.binding_consumers == 0)) [
            | inl first ↦ rw first (raise_event-Inv p v)
            | inr more ↦ rw more v
          ])
          | inr free ↦ rw free (
              write-Inv g (λ x. record x { binding_consumers = u32 (x.binding_consumers + 1) }) p
                (λ x. (refl, (refl, refl))) v)
        ])
]

pub unpin_consumer-Inv : (g : ℕ) (p : Pool) → Inv p → Inv (unpin_consumer g p)
unfolding unpin_consumer
unpin_consumer-Inv g p v = elim (Option-cases (lookup g p.all)) [
  | inl e ↦ rw (e, unpin_consumer) v
  | inr (b, e) ↦
      rw (e, unpin_consumer)
        (elim (Bool-cases (b.binding_consumers == 1)) [
          | inl last ↦ rw last (raise_event-Inv q kept)
          | inr more ↦ rw more kept
        ])
]
  where
    q : Pool
    q = record p {
      all = modify g (λ x. record x { binding_consumers = sub32 x.binding_consumers 1 }) p.all;
    }

    kept : Inv q
    kept =
        write-Inv g (λ x. record x { binding_consumers = sub32 x.binding_consumers 1 }) p
          (λ x. (refl, (refl, refl))) v

pub subscribe_availability-Inv :
    (identity : ℕ) (p : Pool) → Inv p → Inv (subscribe_availability identity p)
unfolding subscribe_availability raise_event
subscribe_availability-Inv identity p v =
    lists-Inv p (subscribe_availability identity p) (ground arith) (ground arith) (ground arith)
      (ground arith) v

pub clock_wake-Inv : (point : ℕ) (p : Pool) → Inv p → Inv (clock_wake point p)
unfolding clock_wake raise_event
clock_wake-Inv point p v =
    lists-Inv p (clock_wake point p) (ground arith) (ground arith) (ground arith) (ground arith) v

-- What a trim releases is free.
abbrev Frees : Pool → List ℕ → Type 0
Frees p gs = All (λ g. 1 ≤ occ g p.free) gs

beyond_spares-Frees :
    (class spare : ℕ) (p : Pool) (bs : List Backing)
    → All (λ b. 1 ≤ occ b.generation p.free) bs
    → Frees p (beyond_spares class spare bs)
unfolding beyond_spares
beyond_spares-Frees class spare p [] h = tt
beyond_spares-Frees class spare p (b ∷ bs) h =
    elim (Bool-cases (b.capacity_class == class && ltb 0 spare)) [
      | inl kept ↦ rw (kept, beyond_spares) (beyond_spares-Frees class (spare - 1) p bs h.1)
      | inr gone ↦ rw (gone, beyond_spares) (h.0, beyond_spares-Frees class spare p bs h.1)
    ]

All-append {ℓ κ} :
    {A : Type κ} (P : A → Type ℓ) (xs ys : List A) → All P xs → All P ys → All P (xs ++ ys)
All-append P [] ys h k = k
All-append P (x ∷ xs) ys h k = (h.0, All-append P xs ys h.1 k)

All-map {ℓ κ μ} :
    {A : Type κ} (P : A → Type ℓ) (Q : A → Type μ) (xs : List A)
    → ((x : A) → P x → Q x)
    → All P xs
    → All Q xs
All-map P Q [] f h = tt
All-map P Q (x ∷ xs) f h = (f x h.0, All-map P Q xs f h.1)

trim_list-Frees :
    (completed : ℕ) (p : Pool) (active : List Active) → Frees p (trim_list completed p active)
unfolding trim_list
trim_list-Frees completed p [] = tt
trim_list-Frees completed p (a ∷ rest) =
    All-append (λ g. 1 ≤ occ g p.free)
      (beyond_spares a.capacity_class p.config.spare_free (sort_by newest_first candidates))
      (trim_list completed p rest)
      (beyond_spares-Frees a.capacity_class p.config.spare_free p (sort_by newest_first candidates)
        (All-sort_by (λ b. 1 ≤ occ b.generation p.free) newest_first candidates
          (All-map (λ b. Named p.all p.free b × (fits b ≡ true)) (λ b. 1 ≤ occ b.generation p.free)
            candidates (λ b h. h.0.1)
            (All-keep_if (Named p.all p.free) fits (backings_of p.all p.free)
              (backings_of-Named p.all p.free)))))
      (trim_list-Frees completed p rest)
  where
    fits : Backing → Bool
    fits b = same_key (key_of b) a.key && reusable completed b

    candidates : List Backing
    candidates = keep_if fits (backings_of p.all p.free)

pub trim-Inv : (completed : ℕ) (p : Pool) → Inv p → Inv (trim completed p)
unfolding trim
trim-Inv completed p v =
    release_all-Inv (trim_list completed (take_returned p) (take_returned p).active)
      (take_returned p)
      (All-map (λ g. 1 ≤ occ g (take_returned p).free) (CanGo (take_returned p))
        (trim_list completed (take_returned p) (take_returned p).active)
        (λ g n known. ground (arith, n, take_returned-Inv p v g))
        (trim_list-Frees completed (take_returned p) (take_returned p).active))
      (take_returned-Inv p v)
