-- ===== src/Journaled/Outcomes.antt =====
-- What a Publish of `JournaledBufferSet` leaves in the parts' pools, whether it returns or throws.
use orgmodule_services.Common.{
  ℕ, ◌+◌, ◌≡◌, ◌≤◌, ◌<◌, refl, subst, Bool, true, false, not, ◌&&◌, Option, none, some, leb, ◌==◌,
  max, u32, u64_max, u32_max, Fault, arith, if-cases, some-cases, Result-cases,
}
use orgmodule_services.BackingPool.Backing.{Backing, BackingRequest, same_flags}
use orgmodule_services.BackingPool.Store.{lookup, lookup-modify}
use orgmodule_services.BackingPool.State.{Pool}
use orgmodule_services.BackingPool.Acquire.{AcquireInfo, Outcome, leased, exhausted, threw, acquire}
use orgmodule_services.BackingPool.Upkeep.{copy_lease, set_contents}
use orgmodule_services.BackingPool.Circulation.{Inv}
use orgmodule_services.BackingPool.Exclusive.{IsGrant}
use orgmodule_services.BackingPool.Granting.{acquire-Granted}
use orgmodule_services.BackingPool.Life.{
  write-Inv, is_leased, has_room, copy_lease-Inv, set_contents-Inv,
}
use orgmodule_services.Growth.Policy.{next}
use orgmodule_services.Journaled.{new_sink, write_all}
use orgmodule_services.Journaled.Publishing.{
  PartConfig, PartState, Target, Script, PartRequest, PartVersion, Moment, Host, Turn, with_pool,
  set_sealed, unit_bytes, backing_request, target_of, version_of, only_leased, fill_part,
  fill_leased, use_outcome, lease_part, no_info, append_part, publish_part,
}

abbrev pub has_no_fault : Option Fault → Bool
has_no_fault none = true
has_no_fault (some e) = false

-- The backing of a version that is whole: it holds what the emit said, and its mark is past the
-- units; one whose part threw holds nothing.
abbrev pub Keeps : PartConfig → PartVersion → Bool → Backing → Type 0
Keeps config v true b =
    (b.content_epoch ≡ v.content_epoch)
    × (v.sealed_from ≤ b.sealed_bytes)
    × (unit_bytes config v.units ≤ b.sealed_bytes)
Keeps config v false b = b.content_epoch ≡ 0

abbrev pub HeldAt : PartState → PartVersion → Bool → ℕ → Type 0
HeldAt part v whole g =
    (b : Backing) × (lookup g part.pool.all ≡ some b)
    × (is_leased g part.pool ≡ true)
    × Keeps part.config v whole b

-- The lease of a version: its backing is of the pool, and leased.
abbrev pub IsHeld : PartState → PartVersion → Bool → Type 0
IsHeld part v whole = (g : ℕ) → v.lease ≡ some g → HeldAt part v whole g

pub record IsTurn (t : Turn) : Type 0 where
  pub orderly : Inv t.part.pool
  pub holds : IsHeld t.part t.version (has_no_fault t.fault)

set_sealed-Inv : (g bytes : ℕ) (p : Pool) → Inv p → Inv (set_sealed g bytes p)
unfolding set_sealed
set_sealed-Inv g bytes p v =
    write-Inv g (λ b. record b { sealed_bytes = bytes }) p (λ b. (refl, (refl, refl))) v

pub lookup-set_contents :
    (g epoch : ℕ) (p : Pool) (b : Backing)
    → lookup g p.all ≡ some b
    → lookup g (set_contents g epoch p).all ≡ some (record b { content_epoch = epoch })
unfolding set_contents
lookup-set_contents g epoch p b e =
    ground (arith, e, lookup-modify g g (λ x. record x { content_epoch = epoch }) p.all (λ x. refl))

pub lookup-set_sealed :
    (g bytes : ℕ) (p : Pool) (b : Backing)
    → lookup g p.all ≡ some b
    → lookup g (set_sealed g bytes p).all ≡ some (record b { sealed_bytes = bytes })
unfolding set_sealed
lookup-set_sealed g bytes p b e =
    ground (arith, e, lookup-modify g g (λ x. record x { sealed_bytes = bytes }) p.all (λ x. refl))

pub lookup-copy_lease :
    (g : ℕ) (p : Pool) (b : Backing)
    → lookup g p.all ≡ some b
    → lookup g (copy_lease g p).all ≡ some (record b { leases = u32 (b.leases + 1) })
unfolding copy_lease
lookup-copy_lease g p b e =
    ground (
      arith,
      e,
      lookup-modify g g (λ x. record x { leases = u32 (x.leases + 1) }) p.all (λ x. refl),
    )

-- A lookup shows a lease.
is_leased_lem :
    (g : ℕ) (p : Pool) (b : Backing)
    → lookup g p.all ≡ some b
    → (not (b.leases == 0) && leb b.leases u32_max) ≡ true
    → is_leased g p ≡ true
is_leased_lem g p b e h = ground (arith, e, h)

module _ (host : Host) (r : PartRequest) (emit : Target → Script) where
  fill_part-IsTurn :
      (part : PartState) (g : ℕ) (b c : Backing) (info : AcquireInfo) (capacity : ℕ) (append : Bool)
      (sealed_from : ℕ)
      → Inv part.pool
      → lookup g part.pool.all ≡ some c
      → (not (c.leases == 0) && leb c.leases u32_max) ≡ true
      → IsTurn (fill_part host r emit part g b info capacity append sealed_from)
  unfolding fill_part
  fill_part-IsTurn part g b c info capacity append sealed_from v e l =
      let emptied = set_contents g 0 part.pool in
      let script = emit (target_of b info capacity) in
      let there = lookup-set_contents g 0 part.pool c e in
      let held = is_leased_lem g emptied (record c { content_epoch = 0 }) there l in
      let empty = set_contents-Inv g 0 part.pool v in
      Result-cases IsTurn (write_all host.accepts b script.writes (new_sink sealed_from)) _ _
        (λ f thrown. record {
          orderly = empty;
          holds = λ q same.
              subst (HeldAt (with_pool part emptied) (only_leased g) false) (cc)
                (record c { content_epoch = 0 }, there, held, refl);
        })
        (λ s sent_all.
          some-cases IsTurn script.result _ _
            (record {
              orderly = empty;
              holds = λ q same.
                  subst (HeldAt (with_pool part emptied) (only_leased g) false) (cc)
                    (record c { content_epoch = 0 }, there, held, refl);
            })
            (λ epoch e2.
              let mark = max sealed_from (unit_bytes part.config r.units) in
              let contents =
                lookup-set_contents g epoch emptied (record c { content_epoch = 0 }) there in
              let sealed =
                lookup-set_sealed g mark (set_contents g epoch emptied)
                  (record c { content_epoch = epoch }) contents in
              record {
                orderly =
                    set_sealed-Inv g mark (set_contents g epoch emptied)
                      (set_contents-Inv g epoch emptied empty);
                holds = λ q same.
                    let done : PartState =
                      with_pool part (set_sealed g mark (set_contents g epoch emptied)) in
                    let filled : Backing = record c {
                      content_epoch = epoch;
                      sealed_bytes = mark;
                    } in
                    subst
                      (HeldAt done (version_of r g b info capacity append sealed_from epoch s) true)
                      (cc)
                      (
                        filled,
                        sealed,
                        is_leased_lem g done.pool filled sealed l,
                        (refl, ground arith, ground arith),
                      );
              }))

  fill_leased-IsTurn :
      (part : PartState) (g : ℕ) (b : Backing) (info : AcquireInfo) (capacity : ℕ)
      → Inv part.pool
      → lookup g part.pool.all ≡ some b
      → (not (b.leases == 0) && leb b.leases u32_max) ≡ true
      → IsTurn (fill_leased host r emit part g info capacity)
  unfolding fill_leased
  fill_leased-IsTurn part g b info capacity v e l =
      let fresh = set_sealed g 0 part.pool in
      let there = lookup-set_sealed g 0 part.pool b e in
      some-cases IsTurn (lookup g fresh.all) _ _
        (record { orderly = set_sealed-Inv g 0 part.pool v; holds = λ q h. absurd cc })
        (λ c f.
          fill_part-IsTurn (with_pool part fresh) g c (record b { sealed_bytes = 0 }) info capacity
            false 0 (set_sealed-Inv g 0 part.pool v) there l)

  use_outcome-IsTurn :
      (completed : ℕ) (request : BackingRequest) (capacity : ℕ) (part : PartState) (o : Outcome)
      → Inv part.pool
      → IsGrant host.allocate completed request part.pool o
      → IsTurn (use_outcome host r emit capacity part o)
  unfolding use_outcome
  use_outcome-IsTurn completed request capacity part threw v granted = record {
    orderly = v;
    holds = λ q h. absurd cc;
  }
  use_outcome-IsTurn completed request capacity part (exhausted info) v granted = record {
    orderly = v;
    holds = λ q h. absurd cc;
  }
  use_outcome-IsTurn completed request capacity part (leased g info) v (b, e, x) =
      fill_leased-IsTurn part g b info capacity v e (let one = x.one in ground (arith, one))

  lease_part-IsTurn :
      (moment : Moment) (part : PartState)
      → part.pool.next_generation < u64_max
      → Inv part.pool
      → IsTurn (lease_part host moment r emit part)
  unfolding lease_part
  lease_part-IsTurn moment part room v =
      Result-cases IsTurn (next part.config.policy part.high_water r.units) _ _
        (λ e h. record { orderly = v; holds = λ q k. absurd cc })
        (λ capacity h.
          let request = backing_request part.config capacity in
          let got =
            acquire host.allocate moment.pins moment.completed request r.prefer_epoch part.pool in
          let granted =
            acquire-Granted host.allocate moment.pins moment.completed request r.prefer_epoch
              part.pool room v in
          use_outcome-IsTurn moment.completed request capacity
            (record part { pool = got.0; high_water = max part.high_water capacity }) got.1
            granted.0 granted.1)

  append_part-IsTurn :
      (moment : Moment) (part : PartState) (g : ℕ) (o : Option Backing)
      → lookup g part.pool.all ≡ o
      → part.pool.next_generation < u64_max
      → (is_leased g part.pool && has_room g part.pool) ≡ true
      → Inv part.pool
      → IsTurn (append_part host moment r emit g o part)
  unfolding append_part
  append_part-IsTurn moment part g none e room l v = record {
    orderly = v;
    holds = λ q h. absurd cc;
  }
  append_part-IsTurn moment part g (some b) e room l v =
      if-cases IsTurn (not (b.stride == part.config.stride && same_flags b.flags part.config.flags))
        _ _ (λ other. record { orderly = v; holds = λ q h. absurd cc })
        (λ own.
          if-cases IsTurn (leb r.units b.capacity_class) _ _
            (λ fits.
              let copied : Backing = record b { leases = u32 (b.leases + 1) } in
              fill_part-IsTurn (with_pool part (copy_lease g part.pool)) g b copied no_info
                b.capacity_class true b.sealed_bytes (copy_lease-Inv g part.pool l v)
                (lookup-copy_lease g part.pool b e) (ground (arith, l, e)))
            (λ outgrown. lease_part-IsTurn moment part room v))

-- A part's turn may come: a backing to append into is leased, with room for one lease more, and
-- generations are left.
abbrev pub IsReady : PartRequest → PartState → Type 0
IsReady r part =
    Inv part.pool
    × (part.pool.next_generation < u64_max)
    × ((g : ℕ) → r.append_into ≡ some g → (is_leased g part.pool && has_room g part.pool) ≡ true)

pub publish_part-IsTurn :
    (host : Host) (moment : Moment) (r : PartRequest) (part : PartState)
    → IsReady r part
    → IsTurn (publish_part host moment r part)
unfolding publish_part
publish_part-IsTurn host moment r part (v, room, heads) =
    some-cases IsTurn r.emit _ _
      (if-cases IsTurn (r.units == 0) _ _
        (λ none_asked. record { orderly = v; holds = λ q h. absurd cc })
        (λ asked. record { orderly = v; holds = λ q h. absurd cc }))
      (λ emit e.
        some-cases IsTurn r.append_into _ _ (lease_part-IsTurn host r emit moment part room v)
          (λ g head.
            append_part-IsTurn host r emit moment part g (lookup g part.pool.all) refl room
              (heads g head) v))
