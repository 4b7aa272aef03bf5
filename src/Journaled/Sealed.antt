-- ===== src/Journaled/Sealed.antt =====
-- `JournaledBufferSet`: what a part's turn of Publish writes, against the part before it.
use orgmodule_services.Common.{
  ℕ, ◌≡◌, ◌≤◌, ◌<◌, refl, subst, Bool, true, false, not, ◌&&◌, Option, none, some, leb, ◌==◌, max,
  All, arith, if-cases, some-cases, elim-cases, Result-cases, u32, ◌+◌,
}
use orgmodule_services.BackingPool.Backing.{Backing, same_flags}
use orgmodule_services.BackingPool.Store.{lookup}
use orgmodule_services.BackingPool.Upkeep.{copy_lease, set_contents}
use orgmodule_services.BackingPool.Acquire.{AcquireInfo, Outcome, leased, exhausted, threw}
use orgmodule_services.Growth.Policy.{next}
use orgmodule_services.Journaled.{new_sink, write_all}
use orgmodule_services.Journaled.Ranges.{WritesWithin, write_all-WritesWithin}
use orgmodule_services.Journaled.Publishing.{
  PartState, Target, Script, PartRequest, PartVersion, Moment, Host, Turn, with_pool, set_sealed,
  unit_bytes, target_of, fill_part, fill_leased, use_outcome, lease_part, no_info, append_part,
  publish_part,
}
use orgmodule_services.Journaled.Outcomes.{
  lookup-set_contents, lookup-set_sealed, lookup-copy_lease,
}

-- The target that a version's emit was given, in its backing.
abbrev pub target_in : Backing → PartVersion → Target
target_in c v = record {
  content_epoch = v.caught_up_from;
  address = c.address;
  srv_index = c.srv_index;
  capacity_units = v.capacity_units;
  allocated = v.allocated;
}

-- A backing of a part holds what an emit said, for so many units, in a backing that was sealed up to a mark.
pub record IsFilled (emit : Target → Script) (units mark : ℕ) (after : PartState) (v : PartVersion)
    (g : ℕ) : Type 0 where
  pub backing : Backing
  pub named : v.lease ≡ some g
  pub there : lookup g after.pool.all ≡ some backing
  pub says : (emit (target_in backing v)).result ≡ some backing.content_epoch
  pub within : All (WritesWithin backing mark) (emit (target_in backing v)).writes
  pub not_below : mark ≤ backing.sealed_bytes
  pub past_units : unit_bytes after.config units ≤ backing.sealed_bytes

-- What a part's turn made of its request, from the part before to the part after.
pub data IsWritten (r : PartRequest) (before after : PartState) (v : PartVersion) : Type 0 where
  nothing :
      r.emit ≡ none → r.units ≡ 0 → v.lease ≡ none → after ≡ before → IsWritten r before after v
  appended :
      (emit : Target → Script) (g : ℕ) (head : Backing)
      → r.emit ≡ some emit
      → r.append_into ≡ some g
      → lookup g before.pool.all ≡ some head
      → r.units ≤ head.capacity_class
      → v.caught_up_from ≡ head.content_epoch
      → IsFilled emit r.units head.sealed_bytes after v g
      → IsWritten r before after v
  fresh :
      (emit : Target → Script) (g : ℕ)
      → r.emit ≡ some emit
      → ((h : ℕ) (head : Backing)
          → r.append_into ≡ some h
          → lookup h before.pool.all ≡ some head
          → head.capacity_class < r.units)
      → IsFilled emit r.units 0 after v g
      → IsWritten r before after v

module _ (host : Host) (r : PartRequest) (emit : Target → Script) where
  -- The leases of the backing do not matter.
  fill_part-IsFilled :
      (part : PartState) (g n : ℕ) (b : Backing) (info : AcquireInfo) (capacity : ℕ) (append : Bool)
      (sealed_from : ℕ)
      → lookup g part.pool.all ≡ some (record b { leases = n })
      → let t = fill_part host r emit part g b info capacity append sealed_from in
        t.fault ≡ none → IsFilled emit r.units sealed_from t.part t.version g
  unfolding fill_part
  fill_part-IsFilled part g n b info capacity append sealed_from e =
      let emptied = set_contents g 0 part.pool in
      let script = emit (target_of b info capacity) in
      let c : Backing = record b { leases = n } in
      let there = lookup-set_contents g 0 part.pool c e in
      Result-cases
        (λ (t : Turn). t.fault ≡ none → IsFilled emit r.units sealed_from t.part t.version g)
        (write_all host.accepts b script.writes (new_sink sealed_from)) _ _
        (λ f thrown h. absurd cc)
        (λ s sent_all.
          some-cases
            (λ (t : Turn). t.fault ≡ none → IsFilled emit r.units sealed_from t.part t.version g)
            script.result _ _ (λ h. absurd cc)
            (λ epoch said h.
              let mark = max sealed_from (unit_bytes part.config r.units) in
              let contents =
                lookup-set_contents g epoch emptied (record c { content_epoch = 0 }) there in
              record {
                backing = record c { content_epoch = epoch; sealed_bytes = mark };
                named = refl;
                there =
                    lookup-set_sealed g mark (set_contents g epoch emptied)
                      (record c { content_epoch = epoch }) contents;
                says = said;
                within =
                    write_all-WritesWithin host.accepts b script.writes (new_sink sealed_from) s
                      sent_all;
                not_below = ground arith;
                past_units = ground arith;
              }))

  fill_part-caught :
      (part : PartState) (g : ℕ) (b : Backing) (info : AcquireInfo) (capacity : ℕ) (append : Bool)
      (sealed_from : ℕ)
      → let t = fill_part host r emit part g b info capacity append sealed_from in
        t.fault ≡ none → t.version.caught_up_from ≡ (target_of b info capacity).content_epoch
  unfolding fill_part
  fill_part-caught part g b info capacity append sealed_from =
      let script = emit (target_of b info capacity) in
      let Caught : Turn → Type 0 = λ t.
        t.fault ≡ none → t.version.caught_up_from ≡ (target_of b info capacity).content_epoch in
      Result-cases Caught (write_all host.accepts b script.writes (new_sink sealed_from)) _ _
        (λ f thrown h. absurd cc)
        (λ s sent_all. some-cases Caught script.result _ _ (λ h. absurd cc) (λ epoch said h. refl))

  abbrev Fresh : Turn → Type 0
  Fresh t = t.fault ≡ none → (g : ℕ) × IsFilled emit r.units 0 t.part t.version g

  fill_leased-Fresh :
      (part : PartState) (g : ℕ) (info : AcquireInfo) (capacity : ℕ)
      → Fresh (fill_leased host r emit part g info capacity)
  unfolding fill_leased
  fill_leased-Fresh part g info capacity =
      let unsealed = set_sealed g 0 part.pool in
      some-cases Fresh (lookup g unsealed.all) _ _ (λ h. absurd cc)
        (λ b e h.
          (g, fill_part-IsFilled (with_pool part unsealed) g b.leases b info capacity false 0 e h))

  use_outcome-Fresh :
      (capacity : ℕ) (part : PartState) (o : Outcome)
      → Fresh (use_outcome host r emit capacity part o)
  unfolding use_outcome
  use_outcome-Fresh capacity part threw h = absurd cc
  use_outcome-Fresh capacity part (exhausted info) h = absurd cc
  use_outcome-Fresh capacity part (leased g info) h = fill_leased-Fresh part g info capacity h

  lease_part-Fresh :
      (moment : Moment) (part : PartState) → Fresh (lease_part host moment r emit part)
  unfolding lease_part
  lease_part-Fresh moment part =
      Result-cases Fresh (next part.config.policy part.high_water r.units) _ _ (λ e f h. absurd cc)
        (λ capacity f. use_outcome-Fresh capacity _ _)

  abbrev Written : PartState → Turn → Type 0
  Written part t = t.fault ≡ none → IsWritten r part t.part t.version

  append_part-Written :
      (moment : Moment) (part : PartState) (g : ℕ) (o : Option Backing)
      → r.emit ≡ some emit
      → r.append_into ≡ some g
      → lookup g part.pool.all ≡ o
      → Written part (append_part host moment r emit g o part)
  unfolding append_part
  append_part-Written moment part g none a into e = λ h. absurd cc
  append_part-Written moment part g (some b) a into e =
      if-cases (Written part)
        (not (b.stride == part.config.stride && same_flags b.flags part.config.flags)) _ _
        (λ other h. absurd cc)
        (λ own.
          if-cases (Written part) (leb r.units b.capacity_class) _ _
            (λ fits h.
              appended emit g b a into e (ground (arith, fits))
                (fill_part-caught (with_pool part (copy_lease g part.pool)) g b no_info
                  b.capacity_class true b.sealed_bytes h)
                (fill_part-IsFilled (with_pool part (copy_lease g part.pool)) g (u32 (b.leases + 1))
                  b no_info b.capacity_class true b.sealed_bytes (lookup-copy_lease g part.pool b e)
                  h))
            (λ outgrown h.
              let (k, filled) = lease_part-Fresh moment part h in
              fresh emit k a
                (λ i head at found.
                  (let same : i ≡ g = cc in
                    let one : lookup g part.pool.all ≡ some head =
                      subst (λ (j : ℕ). lookup j part.pool.all ≡ some head) same found in
                    let is_b : b ≡ head = cc in
                    subst (λ (x : Backing). x.capacity_class < r.units) is_b
                      (ground (arith, outgrown))))
                filled))

pub publish_part-IsWritten :
    (host : Host) (moment : Moment) (r : PartRequest) (part : PartState)
    → (publish_part host moment r part).fault ≡ none
    → IsWritten r part
        (publish_part host moment r part).part
        (publish_part host moment r part).version
unfolding publish_part
publish_part-IsWritten host moment r part =
    elim-cases (λ (t : Turn). t.fault ≡ none → IsWritten r part t.part t.version) r.emit _ _
      (λ e.
        if-cases (λ (t : Turn). t.fault ≡ none → IsWritten r part t.part t.version) (r.units == 0) _
          _ (λ z h. nothing e (ground (arith, z)) refl refl) (λ z h. absurd cc))
      (λ emit e.
        elim-cases (λ (t : Turn). t.fault ≡ none → IsWritten r part t.part t.version) r.append_into
          _ _
          (λ no_head h.
            let (k, filled) = lease_part-Fresh host r emit moment part h in
            fresh emit k e (λ i head at found. absurd cc) filled)
          (λ g into.
            append_part-Written host r emit moment part g (lookup g part.pool.all) e into refl))
