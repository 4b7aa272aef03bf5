-- ===== src/Journaled/Publishing.antt =====
-- `JournaledBufferSet`: Publish, Discard and OldestContentEpoch. A part's emit is a function from its
-- target to the writes it makes and the position it returns, where none is a throw; it ends at the
-- first write that throws.
use orgmodule_services.Common.{
  ℕ, zero, suc, ◌+◌, ◌*◌, Bool, true, false, not, ◌&&◌, Option, none, some, List, [], ◌∷◌, leb,
  ◌==◌, if◌then◌else◌, max, length, u64, u64_max, Fault, Result, ok, err, invalid_argument,
  out_of_range, runtime_error,
}
use orgmodule_services.BackingPool.Backing.{
  Backing, BackingFlags, BackingRequest, BackingAllocation, same_flags,
}
use orgmodule_services.BackingPool.Store.{lookup, modify}
use orgmodule_services.BackingPool.State.{Pool, Config, create}
use orgmodule_services.BackingPool.Acquire.{AcquireInfo, Outcome, leased, exhausted, threw, acquire}
use orgmodule_services.BackingPool.Upkeep.{
  copy_lease, bind_lease, release_lease, set_contents, oldest_content_epoch,
}
use orgmodule_services.Growth.Policy.{GrowthPolicy, next}
use orgmodule_services.Journaled.{Write, Sink, new_sink, write_all}

pub record PartConfig : Type 0 where
  pub stride : ℕ
  pub flags : BackingFlags
  pub policy : GrowthPolicy

pub record PartState : Type 0 where
  pub config : PartConfig
  pub pool : Pool
  pub high_water : ℕ

pub record Target : Type 0 where
  pub content_epoch : ℕ
  pub address : ℕ
  pub srv_index : ℕ
  pub capacity_units : ℕ
  pub allocated : Bool

pub record Script : Type 0 where
  pub writes : List Write
  pub result : Option ℕ

pub record PartRequest : Type 0 where
  pub units : ℕ
  pub prefer_epoch : ℕ
  pub emit : Option (Target → Script)
  pub append_into : Option ℕ

-- A part of a publication: the generation of its backing, and what was sent into it.
pub record PartVersion : Type 0 where
  pub lease : Option ℕ
  pub address : ℕ
  pub srv_index : ℕ
  pub units : ℕ
  pub capacity_units : ℕ
  pub caught_up_from : ℕ
  pub content_epoch : ℕ
  pub bytes : ℕ
  pub runs : ℕ
  pub allocated : Bool
  pub appended : Bool
  pub sealed_from : ℕ
  pub first_byte : ℕ

abbrev pub absent : PartVersion
absent = record {
  lease = none;
  address = 0;
  srv_index = 0;
  units = 0;
  capacity_units = 0;
  caught_up_from = 0;
  content_epoch = 0;
  bytes = 0;
  runs = 0;
  allocated = false;
  appended = false;
  sealed_from = 0;
  first_byte = u64_max;
}

-- What other threads and the clock do while a part is acquired.
pub record Moment : Type 0 where
  pub pins : ℕ → ℕ
  pub completed : ℕ

-- What the code does not hold itself: the allocation hook, the uploader, the moments.
pub record Host : Type 0 where
  pub allocate : BackingRequest → Option BackingAllocation
  pub accepts : Write → Bool
  pub moment : ℕ → Moment

-- A part after its turn, its version as far as it was made, and what was thrown.
pub record Turn : Type 0 where
  pub part : PartState
  pub version : PartVersion
  pub fault : Option Fault

abbrev pub with_pool : PartState → Pool → PartState
with_pool part p = record part { pool = p }

unfoldable pub set_sealed : ℕ → ℕ → Pool → Pool
set_sealed g bytes p = record p { all = modify g (λ b. record b { sealed_bytes = bytes }) p.all }

abbrev pub unit_bytes : PartConfig → ℕ → ℕ
unit_bytes config units = if config.stride == 0 then units else u64 (units * config.stride)

abbrev pub backing_request : PartConfig → ℕ → BackingRequest
backing_request config capacity = record {
  capacity_class = capacity;
  stride = config.stride;
  flags = config.flags;
  compatibility = 0;
}

abbrev pub target_of : Backing → AcquireInfo → ℕ → Target
target_of b info capacity = record {
  content_epoch = if info.allocated then 0 else b.content_epoch;
  address = b.address;
  srv_index = b.srv_index;
  capacity_units = capacity;
  allocated = info.allocated;
}

-- What a publication keeps of a part's sink.
abbrev pub version_of :
    PartRequest → ℕ → Backing → AcquireInfo → ℕ → Bool → ℕ → ℕ → Sink → PartVersion
version_of r g b info capacity append sealed_from epoch s = record {
  lease = some g;
  address = b.address;
  srv_index = b.srv_index;
  units = r.units;
  capacity_units = capacity;
  caught_up_from = (target_of b info capacity).content_epoch;
  content_epoch = epoch;
  bytes = s.bytes;
  runs = s.runs;
  allocated = info.allocated;
  appended = append;
  sealed_from = sealed_from;
  first_byte = s.first_byte;
}

abbrev pub only_leased : ℕ → PartVersion
only_leased g = record absent { lease = some g }

-- The backing of a lease, filled by the emit: it holds nothing meanwhile, and then what the emit says.
unfoldable pub fill_part :
    Host
    → PartRequest
    → (Target → Script)
    → PartState
    → ℕ
    → Backing
    → AcquireInfo
    → ℕ
    → Bool
    → ℕ
    → Turn
fill_part host r emit part g b info capacity append sealed_from =
    let emptied = set_contents g 0 part.pool in
    let script = emit (target_of b info capacity) in
    elim (write_all host.accepts b script.writes (new_sink sealed_from)) [
      | err e ↦ record { part = with_pool part emptied; version = only_leased g; fault = some e }
      | ok s ↦ elim script.result [
        | none ↦ record {
          part = with_pool part emptied;
          version = only_leased g;
          fault = some runtime_error;
        }
        | some epoch ↦ record {
          part = with_pool part (
              set_sealed g (max sealed_from (unit_bytes part.config r.units))
                (set_contents g epoch emptied));
          version = version_of r g b info capacity append sealed_from epoch s;
          fault = none;
        }
      ]
    ]

-- A generation that its pool does not know cannot be leased: the lookup is the pointer's.
unfoldable pub fill_leased :
    Host → PartRequest → (Target → Script) → PartState → ℕ → AcquireInfo → ℕ → Turn
fill_leased host r emit part g info capacity =
    let fresh = set_sealed g 0 part.pool in
    elim (lookup g fresh.all) [
      | none ↦ record { part = with_pool part fresh; version = absent; fault = some runtime_error }
      | some b ↦ fill_part host r emit (with_pool part fresh) g b info capacity false 0
    ]

-- What an Acquire gave; no lease is a throw.
unfoldable pub use_outcome : Host → PartRequest → (Target → Script) → ℕ → PartState → Outcome → Turn
use_outcome host r emit capacity part threw = record {
  part = part;
  version = absent;
  fault = some runtime_error;
}
use_outcome host r emit capacity part (exhausted info) = record {
  part = part;
  version = absent;
  fault = some runtime_error;
}
use_outcome host r emit capacity part (leased g info) = fill_leased host r emit part g info capacity

-- A lease of the part's next class, which only grows.
unfoldable pub lease_part : Host → Moment → PartRequest → (Target → Script) → PartState → Turn
lease_part host moment r emit part = elim (next part.config.policy part.high_water r.units) [
  | err e ↦ record { part = part; version = absent; fault = some e }
  | ok capacity ↦
      let got =
        acquire host.allocate moment.pins moment.completed (backing_request part.config capacity)
          r.prefer_epoch part.pool in
      use_outcome host r emit capacity
        (record part { pool = got.0; high_water = max part.high_water capacity }) got.1
]

abbrev pub no_info : AcquireInfo
no_info = record { allocated = false; released = 0; write_after = 0 }

-- An append into the head where the units fit it; a head of another part is refused.
unfoldable pub append_part :
    Host → Moment → PartRequest → (Target → Script) → ℕ → Option Backing → PartState → Turn
append_part host moment r emit g none part = record {
  part = part;
  version = absent;
  fault = some invalid_argument;
}
append_part host moment r emit g (some b) part =
    if not (b.stride == part.config.stride && same_flags b.flags part.config.flags)
    then record { part = part; version = absent; fault = some invalid_argument }
    else if leb r.units b.capacity_class
    then fill_part host r emit (with_pool part (copy_lease g part.pool)) g b no_info
        b.capacity_class true b.sealed_bytes
    else lease_part host moment r emit part

unfoldable pub publish_part : Host → Moment → PartRequest → PartState → Turn
publish_part host moment r part = elim r.emit [
  | none ↦
      if r.units == 0
      then record { part = part; version = absent; fault = none }
      else record { part = part; version = absent; fault = some invalid_argument }
  | some emit ↦ elim r.append_into [
    | none ↦ lease_part host moment r emit part
    | some g ↦ append_part host moment r emit g (lookup g part.pool.all) part
  ]
]

-- The parts up to the first that throws; the rest stay as they are.
pub record Progress : Type 0 where
  pub parts : List PartState
  pub versions : List PartVersion
  pub fault : Option Fault

unfoldable pub publish_parts : Host → ℕ → List PartState → List PartRequest → Progress
publish_parts host i [] rs = record { parts = []; versions = []; fault = none }
publish_parts host i (part ∷ parts) [] = record {
  parts = part ∷ parts;
  versions = [];
  fault = none;
}
publish_parts host i (part ∷ parts) (r ∷ rs) =
    let turn = publish_part host (host.moment i) r part in
    elim turn.fault [
      | some e ↦ record { parts = turn.part ∷ parts; versions = turn.version ∷ []; fault = some e }
      | none ↦
          let rest = publish_parts host (suc i) parts rs in
          record {
            parts = turn.part ∷ rest.parts;
            versions = turn.version ∷ rest.versions;
            fault = rest.fault;
          }
    ]

-- The backing of a lease marked as holding nothing, and the lease's end.
unfoldable pub empty_backing : Option ℕ → PartState → PartState
empty_backing none part = part
empty_backing (some g) part = with_pool part (set_contents g 0 part.pool)

unfoldable pub end_lease : Option ℕ → PartState → PartState
end_lease none part = part
end_lease (some g) part = with_pool part (release_lease g part.pool)

-- The catch of Publish: the backings hold nothing, and the leases go.
unfoldable pub undo : List PartVersion → List PartState → List PartState
undo [] parts = parts
undo (v ∷ vs) [] = []
undo (v ∷ vs) (part ∷ parts) = end_lease v.lease (empty_backing v.lease part) ∷ undo vs parts

pub record Publication : Type 0 where
  pub parts : List PartVersion
  pub bytes : ℕ
  pub runs : ℕ

unfoldable pub sum_bytes : List PartVersion → ℕ
sum_bytes [] = 0
sum_bytes (v ∷ vs) = u64 (v.bytes + sum_bytes vs)

unfoldable pub sum_runs : List PartVersion → ℕ
sum_runs [] = 0
sum_runs (v ∷ vs) = u64 (v.runs + sum_runs vs)

-- `Publish`.
unfoldable pub publish :
    Host → List PartRequest → List PartState → List PartState × Result Publication
publish host rs parts =
    if not (length rs == length parts)
    then (parts, err invalid_argument)
    else (let p = publish_parts host 0 parts rs in
        elim p.fault [
          | some e ↦ (undo p.versions p.parts, err e)
          | none ↦ (
            p.parts,
            ok (record {
              parts = p.versions;
              bytes = sum_bytes p.versions;
              runs = sum_runs p.versions;
            }),
          )
        ])

-- `Discard`.
unfoldable pub discard : List PartVersion → List PartState → List PartState
discard [] parts = parts
discard (v ∷ vs) [] = []
discard (v ∷ vs) (part ∷ parts) = empty_backing v.lease part ∷ discard vs parts

-- `OldestContentEpoch` of a part.
unfoldable pub part_oldest : ℕ → List PartState → Result (Option ℕ)
part_oldest i [] = err out_of_range
part_oldest zero (part ∷ parts) = ok (oldest_content_epoch part.pool)
part_oldest (suc i) (part ∷ parts) = part_oldest i parts

-- `JournaledPublication::Bind`.
unfoldable pub bind_parts : ℕ → List PartVersion → List PartState → List PartState
bind_parts safe_at [] parts = parts
bind_parts safe_at (v ∷ vs) [] = []
bind_parts safe_at (v ∷ vs) (part ∷ parts) =
    elim v.lease [ none ↦ part | some g ↦ with_pool part (bind_lease g safe_at part.pool) ]
    ∷ bind_parts safe_at vs parts

-- The constructor: a pool for each part. Names are not here, nor the throw where one is empty.
unfoldable pub new_parts : List PartConfig → Config → List PartState
new_parts [] config = []
new_parts (c ∷ cs) config =
    record { config = c; pool = create config; high_water = 0 } ∷ new_parts cs config
