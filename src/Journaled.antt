-- ===== src/Journaled.antt =====
-- `JournaledSink` of include/ORGModuleServices/JournaledBufferSet.h and src/JournaledBufferSet.cpp: where a
-- part's emit sends its runs. The bytes themselves are not here: a run is its range. Whether the
-- uploader takes a write is a function of the write.
pub mod Publishing
pub mod Ranges
pub mod Outcomes
pub mod Sealed
pub mod Undone
use orgmodule_services.Common.{
  ℕ, zero, suc, ◌+◌, ◌-◌, Bool, true, false, not, ◌||◌, Option, none, some, List, [], ◌∷◌, ltb,
  ◌==◌, if◌then◌else◌, min, u64, u64_max, Result, ok, err, ◌>>=◌, out_of_range, logic_error,
  runtime_error,
}
use orgmodule_services.BackingPool.Backing.{Backing}

-- A range of bytes: where it goes, and how many.
pub record Range : Type 0 where
  pub at : ℕ
  pub size : ℕ

-- A gathered run, or many runs in one upload.
pub data Write : Type 0 where
  run : Range → Write
  ranges : List Range → Write

-- `m_floor` with what was sent so far. A first byte of 2 ^ 64 - 1 is none.
pub record Sink : Type 0 where
  pub floor : ℕ
  pub bytes : ℕ
  pub runs : ℕ
  pub first_byte : ℕ
  pub tickets : ℕ

abbrev pub new_sink : ℕ → Sink
new_sink floor = record { floor = floor; bytes = 0; runs = 0; first_byte = u64_max; tickets = 0 }

-- `CheckRange`.
unfoldable pub check_range : Backing → ℕ → Range → Result (Unit {0})
check_range target floor r =
    if ltb target.byte_capacity r.at || ltb (target.byte_capacity - r.at) r.size
    then err out_of_range
    else if ltb r.at floor
    then err logic_error
    else ok tt

-- The tests of the backing, and the uploader's answer.
unfoldable pub upload : (Write → Bool) → Backing → Write → Result (Unit {0})
upload accepts target w = elim target.buffer [
  | none ↦ err logic_error
  | some buffer ↦
      if target.retired then err logic_error else if accepts w then ok tt else err runtime_error
]

abbrev pub sent : ℕ → ℕ → ℕ → Sink → Sink
sent bytes runs first s = record s {
  bytes = u64 (s.bytes + bytes);
  runs = u64 (s.runs + runs);
  first_byte = min s.first_byte first;
  tickets = s.tickets + 1;
}

-- The runs of a batch that are not empty: their bytes, their number and the first byte.
pub record Batch : Type 0 where
  pub total : ℕ
  pub count : ℕ
  pub first : ℕ

unfoldable pub gather_ranges : Backing → ℕ → List Range → Batch → Result Batch
gather_ranges target floor [] b = ok b
gather_ranges target floor (r ∷ rs) b =
    let rest = gather_ranges target floor rs (
      if r.size == 0 then b else record {
        total = u64 (b.total + r.size);
        count = u64 (b.count + 1);
        first = min b.first r.at;
      }) in
    if r.size == 0 then rest else check_range target floor r >>= λ _. rest

unfoldable pub sink_write : (Write → Bool) → Backing → Write → Sink → Result Sink
sink_write accepts target (run r) s =
    if r.size == 0
    then ok s
    else (check_range target s.floor r >>= λ _.
        upload accepts target (run r) >>= λ _. ok (sent r.size 1 r.at s))
sink_write accepts target (ranges rs) s =
    gather_ranges target s.floor rs (record { total = 0; count = 0; first = u64_max }) >>= λ b.
    if b.total == 0
    then ok s
    else (upload accepts target (ranges rs) >>= λ _. ok (sent b.total b.count b.first s))

-- An emit's writes, in order; the first that throws ends it.
unfoldable pub write_all : (Write → Bool) → Backing → List Write → Sink → Result Sink
write_all accepts target [] s = ok s
write_all accepts target (w ∷ ws) s = sink_write accepts target w s >>= write_all accepts target ws
