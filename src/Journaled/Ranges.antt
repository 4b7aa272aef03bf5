-- ===== src/Journaled/Ranges.antt =====
-- `JournaledSink`: where the writes that it takes lie.
use orgmodule_services.Common.{
  ℕ, ◌+◌, ◌≡◌, ◌≤◌, ◌⊎◌, inl, inr, Bool, List, [], ◌∷◌, ◌==◌, if◌then◌else◌, u64_max, ok, ◌>>=◌,
  >>=-inversion, sym, arith, All, Bool-cases,
}
use orgmodule_services.BackingPool.Backing.{Backing}
use orgmodule_services.Journaled.{
  Range, Write, run, ranges, Sink, check_range, upload, Batch, gather_ranges, sink_write, write_all,
  sent,
}

-- A range is empty, or lies in the backing and begins at the floor or past it.
abbrev pub IsWithin : Backing → ℕ → Range → Type 0
IsWithin target floor r = (r.size ≡ 0) ⊎ ((floor ≤ r.at) × (r.at + r.size ≤ target.byte_capacity))

abbrev pub WritesWithin : Backing → ℕ → Write → Type 0
WritesWithin target floor (run r) = IsWithin target floor r
WritesWithin target floor (ranges rs) = All (IsWithin target floor) rs

check_range-IsWithin :
    (target : Backing) (floor : ℕ) (r : Range)
    → check_range target floor r ≡ ok tt
    → IsWithin target floor r
unfolding check_range
check_range-IsWithin target floor r h = inr (ground (arith, h), ground (arith, h))

gather_ranges-IsWithin :
    (target : Backing) (floor : ℕ) (rs : List Range) (b c : Batch)
    → gather_ranges target floor rs b ≡ ok c
    → All (IsWithin target floor) rs
unfolding gather_ranges
gather_ranges-IsWithin target floor [] b c = λ h. tt
gather_ranges-IsWithin target floor (r ∷ rs) b c = elim (Bool-cases (r.size == 0)) [
  | inl e ↦ rw e (λ h. (inl (ground (arith, e)), gather_ranges-IsWithin target floor rs _ c h))
  | inr e ↦ rw e (λ h.
      let (checked, is_ok, next) = >>=-inversion _ c (check_range target floor r) (sym h) in
      (
        check_range-IsWithin target floor r is_ok,
        gather_ranges-IsWithin target floor rs _ c (sym next),
      ))
]

finish_floor :
    (accepts : Write → Bool) (target : Backing) (rs : List Range) (b : Batch) (s u : Sink)
    → (if b.total == 0
        then ok s
        else (upload accepts target (ranges rs) >>= λ _. ok (sent b.total b.count b.first s)))
      ≡ ok u
    → u.floor ≡ s.floor
finish_floor accepts target rs b s u = elim (Bool-cases (b.total == 0)) [
  | inl e ↦ rw e (λ h. cc)
  | inr e ↦ rw e (λ h.
      let (taken, is_taken, last) = >>=-inversion _ u (upload accepts target (ranges rs)) (sym h) in
      cc)
]

sink_write-WritesWithin :
    (accepts : Write → Bool) (target : Backing) (w : Write) (s u : Sink)
    → sink_write accepts target w s ≡ ok u
    → (u.floor ≡ s.floor) × WritesWithin target s.floor w
unfolding sink_write
sink_write-WritesWithin accepts target (run r) s u = elim (Bool-cases (r.size == 0)) [
  | inl e ↦ rw e (λ h. (cc, inl (ground (arith, e))))
  | inr e ↦ rw e (λ h.
      let (checked, is_ok, next) = >>=-inversion _ u (check_range target s.floor r) (sym h) in
      let (taken, is_taken, last) = >>=-inversion _ u (upload accepts target (run r)) next in
      (cc, check_range-IsWithin target s.floor r is_ok))
]
sink_write-WritesWithin accepts target (ranges rs) s u = λ h.
    let start : Batch = record { total = 0; count = 0; first = u64_max } in
    let (b, gathered, next) = >>=-inversion _ u (gather_ranges target s.floor rs start) (sym h) in
    (
      finish_floor accepts target rs b s u (sym next),
      gather_ranges-IsWithin target s.floor rs start b gathered,
    )

pub write_all-WritesWithin :
    (accepts : Write → Bool) (target : Backing) (ws : List Write) (s u : Sink)
    → write_all accepts target ws s ≡ ok u
    → All (WritesWithin target s.floor) ws
unfolding write_all
write_all-WritesWithin accepts target [] s u h = tt
write_all-WritesWithin accepts target (w ∷ ws) s u h =
    let (v, first, next) = >>=-inversion _ u (sink_write accepts target w s) (sym h) in
    let one = sink_write-WritesWithin accepts target w s v first in
    let rest = write_all-WritesWithin accepts target ws v u (sym next) in
    (one.1, rw (one.0) at rest)
