-- ===== src/Assembly/Calls.antt =====
-- The calls of `RevisionFragment` and `RevisionAssembler`: Resolve, Fail, Begin, Set, Seal and Collect.
use orgmodule_services.Common.{
  ℕ, zero, suc, ◌+◌, ◌-◌, Bool, true, false, not, ◌&&◌, ◌||◌, Option, none, some, List, [], ◌∷◌,
  ◌++◌, ltb, leb, ◌==◌, if◌then◌else◌, length, u32, Result, ok, err, out_of_range, logic_error,
  invalid_argument,
}
use orgmodule_services.Assembly.{
  FragmentState, ready, failed, Requirement, storing, attaching, Assembler, put, is_in,
}

-- `Settle` up to its claim: false for a fragment that is claimed already; else a thread settles it.
unfoldable pub settle : ℕ → FragmentState → Assembler → Assembler × Bool
settle f o s =
    if s.claimed f
    then (s, false)
    else (record s { claimed = put s.claimed f true; settlers = storing f o ∷ s.settlers }, true)

-- A null value is refused.
unfoldable pub resolve : ℕ → Option ℕ → Assembler → Result (Assembler × Bool)
resolve f none s = err invalid_argument
resolve f (some v) s = ok (settle f (ready v) s)

unfoldable pub fail : ℕ → ℕ → Assembler → Assembler × Bool
fail f e s = settle f (failed e) s

pub record Draft : Type 0 where
  pub base : ℕ
  pub slots : List (Option ℕ)

unfoldable pub begin : Assembler → Draft
begin s = record { base = s.latest_sequence; slots = s.latest }

-- `m_slots.at(slot)`.
unfoldable pub set_at : ℕ → Option ℕ → List (Option ℕ) → Result (List (Option ℕ))
set_at slot o [] = err out_of_range
set_at zero o (x ∷ xs) = ok (o ∷ xs)
set_at (suc slot) o (x ∷ xs) = elim (set_at slot o xs) [ ok ys ↦ ok (x ∷ ys) | err e ↦ err e ]

unfoldable pub set : ℕ → Option ℕ → Draft → Result Draft
set slot o d = elim (set_at slot o d.slots) [ ok ys ↦ ok (record d { slots = ys }) | err e ↦ err e ]

-- Whether a slot holds exactly a fragment.
unfoldable pub names_at : ℕ → ℕ → List (Option ℕ) → Bool
names_at slot f [] = false
names_at zero f (none ∷ os) = false
names_at zero f (some g ∷ os) = f == g
names_at (suc slot) f (o ∷ os) = names_at slot f os

unfoldable pub are_met : List Requirement → List (Option ℕ) → Bool
are_met [] slots = true
are_met (q ∷ qs) slots = names_at q.slot q.fragment slots && are_met qs slots

-- The closure of a draft: each fragment's requirements are in their slots.
unfoldable pub closes : (ℕ → List Requirement) → List (Option ℕ) → List (Option ℕ) → Bool
closes requirements [] slots = true
closes requirements (none ∷ os) slots = closes requirements os slots
closes requirements (some f ∷ os) slots =
    are_met (requirements f) slots && closes requirements os slots

unfoldable pub distinct_of : List (Option ℕ) → List ℕ → List ℕ
distinct_of [] distinct = distinct
distinct_of (none ∷ os) distinct = distinct_of os distinct
distinct_of (some f ∷ os) distinct =
    distinct_of os (if is_in f distinct then distinct else distinct ++ f ∷ [])

-- A revision that is sealed, and its attaching begun.
unfoldable pub sealed_by : List (Option ℕ) → Assembler → Assembler
sealed_by slots s =
    let r = s.latest_sequence + 1 in
    let distinct = distinct_of slots [] in
    record s {
      latest_sequence = r;
      revisions = put s.revisions r (record {
        slots = slots;
        remaining = u32 (length distinct + 1);
        has_failed = false;
        error = 0;
      });
      latest = slots;
      unfinished = s.unfinished ++ r ∷ [];
      stats = record (s.stats) { sealed = s.stats.sealed + 1 };
      coordinator = attaching r distinct;
    }

-- `Seal`.
unfoldable pub seal : (ℕ → List Requirement) → Draft → Assembler → Result Assembler
seal requirements d s =
    if not (d.base == s.latest_sequence)
    then err logic_error
    else if not (closes requirements d.slots d.slots)
    then err logic_error
    else ok (sealed_by d.slots s)

unfoldable pub without : ℕ → List ℕ → List ℕ
without r [] = []
without r (x ∷ xs) = let rest = without r xs in if r == x then rest else x ∷ rest

unfoldable pub not_before : ℕ → List ℕ → List ℕ
not_before n [] = []
not_before n (x ∷ xs) = let rest = not_before n xs in if ltb x n then rest else x ∷ rest

-- The walk of Collect over the completed revisions: the newest complete one, the failures, and the
-- assembler.
pub record Walk : Type 0 where
  pub newest : Option ℕ
  pub failures : List (ℕ × ℕ)
  pub assembler : Assembler

abbrev pub superseded_by : ℕ → Walk → Walk
superseded_by n w =
    let s = w.assembler in
    record w {
      assembler = record s { stats = record (s.stats) { superseded = s.stats.superseded + n } };
    }

abbrev pub is_older : ℕ → Option ℕ → Bool
is_older r none = false
is_older r (some n) = ltb r n

-- A completed revision that is still unfinished, taken off `m_pending`.
unfoldable pub judge : ℕ → Walk → Walk
judge r w =
    let s = w.assembler in
    let v = s.revisions r in
    if v.has_failed
    then record w {
      failures = w.failures ++ (r, v.error) ∷ [];
      assembler = record s { stats = record (s.stats) { failed_count = s.stats.failed_count + 1 } };
    }
    else if leb r s.published_sequence || is_older r w.newest
    then superseded_by 1 w
    else record (superseded_by (elim w.newest [ none ↦ 0 | some n ↦ 1 ]) w) { newest = some r }

unfoldable pub visit : ℕ → Walk → Walk
visit r w =
    if is_in r w.assembler.unfinished
    then judge r (record w {
      assembler = record (w.assembler) { unfinished = without r w.assembler.unfinished };
    })
    else w

unfoldable pub walk_completed : List ℕ → Walk → Walk
walk_completed [] w = w
walk_completed (r ∷ rs) w = walk_completed rs (visit r w)

-- The newest complete revision is held for the frame, and the older ones are given up.
unfoldable pub hold_newest : Option ℕ → Assembler → Assembler
hold_newest none s = s
hold_newest (some r) s =
    let left = not_before r s.unfinished in
    record s {
      published_sequence = r;
      held = some (r, (s.revisions r).slots);
      unfinished = left;
      stats = record (s.stats) {
        published = s.stats.published + 1;
        abandoned = s.stats.abandoned + (length s.unfinished - length left);
      };
    }

unfoldable pub gather : Assembler → Assembler × List (ℕ × ℕ)
gather s =
    let w =
      walk_completed s.completed
        (record { newest = none; failures = []; assembler = record s { completed = [] } }) in
    (hold_newest w.newest w.assembler, w.failures)

-- The exchange's answer to TryReplace: whether it took the revision that is held.
unfoldable pub offer : Bool → Assembler → Assembler × ℕ
offer taken s = elim s.held [
  | none ↦ (s, 0)
  | some (r, slots) ↦ if taken then (record s { held = none }, r) else (s, 0)
]

-- `Collect`: the sequence it published, and the failures.
unfoldable pub collect : Bool → Assembler → Assembler × (ℕ × List (ℕ × ℕ))
collect taken s = let g = gather s in let o = offer taken g.0 in (o.0, (o.1, g.1))
