-- ===== src/Assembly/Runs.antt =====
-- Runs of `RevisionAssembler`: calls, and steps of the coordinator and of the threads that settle fragments.
use orgmodule_services.Common.{
  ℕ, zero, suc, ◌<◌, Bool, true, false, Option, none, some, List, [], ◌∷◌, if◌then◌else◌, length,
  Result, ok, err, u32_max,
}
use orgmodule_services.Assembly.{
  Requirement, Thread, storing, closing, walking, attaching, counting, pushing, ended, Assembler,
  thread_step, new_assembler,
}
use orgmodule_services.Assembly.Calls.{resolve, fail, Draft, seal, collect}

unfoldable pub thread_at : ℕ → List Thread → Option Thread
thread_at i [] = none
thread_at zero (t ∷ ts) = some t
thread_at (suc i) (t ∷ ts) = thread_at i ts

unfoldable pub replace : ℕ → Thread → List Thread → List Thread
replace i t [] = []
replace zero t (u ∷ us) = t ∷ us
replace (suc i) t (u ∷ us) = u ∷ replace i t us

-- A step of a thread, which leaves the other threads where they are.
unfoldable pub step_settler : ℕ → Bool → Assembler → Assembler
step_settler i locked s = elim (thread_at i s.settlers) [
  | none ↦ s
  | some t ↦ record (thread_step locked t s).0 {
    coordinator = s.coordinator;
    settlers = replace i (thread_step locked t s).1 s.settlers;
  }
]

unfoldable pub step_coordinator : Bool → Assembler → Assembler
step_coordinator locked s = record (thread_step locked s.coordinator s).0 {
  coordinator = (thread_step locked s.coordinator s).1;
  settlers = s.settlers;
}

abbrev pub is_ended : Thread → Bool
is_ended (storing f o) = false
is_ended (closing f) = false
is_ended (walking f rs) = false
is_ended (attaching r fs) = false
is_ended (counting r k) = false
is_ended (pushing r k) = false
is_ended ended = true

-- A call that throws leaves the assembler as it was.
abbrev pub left_by : Assembler → Result Assembler → Assembler
left_by s (ok t) = t
left_by s (err e) = s

-- What happens next: a fragment's outcome, a call of the coordinator, which makes one at a time, or a
-- thread's step.
pub data Act : Type 0 where
  resolve_act : ℕ → ℕ → Act
  fail_act : ℕ → ℕ → Act
  seal_act : Draft → Act
  collect_act : Bool → Act
  settler_act : ℕ → Bool → Act
  coordinator_act : Bool → Act

unfoldable pub act : (ℕ → List Requirement) → Act → Assembler → Assembler
act requirements (resolve_act f v) s = elim (resolve f (some v) s) [ ok p ↦ p.0 | err e ↦ s ]
act requirements (fail_act f e) s = (fail f e s).0
act requirements (seal_act d) s =
    if is_ended s.coordinator then left_by s (seal requirements d s) else s
act requirements (collect_act taken) s = if is_ended s.coordinator then (collect taken s).0 else s
act requirements (settler_act i locked) s = step_settler i locked s
act requirements (coordinator_act locked) s = step_coordinator locked s

-- A draft has fewer slots than a 32-bit count holds.
abbrev pub Fits : Act → Type 0
Fits (resolve_act f v) = Unit {0}
Fits (fail_act f e) = Unit {0}
Fits (seal_act d) = length d.slots < u32_max
Fits (collect_act taken) = Unit {0}
Fits (settler_act i locked) = Unit {0}
Fits (coordinator_act locked) = Unit {0}

pub data Reached (requirements : ℕ → List Requirement) : Assembler → Type 0 where
  made : (n : ℕ) → Reached requirements (new_assembler n)
  acted :
      (a : Act) (s : Assembler)
      → Fits a
      → Reached requirements s
      → Reached requirements (act requirements a s)
