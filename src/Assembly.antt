-- ===== src/Assembly.antt =====
-- `RevisionFragment` and `RevisionAssembler` of include/ORGModuleServices/Async/RevisionAssembly.h. A
-- fragment is named by a number, a revision by its sequence. Fragments settle on any thread and the
-- coordinator seals and collects: a step has one atomic operation at most that other threads can tell
-- apart, and a compare-exchange that is retried until it holds is one step.
pub mod Accounts
pub mod Calls
pub mod Closed
pub mod Collecting
pub mod Debts
pub mod Invariant
pub mod Keeping
pub mod Newest
pub mod Picked
pub mod Runs
pub mod Sealing
pub mod Selected
pub mod Settling
pub mod Steps
pub mod Walked
use orgmodule_services.Common.{
  ℕ, zero, suc, ◌+◌, ◌-◌, Bool, true, false, not, ◌&&◌, ◌||◌, Option, none, some, List, [], ◌∷◌,
  ◌++◌, ltb, leb, ◌==◌, if◌then◌else◌, length, keep_if, u32, u32_mod,
}

-- `State`, with the value or the error that is settled with it.
pub data FragmentState : Type 0 where
  pending : FragmentState
  ready : ℕ → FragmentState
  failed : ℕ → FragmentState

pub record Requirement : Type 0 where
  pub slot : ℕ
  pub fragment : ℕ

-- A sealed revision (`PendingRevision`): what it names by slot, its count, and its failure.
pub record Revision : Type 0 where
  pub slots : List (Option ℕ)
  pub remaining : ℕ
  pub has_failed : Bool
  pub error : ℕ

-- What a thread does after it has counted a revision down: the rest of a fragment's waiters, the rest
-- of a seal's fragments, or nothing.
pub data After : Type 0 where
  to_walk : ℕ → List ℕ → After
  to_attach : ℕ → List ℕ → After
  finish : After

-- Where a thread is: in Settle before it stores the state, before it closes the waiters, and with the
-- waiters it took; in Seal with the fragments that are left to attach; in CountDown before the count
-- and, as the last to count, before the push.
pub data Thread : Type 0 where
  storing : ℕ → FragmentState → Thread
  closing : ℕ → Thread
  walking : ℕ → List ℕ → Thread
  attaching : ℕ → List ℕ → Thread
  counting : ℕ → After → Thread
  pushing : ℕ → After → Thread
  ended : Thread

pub record Stats : Type 0 where
  pub sealed : ℕ
  pub published : ℕ
  pub failed_count : ℕ
  pub superseded : ℕ
  pub abandoned : ℕ

-- `waiting` has the waiters of all fragments, the newest first: a fragment and a revision. The list
-- of one fragment is those that name it.
pub record Assembler : Type 0 where
  pub claimed : ℕ → Bool
  pub states : ℕ → FragmentState
  pub closed : ℕ → Bool
  pub waiting : List (ℕ × ℕ)
  pub revisions : ℕ → Revision
  pub completed : List ℕ
  pub latest : List (Option ℕ)
  pub latest_sequence : ℕ
  pub published_sequence : ℕ
  pub unfinished : List ℕ
  pub held : Option (ℕ × List (Option ℕ))
  pub stats : Stats
  pub coordinator : Thread
  pub settlers : List Thread

unfoldable pub put {ℓ} : {A : Type ℓ} → (ℕ → A) → ℕ → A → ℕ → A
put f k a n = if n == k then a else f n

unfoldable pub is_in : ℕ → List ℕ → Bool
is_in n [] = false
is_in n (x ∷ xs) = n == x || is_in n xs

abbrev pub is_pending : FragmentState → Bool
is_pending pending = true
is_pending (ready v) = false
is_pending (failed e) = false

abbrev pub is_failed : FragmentState → Bool
is_failed pending = false
is_failed (ready v) = false
is_failed (failed e) = true

abbrev pub error_of : FragmentState → ℕ
error_of pending = 0
error_of (ready v) = 0
error_of (failed e) = e

abbrev pub nothing_sealed : Revision
nothing_sealed = record { slots = []; remaining = 0; has_failed = false; error = 0 }

unfoldable pub empty_slots : ℕ → List (Option ℕ)
empty_slots zero = []
empty_slots (suc n) = none ∷ empty_slots n

-- The constructor, with fragments that nothing has settled.
unfoldable pub new_assembler : ℕ → Assembler
new_assembler n = record {
  claimed = λ f. false;
  states = λ f. pending;
  closed = λ f. false;
  waiting = [];
  revisions = λ r. nothing_sealed;
  completed = [];
  latest = empty_slots n;
  latest_sequence = 0;
  published_sequence = 0;
  unfinished = [];
  held = none;
  stats = record { sealed = 0; published = 0; failed_count = 0; superseded = 0; abandoned = 0 };
  coordinator = ended;
  settlers = [];
}

-- `SettleWaiter` before its count: the first failure of a revision is kept.
unfoldable pub mark : ℕ → ℕ → Assembler → Assembler
mark f r s =
    if is_failed (s.states f) && not (s.revisions r).has_failed
    then record s {
      revisions =
          put s.revisions r
            (record (s.revisions r) { has_failed = true; error = error_of (s.states f) });
    }
    else s

-- The waiters of a fragment, in its list's order, and those of the others.
unfoldable pub waiters_of : ℕ → List (ℕ × ℕ) → List ℕ
waiters_of f [] = []
waiters_of f ((g, r) ∷ ws) = let rest = waiters_of f ws in if f == g then r ∷ rest else rest

unfoldable pub others_than : ℕ → List (ℕ × ℕ) → List (ℕ × ℕ)
others_than f [] = []
others_than f ((g, r) ∷ ws) = let rest = others_than f ws in if f == g then rest else (g, r) ∷ rest

abbrev pub resume : After → Thread
resume (to_walk f rs) = walking f rs
resume (to_attach r fs) = attaching r fs
resume finish = ended

-- A step of a thread. `locked` says whether the weak pointer to a revision that the assembler has
-- given up still holds: another thread may keep it. The count is 1 at least where it is taken.
unfoldable pub thread_step : Bool → Thread → Assembler → Assembler × Thread
thread_step locked (storing f o) s = (record s { states = put s.states f o }, closing f)
thread_step locked (closing f) s = (
  record s { closed = put s.closed f true; waiting = others_than f s.waiting },
  walking f (waiters_of f s.waiting),
)
thread_step locked (walking f []) s = (s, ended)
thread_step locked (walking f (r ∷ rs)) s =
    if locked || is_in r s.unfinished
    then (mark f r s, counting r (to_walk f rs))
    else (s, walking f rs)
thread_step locked (attaching r []) s = (s, counting r finish)
thread_step locked (attaching r (f ∷ fs)) s =
    if s.closed f
    then (mark f r s, counting r (to_attach r fs))
    else (record s { waiting = (f, r) ∷ s.waiting }, attaching r fs)
thread_step locked (counting r k) s = (
  record s {
    revisions =
        put s.revisions r (record (s.revisions r) { remaining = (s.revisions r).remaining - 1 });
  },
  if (s.revisions r).remaining == 1 then pushing r k else resume k,
)
thread_step locked (pushing r k) s = (record s { completed = r ∷ s.completed }, resume k)
thread_step locked ended s = (s, ended)
