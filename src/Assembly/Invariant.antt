-- ===== src/Assembly/Invariant.antt =====
-- What holds of `RevisionAssembler` between any two steps, and that a thread's step keeps it.
use orgmodule_services.Common.{
  ℕ, ◌+◌, ◌≡◌, ◌≤◌, ◌<◌, Bool, true, false, ◌||◌, Option, none, some, List, [], ◌∷◌, ◌==◌,
  if◌then◌else◌, arith, times, if-cases, All,
}
use orgmodule_services.Assembly.{
  FragmentState, pending, ready, failed, Requirement, Thread, storing, closing, walking, attaching,
  counting, pushing, ended, Assembler, put, is_in, is_pending, mark, thread_step,
}
use orgmodule_services.Assembly.Calls.{closes}
use orgmodule_services.Assembly.Debts.{waits, owes, waits_for, owes_for, remains}
use orgmodule_services.Assembly.Settling.{is_settled_for, IsSettled, Settles}

unfoldable pub sum_over : (Thread → ℕ) → List Thread → ℕ
sum_over g [] = 0
sum_over g (t ∷ ts) = g t + sum_over g ts

abbrev pub all_of : (Thread → ℕ) → Assembler → ℕ
all_of g s = g s.coordinator + sum_over g s.settlers

-- Whether slots name a fragment.
unfoldable pub names : ℕ → List (Option ℕ) → Bool
names f [] = false
names f (none ∷ os) = names f os
names f (some g ∷ os) = f == g || names f os

abbrev pub pushes : ℕ → Thread → ℕ
pushes r (storing f o) = 0
pushes r (closing f) = 0
pushes r (walking f rs) = 0
pushes r (attaching q fs) = 0
pushes r (counting q k) = 0
pushes r (pushing q k) = if r == q then 1 else 0
pushes r ended = 0

abbrev pub stores : ℕ → Thread → ℕ
stores f (storing g o) = if f == g then 1 else 0
stores f (closing g) = 0
stores f (walking g rs) = 0
stores f (attaching q fs) = 0
stores f (counting q k) = 0
stores f (pushing q k) = 0
stores f ended = 0

abbrev pub has_outcome : ℕ → Assembler → ℕ
has_outcome f s = if is_pending (s.states f) then 0 else 1

abbrev pub is_ready : FragmentState → Bool
is_ready pending = false
is_ready (ready v) = true
is_ready (failed e) = false

-- Slots that name ready fragments only, with their requirements.
pub record IsWhole (requirements : ℕ → List Requirement) (slots : List (Option ℕ))
    (states : ℕ → FragmentState) : Type 0 where
  pub all_ready : (f : ℕ) → names f slots ≡ true → is_ready (states f) ≡ true
  pub closed_up : closes requirements slots slots ≡ true

pub record Inv (requirements : ℕ → List Requirement) (s : Assembler) : Type 0 where
  pub counts : (r : ℕ) → waits r s.waiting + all_of (owes r) s ≤ remains r s
  pub fresh :
      (r : ℕ) → s.latest_sequence < r → remains r s + times r s.completed + all_of (pushes r) s ≡ 0
  pub owed :
      (r f : ℕ)
      → is_in r s.unfinished ≡ true
      → names f (s.revisions r).slots ≡ true
      → is_settled_for r f s ≡ false
      → 1 ≤ waits_for f r s.waiting + all_of (owes_for f r) s
  pub finished : (r : ℕ) → 1 ≤ times r s.completed + all_of (pushes r) s → remains r s ≡ 0
  pub coordinator_settles : Settles s s.coordinator
  pub settlers_settle : All (Settles s) s.settlers
  pub closed_settled : (f : ℕ) → s.closed f ≡ true → IsSettled s f
  pub once : (f : ℕ) → all_of (stores f) s + has_outcome f s ≤ (if s.claimed f then 1 else 0)
  pub closing_up : (r : ℕ) → closes requirements (s.revisions r).slots (s.revisions r).slots ≡ true
  pub held_whole :
      (r : ℕ) (slots : List (Option ℕ))
      → s.held ≡ some (r, slots)
      → IsWhole requirements slots s.states

-- What a step leaves as it is.
pub record IsKept (s t : Assembler) : Type 0 where
  pub kept_claimed : t.claimed ≡ s.claimed
  pub kept_sequence : t.latest_sequence ≡ s.latest_sequence
  pub kept_unfinished : t.unfinished ≡ s.unfinished
  pub kept_held : t.held ≡ s.held
  pub kept_stats : t.stats ≡ s.stats

mark-IsKept : (f q : ℕ) (s : Assembler) → IsKept s (mark f q s)
unfolding mark
mark-IsKept f q s = ground arith

pub thread_step-IsKept :
    (locked : Bool) (t : Thread) (s : Assembler) → IsKept s (thread_step locked t s).0
unfolding thread_step
thread_step-IsKept locked (storing f o) s = ground arith
thread_step-IsKept locked (closing f) s = ground arith
thread_step-IsKept locked (walking f []) s = ground arith
thread_step-IsKept locked (walking f (q ∷ rs)) s =
    if-cases (λ (p : Assembler × Thread). IsKept s (p.0)) (locked || is_in q s.unfinished) _ _
      (λ e. mark-IsKept f q s) (λ e. ground arith)
thread_step-IsKept locked (attaching q []) s = ground arith
thread_step-IsKept locked (attaching q (f ∷ fs)) s =
    if-cases (λ (p : Assembler × Thread). IsKept s (p.0)) (s.closed f) _ _ (λ e. mark-IsKept f q s)
      (λ e. ground arith)
thread_step-IsKept locked (counting q k) s = ground arith
thread_step-IsKept locked (pushing q k) s = ground arith
thread_step-IsKept locked ended s = ground arith

mark-slots : (f q r : ℕ) (s : Assembler) → ((mark f q s).revisions r).slots ≡ (s.revisions r).slots
unfolding mark put
mark-slots f q r s = ground arith

pub thread_step-slots :
    (locked : Bool) (t : Thread) (s : Assembler) (r : ℕ)
    → ((thread_step locked t s).0.revisions r).slots ≡ (s.revisions r).slots
unfolding thread_step put
thread_step-slots locked (walking f (q ∷ rs)) s r = ground (arith, mark-slots f q r s)
thread_step-slots locked (attaching q (f ∷ fs)) s r = ground (arith, mark-slots f q r s)
thread_step-slots locked t s r = ground arith
