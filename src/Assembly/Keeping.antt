-- ===== src/Assembly/Keeping.antt =====
-- A thread's step of `RevisionAssembler` keeps its invariant, wherever the thread stands.
use orgmodule_services.Common.{
  ℕ, ◌+◌, ◌≡◌, ◌≤◌, ◌<◌, refl, inl, inr, Bool, true, false, Option, List, if◌then◌else◌, arith,
  times, All,
}
use orgmodule_services.Assembly.{
  FragmentState, pending, ready, failed, Requirement, Thread, storing, closing, walking, attaching,
  counting, pushing, ended, Assembler, is_in, is_pending, thread_step,
}
use orgmodule_services.Assembly.Debts.{
  waits, owes, waits_for, owes_for, remains, CanCount, thread_step-owes,
}
use orgmodule_services.Assembly.Settling.{
  is_settled_for, IsSettled, Settles, StoresFirst, thread_step-owes_for,
}
use orgmodule_services.Assembly.Invariant.{
  sum_over, all_of, names, pushes, stores, has_outcome, is_ready, IsWhole, Inv, thread_step-IsKept,
  thread_step-slots,
}
use orgmodule_services.Assembly.Steps.{
  thread_step-states, thread_step-pushes, thread_step-remains, thread_step-stores, Settles-mono,
  All-mono, thread_step-closed,
}

-- A thread that stands in an assembler, and what is put in its place after a step.
pub record IsPlaced (s : Assembler) (t : Thread) (next : Thread) (coordinator : Thread)
    (settlers : List Thread) : Type 0 where
  pub one_of : (g : Thread → ℕ) → g t ≤ all_of g s
  pub replaced : (g : Thread → ℕ) → g coordinator + sum_over g settlers + g t ≡ all_of g s + g next

pending_lem : (o : FragmentState) → is_pending o ≡ true → o ≡ pending
pending_lem pending h = refl
pending_lem (ready v) h = absurd cc
pending_lem (failed e) h = absurd cc

-- No fragment's outcome is stored twice, and no count is taken below 1.
is_ready-settled : (o : FragmentState) → is_ready o ≡ true → is_pending o ≡ false
is_ready-settled pending h = absurd cc
is_ready-settled (ready v) h = refl
is_ready-settled (failed e) h = refl

stores-first :
    (requirements : ℕ → List Requirement) (s : Assembler) (t : Thread)
    → Inv requirements s
    → ((g : Thread → ℕ) → g t ≤ all_of g s)
    → StoresFirst s t
stores-first requirements s (storing f o) v one =
    let stored : is_pending (s.states f) ≡ true = ground (arith, v.once f, one (stores f)) in
    pending_lem (s.states f) stored
stores-first requirements s (closing f) v one = tt
stores-first requirements s (walking f rs) v one = tt
stores-first requirements s (attaching q fs) v one = tt
stores-first requirements s (counting q k) v one = tt
stores-first requirements s (pushing q k) v one = tt
stores-first requirements s ended v one = tt

can-count :
    (requirements : ℕ → List Requirement) (s : Assembler) (t : Thread)
    → Inv requirements s
    → ((g : Thread → ℕ) → g t ≤ all_of g s)
    → CanCount s t
can-count requirements s (storing f o) v one = tt
can-count requirements s (closing f) v one = tt
can-count requirements s (walking f rs) v one = tt
can-count requirements s (attaching q fs) v one = tt
can-count requirements s (counting q k) v one =
    let owed = v.counts q in let mine = one (owes q) in ground (arith, owed, mine)
can-count requirements s (pushing q k) v one = tt
can-count requirements s ended v one = tt

module _ (requirements : ℕ → List Requirement) (locked : Bool) (s : Assembler) (t c : Thread)
    (ts : List Thread) (at : IsPlaced s t (thread_step locked t s).1 c ts) (v : Inv requirements s)
    (ready_to : Settles s t) where
  placed-StoresFirst : StoresFirst s t
  placed-StoresFirst = stores-first requirements s t v at.one_of

  placed-CanCount : CanCount s t
  placed-CanCount = can-count requirements s t v at.one_of

  placed-counts :
      (r : ℕ)
      → waits r (thread_step locked t s).0.waiting + (owes r c + sum_over (owes r) ts)
        ≤ remains r (thread_step locked t s).0
  placed-counts r =
      let before = v.counts r in
      let step = thread_step-owes locked t s r placed-CanCount in
      let moved = at.replaced (owes r) in omega (arith, before, step, moved)

  placed-fresh :
      (r : ℕ)
      → s.latest_sequence < r
      → remains r (thread_step locked t s).0
          + times r (thread_step locked t s).0.completed
          + (pushes r c + sum_over (pushes r) ts)
        ≡ 0
  placed-fresh r h =
      let before = v.fresh r h in
      let less = thread_step-remains locked t s r in
      let moved = at.replaced (pushes r) in
      elim (thread_step-pushes locked t s r) [
        | inl k ↦ omega (arith, before, less, moved, k)
        | inr k ↦ absurd (omega (arith, before, k.0))
      ]

  placed-finished :
      (r : ℕ)
      → 1 ≤ times r (thread_step locked t s).0.completed + (pushes r c + sum_over (pushes r) ts)
      → remains r (thread_step locked t s).0 ≡ 0
  placed-finished r h =
      let less = thread_step-remains locked t s r in
      let moved = at.replaced (pushes r) in
      elim (thread_step-pushes locked t s r) [
        | inl k ↦
            let zero_before = v.finished r (omega (arith, h, moved, k)) in
            omega (arith, zero_before, less)
        | inr k ↦ k.1
      ]

  placed-owed :
      (r f : ℕ)
      → is_in r s.unfinished ≡ true
      → names f (s.revisions r).slots ≡ true
      → is_settled_for r f (thread_step locked t s).0 ≡ false
      → 1
        ≤ waits_for f r (thread_step locked t s).0.waiting
          + (owes_for f r c + sum_over (owes_for f r) ts)
  placed-owed r f i n h =
      let step =
        thread_step-owes_for locked t s r f ready_to placed-StoresFirst v.closed_settled i h in
      let before = v.owed r f i n step.0 in
      let moved = at.replaced (owes_for f r) in omega (arith, before, step.1, moved)

  placed-once :
      (f : ℕ)
      → (stores f c + sum_over (stores f) ts) + has_outcome f (thread_step locked t s).0
        ≤ (if s.claimed f then 1 else 0)
  placed-once f =
      let before = v.once f in
      let step = thread_step-stores locked t s f in
      let moved = at.replaced (stores f) in omega (arith, before, step, moved)

  pub placed-IsSettled : (f : ℕ) → IsSettled s f → IsSettled (thread_step locked t s).0 f
  placed-IsSettled f h = rw (thread_step-states locked t s f placed-StoresFirst h) h

  -- The fragments of a revision that is held stay ready.
  placed-IsWhole :
      (slots : List (Option ℕ))
      → IsWhole requirements slots s.states
      → IsWhole requirements slots (thread_step locked t s).0.states
  placed-IsWhole slots w = record {
    all_ready = λ f n.
        rw
          (thread_step-states locked t s f placed-StoresFirst
            (is_ready-settled (s.states f) (w.all_ready f n)))
          (w.all_ready f n);
    closed_up = w.closed_up;
  }

  pub placed-Inv :
      Settles (thread_step locked t s).0 c
      → All (Settles (thread_step locked t s).0) ts
      → Inv requirements (record (thread_step locked t s).0 { coordinator = c; settlers = ts })
  placed-Inv sc sts =
      let kept = thread_step-IsKept locked t s in
      let u : Assembler = record (thread_step locked t s).0 { coordinator = c; settlers = ts } in
      record {
        counts = placed-counts;
        fresh = λ r h. placed-fresh r (rw (kept.kept_sequence) at h);
        owed = λ r f i n h.
            placed-owed r f (rw (kept.kept_unfinished) at i)
              (rw (thread_step-slots locked t s r) at n) h;
        finished = placed-finished;
        coordinator_settles = Settles-mono (thread_step locked t s).0 u (λ f x. x) c sc;
        settlers_settle = All-mono (thread_step locked t s).0 u (λ f x. x) ts sts;
        closed_settled = thread_step-closed locked t s ready_to placed-StoresFirst v.closed_settled;
        once = λ f. rw (kept.kept_claimed) (placed-once f);
        closing_up = λ r. rw (thread_step-slots locked t s r) (v.closing_up r);
        held_whole =
            λ r slots h. placed-IsWhole slots (v.held_whole r slots (rw (kept.kept_held) at h));
      }
