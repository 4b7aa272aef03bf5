-- ===== src/Assembly/Settling.antt =====
-- Whether a revision of `RevisionAssembler` knows a fragment's outcome, as threads step.
use orgmodule_services.Common.{
  ℕ, ◌+◌, ◌≡◌, ◌≤◌, refl, sym, subst, inl, inr, Bool, true, false, ◌&&◌, ◌||◌, [], ◌∷◌, ◌==◌, arith,
  times, Bool-cases,
}
use orgmodule_services.Assembly.{
  FragmentState, pending, ready, failed, After, to_walk, to_attach, finish, Thread, storing,
  closing, walking, attaching, counting, pushing, ended, Assembler, put, is_in, is_pending, mark,
  thread_step,
}
use orgmodule_services.Assembly.Debts.{
  waits_for, owes_for, owes_for-next, owes_for-resume, waits_for-split, mark-waiting,
}

-- A fragment that is ready, or that has failed a revision which notes a failure.
abbrev pub is_known : FragmentState → Bool → Bool
is_known pending noted = false
is_known (ready v) noted = true
is_known (failed e) noted = noted

abbrev pub is_settled_for : ℕ → ℕ → Assembler → Bool
is_settled_for r f s = is_known (s.states f) (s.revisions r).has_failed

abbrev pub IsSettled : Assembler → ℕ → Type 0
IsSettled s f = is_pending (s.states f) ≡ false

abbrev pub AfterSettles : Assembler → After → Type 0
AfterSettles s (to_walk f rs) = IsSettled s f
AfterSettles s (to_attach q fs) = Unit {0}
AfterSettles s finish = Unit {0}

-- A thread that stores has an outcome; one past that has a fragment that is settled.
abbrev pub Settles : Assembler → Thread → Type 0
Settles s (storing f o) = is_pending o ≡ false
Settles s (closing f) = IsSettled s f
Settles s (walking f rs) = IsSettled s f
Settles s (attaching q fs) = Unit {0}
Settles s (counting q k) = AfterSettles s k
Settles s (pushing q k) = AfterSettles s k
Settles s ended = Unit {0}

-- The fragment that a thread stores has no outcome yet.
abbrev pub StoresFirst : Assembler → Thread → Type 0
StoresFirst s (storing f o) = s.states f ≡ pending
StoresFirst s (closing f) = Unit {0}
StoresFirst s (walking f rs) = Unit {0}
StoresFirst s (attaching q fs) = Unit {0}
StoresFirst s (counting q k) = Unit {0}
StoresFirst s (pushing q k) = Unit {0}
StoresFirst s ended = Unit {0}

is_known_mono :
    (o : FragmentState) (a b : Bool)
    → (a ≡ true → b ≡ true)
    → is_known o b ≡ false
    → is_known o a ≡ false
is_known_mono pending a b k h = refl
is_known_mono (ready v) a b k h = absurd cc
is_known_mono (failed e) true b k h = absurd (let t = k refl in cc)
is_known_mono (failed e) false b k h = refl

pub mark-states : (f q : ℕ) (s : Assembler) → (mark f q s).states ≡ s.states
unfolding mark
mark-states f q s = ground arith

mark-noted :
    (f q : ℕ) (s : Assembler) (r : ℕ)
    → (s.revisions r).has_failed ≡ true
    → ((mark f q s).revisions r).has_failed ≡ true
unfolding mark put
mark-noted f q s r h = ground arith

mark-unsettled :
    (f q : ℕ) (s : Assembler) (r g : ℕ)
    → is_settled_for r g (mark f q s) ≡ false
    → is_settled_for r g s ≡ false
mark-unsettled f q s r g h =
    is_known_mono (s.states g) (s.revisions r).has_failed ((mark f q s).revisions r).has_failed
      (mark-noted f q s r)
      (subst
        (λ (o : ℕ → FragmentState). is_known (o g) ((mark f q s).revisions r).has_failed ≡ false)
        (mark-states f q s) h)

mark-settles : (f q : ℕ) (s : Assembler) → IsSettled s f → is_settled_for q f (mark f q s) ≡ true
unfolding mark put
mark-settles f q s h = ground arith

mark-other :
    (f r g q : ℕ) (s : Assembler)
    → IsSettled s g
    → is_settled_for r f (mark g q s) ≡ false
    → (f == g && r == q) ≡ false
mark-other f r g q s a h = let known = mark-settles g q s a in ground (arith, known, h)

-- Where a step leaves an outcome unknown to an unfinished revision, it was unknown, and is owed as
-- before.
pub thread_step-owes_for :
    (locked : Bool) (t : Thread) (s : Assembler) (r f : ℕ)
    → Settles s t
    → StoresFirst s t
    → ((g : ℕ) → s.closed g ≡ true → IsSettled s g)
    → is_in r s.unfinished ≡ true
    → is_settled_for r f (thread_step locked t s).0 ≡ false
    → (is_settled_for r f s ≡ false)
      × (waits_for f r s.waiting + owes_for f r t
          ≤ waits_for f r (thread_step locked t s).0.waiting
            + owes_for f r (thread_step locked t s).1)
unfolding thread_step times waits_for put
thread_step-owes_for locked (storing g o) s r f a b c i = λ h. elim (Bool-cases (f == g)) [
  | inl e ↦ (
    let same : f ≡ g = ground (arith, e) in
        let first : s.states f ≡ pending = subst (λ k. s.states k ≡ pending) (sym same) b in
        rw first refl,
    omega arith,
  )
  | inr e ↦ (rw e at h, omega arith)
]
thread_step-owes_for locked (closing g) s r f a b c i =
    λ h. (h, let k = waits_for-split f r g s.waiting in omega (arith, k))
thread_step-owes_for locked (walking g []) s r f a b c i = λ h. (h, ground arith)
thread_step-owes_for locked (walking g (q ∷ rs)) s r f a b c i =
    elim (Bool-cases (locked || is_in q s.unfinished)) [
      | inl e ↦ rw e (
          rw (mark-waiting g q s) (λ h. (
            mark-unsettled g q s r f h,
            let one = mark-other f r g q s a h in ground (arith, one),
          )))
      | inr e ↦ rw e (λ h. (h, ground (arith, e, i)))
    ]
thread_step-owes_for locked (attaching q []) s r f a b c i = λ h. (h, ground arith)
thread_step-owes_for locked (attaching q (g ∷ gs)) s r f a b c i = elim (Bool-cases (s.closed g)) [
  | inl e ↦ rw e (
      rw (mark-waiting g q s) (λ h. (
        mark-unsettled g q s r f h,
        let one = mark-other f r g q s (c g e) h in ground (arith, one),
      )))
  | inr e ↦ rw e (λ h. (h, ground arith))
]
thread_step-owes_for locked (counting q k) s r f a b c i = λ h.
    (ground (arith, h), rw (owes_for-next f r q k ((s.revisions q).remaining == 1)) (omega arith))
thread_step-owes_for locked (pushing q k) s r f a b c i =
    λ h. (h, rw (owes_for-resume f r k) (omega arith))
thread_step-owes_for locked ended s r f a b c i = λ h. (h, omega arith)
