-- ===== src/Assembly/Steps.antt =====
-- What a thread's step of `RevisionAssembler` does to outcomes, to pushes and to the threads.
use orgmodule_services.Common.{
  ℕ, ◌+◌, ◌≡◌, ◌≤◌, refl, sym, subst, ◌⊎◌, inl, inr, Bool, true, false, ◌||◌, List, [], ◌∷◌, ◌==◌,
  if◌then◌else◌, arith, times, Bool-cases, if-cases, All,
}
use orgmodule_services.Assembly.{
  pending, After, to_walk, to_attach, finish, Thread, storing, closing, walking, attaching,
  counting, pushing, ended, Assembler, put, is_in, is_pending, mark, resume, thread_step,
}
use orgmodule_services.Assembly.Debts.{remains, mark-remains}
use orgmodule_services.Assembly.Settling.{
  IsSettled, AfterSettles, Settles, StoresFirst, mark-states,
}
use orgmodule_services.Assembly.Invariant.{pushes, stores, has_outcome}

-- Outcomes stay.
pub thread_step-states :
    (locked : Bool) (t : Thread) (s : Assembler) (f : ℕ)
    → StoresFirst s t
    → IsSettled s f
    → (thread_step locked t s).0.states f ≡ s.states f
unfolding thread_step put
thread_step-states locked (storing g o) s f a h = elim (Bool-cases (f == g)) [
  | inl e ↦
      let same : f ≡ g = ground (arith, e) in
      let first : s.states f ≡ pending = subst (λ k. s.states k ≡ pending) (sym same) a in
      absurd (let open_yet : is_pending (s.states f) ≡ true = rw first refl in cc)
  | inr e ↦ rw e refl
]
thread_step-states locked (walking g (q ∷ rs)) s f a h = ground (arith, mark-states g q s)
thread_step-states locked (attaching q (g ∷ gs)) s f a h = ground (arith, mark-states g q s)
thread_step-states locked t s f a h = ground arith

mark-completed : (f q : ℕ) (s : Assembler) → (mark f q s).completed ≡ s.completed
unfolding mark
mark-completed f q s = ground arith

pushes-resume : (r : ℕ) (k : After) → pushes r (resume k) ≡ 0
pushes-resume r (to_walk f rs) = refl
pushes-resume r (to_attach q fs) = refl
pushes-resume r finish = refl

-- The count of a revision goes down to 0 where a thread is to push it.
pub thread_step-pushes :
    (locked : Bool) (t : Thread) (s : Assembler) (r : ℕ)
    → (times r (thread_step locked t s).0.completed + pushes r (thread_step locked t s).1
        ≤ times r s.completed + pushes r t)
      ⊎ ((remains r s ≡ 1) × (remains r (thread_step locked t s).0 ≡ 0))
unfolding thread_step times put
thread_step-pushes locked (storing g o) s r = inl (omega arith)
thread_step-pushes locked (closing g) s r = inl (omega arith)
thread_step-pushes locked (walking g []) s r = inl (omega arith)
thread_step-pushes locked (walking g (q ∷ rs)) s r = inl (ground (arith, mark-completed g q s))
thread_step-pushes locked (attaching q []) s r = inl (omega arith)
thread_step-pushes locked (attaching q (g ∷ gs)) s r = inl (ground (arith, mark-completed g q s))
thread_step-pushes locked (counting q k) s r = elim (Bool-cases ((s.revisions q).remaining == 1)) [
  | inl last ↦ rw last (elim (Bool-cases (r == q)) [
    | inl e ↦ inr (ground (arith, last, e), ground (arith, last, e))
    | inr e ↦ rw e (inl (omega arith))
  ])
  | inr more ↦ rw more (inl (ground (arith, pushes-resume r k)))
]
thread_step-pushes locked (pushing q k) s r = inl (ground (arith, pushes-resume r k))
thread_step-pushes locked ended s r = inl (omega arith)

pub thread_step-remains :
    (locked : Bool) (t : Thread) (s : Assembler) (r : ℕ)
    → remains r (thread_step locked t s).0 ≤ remains r s
unfolding thread_step put
thread_step-remains locked (walking g (q ∷ rs)) s r = ground (arith, mark-remains g r q s)
thread_step-remains locked (attaching q (g ∷ gs)) s r = ground (arith, mark-remains g r q s)
thread_step-remains locked t s r = ground arith

pub thread_step-stores :
    (locked : Bool) (t : Thread) (s : Assembler) (f : ℕ)
    → stores f (thread_step locked t s).1 + has_outcome f (thread_step locked t s).0
      ≤ stores f t + has_outcome f s
unfolding thread_step put
thread_step-stores locked (storing g o) s f = ground arith
thread_step-stores locked (walking g (q ∷ rs)) s f = ground (arith, mark-states g q s)
thread_step-stores locked (attaching q (g ∷ gs)) s f = ground (arith, mark-states g q s)
thread_step-stores locked (counting q (to_walk g rs)) s f = ground arith
thread_step-stores locked (counting q (to_attach g rs)) s f = ground arith
thread_step-stores locked (counting q finish) s f = ground arith
thread_step-stores locked (pushing q (to_walk g rs)) s f = ground arith
thread_step-stores locked (pushing q (to_attach g rs)) s f = ground arith
thread_step-stores locked (pushing q finish) s f = ground arith
thread_step-stores locked t s f = ground arith

-- Threads that settled fragments hold go on to hold them.
pub Settles-mono :
    (s u : Assembler)
    → ((f : ℕ) → IsSettled s f → IsSettled u f)
    → (t : Thread) → Settles s t
    → Settles u t
Settles-mono s u m (storing f o) h = h
Settles-mono s u m (closing f) h = m f h
Settles-mono s u m (walking f rs) h = m f h
Settles-mono s u m (attaching q fs) h = tt
Settles-mono s u m (counting q (to_walk f rs)) h = m f h
Settles-mono s u m (counting q (to_attach r fs)) h = tt
Settles-mono s u m (counting q finish) h = tt
Settles-mono s u m (pushing q (to_walk f rs)) h = m f h
Settles-mono s u m (pushing q (to_attach r fs)) h = tt
Settles-mono s u m (pushing q finish) h = tt
Settles-mono s u m ended h = tt

pub All-mono :
    (s u : Assembler)
    → ((f : ℕ) → IsSettled s f → IsSettled u f)
    → (ts : List Thread) → All (Settles s) ts
    → All (Settles u) ts
All-mono s u m [] h = tt
All-mono s u m (t ∷ ts) h = (Settles-mono s u m t h.0, All-mono s u m ts h.1)

Settles-next :
    (s : Assembler) (q : ℕ) (k : After) (last : Bool)
    → AfterSettles s k
    → Settles s (if last then pushing q k else resume k)
Settles-next s q k true h = h
Settles-next s q (to_walk f rs) false h = h
Settles-next s q (to_attach r fs) false h = tt
Settles-next s q finish false h = tt

mark-IsSettled : (f q g : ℕ) (s : Assembler) → IsSettled s g → IsSettled (mark f q s) g
mark-IsSettled f q g s h = ground (arith, mark-states f q s, h)

pub thread_step-Settles :
    (locked : Bool) (t : Thread) (s : Assembler)
    → Settles s t
    → Settles (thread_step locked t s).0 (thread_step locked t s).1
unfolding thread_step put
thread_step-Settles locked (storing f o) s h = ground (arith, h)
thread_step-Settles locked (closing f) s h = h
thread_step-Settles locked (walking f []) s h = tt
thread_step-Settles locked (walking f (q ∷ rs)) s h =
    if-cases (λ (p : Assembler × Thread). Settles (p.0) (p.1)) (locked || is_in q s.unfinished) _ _
      (λ e. mark-IsSettled f q f s h) (λ e. h)
thread_step-Settles locked (attaching q []) s h = tt
thread_step-Settles locked (attaching q (f ∷ fs)) s h =
    if-cases (λ (p : Assembler × Thread). Settles (p.0) (p.1)) (s.closed f) _ _ (λ e. tt) (λ e. tt)
thread_step-Settles locked (counting q k) s h =
    Settles-mono s (thread_step locked (counting q k) s).0 (λ f x. x) _
      (Settles-next s q k ((s.revisions q).remaining == 1) h)
thread_step-Settles locked (pushing q k) s h =
    Settles-mono s (thread_step locked (pushing q k) s).0 (λ f x. x) _ (Settles-next s q k false h)
thread_step-Settles locked ended s h = tt

mark-closed : (f q : ℕ) (s : Assembler) → (mark f q s).closed ≡ s.closed
unfolding mark
mark-closed f q s = ground arith

-- Closed waiters are those of a settled fragment.
pub thread_step-closed :
    (locked : Bool) (t : Thread) (s : Assembler)
    → Settles s t
    → StoresFirst s t
    → ((f : ℕ) → s.closed f ≡ true → IsSettled s f)
    → (f : ℕ) → (thread_step locked t s).0.closed f ≡ true
    → IsSettled (thread_step locked t s).0 f
unfolding thread_step put
thread_step-closed locked (storing g o) s h a c f = ground (arith, c f, h, a)
thread_step-closed locked (closing g) s h a c f = ground (arith, c f, h)
thread_step-closed locked (walking g (q ∷ rs)) s h a c f =
    ground (arith, c f, mark-closed g q s, mark-states g q s)
thread_step-closed locked (attaching q (g ∷ gs)) s h a c f =
    ground (arith, c f, mark-closed g q s, mark-states g q s)
thread_step-closed locked t s h a c f = c f
