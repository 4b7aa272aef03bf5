-- ===== src/Assembly/Debts.antt =====
-- What is owed to the revisions of `RevisionAssembler`: the counts that waiters and threads are to make.
use orgmodule_services.Common.{
  ℕ, suc, ◌+◌, ◌≡◌, ◌≤◌, refl, inl, inr, Bool, true, false, ◌||◌, List, [], ◌∷◌, ◌==◌,
  if◌then◌else◌, length, arith, times, Bool-cases,
}
use orgmodule_services.Assembly.{
  After, to_walk, to_attach, finish, Thread, storing, closing, walking, attaching, counting,
  pushing, ended, Assembler, put, is_in, mark, waiters_of, others_than, resume, thread_step,
}

unfoldable pub waits : ℕ → List (ℕ × ℕ) → ℕ
waits r [] = 0
waits r ((f, q) ∷ ws) = (if r == q then 1 else 0) + waits r ws

unfoldable pub waits_for : ℕ → ℕ → List (ℕ × ℕ) → ℕ
waits_for f r [] = 0
waits_for f r ((g, q) ∷ ws) = (if f == g then if r == q then 1 else 0 else 0) + waits_for f r ws

-- The counts of a revision that a thread is to make; a seal's own is one of them.
abbrev pub owes_after : ℕ → After → ℕ
owes_after r (to_walk f rs) = times r rs
owes_after r (to_attach q fs) = if r == q then suc (length fs) else 0
owes_after r finish = 0

abbrev pub owes : ℕ → Thread → ℕ
owes r (storing f o) = 0
owes r (closing f) = 0
owes r (walking f rs) = times r rs
owes r (attaching q fs) = if r == q then suc (length fs) else 0
owes r (counting q k) = (if r == q then 1 else 0) + owes_after r k
owes r (pushing q k) = owes_after r k
owes r ended = 0

-- Those of them that are for a fragment that the thread has not marked yet.
abbrev pub owes_for_after : ℕ → ℕ → After → ℕ
owes_for_after f r (to_walk g rs) = if f == g then times r rs else 0
owes_for_after f r (to_attach q fs) = if r == q then times f fs else 0
owes_for_after f r finish = 0

abbrev pub owes_for : ℕ → ℕ → Thread → ℕ
owes_for f r (storing g o) = 0
owes_for f r (closing g) = 0
owes_for f r (walking g rs) = if f == g then times r rs else 0
owes_for f r (attaching q fs) = if r == q then times f fs else 0
owes_for f r (counting q k) = owes_for_after f r k
owes_for f r (pushing q k) = owes_for_after f r k
owes_for f r ended = 0

pub owes-resume : (r : ℕ) (k : After) → owes r (resume k) ≡ owes_after r k
owes-resume r (to_walk f rs) = refl
owes-resume r (to_attach q fs) = refl
owes-resume r finish = refl

pub owes_for-resume : (f r : ℕ) (k : After) → owes_for f r (resume k) ≡ owes_for_after f r k
owes_for-resume f r (to_walk g rs) = refl
owes_for-resume f r (to_attach q fs) = refl
owes_for-resume f r finish = refl

pub times-length : (n : ℕ) (xs : List ℕ) → times n xs ≤ length xs
unfolding times
times-length n [] = omega arith
times-length n (x ∷ xs) = ground (arith, times-length n xs)

owes_for_after-le : (f r : ℕ) (k : After) → owes_for_after f r k ≤ owes_after r k
owes_for_after-le f r (to_walk g rs) = ground arith
owes_for_after-le f r (to_attach q fs) = ground (arith, times-length f fs)
owes_for_after-le f r finish = omega arith

pub owes_for-le : (f r : ℕ) (t : Thread) → owes_for f r t ≤ owes r t
owes_for-le f r (storing g o) = omega arith
owes_for-le f r (closing g) = omega arith
owes_for-le f r (walking g rs) = ground arith
owes_for-le f r (attaching q fs) = ground (arith, times-length f fs)
owes_for-le f r (counting q k) = ground (arith, owes_for_after-le f r k)
owes_for-le f r (pushing q k) = owes_for_after-le f r k
owes_for-le f r ended = omega arith

pub waits_for-le : (f r : ℕ) (ws : List (ℕ × ℕ)) → waits_for f r ws ≤ waits r ws
unfolding waits waits_for
waits_for-le f r [] = omega arith
waits_for-le f r ((g, q) ∷ ws) = ground (arith, waits_for-le f r ws)

-- A closing splits the waiters into the fragment's own and the others'.
pub waits-split :
    (r f : ℕ) (ws : List (ℕ × ℕ))
    → times r (waiters_of f ws) + waits r (others_than f ws) ≡ waits r ws
unfolding waits times waiters_of others_than
waits-split r f [] = omega arith
waits-split r f ((g, q) ∷ ws) = ground (arith, waits-split r f ws)

pub waits_for-split :
    (g r f : ℕ) (ws : List (ℕ × ℕ))
    → (if g == f then times r (waiters_of f ws) else 0) + waits_for g r (others_than f ws)
      ≡ waits_for g r ws
unfolding waits_for times waiters_of others_than
waits_for-split g r f [] = ground arith
waits_for-split g r f ((h, q) ∷ ws) = ground (arith, waits_for-split g r f ws)

abbrev pub remains : ℕ → Assembler → ℕ
remains r s = (s.revisions r).remaining

-- A mark leaves the counts.
pub mark-remains : (f r q : ℕ) (s : Assembler) → remains r (mark f q s) ≡ remains r s
unfolding mark put
mark-remains f r q s = ground arith

pub mark-waiting : (f q : ℕ) (s : Assembler) → (mark f q s).waiting ≡ s.waiting
unfolding mark
mark-waiting f q s = ground arith

-- What a thread is to count with, where it counts: something.
abbrev pub CanCount : Assembler → Thread → Type 0
CanCount s (counting r k) = 1 ≤ remains r s
CanCount s (storing f o) = Unit {0}
CanCount s (closing f) = Unit {0}
CanCount s (walking f rs) = Unit {0}
CanCount s (attaching r fs) = Unit {0}
CanCount s (pushing r k) = Unit {0}
CanCount s ended = Unit {0}

pub owes-next :
    (r q : ℕ) (k : After) (b : Bool) → owes r (if b then pushing q k else resume k) ≡ owes_after r k
owes-next r q k true = refl
owes-next r q k false = owes-resume r k

pub owes_for-next :
    (f r q : ℕ) (k : After) (b : Bool)
    → owes_for f r (if b then pushing q k else resume k) ≡ owes_for_after f r k
owes_for-next f r q k true = refl
owes_for-next f r q k false = owes_for-resume f r k

-- A step takes from what is owed to a revision what it takes from its count, or more.
pub thread_step-owes :
    (locked : Bool) (t : Thread) (s : Assembler) (r : ℕ)
    → CanCount s t
    → waits r (thread_step locked t s).0.waiting + owes r (thread_step locked t s).1 + remains r s
      ≤ waits r s.waiting + owes r t + remains r (thread_step locked t s).0
unfolding thread_step times waits put
thread_step-owes locked (storing f o) s r c = omega arith
thread_step-owes locked (closing f) s r c = let h = waits-split r f s.waiting in omega (arith, h)
thread_step-owes locked (walking f []) s r c = omega arith
thread_step-owes locked (walking f (q ∷ rs)) s r c =
    elim (Bool-cases (locked || is_in q s.unfinished)) [
      | inl e ↦ rw e (rw (mark-waiting f q s) (let h = mark-remains f r q s in omega (arith, h)))
      | inr e ↦ rw e (omega arith)
    ]
thread_step-owes locked (attaching q []) s r c = ground arith
thread_step-owes locked (attaching q (f ∷ fs)) s r c = elim (Bool-cases (s.closed f)) [
  | inl e ↦ rw e (rw (mark-waiting f q s) (let h = mark-remains f r q s in ground (arith, h)))
  | inr e ↦ rw e (ground arith)
]
thread_step-owes locked (counting q k) s r c =
    rw (owes-next r q k ((s.revisions q).remaining == 1)) (ground (arith, c))
thread_step-owes locked (pushing q k) s r c = rw (owes-resume r k) (omega arith)
thread_step-owes locked ended s r c = omega arith
