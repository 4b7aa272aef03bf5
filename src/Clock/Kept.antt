-- ===== src/Clock/Kept.antt =====
-- `RetirementClock` of src/BackingPool.cpp: how often a wake stands in the stack, with the threads and
-- among those that have run.
use orgmodule_services.Common.{
  ℕ, zero, suc, ◌+◌, ◌≡◌, inl, inr, refl, List, [], ◌∷◌, ◌++◌, ltb, leb, arith, Bool-cases,
  if◌then◌else◌, ◌==◌, u64_max, times, times-append,
}
use orgmodule_services.Clock.{
  Waiter, Thread, subscribing, checking, taking, holding, pushing, rechecking, done, Clock,
  new_clock, kept_of, reached_of, lowest_of, after_walk, after_take, thread_step, step_at,
  subscribe,
}
use orgmodule_services.Clock.Woken.{Act, advance_act, subscribe_act, step_act, act}

-- How often a wake stands among waiters.
unfoldable pub waits : ℕ → List Waiter → ℕ
waits n [] = 0
waits n (w ∷ ws) = (if n == w.wake then 1 else 0) + waits n ws

abbrev pub holds : ℕ → Thread → ℕ
holds n (subscribing w) = waits n (w ∷ [])
holds n (holding ws) = waits n ws
holds n (pushing kept lowest) = waits n kept
holds n _ = 0

unfoldable pub all_hold : ℕ → List Thread → ℕ
all_hold n [] = 0
all_hold n (t ∷ ts) = holds n t + all_hold n ts

-- How often a wake stands in the stack, in the threads' lists and among those that have run.
abbrev pub held : ℕ → Clock × List Thread → ℕ
held n (c, ts) = waits n c.waiters + all_hold n ts + times n c.ran

unfoldable pub asks : ℕ → Act → ℕ
asks n (subscribe_act w) = if n == w.wake then 1 else 0
asks n _ = 0

-- Calls and steps, the first first.
unfoldable pub run : List Act → Clock × List Thread → Clock × List Thread
run [] s = s
run (a ∷ rest) s = run rest (act a s)

unfoldable pub all_ask : ℕ → List Act → ℕ
all_ask n [] = 0
all_ask n (a ∷ rest) = asks n a + all_ask n rest

waits-append : (n : ℕ) (xs ys : List Waiter) → waits n (xs ++ ys) ≡ waits n xs + waits n ys
unfolding waits
waits-append n [] ys = omega arith
waits-append n (x ∷ xs) ys = rw (waits-append n xs ys) (omega arith)

-- The walk runs or keeps each waiter.
walk-waits :
    (n completed : ℕ) (ws kept : List Waiter)
    → waits n (kept_of completed ws kept) + times n (reached_of completed ws)
      ≡ waits n ws + waits n kept
unfolding waits times kept_of reached_of
walk-waits n completed [] kept = omega arith
walk-waits n completed (w ∷ ws) kept = elim (Bool-cases (leb w.point completed)) [
  | inl e ↦ rw e (let h = walk-waits n completed ws kept in omega (arith, h))
  | inr e ↦ rw e (let h = walk-waits n completed ws (w ∷ kept) in omega (arith, h))
]

holds-after_walk :
    (n : ℕ) (kept : List Waiter) (lowest : ℕ) → holds n (after_walk kept lowest) ≡ waits n kept
unfolding waits
holds-after_walk n [] lowest = refl
holds-after_walk n (w ∷ kept) lowest = refl

holds-after_take : (n : ℕ) (ws : List Waiter) → holds n (after_take ws) ≡ waits n ws
unfolding waits
holds-after_take n [] = refl
holds-after_take n (w ∷ ws) = refl

thread_step-holds :
    (n : ℕ) (t : Thread) (c : Clock)
    → waits n (thread_step t c).0.waiters
        + holds n (thread_step t c).1
        + times n (thread_step t c).0.ran
      ≡ waits n c.waiters + holds n t + times n c.ran
unfolding thread_step waits
thread_step-holds n (subscribing w) c = omega arith
thread_step-holds n (checking point) c = elim (Bool-cases (leb point c.completed)) [
  | inl e ↦ rw e refl
  | inr e ↦ rw e refl
]
thread_step-holds n taking c = rw (holds-after_take n c.waiters) (omega arith)
thread_step-holds n (holding ws) c =
    let walk = walk-waits n c.completed ws [] in
    let kept = holds-after_walk n (kept_of c.completed ws []) (lowest_of c.completed ws u64_max) in
    let ran = times-append n c.ran (reached_of c.completed ws) in omega (arith, walk, kept, ran)
thread_step-holds n (pushing kept lowest) c = rw (waits-append n kept c.waiters) (omega arith)
thread_step-holds n (rechecking lowest) c = elim (Bool-cases (ltb c.completed lowest)) [
  | inl e ↦ rw e refl
  | inr e ↦ rw e refl
]
thread_step-holds n done c = refl

step_at-held : (n i : ℕ) (ts : List Thread) (c : Clock) → held n (step_at i ts c) ≡ held n (c, ts)
unfolding step_at all_hold
step_at-held n i [] c = refl
step_at-held n zero (t ∷ ts) c = let h = thread_step-holds n t c in omega (arith, h)
step_at-held n (suc i) (t ∷ ts) c = let h = step_at-held n i ts c in omega (arith, h)

subscribe-held :
    (n : ℕ) (w : Waiter) (ts : List Thread) (c : Clock)
    → held n (subscribe w ts c) ≡ (if n == w.wake then 1 else 0) + held n (c, ts)
unfolding subscribe waits times all_hold
subscribe-held n w ts c = elim (Bool-cases (leb w.point c.completed)) [
  | inl e ↦ rw e (let h = times-append n c.ran (w.wake ∷ []) in omega (arith, h))
  | inr e ↦ rw e (omega arith)
]

act-held : (n : ℕ) (a : Act) (s : Clock × List Thread) → held n (act a s) ≡ asks n a + held n s
unfolding act asks all_hold
act-held n (advance_act completed) (c, ts) = omega arith
act-held n (subscribe_act w) (c, ts) = subscribe-held n w ts c
act-held n (step_act i) (c, ts) = let h = step_at-held n i ts c in omega (arith, h)

run-held_from :
    (n : ℕ) (acts : List Act) (s : Clock × List Thread)
    → held n (run acts s) ≡ all_ask n acts + held n s
unfolding run all_ask
run-held_from n [] s = omega arith
run-held_from n (a ∷ rest) s =
    let h = run-held_from n rest (act a s) in let k = act-held n a s in omega (arith, h, k)

-- After any calls of Advance and Subscribe and steps of their threads from a new clock, each wake
-- stands in the stack, in the threads' lists and among those that have run, altogether as often as
-- Subscribe was called with it.
pub run-held : (n : ℕ) (acts : List Act) → held n (run acts (new_clock, [])) ≡ all_ask n acts
unfolding waits times all_hold
run-held n acts = let h = run-held_from n acts (new_clock, []) in omega (arith, h)
