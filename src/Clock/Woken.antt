-- ===== src/Clock/Woken.antt =====
-- `RetirementClock` of src/BackingPool.cpp: the waiters on the stack whose point is reached, and the
-- threads that are to take it.
use orgmodule_services.Common.{
  ℕ, zero, suc, ◌≡◌, ◌≤◌, ◌⊎◌, inl, inr, refl, Bool, true, false, ◌||◌, List, [], ◌∷◌, ◌++◌, ltb,
  leb, u64_max, arith, if-cases, Bool-cases, if◌then◌else◌,
}
use orgmodule_services.Clock.{
  Waiter, Thread, subscribing, checking, taking, holding, pushing, rechecking, done, Clock,
  new_clock, kept_of, lowest_of, after_walk, after_take, thread_step, step_at, advance, subscribe,
}

-- A call, or a step of the thread at an index.
pub data Act : Type 0 where
  advance_act : ℕ → Act
  subscribe_act : Waiter → Act
  step_act : ℕ → Act

unfoldable pub act : Act → Clock × List Thread → Clock × List Thread
act (advance_act completed) (c, ts) = advance completed ts c
act (subscribe_act w) (c, ts) = subscribe w ts c
act (step_act i) (c, ts) = step_at i ts c

pub data Reached : Clock × List Thread → Type 0 where
  made : Reached (new_clock, [])
  acted : (a : Act) (s : Clock × List Thread) → Reached s → Reached (act a s)

-- Whether the stack has a waiter whose point is reached.
unfoldable pub has_reached : ℕ → List Waiter → Bool
has_reached completed [] = false
has_reached completed (w ∷ ws) = leb w.point completed || has_reached completed ws

-- Whether a thread is to take the stack, as things are.
abbrev pub will_take : ℕ → Thread → Bool
will_take completed (subscribing w) = false
will_take completed (checking point) = leb point completed
will_take completed taking = true
will_take completed (holding ws) = false
will_take completed (pushing kept lowest) = false
will_take completed (rechecking lowest) = leb lowest completed
will_take completed done = false

unfoldable pub is_awaited : ℕ → List Thread → Bool
is_awaited completed [] = false
is_awaited completed (t ∷ ts) = will_take completed t || is_awaited completed ts

-- The lowest point of what a thread keeps is not past any of it.
unfoldable pub is_below : ℕ → List Waiter → Bool
is_below lowest [] = true
is_below lowest (w ∷ ws) = if leb lowest w.point then is_below lowest ws else false

abbrev pub IsLow : Thread → Type 0
IsLow (pushing kept lowest) = is_below lowest kept ≡ true
IsLow _ = Unit {0}

abbrev pub AllLow : List Thread → Type 0
AllLow [] = Unit {0}
AllLow (t ∷ ts) = IsLow t × AllLow ts

pub record IsWoken (s : Clock × List Thread) : Type 0 where
  pub low : AllLow s.1
  pub awaited : has_reached s.0.completed s.0.waiters ≡ true → is_awaited s.0.completed s.1 ≡ true

is_below-weaken : (a b : ℕ) (ws : List Waiter) → a ≤ b → is_below b ws ≡ true → is_below a ws ≡ true
unfolding is_below
is_below-weaken a b [] h k = refl
is_below-weaken a b (w ∷ ws) h k = ground (arith, k, is_below-weaken a b ws)

-- The walk's lowest point is not past any waiter that it keeps.
walk-is_below :
    (completed : ℕ) (ws kept : List Waiter) (lowest : ℕ)
    → is_below lowest kept ≡ true
    → is_below (lowest_of completed ws lowest) (kept_of completed ws kept) ≡ true
unfolding lowest_of kept_of is_below
walk-is_below completed [] kept lowest h = h
walk-is_below completed (w ∷ ws) kept lowest h = elim (Bool-cases (leb w.point completed)) [
  | inl e ↦ rw e (walk-is_below completed ws kept lowest h)
  | inr e ↦ rw e (
      walk-is_below completed ws (w ∷ kept) (if ltb w.point lowest then w.point else lowest)
        (ground (arith, h, is_below-weaken w.point lowest kept)))
]

after_walk-IsLow :
    (kept : List Waiter) (lowest : ℕ) → is_below lowest kept ≡ true → IsLow (after_walk kept lowest)
after_walk-IsLow [] lowest h = tt
after_walk-IsLow (w ∷ kept) lowest h = h

after_take-IsLow : (ws : List Waiter) → IsLow (after_take ws)
after_take-IsLow [] = tt
after_take-IsLow (w ∷ ws) = tt

pushed :
    (lowest completed : ℕ) (kept ws : List Waiter)
    → is_below lowest kept ≡ true
    → has_reached completed (kept ++ ws) ≡ true
    → (leb lowest completed ≡ true) ⊎ (has_reached completed ws ≡ true)
unfolding is_below has_reached
pushed lowest completed [] ws b h = inr h
pushed lowest completed (w ∷ kept) ws b h = elim (Bool-cases (leb w.point completed)) [
  | inl e ↦ inl (ground (arith, b, e))
  | inr e ↦ pushed lowest completed kept ws (ground (arith, b)) (ground (arith, h, e))
]

-- What a step of a thread does: where the stack has a reached waiter after it, the thread is to take
-- it, or the stack had one before and the thread is no less to take it than it was.
record IsStep (t : Thread) (c : Clock) (r : Clock × Thread) : Type 0 where
  same : r.0.completed ≡ c.completed
  low : IsLow r.1
  awaits :
      has_reached c.completed r.0.waiters ≡ true
      → (will_take c.completed r.1 ≡ true)
        ⊎ ((has_reached c.completed c.waiters ≡ true) × (will_take c.completed t ≡ false))

thread_step-IsStep : (t : Thread) (c : Clock) → IsLow t → IsStep t c (thread_step t c)
unfolding thread_step has_reached is_below
thread_step-IsStep (subscribing w) c l = record {
  same = refl;
  low = tt;
  awaits = λ h. elim (Bool-cases (leb w.point c.completed)) [
    | inl e ↦ inl e
    | inr e ↦ inr (ground (arith, h, e), refl)
  ];
}
thread_step-IsStep (checking point) c l =
    if-cases (λ z. IsStep (checking point) c (c, z)) (leb point c.completed) _ _
      (λ e. record { same = refl; low = tt; awaits = λ h. inl refl })
      (λ e. record { same = refl; low = tt; awaits = λ h. inr (h, e) })
thread_step-IsStep taking c l = record {
  same = refl;
  low = after_take-IsLow c.waiters;
  awaits = λ h. absurd cc;
}
thread_step-IsStep (holding ws) c l = record {
  same = refl;
  low =
      after_walk-IsLow (kept_of c.completed ws []) (lowest_of c.completed ws u64_max)
        (walk-is_below c.completed ws [] u64_max refl);
  awaits = λ h. inr (h, refl);
}
thread_step-IsStep (pushing kept lowest) c l = record {
  same = refl;
  low = tt;
  awaits = λ h. elim (pushed lowest c.completed kept c.waiters l h) [
    | inl e ↦ inl e
    | inr e ↦ inr (e, refl)
  ];
}
thread_step-IsStep (rechecking lowest) c l =
    if-cases (λ z. IsStep (rechecking lowest) c (c, z)) (ltb c.completed lowest) _ _
      (λ e. record { same = refl; low = tt; awaits = λ h. inr (h, ground (arith, e)) })
      (λ e. record { same = refl; low = tt; awaits = λ h. inl refl })
thread_step-IsStep done c l = record { same = refl; low = tt; awaits = λ h. inr (h, refl) }

-- The same of the step of one thread among all.
record IsListStep (ts : List Thread) (c : Clock) (r : Clock × List Thread) : Type 0 where
  same : r.0.completed ≡ c.completed
  low : AllLow r.1
  awaits :
      has_reached c.completed r.0.waiters ≡ true
      → (is_awaited c.completed r.1 ≡ true)
        ⊎ ((has_reached c.completed c.waiters ≡ true)
            × (is_awaited c.completed ts ≡ true → is_awaited c.completed r.1 ≡ true))

step_at-IsListStep :
    (i : ℕ) (ts : List Thread) (c : Clock) → AllLow ts → IsListStep ts c (step_at i ts c)
unfolding step_at is_awaited
step_at-IsListStep i [] c l = record { same = refl; low = tt; awaits = λ h. inr (h, λ k. k) }
step_at-IsListStep zero (t ∷ ts) c (l, ls) =
    let s = thread_step-IsStep t c l in
    record {
      same = s.same;
      low = (s.low, ls);
      awaits = λ h. elim (s.awaits h) [
        | inl e ↦ inl (ground (arith, e))
        | inr (k, f) ↦ inr (k, λ a. ground (arith, f, a))
      ];
    }
step_at-IsListStep (suc i) (t ∷ ts) c (l, ls) =
    let s = step_at-IsListStep i ts c ls in
    record {
      same = s.same;
      low = (l, s.low);
      awaits = λ h. elim (s.awaits h) [
        | inl e ↦ inl (ground (arith, e))
        | inr (k, f) ↦ inr (
          k,
          λ a. elim (Bool-cases (will_take c.completed t)) [
            | inl w ↦ ground (arith, w)
            | inr w ↦ let more = f (ground (arith, a, w)) in ground (arith, more)
          ],
        )
      ];
    }

subscribed :
    (w : Waiter) (c : Clock) (ts : List Thread) → IsWoken (c, ts) → IsWoken (subscribe w ts c)
unfolding subscribe is_awaited
subscribed w c ts v =
    if-cases IsWoken (leb w.point c.completed) _ _
      (λ e. record { low = v.low; awaited = v.awaited })
      (λ e. record { low = (tt, v.low); awaited = λ h. v.awaited h })

act-IsWoken : (a : Act) (s : Clock × List Thread) → IsWoken s → IsWoken (act a s)
unfolding act is_awaited
act-IsWoken (advance_act completed) (c, ts) v = record { low = (tt, v.low); awaited = λ h. refl }
act-IsWoken (subscribe_act w) (c, ts) v = subscribed w c ts v
act-IsWoken (step_act i) (c, ts) v =
    let s = step_at-IsListStep i ts c v.low in
    record {
      low = s.low;
      awaited = λ h.
          rw s.same (elim (s.awaits (rw s.same at h)) [ inl e ↦ e | inr (k, f) ↦ f (v.awaited k) ]);
    }

-- In every state that calls of Advance and Subscribe and the steps of their threads make of a new
-- clock: while the stack has a waiter whose point is reached, some thread is about to take the stack,
-- and a thread that is to push back what it kept knows a point that is not past any of it.
pub Reached-IsWoken : (s : Clock × List Thread) → Reached s → IsWoken s
unfolding has_reached
Reached-IsWoken _ made = record { low = tt; awaited = λ h. absurd cc }
Reached-IsWoken _ (acted a s r) = act-IsWoken a s (Reached-IsWoken s r)
