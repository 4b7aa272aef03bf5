-- ===== src/Clock.antt =====
-- `RetirementClock` of src/BackingPool.cpp: points of a timeline, and the wakes that wait for them. Each
-- thread's step has one atomic operation at most; between them it works on the list that it took.
-- A wake is named by a number, and what it does is the host's; an empty wake, which Subscribe leaves
-- out, has none. The diagnostic count of waiters and the destructor are not here.
pub mod Kept
pub mod Woken
use orgmodule_services.Common.{
  ℕ, zero, suc, ◌+◌, Bool, true, false, Option, none, some, List, [], ◌∷◌, ◌++◌, ltb, leb, max, min,
  u64_max, if◌then◌else◌,
}

pub record Waiter : Type 0 where
  pub point : ℕ
  pub wake : ℕ

-- Where a thread is: in Subscribe before the push and after it, and in RunReached before it takes the
-- stack, with the list it took, with what it keeps of it and the lowest point of that, and after
-- it has pushed that back.
pub data Thread : Type 0 where
  subscribing : Waiter → Thread
  checking : ℕ → Thread
  taking : Thread
  holding : List Waiter → Thread
  pushing : List Waiter → ℕ → Thread
  rechecking : ℕ → Thread
  done : Thread

-- `m_completed`, the stack `m_waiters`, top first, and the wakes that have run.
pub record Clock : Type 0 where
  pub completed : ℕ
  pub waiters : List Waiter
  pub ran : List ℕ

abbrev pub new_clock : Clock
new_clock = record { completed = 0; waiters = []; ran = [] }

-- The walk over a taken list: the wakes that are reached run, the others are kept in reverse, with
-- their lowest point.
unfoldable pub reached_of : ℕ → List Waiter → List ℕ
reached_of completed [] = []
reached_of completed (w ∷ ws) =
    let rest = reached_of completed ws in if leb w.point completed then w.wake ∷ rest else rest

unfoldable pub kept_of : ℕ → List Waiter → List Waiter → List Waiter
kept_of completed [] kept = kept
kept_of completed (w ∷ ws) kept =
    kept_of completed ws (if leb w.point completed then kept else w ∷ kept)

unfoldable pub lowest_of : ℕ → List Waiter → ℕ → ℕ
lowest_of completed [] lowest = lowest
lowest_of completed (w ∷ ws) lowest =
    lowest_of completed ws
      (if leb w.point completed then lowest else if ltb w.point lowest then w.point else lowest)

-- After the walk: nothing kept ends the call.
abbrev pub after_walk : List Waiter → ℕ → Thread
after_walk [] lowest = done
after_walk (w ∷ kept) lowest = pushing (w ∷ kept) lowest

abbrev pub after_take : List Waiter → Thread
after_take [] = done
after_take (w ∷ ws) = holding (w ∷ ws)

unfoldable pub thread_step : Thread → Clock → Clock × Thread
thread_step (subscribing w) c = (record c { waiters = w ∷ c.waiters }, checking w.point)
thread_step (checking point) c = (c, if leb point c.completed then taking else done)
thread_step taking c = (record c { waiters = [] }, after_take c.waiters)
thread_step (holding ws) c = (
  record c { ran = c.ran ++ reached_of c.completed ws },
  after_walk (kept_of c.completed ws []) (lowest_of c.completed ws u64_max),
)
thread_step (pushing kept lowest) c = (record c { waiters = kept ++ c.waiters }, rechecking lowest)
thread_step (rechecking lowest) c = (c, if ltb c.completed lowest then done else taking)
thread_step done c = (c, done)

-- A step of the thread at an index.
unfoldable pub step_at : ℕ → List Thread → Clock → Clock × List Thread
step_at i [] c = (c, [])
step_at zero (t ∷ ts) c = ((thread_step t c).0, (thread_step t c).1 ∷ ts)
step_at (suc i) (t ∷ ts) c = ((step_at i ts c).0, t ∷ (step_at i ts c).1)

-- `Advance`: the point never goes back, and the thread goes on to RunReached.
abbrev pub advance : ℕ → List Thread → Clock → Clock × List Thread
advance completed ts c = (record c { completed = max c.completed completed }, taking ∷ ts)

-- `Subscribe`: a point that is reached wakes at once.
unfoldable pub subscribe : Waiter → List Thread → Clock → Clock × List Thread
subscribe w ts c =
    if leb w.point c.completed
    then (record c { ran = c.ran ++ w.wake ∷ [] }, ts)
    else (c, subscribing w ∷ ts)
