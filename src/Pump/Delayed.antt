-- ===== src/Pump/Delayed.antt =====
-- The delayed notifications of SerializedTaskPump.h, under a mutex of their own. Points of the steady
-- clock are numbers. A thread of NotifyAfter lets go of the mutex before it calls `m_submitDelayed`.
pub mod Armed
use orgmodule_services.Common.{
  ℕ, ◌+◌, Bool, true, false, not, ◌&&◌, ◌||◌, Option, none, some, List, [], ◌∷◌, leb, ◌==◌, u64,
  if◌then◌else◌,
}

-- `arming` lists the generations whose threads have not called `m_submitDelayed` yet, `timers` those
-- of the callbacks that it took and that have not fired; `stopped` is whether the pump's word says so;
-- the rest are the members of the same names.
pub record Delayed : Type 0 where
  pub stopped : Bool
  pub generation : ℕ
  pub due : Option ℕ
  pub arming : List ℕ
  pub timers : List ℕ
  pub delayed_requests : ℕ
  pub delayed_coalesced : ℕ
  pub delayed_fired : ℕ
  pub stale_delayed : ℕ
  pub rejected : ℕ

abbrev pub configure_delayed : ℕ → Delayed
configure_delayed generation = record {
  stopped = false;
  generation = u64 (generation + 1);
  due = none;
  arming = [];
  timers = [];
  delayed_requests = 0;
  delayed_coalesced = 0;
  delayed_fired = 0;
  stale_delayed = 0;
  rejected = 0;
}

-- What a request comes to under the mutex.
pub data Request : Type 0 where
  turned_away joined : Request
  arms : ℕ → Request

abbrev pub is_due_by : ℕ → Option ℕ → Bool
is_due_by at none = false
is_due_by at (some due) = leb due at

-- `NotifyAfter` for a positive delay, up to its call of `m_submitDelayed`, with the deadline that is
-- asked for.
unfoldable pub notify_after : ℕ → Delayed → Delayed × Request
notify_after at d =
    if d.stopped
    then (d, turned_away)
    else if is_due_by at d.due
    then (
      record d {
        delayed_requests = u64 (d.delayed_requests + 1);
        delayed_coalesced = u64 (d.delayed_coalesced + 1);
      },
      joined,
    )
    else (
      record d {
        delayed_requests = u64 (d.delayed_requests + 1);
        generation = u64 (d.generation + 1);
        due = some at;
        arming = u64 (d.generation + 1) ∷ d.arming;
      },
      arms (u64 (d.generation + 1)),
    )

-- One occurrence is taken off a list.
unfoldable pub take_off : ℕ → List ℕ → List ℕ
take_off g [] = []
take_off g (h ∷ hs) = let rest = take_off g hs in if h == g then hs else h ∷ rest

-- The call of `m_submitDelayed` for a generation, and whether it takes the callback.
unfoldable pub submit_delayed : Bool → ℕ → Delayed → Delayed
submit_delayed true g d = record d { arming = take_off g d.arming; timers = g ∷ d.timers }
submit_delayed false g d = record d {
  arming = take_off g d.arming;
  due = if d.generation == g then none else d.due;
  rejected = u64 (d.rejected + 1);
}

-- `FireDelayed`, and whether it goes on to Notify.
unfoldable pub fire_delayed : ℕ → Delayed → Delayed × Bool
fire_delayed g d =
    let fired = record d { timers = take_off g d.timers } in
    if d.stopped then (fired, false) else elim d.due [
      | none ↦ (record fired { stale_delayed = u64 (d.stale_delayed + 1) }, false)
      | some due ↦
          (if not (g == d.generation)
            then (record fired { stale_delayed = u64 (d.stale_delayed + 1) }, false)
            else (record fired { due = none; delayed_fired = u64 (d.delayed_fired + 1) }, true))
    ]

-- The stopping of the word, by `Stop` or by `Fail`.
abbrev pub stop_word_first : Delayed → Delayed
stop_word_first d = record d { stopped = true }

-- `Stop`'s part under the mutex.
abbrev pub stop_delayed : Delayed → Delayed
stop_delayed d = record d { generation = u64 (d.generation + 1); due = none }
