-- ===== src/Pump.antt =====
-- include/ORGModuleServices/Async/SerializedTaskPump.h: a pump with one consumer at a time. Notify, the
-- consumer's claim and its way back to idle are each a compare-exchange of one word, retried until
-- it holds: each is one step here, on the word as it then is. The word's two parts are kept apart;
-- Pump/Word.antt has them as one number. A pump is configured, so its callbacks are there.
pub mod Word
pub mod Sound
pub mod Settling
pub mod Delayed
pub mod Stats
use orgmodule_services.Common.{
  ℕ, zero, suc, ◌+◌, ◌-◌, ◌*◌, ◌%◌, ◌^◌, Bool, true, false, not, ◌&&◌, ◌||◌, Option, none, some,
  List, [], ◌∷◌, ◌++◌, ltb, leb, ◌==◌, u64, if◌then◌else◌,
}

-- `State`
pub data PumpState : Type 0 where
  idle scheduled running stopping : PumpState

pub data HandoffMode : Type 0 where
  inline resubmit : HandoffMode

-- Where a thread is in `RunOwned`: about to load the word, draining for an observed epoch, and
-- about to give the consumer's role up.
pub data Phase : Type 0 where
  entering : Phase
  draining : ℕ → Phase
  leaving : ℕ → Phase

-- `owed` counts the threads that have scheduled the consumer and not called `m_submit` yet, `tasks`
-- the accepted tasks that have not begun; the rest are the members of the same names.
pub record Pump : Type 0 where
  pub state : PumpState
  pub epoch : ℕ
  pub mode : HandoffMode
  pub runners : List Phase
  pub owed : ℕ
  pub tasks : ℕ
  pub drained_epoch : ℕ
  pub notifications : ℕ
  pub coalesced : ℕ
  pub drain_passes : ℕ
  pub handoff_retries : ℕ
  pub handoff_resubmissions : ℕ
  pub rejected : ℕ

-- `Configure`
abbrev pub configure : HandoffMode → Pump
configure mode = record {
  state = idle;
  epoch = 0;
  mode = mode;
  runners = [];
  owed = 0;
  tasks = 0;
  drained_epoch = 0;
  notifications = 0;
  coalesced = 0;
  drain_passes = 0;
  handoff_retries = 0;
  handoff_resubmissions = 0;
  rejected = 0;
}

-- The epoch has the word's upper 62 bits.
abbrev pub epoch_mod : ℕ
epoch_mod = 2 ^ 62

abbrev pub next_epoch : ℕ → ℕ
next_epoch e = (e + 1) % epoch_mod

abbrev pub is_stopping : PumpState → Bool
is_stopping stopping = true
is_stopping idle = false
is_stopping scheduled = false
is_stopping running = false

abbrev pub is_running : PumpState → Bool
is_running running = true
is_running idle = false
is_running scheduled = false
is_running stopping = false

-- `Notify` up to its call of `m_submit`; whether it was refused.
unfoldable pub notify : Pump → Pump × Bool
notify p = elim p.state [
  | stopping ↦ (p, false)
  | idle ↦ (
    record p {
      state = scheduled;
      epoch = next_epoch p.epoch;
      notifications = u64 (p.notifications + 1);
      owed = suc p.owed;
    },
    true,
  )
  | scheduled ↦ (
    record p {
      epoch = next_epoch p.epoch;
      notifications = u64 (p.notifications + 1);
      coalesced = u64 (p.coalesced + 1);
    },
    true,
  )
  | running ↦ (
    record p {
      epoch = next_epoch p.epoch;
      notifications = u64 (p.notifications + 1);
      coalesced = u64 (p.coalesced + 1);
    },
    true,
  )
]

-- `Fail`
abbrev pub fail : Pump → Pump
fail p = record p { state = stopping; rejected = u64 (p.rejected + 1) }

-- A call of `m_submit` by a thread that scheduled the consumer, and whether it is accepted.
unfoldable pub submit : Bool → Pump → Pump
submit accepted p =
    if p.owed == 0
    then p
    else if accepted
    then record p { owed = p.owed - 1; tasks = suc p.tasks }
    else fail (record p { owed = p.owed - 1 })

-- The claim: the thread enters `RunOwned`.
abbrev pub claim : ℕ → Pump → Pump
claim epoch p = record p { state = running; epoch = epoch; runners = entering ∷ p.runners }

-- `Run` of an accepted task.
unfoldable pub run_task : Pump → Pump
run_task p =
    if p.tasks == 0
    then p
    else let q = record p { tasks = p.tasks - 1 } in
      if is_stopping q.state || is_running q.state then q else claim q.epoch q

-- `TryRunInline` up to `RunOwned`, and whether it takes the role.
unfoldable pub try_run_inline : Pump → Pump × Bool
try_run_inline p =
    if is_stopping p.state || is_running p.state
    then (p, false)
    else (claim (next_epoch p.epoch) p, true)

abbrev pub is_resubmit : HandoffMode → Bool
is_resubmit inline = false
is_resubmit resubmit = true

-- The end of a pass that drained for an epoch: idle only when none was requested since; else the
-- role is kept for another pass, or given to a task submitted anew. The thread's phase after it, or
-- none when it returns.
unfoldable pub leave : ℕ → Pump → Pump × Option Phase
leave observed p =
    if is_stopping p.state
    then (p, none)
    else if p.epoch == observed
    then (record p { state = idle }, none)
    else if not (is_resubmit p.mode)
    then (record p { handoff_retries = u64 (p.handoff_retries + 1) }, some entering)
    else (
      record p {
        state = scheduled;
        handoff_retries = u64 (p.handoff_retries + 1);
        handoff_resubmissions = u64 (p.handoff_resubmissions + 1);
        owed = suc p.owed;
      },
      none,
    )

-- One step of a thread in `RunOwned`; `throws` says whether the drain, if this is its end, throws.
unfoldable pub runner_step : Bool → Phase → Pump → Pump × Option Phase
runner_step throws entering p =
    if is_stopping p.state then (p, none) else (p, some (draining p.epoch))
runner_step throws (draining observed) p = if throws then (fail p, none) else (
  record p { drained_epoch = observed; drain_passes = u64 (p.drain_passes + 1) },
  some (leaving observed),
)
runner_step throws (leaving observed) p = leave observed p

abbrev pub put_back : Option Phase → List Phase → List Phase
put_back none rest = rest
put_back (some phase) rest = phase ∷ rest

-- A step of the thread at an index of the list, with those before it.
unfoldable pub step_at : ℕ → Bool → List Phase → List Phase → Pump → Pump
step_at i throws before [] p = p
step_at zero throws before (phase ∷ rest) p =
    let (q, next) = runner_step throws phase p in
    record q { runners = before ++ put_back next rest }
step_at (suc i) throws before (phase ∷ rest) p = step_at i throws (before ++ phase ∷ []) rest p

unfoldable pub run_owned : ℕ → Bool → Pump → Pump
run_owned i throws p = step_at i throws [] p.runners p

-- `Stop`
abbrev pub stop : Pump → Pump
stop p = record p { state = stopping }
