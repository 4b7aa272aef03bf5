-- ===== src/Pump/Stats.antt =====
-- `GetStats` of SerializedTaskPump.h, read while nothing else runs. The counter of rejected
-- submissions is the sum of what the two parts count.
use orgmodule_services.Common.{ℕ, ◌+◌, Bool, true, false, ◌||◌, none, some, u64}
use orgmodule_services.Pump.{Pump, PumpState, idle, scheduled, running, stopping, is_running}
use orgmodule_services.Pump.Delayed.{Delayed}

pub record Stats : Type 0 where
  pub requested_epoch : ℕ
  pub drained_epoch : ℕ
  pub notifications : ℕ
  pub coalesced_notifications : ℕ
  pub drain_passes : ℕ
  pub handoff_retries : ℕ
  pub handoff_resubmissions : ℕ
  pub delayed_requests : ℕ
  pub delayed_coalesced : ℕ
  pub delayed_fired : ℕ
  pub stale_delayed : ℕ
  pub rejected : ℕ
  pub runner_active : Bool
  pub delayed_armed : Bool

abbrev pub is_scheduled : PumpState → Bool
is_scheduled scheduled = true
is_scheduled idle = false
is_scheduled running = false
is_scheduled stopping = false

-- `IsIdle`
abbrev pub is_idle : PumpState → Bool
is_idle idle = true
is_idle scheduled = false
is_idle running = false
is_idle stopping = false

unfoldable pub get_stats : Pump → Delayed → Stats
get_stats p d = record {
  requested_epoch = p.epoch;
  drained_epoch = p.drained_epoch;
  notifications = p.notifications;
  coalesced_notifications = p.coalesced;
  drain_passes = p.drain_passes;
  handoff_retries = p.handoff_retries;
  handoff_resubmissions = p.handoff_resubmissions;
  delayed_requests = d.delayed_requests;
  delayed_coalesced = d.delayed_coalesced;
  delayed_fired = d.delayed_fired;
  stale_delayed = d.stale_delayed;
  rejected = u64 (p.rejected + d.rejected);
  runner_active = is_scheduled p.state || is_running p.state;
  delayed_armed = elim d.due [ none ↦ false | some due ↦ true ];
}
