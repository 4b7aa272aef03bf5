-- ===== src/Examples/Pumps.antt =====
-- The task pump at concrete runs.
use native.Mathlib.Omega.{arith}
use orgmodule_services.Common.{◌+◌, ◌*◌, ◌≤◌, ◌≡◌, ◌%◌, refl, true, false}
use orgmodule_services.Pump.{
  Pump, scheduled, stopping, resubmit, configure, notify, submit, run_task, run_owned, step_at,
  runner_step, leave, next_epoch, epoch_mod,
}
use orgmodule_services.Pump.Word.{word, state_of, epoch_of, stop_word, word-parts}
use orgmodule_services.Pump.Sound.{
  notify_act, submit_act, task_act, runner_act, act, Reached, configured, acted,
}
use orgmodule_services.Pump.Settling.{Steps, no_step, one_step, goes_on, IsSettled, Reached-Settles}
use orgmodule_services.Pump.Delayed.{Delayed, configure_delayed}
use orgmodule_services.Pump.Delayed.Armed.{request_act}
use orgmodule_services.Pump.Delayed.Armed

word-parts_example :
    (state_of (word scheduled 5) ≡ scheduled)
    × (epoch_of (word scheduled 5) ≡ 5 % epoch_mod)
    × (word scheduled (5 + 1) ≡ word scheduled (next_epoch 5))
    × (stop_word (word scheduled 5) ≡ word stopping 5)
word-parts_example = word-parts scheduled 5

-- A request comes while the consumer drains for the one before.
abbrev busy : Pump
busy = act notify_act (
    act (runner_act 0 false)
      (act task_act (act (submit_act true) (act notify_act (configure resubmit)))))

busy-Reached : Reached busy
unfolding act notify submit run_task run_owned step_at runner_step
busy-Reached = acted notify_act _ (omega arith) (
    acted (runner_act 0 false) _ (omega arith) (
      acted task_act _ (omega arith) (
        acted (submit_act true) _ (omega arith)
          (acted notify_act (configure resubmit) (omega arith) (configured resubmit)))))

-- The pass ends, and the consumer is scheduled anew.
handed_on : (act (runner_act 0 false) (act (runner_act 0 false) busy)).state ≡ scheduled
unfolding act notify submit run_task run_owned step_at runner_step leave
handed_on = refl

-- The pass ends, and the thread goes to give the role up, and schedules the consumer anew.
abbrev after_two : Pump
after_two = run_owned 0 false (run_owned 0 false busy)

after_two-Steps : Steps 2 busy after_two
unfolding act notify submit run_task run_owned step_at runner_step leave
after_two-Steps = one_step 1 busy (run_owned 0 false busy) after_two (goes_on 0 (omega arith)) (
    one_step 0 (run_owned 0 false busy) after_two after_two (goes_on 0 (omega arith))
      (no_step after_two))

Reached-Settles_example : (2 ≤ 5 * busy.owed + 4 * busy.tasks + 7) × IsSettled busy.epoch after_two
unfolding act notify submit run_task run_owned step_at runner_step
Reached-Settles_example =
    Reached-Settles 2 busy after_two busy-Reached (λ e. absurd cc) (omega arith) after_two-Steps

-- An earlier deadline replaces the one that is armed.
abbrev earlier : Delayed
earlier =
    Armed.act (request_act 50)
      (Armed.act (Armed.submit_act true 2) (Armed.act (request_act 90) (configure_delayed 0)))
