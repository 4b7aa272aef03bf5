-- ===== src/Examples/Clocks.antt =====
-- The retirement clock at a concrete run: a wake that waits, its push, and the advance that runs it.
use orgmodule_services.Common.{◌≡◌, refl, List, [], ◌∷◌}
use orgmodule_services.Clock.{
  Clock, Thread, Waiter, thread_step, step_at, subscribe, new_clock, kept_of, reached_of, lowest_of,
}
use orgmodule_services.Clock.Kept.{held, run, all_ask, run-held}
use orgmodule_services.Clock.Woken.{
  advance_act, subscribe_act, step_act, act, made, acted, IsWoken, Reached-IsWoken,
}

abbrev waiter_5 : Waiter
waiter_5 = record { point = 5; wake = 7 }

-- The advance comes between Subscribe's look and its push, and finds the stack empty; the look after
-- the push takes the waiter and runs it.
abbrev before_run : Clock × List Thread
before_run =
    act (step_act 1)
      (act (step_act 0) (act (advance_act 5) (act (subscribe_act waiter_5) (new_clock, []))))

missed-runs : (act (step_act 1) (act (step_act 1) (act (step_act 1) before_run))).0.ran ≡ 7 ∷ []
unfolding act step_at subscribe thread_step kept_of reached_of lowest_of
missed-runs = refl

Reached-IsWoken_example : IsWoken before_run
Reached-IsWoken_example = Reached-IsWoken before_run (
    acted (step_act 1) _
      (acted (step_act 0) _ (acted (advance_act 5) _ (acted (subscribe_act waiter_5) _ made))))

run-held_example :
    held 7
      (run (subscribe_act waiter_5 ∷ advance_act 5 ∷ step_act 0 ∷ step_act 1 ∷ []) (new_clock, []))
    ≡ all_ask 7 (subscribe_act waiter_5 ∷ advance_act 5 ∷ step_act 0 ∷ step_act 1 ∷ [])
run-held_example =
    run-held 7 (subscribe_act waiter_5 ∷ advance_act 5 ∷ step_act 0 ∷ step_act 1 ∷ [])
