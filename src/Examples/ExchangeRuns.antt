-- ===== src/Examples/ExchangeRuns.antt =====
-- The publication exchange at a concrete state.
use native.Mathlib.Omega.{arith}
use orgmodule_services.Common.{ℕ, ◌<◌}
use orgmodule_services.Exchange.{initial, producer_step, take_back}
use orgmodule_services.Exchange.WaitFree.{steps_left, producer_step-steps_left}

producer_step-steps_left_example :
    steps_left (producer_step {A = ℕ} initial (take_back 5)).producer < 16
producer_step-steps_left_example =
    producer_step-steps_left {A = ℕ} initial (take_back 5) (omega arith)
