-- ===== src/Exchange/WaitFree.antt =====
-- How many steps a producer's call may still take.
use orgmodule_services.Common.{ℕ, suc, ◌+◌, ◌-◌, ◌*◌, ◌≤◌, ◌<◌, none, some, arith}
use orgmodule_services.Exchange.{
  Producer, State, take_back, retire_ready, check_ready, reclaim, empty_slot, scan, fill, announce,
  producer_step, take_back_step, check_step, end_reclaim,
}

module _ {ℓ} {A : Type ℓ} where
  -- A bound on the steps of the call; a call of TryReplace begins with 16.
  abbrev pub steps_left : Producer A → ℕ
  steps_left Producer.at_rest = 0
  steps_left (take_back c) = 16
  steps_left (retire_ready c i) = 15
  steps_left (check_ready c) = 14
  steps_left (reclaim o i) = 7 + 2 * (3 - i)
  steps_left (empty_slot o i) = 8 + 2 * (3 - suc i)
  steps_left (scan c i) = 3 + (3 - i)
  steps_left (fill c i) = 2
  steps_left (announce i) = 1
  steps_left (Producer.returned b) = 0

  -- A producer's call is wait-free: whatever the slots and the ready index hold, each of its own steps
  -- lowers the bound on the steps that it still has, until it has returned.
  pub producer_step-steps_left :
      (s : State A) (p : Producer A)
      → 1 ≤ steps_left p
      → steps_left (producer_step s p).producer < steps_left p
  unfolding producer_step take_back_step check_step end_reclaim
  producer_step-steps_left s Producer.at_rest n = absurd (omega arith)
  producer_step-steps_left s (take_back c) n = ground arith
  producer_step-steps_left s (retire_ready c i) n = omega arith
  producer_step-steps_left s (check_ready c) n = ground arith
  producer_step-steps_left s (reclaim none i) n = ground arith
  producer_step-steps_left s (reclaim (some c) i) n = ground arith
  producer_step-steps_left s (empty_slot o i) n = omega arith
  producer_step-steps_left s (scan c i) n = ground arith
  producer_step-steps_left s (fill c i) n = omega arith
  producer_step-steps_left s (announce i) n = omega arith
  producer_step-steps_left s (Producer.returned b) n = absurd (omega arith)
