-- ===== src/Pump/Delayed/Armed.antt =====
-- A delayed request that was taken keeps the callback that will answer it.
use orgmodule_services.Common.{
  ℕ, ◌+◌, ◌≡◌, ◌≤◌, min, Bool, true, false, ◌⊎◌, none, some, List, count_if, leb, ◌==◌, ◌≢◌,
}
use orgmodule_services.Pump.Delayed.{
  Delayed, configure_delayed, notify_after, submit_delayed, fire_delayed, stop_delayed,
  stop_word_first,
}

-- How often a generation is in a list.
abbrev pub times : ℕ → List ℕ → ℕ
times g xs = count_if (λ h. h == g) xs

-- A call of a method, or of `m_submitDelayed` by a thread that owes it, a callback that fires, and the
-- stopping of the pump's word.
pub data Act : Type 0 where
  request_act : ℕ → Act
  submit_act : Bool → ℕ → Act
  fire_act : ℕ → Act
  word_act : Act
  stop_act : Act

unfoldable pub act : Act → Delayed → Delayed
act (request_act at) d = (notify_after at d).0
act (submit_act accepted g) d = submit_delayed accepted g d
act (fire_act g) d = (fire_delayed g d).0
act word_act d = stop_word_first d
act stop_act d = stop_delayed d

-- A submission is of a generation that a thread owes, a callback is one that was taken.
unfoldable pub is_allowed : Act → Delayed → Bool
is_allowed (request_act at) d = true
is_allowed (submit_act accepted g) d = leb 1 (times g d.arming)
is_allowed (fire_act g) d = leb 1 (times g d.timers)
is_allowed word_act d = true
is_allowed stop_act d = true

pub data Reached : Delayed → Type 0 where
  configured : (generation : ℕ) → Reached (configure_delayed generation)
  acted : (a : Act) (d : Delayed) → is_allowed a d ≡ true → Reached d → Reached (act a d)

-- Unless the pump has stopped, an armed deadline has its callback taken, or about to be submitted.
pub record IsArmed (d : Delayed) : Type 0 where
  pub armed :
      d.stopped ≡ false
      → d.due ≢ none
      → 1 ≤ times d.generation d.arming + times d.generation d.timers

-- The same of a call's state, beside its result.
record IsArmedAfter {B : Type 0} (r : Delayed × B) : Type 0 where
  after : IsArmed r.0

-- What an act does to an armed deadline, while the pump has not stopped: a request leaves the earlier of it
-- and what is asked; it goes where its own callback fires, which goes on to Notify, where its own
-- submission is refused, and where Stop is called; else it stays.
abbrev pub Lasts : ℕ → Delayed → Act → Type 0
Lasts at d (request_act asked) = (act (request_act asked) d).due ≡ some (min at asked)
Lasts at d (submit_act true g) = (act (submit_act true g) d).due ≡ some at
Lasts at d (submit_act false g) = (g ≡ d.generation) ⊎ ((act (submit_act false g) d).due ≡ some at)
Lasts at d (fire_act g) =
    ((g ≡ d.generation) × ((fire_delayed g d).1 ≡ true)) ⊎ ((act (fire_act g) d).due ≡ some at)
Lasts at d word_act = (act word_act d).due ≡ some at
Lasts at d stop_act = Unit {0}
