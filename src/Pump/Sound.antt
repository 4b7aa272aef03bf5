-- ===== src/Pump/Sound.antt =====
-- One consumer at a time, and no request is lost.
use orgmodule_services.Common.{
  ℕ, zero, suc, ◌+◌, ◌-◌, ◌≡◌, ◌≤◌, ◌<◌, refl, ap, sym, subst, Bool, true, false, not, ◌||◌, Option,
  List, [], ◌∷◌, ◌==◌, arith, if-cases, if◌then◌else◌,
}
use orgmodule_services.Pump.{
  PumpState, idle, scheduled, running, stopping, HandoffMode, Phase, entering, draining, leaving,
  Pump, configure, epoch_mod, next_epoch, notify, fail, submit, claim, run_task, try_run_inline,
  leave, runner_step, put_back, step_at, run_owned, stop, is_stopping, is_running, is_resubmit,
}

-- What each thread does to the pump, a step at a time.
pub data Act : Type 0 where
  notify_act : Act
  submit_act : Bool → Act
  task_act : Act
  inline_act : Act
  runner_act : ℕ → Bool → Act
  stop_act : Act

unfoldable pub act : Act → Pump → Pump
act notify_act p = (notify p).0
act (submit_act accepted) p = submit accepted p
act task_act p = run_task p
act inline_act p = (try_run_inline p).0
act (runner_act i throws) p = run_owned i throws p
act stop_act p = stop p

-- The pumps that steps make of a configured one, while the epoch has room.
pub data Reached : Pump → Type 0 where
  configured : (mode : HandoffMode) → Reached (configure mode)
  acted : (a : Act) (p : Pump) → suc p.epoch < epoch_mod → Reached p → Reached (act a p)

-- What a thread in `RunOwned` has seen: an epoch that was requested, and drained for when it leaves.
abbrev pub HasSeen : Pump → Phase → Type 0
HasSeen p entering = Unit {0}
HasSeen p (draining observed) = observed ≤ p.epoch
HasSeen p (leaving observed) = (observed ≤ p.epoch) × (p.drained_epoch ≡ observed)

-- The threads in `RunOwned`, for a state of the pump: one while it runs, none while it is idle or
-- scheduled, and one at most once it stops.
pub data IsOwned (p : Pump) : PumpState → List Phase → Type 0 where
  none_idle : IsOwned p idle []
  none_scheduled : IsOwned p scheduled []
  none_stopping : IsOwned p stopping []
  one_running : (phase : Phase) → HasSeen p phase → IsOwned p running (phase ∷ [])
  one_stopping : (phase : Phase) → HasSeen p phase → IsOwned p stopping (phase ∷ [])

pub record IsSound (p : Pump) : Type 0 where
  pub owned : IsOwned p p.state p.runners
  pub nothing_lost : p.state ≡ idle → p.drained_epoch ≡ p.epoch
  pub awaited : p.state ≡ scheduled → 1 ≤ p.owed + p.tasks

-- A pump with a state and threads put in.
abbrev pub at : Pump → PumpState → List Phase → Pump
at p s rs = record p { state = s; runners = rs }

HasSeen-later :
    (p q : Pump) (phase : Phase)
    → p.epoch ≤ q.epoch
    → q.drained_epoch ≡ p.drained_epoch
    → HasSeen p phase
    → HasSeen q phase
HasSeen-later p q entering h e s = tt
HasSeen-later p q (draining observed) h e s = omega arith
HasSeen-later p q (leaving observed) h e (s, d) = (omega arith, omega arith)

-- The threads of a pump whose epochs are the same, and of one that stops.
IsOwned-moved :
    (p q : Pump) (s : PumpState) (rs : List Phase)
    → q.epoch ≡ p.epoch
    → q.drained_epoch ≡ p.drained_epoch
    → IsOwned p s rs
    → IsOwned q s rs
IsOwned-moved p q _ _ e d none_idle = none_idle
IsOwned-moved p q _ _ e d none_scheduled = none_scheduled
IsOwned-moved p q _ _ e d none_stopping = none_stopping
IsOwned-moved p q _ _ e d (one_running phase h) =
    one_running phase (HasSeen-later p q phase (omega (arith, e)) d h)
IsOwned-moved p q _ _ e d (one_stopping phase h) =
    one_stopping phase (HasSeen-later p q phase (omega (arith, e)) d h)

IsOwned-stopped :
    (p : Pump) (s : PumpState) (rs : List Phase) → IsOwned p s rs → IsOwned p stopping rs
IsOwned-stopped p _ _ none_idle = none_stopping
IsOwned-stopped p _ _ none_scheduled = none_stopping
IsOwned-stopped p _ _ none_stopping = none_stopping
IsOwned-stopped p _ _ (one_running phase h) = one_stopping phase h
IsOwned-stopped p _ _ (one_stopping phase h) = one_stopping phase h

-- A pump that runs or stops has lost and awaits nothing.
running-IsSound :
    (p : Pump) (phase : Phase)
    → p.state ≡ running
    → p.runners ≡ phase ∷ []
    → HasSeen p phase
    → IsSound p
running-IsSound p phase e f h = record {
  owned =
      subst (IsOwned p p.state) (sym f)
        (subst (λ s. IsOwned p s (phase ∷ [])) (sym e) (one_running phase h));
  nothing_lost = λ i. absurd cc;
  awaited = λ i. absurd cc;
}

stopping-IsSound : (p : Pump) → p.state ≡ stopping → IsOwned p stopping p.runners → IsSound p
stopping-IsSound p e o = record {
  owned = subst (λ s. IsOwned p s p.runners) (sym e) o;
  nothing_lost = λ i. absurd cc;
  awaited = λ i. absurd cc;
}

notify-IsSound :
    (p : Pump) (s : PumpState) (rs : List Phase)
    → suc p.epoch < epoch_mod
    → IsOwned p s rs
    → IsSound (at p s rs)
    → IsSound (notify (at p s rs)).0
unfolding notify
notify-IsSound p idle [] h none_idle v = record {
  owned = none_scheduled;
  nothing_lost = λ i. absurd cc;
  awaited = λ i. omega arith;
}
notify-IsSound p scheduled [] h none_scheduled v = record {
  owned = none_scheduled;
  nothing_lost = λ i. absurd cc;
  awaited = v.awaited;
}
notify-IsSound p stopping rs h o v = v
notify-IsSound p _ _ h (one_running phase s) v =
    running-IsSound (notify (at p running (phase ∷ []))).0 phase refl refl
      (HasSeen-later p (notify (at p running (phase ∷ []))).0 phase (omega arith) refl s)

fail-IsSound :
    (p : Pump) (s : PumpState) (rs : List Phase) → IsOwned p s rs → IsSound (fail (at p s rs))
fail-IsSound p s rs o =
    stopping-IsSound (fail (at p s rs)) refl
      (IsOwned-moved p (fail (at p s rs)) stopping rs refl refl (IsOwned-stopped p s rs o))

-- A change that leaves the epochs alone and takes no awaited task away.
carried :
    (p q : Pump) (s : PumpState) (rs : List Phase)
    → q.epoch ≡ p.epoch
    → q.drained_epoch ≡ p.drained_epoch
    → (s ≡ scheduled → p.owed + p.tasks ≤ q.owed + q.tasks)
    → IsOwned p s rs
    → IsSound (at p s rs)
    → IsSound (at q s rs)
carried p q s rs e d k o v = record {
  owned = IsOwned-moved p (at q s rs) s rs e d o;
  nothing_lost = λ i. omega (arith, v.nothing_lost i);
  awaited = λ i. omega (arith, v.awaited i, k i);
}

submit-IsSound :
    (accepted : Bool) (p : Pump) (s : PumpState) (rs : List Phase)
    → IsOwned p s rs
    → IsSound (at p s rs)
    → IsSound (submit accepted (at p s rs))
unfolding submit
submit-IsSound accepted p s rs o v =
    if-cases IsSound (p.owed == 0) _ _ (λ e. v)
      (λ e.
        if-cases IsSound accepted _ _
          (λ t.
            carried p (record p { owed = p.owed - 1; tasks = suc p.tasks }) s rs refl refl
              (λ i. omega arith) o v)
          (λ t.
            fail-IsSound (record p { owed = p.owed - 1 }) s rs
              (IsOwned-moved p (record p { owed = p.owed - 1 }) s rs refl refl o)))

-- A claim of a pump that nobody runs.
claim-IsSound : (p : Pump) (e : ℕ) → p.runners ≡ [] → IsSound (claim e p)
claim-IsSound p e f = running-IsSound (claim e p) entering refl (ap (λ rs. entering ∷ rs) f) tt

run_task-IsSound :
    (p : Pump) (s : PumpState) (rs : List Phase)
    → IsOwned p s rs
    → IsSound (at p s rs)
    → IsSound (run_task (at p s rs))
unfolding run_task
run_task-IsSound p s rs o v = if-cases IsSound (p.tasks == 0) _ _ (λ e. v) (λ e. taken s rs o v)
  where
    less : Pump
    less = record p { tasks = p.tasks - 1 }

    taken :
        (s : PumpState) (rs : List Phase)
        → IsOwned p s rs
        → IsSound (at p s rs)
        → IsSound
            (if is_stopping s || is_running s then at less s rs else claim p.epoch (at less s rs))
    taken _ _ none_idle v = claim-IsSound (at less idle []) p.epoch refl
    taken _ _ none_scheduled v = claim-IsSound (at less scheduled []) p.epoch refl
    taken _ _ none_stopping v =
        carried p less stopping [] refl refl (λ i. absurd cc) none_stopping v
    taken _ _ (one_running phase h) v =
        carried p less running (phase ∷ []) refl refl (λ i. absurd cc) (one_running phase h) v
    taken _ _ (one_stopping phase h) v =
        carried p less stopping (phase ∷ []) refl refl (λ i. absurd cc) (one_stopping phase h) v

try_run_inline-IsSound :
    (p : Pump) (s : PumpState) (rs : List Phase)
    → IsOwned p s rs
    → IsSound (at p s rs)
    → IsSound (try_run_inline (at p s rs)).0
unfolding try_run_inline
try_run_inline-IsSound p _ _ none_idle v = claim-IsSound (at p idle []) (next_epoch p.epoch) refl
try_run_inline-IsSound p _ _ none_scheduled v =
    claim-IsSound (at p scheduled []) (next_epoch p.epoch) refl
try_run_inline-IsSound p _ _ none_stopping v = v
try_run_inline-IsSound p _ _ (one_running phase h) v = v
try_run_inline-IsSound p _ _ (one_stopping phase h) v = v

stop-IsSound :
    (p : Pump) (s : PumpState) (rs : List Phase) → IsOwned p s rs → IsSound (stop (at p s rs))
stop-IsSound p s rs o =
    stopping-IsSound (stop (at p s rs)) refl
      (IsOwned-moved p (stop (at p s rs)) stopping rs refl refl (IsOwned-stopped p s rs o))

-- The pump after a step of its only thread.
record IsSoundAfter (r : Pump × Option Phase) : Type 0 where
  sound : IsSound (record r.0 { runners = put_back r.1 [] })

leave-IsSound :
    (p : Pump) (observed : ℕ)
    → observed ≤ p.epoch
    → p.drained_epoch ≡ observed
    → IsSoundAfter (leave observed (at p running (leaving observed ∷ [])))
unfolding leave
leave-IsSound p observed h d =
    if-cases IsSoundAfter (p.epoch == observed) _ _
      (λ e. record {
        sound = record {
          owned = none_idle;
          nothing_lost = λ i. ground (arith, e, d);
          awaited = λ i. absurd cc;
        };
      })
      (λ e.
        if-cases IsSoundAfter (not (is_resubmit p.mode)) _ _
          (λ m. record { sound = running-IsSound _ entering refl refl tt })
          (λ m. record {
            sound = record {
              owned = none_scheduled;
              nothing_lost = λ i. absurd cc;
              awaited = λ i. omega arith;
            };
          }))

runner_step-IsSound :
    (throws : Bool) (p : Pump) (phase : Phase)
    → HasSeen p phase
    → IsSoundAfter (runner_step throws phase (at p running (phase ∷ [])))
unfolding runner_step
runner_step-IsSound throws p entering h = record {
  sound =
      running-IsSound (at p running (draining p.epoch ∷ [])) (draining p.epoch) refl refl
        (omega arith);
}
runner_step-IsSound true p (draining observed) h = record {
  sound = stopping-IsSound _ refl none_stopping;
}
runner_step-IsSound false p (draining observed) h = record {
  sound = running-IsSound _ (leaving observed) refl refl (h, refl);
}
runner_step-IsSound throws p (leaving observed) (h, d) = leave-IsSound p observed h d

-- The same once the pump stops.
stopped_step-IsSound :
    (throws : Bool) (p : Pump) (phase : Phase)
    → HasSeen p phase
    → IsSoundAfter (runner_step throws phase (at p stopping (phase ∷ [])))
unfolding runner_step leave
stopped_step-IsSound throws p entering h = record { sound = stopping-IsSound _ refl none_stopping }
stopped_step-IsSound true p (draining observed) h = record {
  sound = stopping-IsSound _ refl none_stopping;
}
stopped_step-IsSound false p (draining observed) h = record {
  sound = stopping-IsSound _ refl (one_stopping (leaving observed) (h, refl));
}
stopped_step-IsSound throws p (leaving observed) h = record {
  sound = stopping-IsSound _ refl none_stopping;
}

run_owned-IsSound :
    (i : ℕ) (throws : Bool) (p : Pump) (s : PumpState) (rs : List Phase)
    → IsOwned p s rs
    → IsSound (at p s rs)
    → IsSound (run_owned i throws (at p s rs))
unfolding run_owned step_at
run_owned-IsSound i throws p _ _ none_idle v = v
run_owned-IsSound i throws p _ _ none_scheduled v = v
run_owned-IsSound i throws p _ _ none_stopping v = v
run_owned-IsSound zero throws p _ _ (one_running phase h) v =
    (runner_step-IsSound throws p phase h).sound
run_owned-IsSound (suc i) throws p _ _ (one_running phase h) v = v
run_owned-IsSound zero throws p _ _ (one_stopping phase h) v =
    (stopped_step-IsSound throws p phase h).sound
run_owned-IsSound (suc i) throws p _ _ (one_stopping phase h) v = v

act-IsSound : (a : Act) (p : Pump) → suc p.epoch < epoch_mod → IsSound p → IsSound (act a p)
unfolding act
act-IsSound notify_act p h v = notify-IsSound p p.state p.runners h v.owned v
act-IsSound (submit_act accepted) p h v = submit-IsSound accepted p p.state p.runners v.owned v
act-IsSound task_act p h v = run_task-IsSound p p.state p.runners v.owned v
act-IsSound inline_act p h v = try_run_inline-IsSound p p.state p.runners v.owned v
act-IsSound (runner_act i throws) p h v = run_owned-IsSound i throws p p.state p.runners v.owned v
act-IsSound stop_act p h v = stop-IsSound p p.state p.runners v.owned

pub Reached-IsSound : (p : Pump) → Reached p → IsSound p
Reached-IsSound _ (configured mode) = record {
  owned = none_idle;
  nothing_lost = λ e. refl;
  awaited = λ e. absurd cc;
}
Reached-IsSound _ (acted a p h r) = act-IsSound a p h (Reached-IsSound p r)
