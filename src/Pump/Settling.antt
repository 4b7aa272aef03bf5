-- ===== src/Pump/Settling.antt =====
-- A pump whose threads go on, in any order, drains what was requested.
use orgmodule_services.Common.{
  ℕ, zero, suc, ◌+◌, ◌*◌, ◌≡◌, ◌≤◌, ◌<◌, inl, inr, refl, sym, subst, true, false, not, ◌||◌, ◌≢◌,
  Bool-cases, Option, List, [], ◌∷◌, ◌==◌, length, arith, if-cases, if◌then◌else◌,
}
use orgmodule_services.Pump.{
  PumpState, idle, scheduled, running, stopping, Phase, entering, draining, leaving, Pump, submit,
  run_task, leave, runner_step, put_back, step_at, run_owned, is_resubmit, is_stopping, is_running,
  epoch_mod,
}
use orgmodule_services.Pump.Sound.{
  Reached, acted, submit_act, task_act, runner_act, act, IsSound, IsOwned, none_idle,
  none_scheduled, none_stopping, one_running, one_stopping, at, Reached-IsSound,
}

-- A step of one of the pump's own threads, while nothing more is requested: a thread that owes a submission
-- makes it and is not refused, a task that waits begins, or a thread in `RunOwned` goes on and its
-- drain does not throw.
pub data OwnStep (p : Pump) : Pump → Type 0 where
  submits : 1 ≤ p.owed → OwnStep p (submit true p)
  begins : 1 ≤ p.tasks → OwnStep p (run_task p)
  goes_on : (i : ℕ) → i < length p.runners → OwnStep p (run_owned i false p)

-- So many steps of the threads, in any order.
pub data Steps : ℕ → Pump → Pump → Type 0 where
  no_step : (p : Pump) → Steps 0 p p
  one_step : (n : ℕ) (p q r : Pump) → OwnStep p q → Steps n q r → Steps (suc n) p r

-- What a thread in `RunOwned` has before it, where an epoch is requested.
phase_weight : ℕ → Phase → ℕ
phase_weight epoch entering = 3
phase_weight epoch (draining observed) = if observed == epoch then 2 else 7
phase_weight epoch (leaving observed) = if observed == epoch then 1 else 6

phases_weight : ℕ → List Phase → ℕ
phases_weight epoch [] = 0
phases_weight epoch (phase ∷ rest) = phase_weight epoch phase + phases_weight epoch rest

measure : Pump → ℕ
measure p = 5 * p.owed + 4 * p.tasks + phases_weight p.epoch p.runners

record StepsDown (p q : Pump) : Type 0 where
  less : suc (measure q) ≤ measure p
  same_epoch : q.epoch ≡ p.epoch
  alive : is_stopping q.state ≡ false

submit-StepsDown :
    (p : Pump) → 1 ≤ p.owed → is_stopping p.state ≡ false → StepsDown p (submit true p)
unfolding submit measure
submit-StepsDown p h s =
    if-cases (StepsDown p) (p.owed == 0) _ _ (λ e. absurd (ground (arith, h, e)))
      (λ e. record { less = omega (arith, h); same_epoch = refl; alive = s })

run_task-StepsDown :
    (p : Pump) → 1 ≤ p.tasks → is_stopping p.state ≡ false → StepsDown p (run_task p)
unfolding run_task measure phases_weight phase_weight
run_task-StepsDown p h s =
    if-cases (StepsDown p) (p.tasks == 0) _ _ (λ e. absurd (ground (arith, h, e)))
      (λ e.
        if-cases (StepsDown p) (is_stopping p.state || is_running p.state) _ _
          (λ taken. record { less = omega (arith, h); same_epoch = refl; alive = s })
          (λ free. record { less = omega (arith, h); same_epoch = refl; alive = refl }))

-- The same of a step's pump, with the thread's phase after it.
record StepsDownTo (p : Pump) (r : Pump × Option Phase) : Type 0 where
  down : StepsDown p (record r.0 { runners = put_back r.1 [] })

run_owned-StepsDown :
    (p : Pump) (phase : Phase)
    → let q = at p running (phase ∷ []) in StepsDown q (run_owned 0 false q)
unfolding run_owned step_at runner_step leave measure phases_weight phase_weight
run_owned-StepsDown p entering = record { less = ground arith; same_epoch = refl; alive = refl }
run_owned-StepsDown p (draining observed) = record {
  less = ground arith;
  same_epoch = refl;
  alive = refl;
}
run_owned-StepsDown p (leaving observed) =
    let q = at p running (leaving observed ∷ []) in
    (if-cases (StepsDownTo q) (p.epoch == observed) _ _
      (λ e. record { down = record { less = ground (arith, e); same_epoch = refl; alive = refl } })
      (λ e.
        if-cases (StepsDownTo q) (not (is_resubmit p.mode)) _ _
          (λ m. record {
            down = record { less = ground (arith, e); same_epoch = refl; alive = refl };
          })
          (λ m. record {
            down = record { less = ground (arith, e); same_epoch = refl; alive = refl };
          }))).down

owned-StepsDown :
    (p : Pump) (s : PumpState) (rs : List Phase) (i : ℕ)
    → IsOwned p s rs
    → is_stopping s ≡ false
    → i < length rs
    → StepsDown (at p s rs) (run_owned i false (at p s rs))
owned-StepsDown p _ _ i none_idle s h = absurd (omega (arith, h))
owned-StepsDown p _ _ i none_scheduled s h = absurd (omega (arith, h))
owned-StepsDown p _ _ i none_stopping s h = absurd (omega (arith, h))
owned-StepsDown p _ _ zero (one_running phase k) s h = run_owned-StepsDown p phase
owned-StepsDown p _ _ (suc i) (one_running phase k) s h = absurd (omega (arith, h))
owned-StepsDown p _ _ i (one_stopping phase k) s h = absurd cc

-- A pump that steps have come to, does not stop, and whose epoch has room.
record IsGoing (p : Pump) : Type 0 where
  reached : Reached p
  going : is_stopping p.state ≡ false
  room : suc p.epoch < epoch_mod

OwnStep-StepsDown : (p q : Pump) → IsGoing p → OwnStep p q → StepsDown p q
OwnStep-StepsDown p _ g (submits h) = submit-StepsDown p h g.going
OwnStep-StepsDown p _ g (begins h) = run_task-StepsDown p h g.going
OwnStep-StepsDown p _ g (goes_on i h) =
    owned-StepsDown p p.state p.runners i (Reached-IsSound p g.reached).owned g.going h

OwnStep-Reached : (p q : Pump) → IsGoing p → OwnStep p q → Reached q
unfolding act
OwnStep-Reached p _ g (submits h) = acted (submit_act true) p g.room g.reached
OwnStep-Reached p _ g (begins h) = acted task_act p g.room g.reached
OwnStep-Reached p _ g (goes_on i h) = acted (runner_act i false) p g.room g.reached

-- The pump is idle and has drained for what was requested, or a thread has a step left to take.
pub data IsSettled (epoch : ℕ) (p : Pump) : Type 0 where
  rests : p.state ≡ idle → p.drained_epoch ≡ epoch → p.epoch ≡ epoch → IsSettled epoch p
  can_step : (q : Pump) → OwnStep p q → IsSettled epoch p

owned-IsSettled :
    (p : Pump) (s : PumpState) (rs : List Phase)
    → IsOwned p s rs
    → IsSound (at p s rs)
    → is_stopping s ≡ false
    → IsSettled p.epoch (at p s rs)
owned-IsSettled p _ _ none_idle v g = rests refl (v.nothing_lost refl) refl
owned-IsSettled p _ _ none_scheduled v g = elim (Bool-cases (p.tasks == 0)) [
  | inl e ↦ can_step _ (submits (let w = v.awaited refl in ground (arith, w, e)))
  | inr e ↦ can_step _ (begins (ground (arith, e)))
]
owned-IsSettled p _ _ none_stopping v g = absurd cc
owned-IsSettled p _ _ (one_running phase h) v g = can_step _ (goes_on 0 (omega arith))
owned-IsSettled p _ _ (one_stopping phase h) v g = absurd cc

Steps-settle :
    (n : ℕ) (p q : Pump)
    → IsGoing p
    → Steps n p q
    → (n + measure q ≤ measure p) × IsSettled p.epoch q
Steps-settle _ p _ g (no_step _) = (
  omega arith,
  let v = Reached-IsSound p g.reached in owned-IsSettled p p.state p.runners v.owned v g.going,
)
Steps-settle _ p r g (one_step n _ q _ s more) =
    let d = OwnStep-StepsDown p q g s in
    let l = d.less in
    let e = d.same_epoch in
    let room = g.room in
    let rest =
      Steps-settle n q r
        (record {
          reached = OwnStep-Reached p q g s;
          going = d.alive;
          room = subst (λ (k : ℕ). suc k < epoch_mod) (sym e) room;
        })
        more in
    let m = rest.0 in (omega (arith, l, m), subst (λ (k : ℕ). IsSettled k r) e rest.1)

measure-bound :
    (p : Pump) (s : PumpState) (rs : List Phase) → IsOwned p s rs → phases_weight p.epoch rs ≤ 7
unfolding phases_weight phase_weight
measure-bound p _ _ none_idle = omega arith
measure-bound p _ _ none_scheduled = omega arith
measure-bound p _ _ none_stopping = omega arith
measure-bound p _ _ (one_running entering h) = omega arith
measure-bound p _ _ (one_running (draining observed) h) = ground arith
measure-bound p _ _ (one_running (leaving observed) h) = ground arith
measure-bound p _ _ (one_stopping entering h) = omega arith
measure-bound p _ _ (one_stopping (draining observed) h) = ground arith
measure-bound p _ _ (one_stopping (leaving observed) h) = ground arith

not_stopping : (s : PumpState) → s ≢ stopping → is_stopping s ≡ false
not_stopping idle n = refl
not_stopping scheduled n = refl
not_stopping running n = refl
not_stopping stopping n = absurd (n refl)

-- From a pump that steps of any threads made of a configured one, that does not stop and whose epoch has
-- room: in whatever order its threads then go on, while nothing more is requested, no drain throws
-- and no submission is refused, they take at most five steps for each submission that is owed, four
-- for each task that waits, and seven. At each point some thread has a step left to take, or the pump
-- is idle and has drained for every epoch requested.
pub Reached-Settles :
    (n : ℕ) (p q : Pump)
    → Reached p
    → p.state ≢ stopping
    → suc p.epoch < epoch_mod
    → Steps n p q
    → (n ≤ 5 * p.owed + 4 * p.tasks + 7) × IsSettled p.epoch q
unfolding measure
Reached-Settles n p q r ne room s =
    let v = Reached-IsSound p r in
    let w = measure-bound p p.state p.runners v.owned in
    let k =
      Steps-settle n p q (record { reached = r; going = not_stopping p.state ne; room = room }) s in
    let m = k.0 in (omega (arith, m, w), k.1)
