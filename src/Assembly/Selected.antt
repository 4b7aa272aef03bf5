-- ===== src/Assembly/Selected.antt =====
-- `RevisionAssembler`: what the frame is given in any run.
use orgmodule_services.Common.{
  ℕ, ◌≡◌, refl, Bool, true, false, not, Option, some, List, ◌==◌, arith, times, if-cases,
}
use orgmodule_services.Assembly.{
  ready, failed, Requirement, Thread, storing, closing, walking, attaching, counting, pushing,
  ended, Assembler, new_assembler, is_in,
}
use orgmodule_services.Assembly.Calls.{resolve, fail, seal, collect, closes}
use orgmodule_services.Assembly.Runs.{
  Act, resolve_act, fail_act, seal_act, collect_act, settler_act, coordinator_act, act, Fits,
  Reached, made, acted, is_ended, left_by,
}
use orgmodule_services.Assembly.Debts.{waits}
use orgmodule_services.Assembly.Invariant.{sum_over, Inv}
use orgmodule_services.Assembly.Closed.{IsSelected, whole-IsSelected}
use orgmodule_services.Assembly.Sealing.{
  step_coordinator-Inv, step_settler-Inv, settle-Inv, sealed_by-Inv,
}
use orgmodule_services.Assembly.Collecting.{gather-Inv, offer-Inv}

is_ended_lem : (t : Thread) → is_ended t ≡ true → t ≡ ended
is_ended_lem (storing f o) h = absurd cc
is_ended_lem (closing f) h = absurd cc
is_ended_lem (walking f rs) h = absurd cc
is_ended_lem (attaching r fs) h = absurd cc
is_ended_lem (counting r k) h = absurd cc
is_ended_lem (pushing r k) h = absurd cc
is_ended_lem ended h = refl

not-false : (b : Bool) → not b ≡ false → b ≡ true
not-false true h = refl
not-false false h = absurd cc

act-Inv :
    (requirements : ℕ → List Requirement) (a : Act) (s : Assembler)
    → Fits a
    → Inv requirements s
    → Inv requirements (act requirements a s)
unfolding act resolve fail collect seal
act-Inv requirements (resolve_act f n) s fits v = settle-Inv requirements s v f (ready n) refl
act-Inv requirements (fail_act f e) s fits v = settle-Inv requirements s v f (failed e) refl
act-Inv requirements (seal_act d) s fits v =
    if-cases (Inv requirements) (is_ended s.coordinator) _ _
      (λ idle.
        if-cases (λ r. Inv requirements (left_by s r)) (not (d.base == s.latest_sequence)) _ _
          (λ stale. v)
          (λ base.
            if-cases (λ r. Inv requirements (left_by s r))
              (not (closes requirements d.slots d.slots)) _ _ (λ open_yet. v)
              (λ closed.
                sealed_by-Inv requirements s v d.slots (is_ended_lem s.coordinator idle) fits
                  (not-false _ closed))))
      (λ busy. v)
act-Inv requirements (collect_act taken) s fits v =
    if-cases (Inv requirements) (is_ended s.coordinator) _ _
      (λ idle. offer-Inv requirements taken _ (gather-Inv requirements s v)) (λ busy. v)
act-Inv requirements (settler_act i locked) s fits v = step_settler-Inv requirements s v i locked
act-Inv requirements (coordinator_act locked) s fits v =
    step_coordinator-Inv requirements s v locked

pub Reached-Inv :
    (requirements : ℕ → List Requirement) (s : Assembler)
    → Reached requirements s
    → Inv requirements s
unfolding new_assembler sum_over closes times waits is_in
Reached-Inv requirements _ (made n) = record {
  counts = λ r. omega arith;
  fresh = λ r h. omega arith;
  owed = λ r f i n h. absurd cc;
  finished = λ r h. refl;
  coordinator_settles = tt;
  settlers_settle = tt;
  closed_settled = λ f h. absurd cc;
  once = λ f. omega arith;
  closing_up = λ r. refl;
  held_whole = λ r slots h. absurd cc;
}
Reached-Inv requirements _ (acted a s fits r) =
    act-Inv requirements a s fits (Reached-Inv requirements s r)

-- In every run of an assembler, whatever outcomes fragments have and however the steps of the threads
-- interleave: a revision that Collect holds for the frame, before the exchange takes it, names ready
-- fragments only, and each requirement of each of them is exactly in its slot.
pub Reached-IsWhole :
    (requirements : ℕ → List Requirement) (s : Assembler) (r : ℕ) (slots : List (Option ℕ))
    → Reached requirements s
    → s.held ≡ some (r, slots)
    → IsSelected requirements slots s.states
Reached-IsWhole requirements s r slots reached h =
    whole-IsSelected requirements slots s.states
      ((Reached-Inv requirements s reached).held_whole r slots h)
