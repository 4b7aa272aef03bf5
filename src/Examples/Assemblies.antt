-- ===== src/Examples/Assemblies.antt =====
-- Revision assembly at a concrete run: two fragments, one of which needs the other, and a revision of both.
use orgmodule_services.Common.{
  ℕ, ◌≡◌, refl, true, false, some, List, [], ◌∷◌, ◌==◌, if◌then◌else◌, All, arith,
}
use orgmodule_services.Assembly.{
  Requirement, Assembler, new_assembler, thread_step, put, mark, waiters_of, others_than, is_in,
  empty_slots,
}
use orgmodule_services.Assembly.Calls.{
  resolve, settle, seal, collect, sealed_by, closes, are_met, names_at, distinct_of, gather, offer,
  hold_newest, walk_completed, visit, judge, without, not_before,
}
use orgmodule_services.Assembly.Runs.{
  Act, resolve_act, seal_act, collect_act, settler_act, coordinator_act, act, Fits, Reached, made,
  acted, step_settler, step_coordinator, thread_at, replace,
}
use orgmodule_services.Assembly.Closed.{IsSelected}
use orgmodule_services.Assembly.Selected.{Reached-IsWhole}
use orgmodule_services.Assembly.Accounts.{IsAccounted, Reached-IsAccounted}
use orgmodule_services.Assembly.Newest.{Collects, collect-TakesNewest}

-- Fragment 6 needs fragment 5 in slot 0.
abbrev needs : ℕ → List Requirement
needs f = if f == 6 then record { slot = 0; fragment = 5 } ∷ [] else []

-- What happens, the last first.
run : List Act → Assembler
run [] = new_assembler 2
run (a ∷ acts) = act needs a (run acts)

run-Reached : (acts : List Act) → All Fits acts → Reached needs (run acts)
unfolding run
run-Reached [] fits = made 2
run-Reached (a ∷ acts) fits = acted a (run acts) fits.0 (run-Reached acts fits.1)

-- Fragment 5 is ready before the seal; fragment 6 becomes so while the seal attaches.
abbrev until_sealed : List Act
until_sealed =
    seal_act (record { base = 0; slots = some 5 ∷ some 6 ∷ [] })
    ∷ settler_act 0 true
    ∷ settler_act 0 true
    ∷ settler_act 0 true
    ∷ resolve_act 5 50
    ∷ []

abbrev until_complete : List Act
until_complete =
    settler_act 0 false
    ∷ settler_act 0 false
    ∷ settler_act 0 false
    ∷ coordinator_act true
    ∷ coordinator_act true
    ∷ settler_act 0 false
    ∷ settler_act 0 false
    ∷ resolve_act 6 60
    ∷ coordinator_act true
    ∷ coordinator_act true
    ∷ coordinator_act true
    ∷ until_sealed

abbrev until_collected : List Act
until_collected = collect_act false ∷ until_complete

complete_lem : (run until_complete).completed ≡ 1 ∷ []
unfolding run act resolve settle seal sealed_by closes are_met names_at distinct_of new_assembler
    empty_slots thread_step put mark waiters_of others_than is_in step_settler step_coordinator
    thread_at replace
complete_lem = refl

held_lem : (run until_collected).held ≡ some (1, some 5 ∷ some 6 ∷ [])
unfolding run act resolve settle seal sealed_by closes are_met names_at distinct_of new_assembler
    empty_slots thread_step put mark waiters_of others_than is_in step_settler step_coordinator
    thread_at replace collect gather offer hold_newest walk_completed visit judge without not_before
held_lem = refl

until_collected-Reached : Reached needs (run until_collected)
until_collected-Reached = run-Reached until_collected (omega arith)

Reached-IsWhole_example : IsSelected needs (some 5 ∷ some 6 ∷ []) (run until_collected).states
Reached-IsWhole_example =
    Reached-IsWhole needs (run until_collected) 1 (some 5 ∷ some 6 ∷ []) until_collected-Reached
      held_lem

Reached-IsAccounted_example : IsAccounted 0 (run until_collected)
Reached-IsAccounted_example =
    Reached-IsAccounted needs (run until_collected) until_collected-Reached

collect-TakesNewest_example : Collects true (run until_complete) 1
collect-TakesNewest_example = collect-TakesNewest true (run until_complete) 1
