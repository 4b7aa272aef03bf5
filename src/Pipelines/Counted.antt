-- ===== src/Pipelines/Counted.antt =====
-- The counts of a reload through every call of src/PipelineRegistry.cpp.
use orgmodule_services.Common.{
  ℕ, ◌≡◌, ◌<◌, refl, sym, subst, Bool, ◌&&◌, List, [], ◌∷◌, ◌==◌, leb, length, u32_mod, if-cases,
  elim-cases,
}
use orgmodule_services.Pipelines.{
  LiveBuild, Staged, Retired, Registry, new_registry, register, request_reload, release_slot, prune,
}
use orgmodule_services.Pipelines.Paths.{PathName}
use orgmodule_services.Pipelines.Reloads.{
  complete, start_batch, Answer, launch, finish_batch, finish_done, is_idle, service,
}
use orgmodule_services.Pipelines.Publishing.{publish_staged, publish, retire, drain}
use orgmodule_services.Pipelines.Runs.{
  Act, register_act, request_act, release_act, complete_act, service_act, publish_act, retire_act,
  drain_act, act, Reached, made, acted,
}
use orgmodule_services.Pipelines.Counting.{
  RunningCounts, IsCounted, complete_item-BatchCounts, start_batch-IsCounted, launch-IsCounted,
  finish_done-IsCounted,
}

abbrev Counted : Registry × (Bool × Bool) → Type 0
Counted p = IsCounted p.0

register-IsCounted :
    (sources : List PathName) (has_rebuild : Bool) (payload fingerprint built_for : ℕ)
    (r : Registry)
    → IsCounted r
    → IsCounted (register sources has_rebuild payload fingerprint built_for r).0
unfolding register prune
register-IsCounted sources has_rebuild payload fingerprint built_for r k =
    let pruned =
      if-cases IsCounted (leb r.prune_at (length r.ids)) (prune r) r
        (λ e. record { counts = k.counts; sums = k.sums }) (λ e. k) in
    record { counts = pruned.counts; sums = pruned.sums }

complete-IsCounted :
    (number i : ℕ) (build : LiveBuild) (r : Registry)
    → IsCounted r
    → IsCounted (complete number i build r)
unfolding complete
complete-IsCounted number i build r k =
    elim-cases IsCounted r.running _ _ (λ e. k)
      (λ b e.
        if-cases IsCounted (b.number == number) _ _
          (λ same. record {
            counts = complete_item-BatchCounts i build b (subst RunningCounts e k.counts);
            sums = k.sums;
          })
          (λ other. k))

ids-finish_done : (r : Registry) → (finish_done r).0.ids ≡ r.ids
unfolding finish_done finish_batch
ids-finish_done r =
    elim-cases (λ (p : Registry × Bool). p.0.ids ≡ r.ids) r.running _ _ (λ e. refl)
      (λ b e.
        if-cases (λ (p : Registry × Bool). p.0.ids ≡ r.ids) (b.remaining == 0) _ _ (λ d. refl)
          (λ m. refl))

service-IsCounted :
    (accepted : Bool) (answers : ℕ → Answer) (r : Registry)
    → length r.ids < u32_mod
    → IsCounted r
    → IsCounted (service accepted answers r).0
unfolding service
service-IsCounted accepted answers r few k =
    let first = (finish_done r).0 in
    let counted = finish_done-IsCounted r k in
    let fewer : length first.ids < u32_mod =
      subst (λ (ids : List ℕ). length ids < u32_mod) (sym (ids-finish_done r)) few in
    if-cases Counted (is_idle first && first.asked) _ _
      (λ e. finish_done-IsCounted (launch accepted answers (start_batch first)) (
        launch-IsCounted accepted answers (start_batch first)
          (start_batch-IsCounted first fewer counted)))
      (λ e. counted)

publish_staged-IsCounted :
    (point : ℕ) (ss : List Staged) (r : Registry) (replaced : List Retired)
    → IsCounted r
    → IsCounted (publish_staged point ss r replaced).0
unfolding publish_staged
publish_staged-IsCounted point [] r replaced k = k
publish_staged-IsCounted point (s ∷ ss) r replaced k = publish_staged-IsCounted point ss _ _ (
    if-cases IsCounted (r.entries s.target).alive _ _
      (λ e. record { counts = k.counts; sums = k.sums }) (λ e. k))

publish-IsCounted : (point : ℕ) (r : Registry) → IsCounted r → IsCounted (publish point r).0
unfolding publish
publish-IsCounted point r k =
    let published =
      publish_staged-IsCounted point r.staged (record r { staged = [] }) []
        (record { counts = k.counts; sums = k.sums }) in
    record { counts = published.counts; sums = published.sums }

act-IsCounted :
    (a : Act) (r : Registry) → length r.ids < u32_mod → IsCounted r → IsCounted (act a r)
unfolding act request_reload release_slot retire drain
act-IsCounted (register_act sources has_rebuild payload fingerprint built_for) r few k =
    register-IsCounted sources has_rebuild payload fingerprint built_for r k
act-IsCounted (request_act changed force) r few k = record { counts = k.counts; sums = k.sums }
act-IsCounted (release_act e) r few k = record { counts = k.counts; sums = k.sums }
act-IsCounted (complete_act number i build) r few k = complete-IsCounted number i build r k
act-IsCounted (service_act accepted answers) r few k = service-IsCounted accepted answers r few k
act-IsCounted (publish_act point) r few k = publish-IsCounted point r k
act-IsCounted (retire_act completed) r few k = record { counts = k.counts; sums = k.sums }
act-IsCounted drain_act r few k = record { counts = k.counts; sums = k.sums }

-- In every run of fewer than 2^32 entries, the count of the running reload is the number of its rebuilds
-- that are not in, and it has fewer than 2^32 of them; and the count of entries of the last outcome is the
-- sum of its counts of rebuilt, failed and unchanged ones.
pub Reached-IsCounted : (r : Registry) → Reached r → IsCounted r
unfolding new_registry
Reached-IsCounted _ made = record { counts = tt; sums = refl }
Reached-IsCounted _ (acted a r few reached) = act-IsCounted a r few (Reached-IsCounted r reached)
