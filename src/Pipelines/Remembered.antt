-- ===== src/Pipelines/Remembered.antt =====
-- No request and no stale entry is lost, through every call of src/PipelineRegistry.cpp.
use orgmodule_services.Common.{
  ℕ, ◌≡◌, ◌∙◌, refl, subst, Bool, true, false, ◌&&◌, ◌||◌, Option, none, some, List, [], ◌∷◌, ◌==◌,
  leb, ltb, length, arith, if-cases, if◌then◌else◌,
}
use orgmodule_services.Pipelines.{
  Entry, Batch, Staged, Retired, Registry, new_registry, register, request_reload, release_slot,
  prune, put, is_kept,
}
use orgmodule_services.Pipelines.Paths.{PathName}
use orgmodule_services.Pipelines.Reloads.{
  start_batch, Answer, launch, finish_done, is_idle, service,
}
use orgmodule_services.Pipelines.Publishing.{publish_staged, publish, retire, drain}
use orgmodule_services.Pipelines.Runs.{
  Act, register_act, request_act, release_act, complete_act, service_act, publish_act, retire_act,
  drain_act, act, Reached, made, acted,
}
use orgmodule_services.Pipelines.Asking.{among, is_item, IsAsked, among-keep_if, among-append}
use orgmodule_services.Pipelines.Asked.{
  launch-IsAsked, complete-IsAsked, finish_done-IsAsked, start_batch-IsAsked,
}

-- An entry that is replaced by one which is live, stale or in a reload only if it was.
put-IsAsked :
    (r : Registry) (t : ℕ) (x : Entry)
    → (x.alive ≡ true → (r.entries t).alive ≡ true)
    → (x.stale ≡ true → (r.entries t).stale ≡ true)
    → (x.in_batch ≡ true → (r.entries t).in_batch ≡ true)
    → IsAsked r
    → IsAsked (record r { entries = put r.entries t x })
unfolding put
put-IsAsked r t x live stale held k = record {
  requested = k.requested;
  stale_asked = λ n.
      if-cases (λ (y : Entry). y.alive ≡ true → y.stale ≡ true → r.asked ≡ true) (n == t) _ _
        (λ e a s. k.stale_asked t (live a) (stale s)) (λ e. k.stale_asked n);
  listed = λ n.
      if-cases (λ (y : Entry). y.alive ≡ true → among n r.ids ≡ true) (n == t) _ _
        (λ e a.
          let same : t ≡ n = ground (arith, e) in
          subst (λ (m : ℕ). among m r.ids ≡ true) same (k.listed t (live a)))
        (λ e. k.listed n);
  busy = λ n.
      if-cases (λ (y : Entry). y.in_batch ≡ true → is_item n r.running ≡ true) (n == t) _ _
        (λ e h.
          let same : t ≡ n = ground (arith, e) in
          subst (λ (m : ℕ). is_item m r.running ≡ true) same (k.busy t (held h)))
        (λ e. k.busy n);
}

listed-prune :
    (r : Registry) → IsAsked r → (n : ℕ) → (r.entries n).alive ≡ true → among n (prune r).ids ≡ true
unfolding prune
listed-prune r k n a = among-keep_if (is_kept r.entries) n r.ids (ground (arith, a)) (k.listed n a)

or_false : (p q : Bool) → (p || q) ≡ false → q ≡ false
or_false true q h = absurd cc
or_false false q h = h

or_true : (p q : Bool) → q ≡ true → (p || q) ≡ true
or_true true q h = refl
or_true false q h = h

or_left : (p q : Bool) → p ≡ true → (p || q) ≡ true
or_left true q h = refl
or_left false q h = absurd cc

and_left : (p q : Bool) → (p && q) ≡ true → p ≡ true
and_left true q h = refl
and_left false q h = absurd cc

register-IsAsked :
    (sources : List PathName) (has_rebuild : Bool) (payload fingerprint built_for : ℕ)
    (r : Registry)
    → IsAsked r
    → IsAsked (register sources has_rebuild payload fingerprint built_for r).0
unfolding register prune put
register-IsAsked sources has_rebuild payload fingerprint built_for r k =
    let full = leb r.prune_at (length r.ids) in
    let pruned = if full then prune r else r in
    let asked = ltb built_for r.sources_generation || r.asked in
    let here : (n : ℕ) → (r.entries n).alive ≡ true → among n pruned.ids ≡ true = λ n a.
      if-cases (λ (p : Registry). among n p.ids ≡ true) full (prune r) r (λ e. listed-prune r k n a)
        (λ e. k.listed n a) in
    record {
      requested =
          if-cases (λ (p : Registry). asked ≡ false → p.request.is_asked ≡ false) full (prune r) r
            (λ e h. k.requested (or_false _ _ h)) (λ e h. k.requested (or_false _ _ h));
      stale_asked = λ n.
          if-cases (λ (y : Entry). y.alive ≡ true → y.stale ≡ true → asked ≡ true) (n == r.made) _ _
            (λ e a s. or_left _ _ s) (λ e a s. or_true _ _ (k.stale_asked n a s));
      listed = λ n a.
          among-append n r.made pruned.ids
          ∙ if-cases (λ (y : Entry). y.alive ≡ true → (among n pruned.ids || n == r.made) ≡ true)
              (n == r.made) _ _ (λ e b. or_true _ _ e) (λ e b. or_left _ _ (here n b)) a;
      busy = λ n.
          if-cases (λ (y : Entry). y.in_batch ≡ true → is_item n pruned.running ≡ true)
            (n == r.made) _ _ (λ e h. absurd cc)
            (λ e h.
              if-cases (λ (p : Registry). is_item n p.running ≡ true) full (prune r) r
                (λ e. k.busy n h) (λ e. k.busy n h));
    }

request_reload-IsAsked :
    (changed : PathName) (force : Bool) (r : Registry)
    → IsAsked r
    → IsAsked (request_reload changed force r)
unfolding request_reload
request_reload-IsAsked changed force r k = record {
  requested = λ h. absurd cc;
  stale_asked = λ n a s. refl;
  listed = k.listed;
  busy = k.busy;
}

release_slot-IsAsked : (e : ℕ) (r : Registry) → IsAsked r → IsAsked (release_slot e r)
unfolding release_slot put
release_slot-IsAsked e r k = put-IsAsked r e _ (λ a. absurd cc) (λ h. h) (λ h. h) k

idle-none : (o : Option Batch) → elim o [ none ↦ true | some b ↦ false ] ≡ true → o ≡ none
idle-none none h = refl
idle-none (some b) h = absurd cc

service-IsAsked :
    (accepted : Bool) (answers : ℕ → Answer) (r : Registry)
    → IsAsked r
    → IsAsked (service accepted answers r).0
unfolding service
service-IsAsked accepted answers r k =
    let first = (finish_done r).0 in
    let asked = finish_done-IsAsked r k in
    if-cases (λ (p : Registry × (Bool × Bool)). IsAsked p.0) (is_idle first && first.asked) _ _
      (λ e. finish_done-IsAsked (launch accepted answers (start_batch first)) (
        launch-IsAsked accepted answers (start_batch first) (
          start_batch-IsAsked first asked
            (idle-none first.running (and_left (is_idle first) first.asked e)))))
      (λ e. asked)

publish_staged-IsAsked :
    (point : ℕ) (ss : List Staged) (r : Registry) (replaced : List Retired)
    → IsAsked r
    → IsAsked (publish_staged point ss r replaced).0
unfolding publish_staged put
publish_staged-IsAsked point [] r replaced k = k
publish_staged-IsAsked point (s ∷ ss) r replaced k = publish_staged-IsAsked point ss _ _ (
    if-cases IsAsked (r.entries s.target).alive _ _
      (λ e. put-IsAsked r s.target _ (λ h. h) (λ h. h) (λ h. h) k) (λ e. k))

publish-IsAsked : (point : ℕ) (r : Registry) → IsAsked r → IsAsked (publish point r).0
unfolding publish
publish-IsAsked point r k =
    let p =
      publish_staged-IsAsked point r.staged (record r { staged = [] }) []
        (record {
          requested = k.requested;
          stale_asked = k.stale_asked;
          listed = k.listed;
          busy = k.busy;
        }) in
    record {
      requested = p.requested;
      stale_asked = p.stale_asked;
      listed = p.listed;
      busy = p.busy;
    }

act-IsAsked : (a : Act) (r : Registry) → IsAsked r → IsAsked (act a r)
unfolding act retire drain
act-IsAsked (register_act sources has_rebuild payload fingerprint built_for) r k =
    register-IsAsked sources has_rebuild payload fingerprint built_for r k
act-IsAsked (request_act changed force) r k = request_reload-IsAsked changed force r k
act-IsAsked (release_act e) r k = release_slot-IsAsked e r k
act-IsAsked (complete_act number i build) r k = complete-IsAsked number i build r k
act-IsAsked (service_act accepted answers) r k = service-IsAsked accepted answers r k
act-IsAsked (publish_act point) r k = publish-IsAsked point r k
act-IsAsked (retire_act completed) r k = record {
  requested = k.requested;
  stale_asked = k.stale_asked;
  listed = k.listed;
  busy = k.busy;
}
act-IsAsked drain_act r k = record {
  requested = k.requested;
  stale_asked = k.stale_asked;
  listed = k.listed;
  busy = k.busy;
}

-- In every run: if the flag of a reload is not set, no request waits and no live entry is stale; every live
-- entry is in the list; and an entry that is marked as in a reload is one of the running reload's.
pub Reached-IsAsked : (r : Registry) → Reached r → IsAsked r
unfolding new_registry
Reached-IsAsked _ made = record {
  requested = λ h. refl;
  stale_asked = λ n a s. absurd cc;
  listed = λ n a. absurd cc;
  busy = λ n h. absurd cc;
}
Reached-IsAsked _ (acted a r few reached) = act-IsAsked a r (Reached-IsAsked r reached)
