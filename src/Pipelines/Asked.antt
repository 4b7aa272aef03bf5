-- ===== src/Pipelines/Asked.antt =====
-- The request and the stale entries through the reloads of src/PipelineRegistry.cpp.
use orgmodule_services.Common.{
  ℕ, suc, ◌≡◌, ◌∙◌, refl, sym, subst, Bool, true, false, not, ◌&&◌, ◌||◌, Option, none, List, [],
  ◌∷◌, ◌==◌, keep_if, arith, if-cases, elim-cases, Bool-cases, inl, inr,
}
use orgmodule_services.Pipelines.{Entry, LiveBuild, Item, Batch, Registry, prune, is_kept}
use orgmodule_services.Pipelines.Reloads.{
  complete_item, complete, is_chosen, is_picked, reloads_all, start_batch, Answer, now, threw,
  later, start_rebuild, start_rebuilds, refuse_all, launch, finish_batch, finish_done,
}
use orgmodule_services.Pipelines.Asking.{
  among, entry_among, is_item, IsAsked, among-keep_if, items_of_lem, let_go-alive, let_go-stale,
  let_go-in_batch, taken, take_in-alive, take_in-stale, take_in-in_batch, entry_among-complete_item,
}

entry_among-start_rebuild :
    (entries : ℕ → Entry) (e i : ℕ) (answer : Answer) (item : Item) (b : Batch)
    → entry_among e (start_rebuild entries i answer item b).items ≡ entry_among e b.items
unfolding start_rebuild
entry_among-start_rebuild entries e i (now build) item b =
    if-cases (λ (c : Batch). entry_among e c.items ≡ entry_among e b.items)
      (not (entries item.entry).has_rebuild) _ _ (λ h. entry_among-complete_item e i _ b)
      (λ h. entry_among-complete_item e i build b)
entry_among-start_rebuild entries e i (threw m) item b =
    if-cases (λ (c : Batch). entry_among e c.items ≡ entry_among e b.items)
      (not (entries item.entry).has_rebuild) _ _ (λ h. entry_among-complete_item e i _ b)
      (λ h. entry_among-complete_item e i _ b)
entry_among-start_rebuild entries e i later item b =
    if-cases (λ (c : Batch). entry_among e c.items ≡ entry_among e b.items)
      (not (entries item.entry).has_rebuild) _ _ (λ h. entry_among-complete_item e i _ b)
      (λ h. refl)

entry_among-start_rebuilds :
    (entries : ℕ → Entry) (answers : ℕ → Answer) (e i : ℕ) (xs : List Item) (b : Batch)
    → entry_among e (start_rebuilds entries answers i xs b).items ≡ entry_among e b.items
unfolding start_rebuilds
entry_among-start_rebuilds entries answers e i [] b = refl
entry_among-start_rebuilds entries answers e i (x ∷ xs) b =
    entry_among-start_rebuilds entries answers e (suc i) xs
      (start_rebuild entries i (answers i) x b)
    ∙ entry_among-start_rebuild entries e i (answers i) x b

entry_among-refuse_all :
    (e i : ℕ) (xs : List Item) (b : Batch)
    → entry_among e (refuse_all i xs b).items ≡ entry_among e b.items
unfolding refuse_all
entry_among-refuse_all e i [] b = refl
entry_among-refuse_all e i (x ∷ xs) b =
    entry_among-refuse_all e (suc i) xs (complete_item i _ b) ∙ entry_among-complete_item e i _ b

pub launch-IsAsked :
    (accepted : Bool) (answers : ℕ → Answer) (r : Registry)
    → IsAsked r
    → IsAsked (launch accepted answers r)
unfolding launch
launch-IsAsked accepted answers r k =
    elim-cases IsAsked r.running _ _ (λ e. k)
      (λ b e. record {
        requested = k.requested;
        stale_asked = k.stale_asked;
        listed = k.listed;
        busy = λ n h.
            let before : entry_among n b.items ≡ true =
              subst (λ (o : Option Batch). is_item n o ≡ true) e (k.busy n h) in
            if-cases (λ (c : Batch). entry_among n c.items ≡ true) accepted _ _
              (λ a. entry_among-start_rebuilds r.entries answers n 0 b.items b ∙ before)
              (λ a. entry_among-refuse_all n 0 b.items b ∙ before);
      })

pub complete-IsAsked :
    (number i : ℕ) (build : LiveBuild) (r : Registry)
    → IsAsked r
    → IsAsked (complete number i build r)
unfolding complete
complete-IsAsked number i build r k =
    elim-cases IsAsked r.running _ _ (λ e. k)
      (λ b e.
        if-cases IsAsked (b.number == number) _ _
          (λ same. record {
            requested = k.requested;
            stale_asked = k.stale_asked;
            listed = k.listed;
            busy = λ n h.
                entry_among-complete_item n i build b
                ∙ subst (λ (o : Option Batch). is_item n o ≡ true) e (k.busy n h);
          })
          (λ other. k))

without_lem : (p q : Bool) → (p && not q) ≡ true → (p ≡ true → q ≡ true) → ⊥
without_lem true true h f = cc
without_lem true false h f = let g = f refl in cc
without_lem false q h f = cc

pub finish_done-IsAsked : (r : Registry) → IsAsked r → IsAsked (finish_done r).0
unfolding finish_done finish_batch
finish_done-IsAsked r k =
    elim-cases (λ (p : Registry × Bool). IsAsked p.0) r.running _ _ (λ e. k)
      (λ b e.
        if-cases (λ (p : Registry × Bool). IsAsked p.0) (b.remaining == 0) _ _
          (λ done. record {
            requested = k.requested;
            stale_asked = λ n a s.
                k.stale_asked n (sym (let_go-alive b.items r.entries n) ∙ a)
                  (sym (let_go-stale b.items r.entries n) ∙ s);
            listed = λ n a. k.listed n (sym (let_go-alive b.items r.entries n) ∙ a);
            busy = λ n h. absurd (
                without_lem (r.entries n).in_batch (entry_among n b.items)
                  (sym (let_go-in_batch b.items r.entries n) ∙ h)
                  (λ held. subst (λ (o : Option Batch). is_item n o ≡ true) e (k.busy n held)));
          })
          (λ more. k))

-- With no reload running.
module _ (r : Registry) (k : IsAsked r) (idle : r.running ≡ none) where
  pub idle-in_batch : (n : ℕ) → (r.entries n).in_batch ≡ false
  idle-in_batch n = elim (Bool-cases (r.entries n).in_batch) [
    | inl busy ↦
        let item = subst (λ (o : Option Batch). is_item n o ≡ true) idle (k.busy n busy) in
        absurd cc
    | inr free ↦ free
  ]

  abbrev pub kept : List ℕ
  kept = keep_if (is_kept r.entries) r.ids

  abbrev pub takes_all : Bool
  takes_all = reloads_all r.entries kept r.request.files r.request.all

  pub listed-kept : (n : ℕ) → (r.entries n).alive ≡ true → among n kept ≡ true
  listed-kept n a = among-keep_if (is_kept r.entries) n r.ids (ground (arith, a)) (k.listed n a)

  taken-stale :
      (n : ℕ)
      → (r.entries n).alive ≡ true
      → (r.entries n).stale ≡ true
      → taken r.request takes_all r.entries kept n ≡ true
  unfolding taken is_chosen
  taken-stale n a s =
      let here = listed-kept n a in let free = idle-in_batch n in ground (arith, a, s, here, free)

  taken-in_batch :
      (n : ℕ)
      → ((r.entries n).in_batch || taken r.request takes_all r.entries kept n) ≡ true
      → taken r.request takes_all r.entries kept n ≡ true
  taken-in_batch n h = let free = idle-in_batch n in ground (arith, h, free)

  pub start_batch-IsAsked : IsAsked (start_batch r)
  unfolding start_batch prune taken
  start_batch-IsAsked = record {
    requested = λ h. refl;
    stale_asked = λ n a s.
        let alive = sym (take_in-alive r.request takes_all r.entries kept n) ∙ a in
        absurd (
          without_lem (r.entries n).stale (taken r.request takes_all r.entries kept n)
            (sym (take_in-stale r.request takes_all r.entries kept n) ∙ s) (taken-stale n alive));
    listed = λ n a. listed-kept n (sym (take_in-alive r.request takes_all r.entries kept n) ∙ a);
    busy = λ n h.
        items_of_lem r.request takes_all r.entries kept n
        ∙ taken-in_batch n (sym (take_in-in_batch r.request takes_all r.entries kept n) ∙ h);
  }

  -- The request may name every entry, by no file or by a file that no entry is built from.
  pub start_batch-is_item :
      (n : ℕ)
      → (r.entries n).alive ≡ true
      → is_item n (start_batch r).running
        ≡ (is_picked r.request takes_all (r.entries n) || (r.entries n).stale)
  unfolding start_batch prune is_chosen
  start_batch-is_item n a =
      let here = listed-kept n a in
      let free = idle-in_batch n in
      let item = items_of_lem r.request takes_all r.entries kept n in
      ground (arith, a, here, free, item)
