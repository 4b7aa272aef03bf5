-- ===== src/Pipelines/Finishing.antt =====
-- The end of a reload in src/PipelineRegistry.cpp: every rebuild's answer is in.
use orgmodule_services.Common.{
  ℕ, zero, suc, ◌+◌, ◌≡◌, ◌≢◌, ◌<◌, ◌≤◌, ◌⊎◌, refl, sym, subst, Bool, true, false, not, ◌&&◌,
  Option, none, some, List, [], ◌∷◌, ◌==◌, length, arith, if-cases, elim-cases, if◌then◌else◌,
  u32_mod, inl, inr,
}
use native.Mathlib.Decide.{dec_lt}
use orgmodule_services.Pipelines.{Entry, LiveBuild, Item, Batch, Registry, prune}
use orgmodule_services.Pipelines.Reloads.{
  set_build, awaits, complete_item, start_batch, Answer, now, threw, later, start_rebuild,
  start_rebuilds, refuse_all, launch, finish_done, is_idle, service, build_error, refused,
}
use orgmodule_services.Pipelines.Counting.{
  undone, BatchCounts, RunningCounts, IsCounted, start_batch-IsCounted, start_rebuilds-BatchCounts,
  refuse_all-BatchCounts,
}
use orgmodule_services.Pipelines.Runs.{Reached}
use orgmodule_services.Pipelines.Counted.{Reached-IsCounted}

awaits-set_build :
    (i j : ℕ) (build : LiveBuild) (xs : List Item)
    → awaits j (set_build i build xs) ≡ (awaits j xs && not (i == j))
unfolding awaits set_build
awaits-set_build i j build [] = ground arith
awaits-set_build zero zero build (x ∷ xs) = ground arith
awaits-set_build zero (suc j) build (x ∷ xs) = ground arith
awaits-set_build (suc i) zero build (x ∷ xs) = ground arith
awaits-set_build (suc i) (suc j) build (x ∷ xs) = ground (arith, awaits-set_build i j build xs)

awaits-complete_item :
    (i j : ℕ) (build : LiveBuild) (b : Batch)
    → awaits j (complete_item i build b).items ≡ (awaits j b.items && not (i == j))
unfolding complete_item
awaits-complete_item i j build b =
    if-cases (λ (c : Batch). awaits j c.items ≡ (awaits j b.items && not (i == j)))
      (awaits i b.items) _ _ (λ h. awaits-set_build i j build b.items) (λ h. ground (arith, h))

awaits-out : (j : ℕ) (xs : List Item) → length xs ≤ j → awaits j xs ≡ false
unfolding awaits
awaits-out j [] h = refl
awaits-out zero (x ∷ xs) h = absurd (omega (arith, h))
awaits-out (suc j) (x ∷ xs) h = awaits-out j xs (omega (arith, h))

undone-none : (xs : List Item) → ((j : ℕ) → awaits j xs ≡ false) → undone xs ≡ 0
unfolding awaits undone
undone-none [] h = refl
undone-none (x ∷ xs) h = let first = h 0 in ground (arith, first, undone-none xs (λ j. h (suc j)))

-- The first i of n are in.
abbrev FirstIn : ℕ → ℕ → Batch → Type 0
FirstIn n i b = (j : ℕ) → (j < i) ⊎ (n ≤ j) → awaits j b.items ≡ false

complete_item-FirstIn :
    (n i : ℕ) (build : LiveBuild) (b : Batch)
    → FirstIn n i b
    → FirstIn n (suc i) (complete_item i build b)
complete_item-FirstIn n i build b k j (inr h) =
    let same = awaits-complete_item i j build b in
    let before = k j (inr h) in ground (arith, same, before)
complete_item-FirstIn n i build b k j (inl h) =
    let same = awaits-complete_item i j build b in
    elim (dec_lt j i) [
      | yes less ↦ (let before = k j (inl less) in ground (arith, same, before))
      | no more ↦ (let last : i ≡ j = omega (arith, h, more) in ground (arith, same, last))
    ]

start_rebuild-FirstIn :
    (entries : ℕ → Entry) (n i : ℕ) (answer : Answer) (item : Item) (b : Batch)
    → answer ≢ later
    → FirstIn n i b
    → FirstIn n (suc i) (start_rebuild entries i answer item b)
unfolding start_rebuild
start_rebuild-FirstIn entries n i (now build) item b ne k =
    if-cases (FirstIn n (suc i)) (not (entries item.entry).has_rebuild) _ _
      (λ e. complete_item-FirstIn n i _ b k) (λ e. complete_item-FirstIn n i build b k)
start_rebuild-FirstIn entries n i (threw m) item b ne k =
    if-cases (FirstIn n (suc i)) (not (entries item.entry).has_rebuild) _ _
      (λ e. complete_item-FirstIn n i _ b k) (λ e. complete_item-FirstIn n i _ b k)
start_rebuild-FirstIn entries n i later item b ne k = absurd (ne refl)

start_rebuilds-FirstIn :
    (entries : ℕ → Entry) (answers : ℕ → Answer) (n i : ℕ) (xs : List Item) (b : Batch)
    → ((j : ℕ) → answers j ≢ later)
    → FirstIn n i b
    → FirstIn n (i + length xs) (start_rebuilds entries answers i xs b)
unfolding start_rebuilds
start_rebuilds-FirstIn entries answers n i [] b ne k =
    subst (λ (m : ℕ). FirstIn n m b) (omega arith) k
start_rebuilds-FirstIn entries answers n i (x ∷ xs) b ne k =
    let next = start_rebuild entries i (answers i) x b in
    subst (λ (m : ℕ). FirstIn n m (start_rebuilds entries answers (suc i) xs next)) (omega arith)
      (start_rebuilds-FirstIn entries answers n (suc i) xs next ne
        (start_rebuild-FirstIn entries n i (answers i) x b (ne i) k))

refuse_all-FirstIn :
    (n i : ℕ) (xs : List Item) (b : Batch)
    → FirstIn n i b
    → FirstIn n (i + length xs) (refuse_all i xs b)
unfolding refuse_all
refuse_all-FirstIn n i [] b k = subst (λ (m : ℕ). FirstIn n m b) (omega arith) k
refuse_all-FirstIn n i (x ∷ xs) b k =
    let next = complete_item i (build_error (some refused)) b in
    subst (λ (m : ℕ). FirstIn n m (refuse_all (suc i) xs next)) (omega arith)
      (refuse_all-FirstIn n (suc i) xs next (complete_item-FirstIn n i _ b k))

none_in : (b : Batch) → FirstIn (length b.items) 0 b
none_in b j (inl h) = absurd (omega (arith, h))
none_in b j (inr h) = awaits-out j b.items h

-- A batch whose rebuilds are all in has none left to wait for.
all_in : (b : Batch) (n : ℕ) → BatchCounts b → FirstIn n (0 + n) b → b.remaining ≡ 0
all_in b n k f =
    let left = undone-none b.items (λ j. elim (dec_lt j n) [
      | yes h ↦ f j (inl (omega (arith, h)))
      | no h ↦ f j (inr (omega (arith, h)))
    ]) in
    let exact = k.exact in omega (arith, left, exact)

-- A launch has every answer at once: it is refused, or no rebuild leaves its answer for later.
abbrev pub AnswersNow : Bool → (ℕ → Answer) → Type 0
AnswersNow accepted answers = (accepted ≡ false) ⊎ ((i : ℕ) → answers i ≢ later)

launched-remaining :
    (accepted : Bool) (answers : ℕ → Answer) (entries : ℕ → Entry) (b : Batch)
    → BatchCounts b
    → AnswersNow accepted answers
    → (if accepted
        then start_rebuilds entries answers 0 b.items b
        else refuse_all 0 b.items b).remaining
      ≡ 0
launched-remaining true answers entries b k (inl e) = absurd cc
launched-remaining true answers entries b k (inr ne) =
    all_in (start_rebuilds entries answers 0 b.items b) (length b.items)
      (start_rebuilds-BatchCounts entries answers 0 b.items b k)
      (start_rebuilds-FirstIn entries answers (length b.items) 0 b.items b ne (none_in b))
launched-remaining false answers entries b k a =
    all_in (refuse_all 0 b.items b) (length b.items) (refuse_all-BatchCounts 0 b.items b k)
      (refuse_all-FirstIn (length b.items) 0 b.items b (none_in b))

finish_done-launch :
    (accepted : Bool) (answers : ℕ → Answer) (r : Registry)
    → is_idle r ≡ false
    → IsCounted r
    → AnswersNow accepted answers
    → (finish_done (launch accepted answers r)).1 ≡ true
unfolding finish_done launch
finish_done-launch accepted answers r busy k answered =
    elim-cases (λ (q : Registry). (finish_done q).1 ≡ true) r.running _ _
      (λ e.
        let running : is_idle r ≡ true =
          subst (λ (o : Option Batch). elim o [ none ↦ true | some b ↦ false ] ≡ true) (sym e)
            refl in
        absurd cc)
      (λ b e.
        let zero_left =
          launched-remaining accepted answers r.entries b (subst RunningCounts e k.counts)
            answered in
        rw zero_left refl)

finish_done-idle : (r : Registry) → r.running ≡ none → finish_done r ≡ (r, false)
unfolding finish_done
finish_done-idle r idle =
    elim-cases (λ (p : Registry × Bool). p ≡ (r, false)) r.running _ _ (λ e. refl)
      (λ b e. absurd cc)

start_batch-busy : (r : Registry) → is_idle (start_batch r) ≡ false
unfolding start_batch prune
start_batch-busy r = refl

service_finishes_counted :
    (accepted : Bool) (answers : ℕ → Answer) (r : Registry)
    → length r.ids < u32_mod
    → IsCounted r
    → r.running ≡ none
    → r.asked ≡ true
    → AnswersNow accepted answers
    → (service accepted answers r).1.0 ≡ true
unfolding service start_batch prune
service_finishes_counted accepted answers r few k idle asked answered =
    let nothing = finish_done-idle r idle in
    rw (nothing, idle, asked)
      (finish_done-launch accepted answers (start_batch r) (start_batch-busy r)
        (start_batch-IsCounted r few k) answered)

-- Where a run has come to a registry of fewer than 2^32 entries with no reload running and the flag of a
-- reload set, and the executor refuses the task or every rebuild that it starts answers at once, Service
-- returns that a reload finished.
pub service_finishes :
    (accepted : Bool) (answers : ℕ → Answer) (r : Registry)
    → Reached r
    → length r.ids < u32_mod
    → r.running ≡ none
    → r.asked ≡ true
    → AnswersNow accepted answers
    → (service accepted answers r).1.0 ≡ true
service_finishes accepted answers r reached few idle asked answered =
    service_finishes_counted accepted answers r few (Reached-IsCounted r reached) idle asked
      answered
