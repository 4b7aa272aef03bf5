-- ===== src/Pipelines/Counting.antt =====
-- The count of a reload's rebuilds in src/PipelineRegistry.cpp, and of what became of them.
use orgmodule_services.Common.{
  ℕ, zero, suc, ◌+◌, ◌≡◌, ◌≤◌, ◌<◌, refl, subst, Bool, true, false, not, ◌&&◌, Option, none, some,
  List, [], ◌∷◌, ◌==◌, if◌then◌else◌, length, count_if, keep_if, u32_mod, arith, if-cases,
  elim-cases,
}
use orgmodule_services.Pipelines.{Entry, LiveBuild, Item, Batch, Request, Registry, prune, is_kept}
use orgmodule_services.Pipelines.Reloads.{
  is_done, set_build, awaits, complete_item, items_of, start_batch, Answer, now, threw, later,
  start_rebuild, start_rebuilds, refuse_all, launch, is_rebuilt, has_failed, is_unchanged,
  finish_batch, finish_done, reloads_all,
}

-- The rebuilds that are not in.
unfoldable pub undone : List Item → ℕ
undone [] = 0
undone (x ∷ xs) = (if is_done x then 0 else 1) + undone xs

pub record BatchCounts (b : Batch) : Type 0 where
  pub exact : b.remaining ≡ undone b.items
  pub small : length b.items < u32_mod

abbrev pub RunningCounts : Option Batch → Type 0
RunningCounts none = Unit {0}
RunningCounts (some b) = BatchCounts b

pub record IsCounted (r : Registry) : Type 0 where
  pub counts : RunningCounts r.running
  pub sums : r.outcome.entry_count ≡ r.outcome.rebuilt + r.outcome.failed + r.outcome.unchanged

undone-length : (xs : List Item) → undone xs ≤ length xs
unfolding undone
undone-length [] = omega arith
undone-length (x ∷ xs) = ground (arith, undone-length xs)

undone-set_build :
    (i : ℕ) (build : LiveBuild) (xs : List Item)
    → awaits i xs ≡ true
    → undone (set_build i build xs) + 1 ≡ undone xs
unfolding undone set_build awaits
undone-set_build i build [] h = absurd cc
undone-set_build zero build (x ∷ xs) h = ground (arith, h)
undone-set_build (suc i) build (x ∷ xs) h =
    let k = undone-set_build i build xs h in omega (arith, k)

length-set_build :
    (i : ℕ) (build : LiveBuild) (xs : List Item) → length (set_build i build xs) ≡ length xs
unfolding set_build
length-set_build i build [] = refl
length-set_build zero build (x ∷ xs) = refl
length-set_build (suc i) build (x ∷ xs) = omega (arith, length-set_build i build xs)

pub complete_item-BatchCounts :
    (i : ℕ) (build : LiveBuild) (b : Batch) → BatchCounts b → BatchCounts (complete_item i build b)
unfolding complete_item
complete_item-BatchCounts i build b k =
    if-cases BatchCounts (awaits i b.items) _ _
      (λ e.
        let one = undone-set_build i build b.items e in
        let same = length-set_build i build b.items in
        let few = undone-length b.items in
        let exact = k.exact in
        let small = k.small in
        record {
          exact = omega (arith, one, few, exact, small);
          small = omega (arith, same, small);
        })
      (λ e. k)

start_rebuild-BatchCounts :
    (entries : ℕ → Entry) (i : ℕ) (answer : Answer) (item : Item) (b : Batch)
    → BatchCounts b
    → BatchCounts (start_rebuild entries i answer item b)
unfolding start_rebuild
start_rebuild-BatchCounts entries i (now build) item b k =
    if-cases BatchCounts (not (entries item.entry).has_rebuild) _ _
      (λ e. complete_item-BatchCounts i _ b k) (λ e. complete_item-BatchCounts i build b k)
start_rebuild-BatchCounts entries i (threw m) item b k =
    if-cases BatchCounts (not (entries item.entry).has_rebuild) _ _
      (λ e. complete_item-BatchCounts i _ b k) (λ e. complete_item-BatchCounts i _ b k)
start_rebuild-BatchCounts entries i later item b k =
    if-cases BatchCounts (not (entries item.entry).has_rebuild) _ _
      (λ e. complete_item-BatchCounts i _ b k) (λ e. k)

pub start_rebuilds-BatchCounts :
    (entries : ℕ → Entry) (answers : ℕ → Answer) (i : ℕ) (xs : List Item) (b : Batch)
    → BatchCounts b
    → BatchCounts (start_rebuilds entries answers i xs b)
unfolding start_rebuilds
start_rebuilds-BatchCounts entries answers i [] b k = k
start_rebuilds-BatchCounts entries answers i (x ∷ xs) b k =
    start_rebuilds-BatchCounts entries answers (suc i) xs (start_rebuild entries i (answers i) x b)
      (start_rebuild-BatchCounts entries i (answers i) x b k)

pub refuse_all-BatchCounts :
    (i : ℕ) (xs : List Item) (b : Batch) → BatchCounts b → BatchCounts (refuse_all i xs b)
unfolding refuse_all
refuse_all-BatchCounts i [] b k = k
refuse_all-BatchCounts i (x ∷ xs) b k =
    refuse_all-BatchCounts (suc i) xs _ (complete_item-BatchCounts i _ b k)

undone-items_of :
    (q : Request) (all : Bool) (entries : ℕ → Entry) (es : List ℕ)
    → undone (items_of q all entries es) ≡ length (items_of q all entries es)
unfolding undone items_of
undone-items_of q all entries [] = refl
undone-items_of q all entries (e ∷ es) = ground (arith, undone-items_of q all entries es)

length-items_of :
    (q : Request) (all : Bool) (entries : ℕ → Entry) (es : List ℕ)
    → length (items_of q all entries es) ≤ length es
unfolding items_of
length-items_of q all entries [] = omega arith
length-items_of q all entries (e ∷ es) = ground (arith, length-items_of q all entries es)

length-keep_if : (p : ℕ → Bool) (xs : List ℕ) → length (keep_if p xs) ≤ length xs
length-keep_if p [] = omega arith
length-keep_if p (x ∷ xs) = ground (arith, length-keep_if p xs)

pub start_batch-IsCounted :
    (r : Registry) → length r.ids < u32_mod → IsCounted r → IsCounted (start_batch r)
unfolding start_batch prune
start_batch-IsCounted r few k =
    let q = prune r in
    let all = reloads_all q.entries q.ids r.request.files r.request.all in
    let kept = length-keep_if (is_kept r.entries) r.ids in
    let fewer = length-items_of r.request all q.entries q.ids in
    let none_in = undone-items_of r.request all q.entries q.ids in
    record {
      counts = record {
        exact = omega (arith, few, kept, fewer, none_in);
        small = omega (arith, few, kept, fewer);
      };
      sums = k.sums;
    }

pub launch-IsCounted :
    (accepted : Bool) (answers : ℕ → Answer) (r : Registry)
    → IsCounted r
    → IsCounted (launch accepted answers r)
unfolding launch
launch-IsCounted accepted answers r k =
    elim-cases IsCounted r.running _ _ (λ e. k)
      (λ b e.
        let c : BatchCounts b = subst RunningCounts e k.counts in
        record {
          counts =
              if-cases BatchCounts accepted _ _
                (λ h. start_rebuilds-BatchCounts r.entries answers 0 b.items b c)
                (λ h. refuse_all-BatchCounts 0 b.items b c);
          sums = k.sums;
        })

one_each :
    (rebuilt error : Bool) (i j k n : ℕ)
    → i + j + k ≡ n
    → (if rebuilt then suc i else i)
        + (if not rebuilt && error then suc j else j)
        + (if not rebuilt && not (not rebuilt && error) then suc k else k)
      ≡ suc n
one_each true error i j k n h = omega (arith, h)
one_each false true i j k n h = omega (arith, h)
one_each false false i j k n h = omega (arith, h)

-- Each item is counted once.
count-items :
    (xs : List Item)
    → count_if is_rebuilt xs + count_if has_failed xs + count_if is_unchanged xs ≡ length xs
count-items [] = omega arith
count-items (x ∷ xs) = one_each (is_rebuilt x) _ _ _ _ _ (count-items xs)

pub finish_done-IsCounted : (r : Registry) → IsCounted r → IsCounted (finish_done r).0
unfolding finish_done finish_batch
finish_done-IsCounted r k =
    elim-cases (λ (p : Registry × Bool). IsCounted (p.0)) r.running _ _ (λ e. k)
      (λ b e.
        if-cases (λ (p : Registry × Bool). IsCounted (p.0)) (b.remaining == 0) _ _
          (λ done.
            let c : BatchCounts b = subst RunningCounts e k.counts in
            let small = c.small in
            let each = count-items b.items in
            record { counts = tt; sums = omega (arith, small, each) })
          (λ more. k))
