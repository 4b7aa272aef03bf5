-- ===== src/Pipelines/Asking.antt =====
-- What a reload of src/PipelineRegistry.cpp takes: the request, and the entries that it names or that are
-- stale.
use orgmodule_services.Common.{
  ℕ, zero, suc, ◌≡◌, refl, Bool, true, false, not, ◌&&◌, ◌||◌, Option, none, some, List, [], ◌∷◌,
  ◌++◌, ◌==◌, if◌then◌else◌, keep_if, arith, if-cases,
}
use orgmodule_services.Pipelines.{Entry, LiveBuild, Item, Batch, Request, Registry}
use orgmodule_services.Pipelines.Reloads.{
  set_build, awaits, complete_item, items_of, take_in, is_chosen, let_go,
}

unfoldable pub among : ℕ → List ℕ → Bool
among e [] = false
among e (x ∷ xs) = e == x || among e xs

unfoldable pub entry_among : ℕ → List Item → Bool
entry_among e [] = false
entry_among e (x ∷ xs) = e == x.entry || entry_among e xs

abbrev pub is_item : ℕ → Option Batch → Bool
is_item e running = elim running [ none ↦ false | some b ↦ entry_among e b.items ]

-- Nothing that is to be reloaded is forgotten.
pub record IsAsked (r : Registry) : Type 0 where
  pub requested : r.asked ≡ false → r.request.is_asked ≡ false
  pub stale_asked :
      (e : ℕ) → (r.entries e).alive ≡ true → (r.entries e).stale ≡ true → r.asked ≡ true
  pub listed : (e : ℕ) → (r.entries e).alive ≡ true → among e r.ids ≡ true
  pub busy : (e : ℕ) → (r.entries e).in_batch ≡ true → is_item e r.running ≡ true

pub among-keep_if :
    (p : ℕ → Bool) (e : ℕ) (xs : List ℕ)
    → p e ≡ true
    → among e xs ≡ true
    → among e (keep_if p xs) ≡ true
unfolding among
among-keep_if p e [] q h = h
among-keep_if p e (x ∷ xs) q h = ground (arith, among-keep_if p e xs q)

pub among-append : (e x : ℕ) (xs : List ℕ) → among e (xs ++ x ∷ []) ≡ (among e xs || e == x)
unfolding among
among-append e x [] = ground arith
among-append e x (y ∷ ys) = ground (arith, among-append e x ys)

pub take_in_lem :
    (q : Request) (all : Bool) (entries : ℕ → Entry) (es : List ℕ) (n : ℕ)
    → take_in q all entries es n ≡ (
        if among n es && is_chosen q all (entries n)
        then record (entries n) { stale = false; in_batch = true }
        else entries n)
unfolding take_in among
take_in_lem q all entries [] n = refl
take_in_lem q all entries (e ∷ es) n = ground (arith, take_in_lem q all entries es n)

pub items_of_lem :
    (q : Request) (all : Bool) (entries : ℕ → Entry) (es : List ℕ) (n : ℕ)
    → entry_among n (items_of q all entries es) ≡ (among n es && is_chosen q all (entries n))
unfolding items_of among entry_among
items_of_lem q all entries [] n = refl
items_of_lem q all entries (e ∷ es) n = ground (arith, items_of_lem q all entries es n)

pub let_go_lem :
    (xs : List Item) (entries : ℕ → Entry) (n : ℕ)
    → let_go xs entries n
      ≡ (if entry_among n xs then record (entries n) { in_batch = false } else entries n)
unfolding let_go entry_among
let_go_lem [] entries n = refl
let_go_lem (x ∷ xs) entries n = ground (arith, let_go_lem xs entries n)

entry_among-set_build :
    (e i : ℕ) (build : LiveBuild) (xs : List Item)
    → entry_among e (set_build i build xs) ≡ entry_among e xs
unfolding set_build entry_among
entry_among-set_build e i build [] = refl
entry_among-set_build e zero build (x ∷ xs) = ground arith
entry_among-set_build e (suc i) build (x ∷ xs) = cc (entry_among-set_build e i build xs)

pub entry_among-complete_item :
    (e i : ℕ) (build : LiveBuild) (b : Batch)
    → entry_among e (complete_item i build b).items ≡ entry_among e b.items
unfolding complete_item
entry_among-complete_item e i build b =
    if-cases (λ (c : Batch). entry_among e c.items ≡ entry_among e b.items) (awaits i b.items) _ _
      (λ h. entry_among-set_build e i build b.items) (λ h. refl)

module _ (xs : List Item) (entries : ℕ → Entry) (n : ℕ) where
  pub let_go-alive : (let_go xs entries n).alive ≡ (entries n).alive
  let_go-alive = rw let_go_lem (
      if-cases (λ (x : Entry). x.alive ≡ (entries n).alive) (entry_among n xs) _ _ (λ h. refl)
        (λ h. refl))

  pub let_go-stale : (let_go xs entries n).stale ≡ (entries n).stale
  let_go-stale = rw let_go_lem (
      if-cases (λ (x : Entry). x.stale ≡ (entries n).stale) (entry_among n xs) _ _ (λ h. refl)
        (λ h. refl))

  pub let_go-in_batch :
      (let_go xs entries n).in_batch ≡ ((entries n).in_batch && not (entry_among n xs))
  let_go-in_batch = rw let_go_lem (
      if-cases (λ (x : Entry). x.in_batch ≡ ((entries n).in_batch && not (entry_among n xs)))
        (entry_among n xs) _ _ (λ h. ground (arith, h)) (λ h. ground (arith, h)))

-- The entries that a new reload takes.
unfoldable pub taken : Request → Bool → (ℕ → Entry) → List ℕ → ℕ → Bool
taken q all entries es n = among n es && is_chosen q all (entries n)

module _ (q : Request) (all : Bool) (entries : ℕ → Entry) (es : List ℕ) (n : ℕ) where
  pub take_in-alive : (take_in q all entries es n).alive ≡ (entries n).alive
  unfolding taken
  take_in-alive = rw take_in_lem (
      if-cases (λ (x : Entry). x.alive ≡ (entries n).alive) (taken q all entries es n) _ _
        (λ h. refl) (λ h. refl))

  pub take_in-stale :
      (take_in q all entries es n).stale ≡ ((entries n).stale && not (taken q all entries es n))
  unfolding taken
  take_in-stale = rw take_in_lem (
      if-cases (λ (x : Entry). x.stale ≡ ((entries n).stale && not (taken q all entries es n)))
        (taken q all entries es n) _ _ (λ h. ground (arith, h)) (λ h. ground (arith, h)))

  pub take_in-in_batch :
      (take_in q all entries es n).in_batch ≡ ((entries n).in_batch || taken q all entries es n)
  unfolding taken
  take_in-in_batch = rw take_in_lem (
      if-cases (λ (x : Entry). x.in_batch ≡ ((entries n).in_batch || taken q all entries es n))
        (taken q all entries es n) _ _ (λ h. ground (arith, h)) (λ h. ground (arith, h)))
