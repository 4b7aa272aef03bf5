-- ===== src/Assembly/Closed.antt =====
-- The closure that Seal of `RevisionAssembler` tests, slot by slot.
use orgmodule_services.Common.{
  ℕ, zero, suc, ◌≡◌, subst, true, Option, none, some, List, [], ◌∷◌, ◌==◌, get_or, All, arith,
  Bool-cases, inl, inr,
}
use orgmodule_services.Assembly.{Requirement, FragmentState}
use orgmodule_services.Assembly.Calls.{names_at, are_met, closes}
use orgmodule_services.Assembly.Invariant.{names, is_ready, IsWhole}

-- A requirement's fragment is in its slot.
abbrev pub IsMetBy : List (Option ℕ) → Requirement → Type 0
IsMetBy slots q = get_or slots q.slot none ≡ some q.fragment

-- Slots that name ready fragments only, each requirement of each of them in its slot.
pub record IsSelected (requirements : ℕ → List Requirement) (slots : List (Option ℕ))
    (states : ℕ → FragmentState) : Type 0 where
  pub all_ready : (f : ℕ) → names f slots ≡ true → is_ready (states f) ≡ true
  pub all_met : (f : ℕ) → names f slots ≡ true → All (IsMetBy slots) (requirements f)

names_at-get_or :
    (slot f : ℕ) (os : List (Option ℕ)) → names_at slot f os ≡ true → get_or os slot none ≡ some f
unfolding names_at
names_at-get_or slot f [] h = absurd cc
names_at-get_or zero f (none ∷ os) h = absurd cc
names_at-get_or zero f (some g ∷ os) h = ground (arith, h)
names_at-get_or (suc slot) f (o ∷ os) h = names_at-get_or slot f os h

are_met-All :
    (qs : List Requirement) (slots : List (Option ℕ))
    → are_met qs slots ≡ true
    → All (IsMetBy slots) qs
unfolding are_met
are_met-All [] slots h = tt
are_met-All (q ∷ qs) slots h = (
  names_at-get_or q.slot q.fragment slots (ground (arith, h)),
  are_met-All qs slots (ground (arith, h)),
)

closes-All :
    (requirements : ℕ → List Requirement) (f : ℕ) (os slots : List (Option ℕ))
    → closes requirements os slots ≡ true
    → names f os ≡ true
    → All (IsMetBy slots) (requirements f)
unfolding closes names
closes-All requirements f [] slots c n = absurd cc
closes-All requirements f (none ∷ os) slots c n = closes-All requirements f os slots c n
closes-All requirements f (some g ∷ os) slots c n = elim (Bool-cases (f == g)) [
  | inl e ↦
      (let same : g ≡ f = ground (arith, e) in
        subst (λ (k : ℕ). All (IsMetBy slots) (requirements k)) same
          (are_met-All (requirements g) slots (ground (arith, c))))
  | inr e ↦ closes-All requirements f os slots (ground (arith, c)) (ground (arith, n, e))
]

pub whole-IsSelected :
    (requirements : ℕ → List Requirement) (slots : List (Option ℕ)) (states : ℕ → FragmentState)
    → IsWhole requirements slots states
    → IsSelected requirements slots states
whole-IsSelected requirements slots states w = record {
  all_ready = w.all_ready;
  all_met = λ f n. closes-All requirements f slots slots w.closed_up n;
}
