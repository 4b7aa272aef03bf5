-- ===== src/BackingPool/Candidates.antt =====
-- The candidates of an Acquire are free backings, each at most once, in whatever order they are
-- sorted.
use orgmodule_services.Common.{
  ℕ, suc, zero, ◌+◌, ◌≤◌, ◌≡◌, refl, ap, subst, inl, inr, Bool, true, not, Option, none, some, ◌==◌,
  List, [], ◌∷◌, keep_if, drop, arith, Bool-cases, Option-cases, All, ltb,
}
use orgmodule_services.BackingPool.Backing.{Backing, insert_by, sort_by}
use orgmodule_services.BackingPool.Store.{lookup, occ}
use orgmodule_services.BackingPool.State.{backings_of}
use orgmodule_services.BackingPool.Acquire.{generations, oldest_bound}

generation-lookup :
    (g : ℕ) (bs : List Backing) (b : Backing) → lookup g bs ≡ some b → b.generation ≡ g
unfolding lookup
generation-lookup g [] b h = cc
generation-lookup g (c ∷ cs) b h = ground (arith, generation-lookup g cs b)

pub occ-backings_of :
    (g : ℕ) (all : List Backing) (gs : List ℕ) → occ g (generations (backings_of all gs)) ≤ occ g gs
unfolding backings_of
occ-backings_of g all [] = omega arith
occ-backings_of g all (h ∷ hs) = elim (Option-cases (lookup h all)) [
  | inl e ↦ rw (e, backings_of) (omega (arith, occ-backings_of g all hs))
  | inr (b, e) ↦
      rw (e, backings_of) (ground (arith, generation-lookup h all b e, occ-backings_of g all hs))
]

pub occ-partition :
    (g : ℕ) (p : Backing → Bool) (bs : List Backing)
    → occ g (generations (keep_if p bs)) + occ g (generations (keep_if (λ b. not (p b)) bs))
      ≡ occ g (generations bs)
occ-partition g p [] = omega arith
occ-partition g p (b ∷ bs) = ground (arith, occ-partition g p bs)

occ-insert_by :
    (g : ℕ) (before : Backing → Backing → Bool) (x : Backing) (bs : List Backing)
    → occ g (generations (insert_by before x bs)) ≡ occ g (generations (x ∷ bs))
unfolding insert_by
occ-insert_by g before x [] = refl
occ-insert_by g before x (b ∷ bs) = ground (arith, occ-insert_by g before x bs)

pub occ-sort_by :
    (g : ℕ) (before : Backing → Backing → Bool) (bs : List Backing)
    → occ g (generations (sort_by before bs)) ≡ occ g (generations bs)
unfolding sort_by
occ-sort_by g before [] = refl
occ-sort_by g before (b ∷ bs) =
    omega (arith, occ-insert_by g before b (sort_by before bs), occ-sort_by g before bs)

pub occ-drop : (g n : ℕ) (gs : List ℕ) → occ g (drop n gs) ≤ occ g gs
occ-drop g zero gs = omega arith
occ-drop g (suc n) [] = omega arith
occ-drop g (suc n) (h ∷ hs) = omega (arith, occ-drop g n hs)

pub occ-keep :
    (g : ℕ) (p : Backing → Bool) (bs : List Backing)
    → occ g (generations (keep_if p bs)) ≤ occ g (generations bs)
occ-keep g p bs = omega (arith, occ-partition g p bs)

-- What a list of generations names is found under its generation, and named there.
abbrev pub Named : List Backing → List ℕ → Backing → Type 0
Named all gs b = (lookup b.generation all ≡ some b) × (1 ≤ occ b.generation gs)

pub backings_of-Named : (all : List Backing) (gs : List ℕ) → All (Named all gs) (backings_of all gs)
unfolding backings_of
backings_of-Named all [] = tt
backings_of-Named all (g ∷ gs) = elim (Option-cases (lookup g all)) [
  | inl e ↦ rw (e, backings_of) (later (backings_of all gs) (backings_of-Named all gs))
  | inr (b, e) ↦
      rw (e, backings_of)
        (
          (
            ground (arith, generation-lookup g all b e, e),
            ground (arith, generation-lookup g all b e),
          ),
          later (backings_of all gs) (backings_of-Named all gs),
        )
]
  where
    later : (bs : List Backing) → All (Named all gs) bs → All (Named all (g ∷ gs)) bs
    later [] h = tt
    later (b ∷ bs) h = ((h.0.0, omega (arith, h.0.1)), later bs h.1)

same-value : (b c : Backing) → some b ≡ some c → b ≡ c
same-value b c e = ap (λ (o : Option Backing). elim o [ none ↦ b | some x ↦ x ]) e

-- A property of the backings looked up holds of the kept, the sorted and the chosen.
module _ {ℓ} (P : Backing → Type ℓ) where
  pub All-keep_if :
      (p : Backing → Bool) (bs : List Backing)
      → All P bs
      → All (λ b. P b × (p b ≡ true)) (keep_if p bs)
  All-keep_if p [] h = tt
  All-keep_if p (b ∷ bs) h = elim (Bool-cases (p b)) [
    | inl e ↦ rw e ((h.0, e), All-keep_if p bs h.1)
    | inr e ↦ rw e (All-keep_if p bs h.1)
  ]

  pub All-found :
      (g : ℕ) (bs : List Backing)
      → All P bs
      → 1 ≤ occ g (generations bs)
      → (b : Backing) × (P b) × (b.generation ≡ g)
  All-found g [] h n = absurd (omega arith)
  All-found g (b ∷ bs) h n = elim (Bool-cases (b.generation == g)) [
    | inl e ↦ (b, h.0, ground arith)
    | inr e ↦ All-found g bs h.1 (ground arith)
  ]

  All-insert_by :
      (before : Backing → Backing → Bool) (x : Backing) (bs : List Backing)
      → P x
      → All P bs
      → All P (insert_by before x bs)
  unfolding insert_by
  All-insert_by before x [] px h = (px, tt)
  All-insert_by before x (b ∷ bs) px h = elim (Bool-cases (before b x)) [
    | inl e ↦ rw e (h.0, All-insert_by before x bs px h.1)
    | inr e ↦ rw e (px, h)
  ]

  pub All-sort_by :
      (before : Backing → Backing → Bool) (bs : List Backing) → All P bs → All P (sort_by before bs)
  unfolding sort_by
  All-sort_by before [] h = tt
  All-sort_by before (b ∷ bs) h =
      All-insert_by before b (sort_by before bs) h.0 (All-sort_by before bs h.1)

  pub oldest_bound-All :
      (bs : List Backing) (best : Option Backing) (b : Backing)
      → All P bs
      → ((c : Backing) → best ≡ some c → P c)
      → oldest_bound bs best ≡ some b
      → P b
  unfolding oldest_bound
  oldest_bound-All [] best b h k e = k b e
  oldest_bound-All (c ∷ cs) none b h k e =
      oldest_bound-All cs (some c) b h.1 (λ x e'. subst P (same-value c x e') h.0) e
  oldest_bound-All (c ∷ cs) (some d) b h k e = elim (Bool-cases (ltb c.safe_at d.safe_at)) [
    | inl less ↦
        oldest_bound-All cs (some c) b h.1 (λ x e'. subst P (same-value c x e') h.0) (rw less at e)
    | inr more ↦ oldest_bound-All cs (some d) b h.1 k (rw more at e)
  ]
