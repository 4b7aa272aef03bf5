-- ===== src/BackingPool/Choosing.antt =====
-- The claims of an Acquire: the backing that is chosen, and that the pool's lists stay.
use orgmodule_services.Common.{
  ℕ, suc, ◌≤◌, ◌≡◌, refl, ◌∙◌, inl, inr, true, false, Option, none, some, List, [], ◌∷◌, arith,
  Bool-cases,
}
use orgmodule_services.BackingPool.Backing.{Backing}
use orgmodule_services.BackingPool.Store.{lookup, occ}
use orgmodule_services.BackingPool.State.{Pool, claim_reuse}
use orgmodule_services.BackingPool.Acquire.{Choice, choose}
use orgmodule_services.BackingPool.Circulation.{
  Inv, claim_reuse-Inv, claim_reuse-lists, claim_reuse-other, claim_reuse-won,
}

-- The backing that the choice fell on: claimed with no consumer, back in circulation, and not among
-- the rest.
abbrev pub IsChosen : Pool → List ℕ → Choice → Option ℕ → Type 0
IsChosen p L c none = Unit {0}
IsChosen p L c (some g) =
    (suc (occ g c.rest) ≤ occ g L)
    × ((b : Backing) × (lookup g p.all ≡ some b)
        × (b.binding_consumers ≡ 0)
        × (lookup g c.pool.all ≡ some (record b { retired = false; sealed_bytes = 0 })))

pub record Chose (p : Pool) (L : List ℕ) (c : Choice) : Type 0 where
  pub inv : Inv c.pool
  pub free : c.pool.free ≡ p.free
  pub config : c.pool.config ≡ p.config
  pub next : c.pool.next_generation ≡ p.next_generation
  pub fewer : (k : ℕ) → occ k c.rest ≤ occ k L
  pub chosen : IsChosen p L c c.chosen

pub choose-Chose :
    (L : List ℕ) (p : Pool) → ((k : ℕ) → occ k L ≤ 1) → Inv p → Chose p L (choose L p)
unfolding choose
choose-Chose [] p once v = record {
  inv = v;
  free = refl;
  config = refl;
  next = refl;
  fewer = λ k. omega arith;
  chosen = tt;
}
choose-Chose (g ∷ gs) p once v = elim (Bool-cases (claim_reuse g p).1) [
  | inl won ↦ rw (won, choose) (taken won)
  | inr lost ↦
      rw (lost, choose)
        (passed (
          choose-Chose gs (claim_reuse g p).0 (λ k. omega (arith, once k)) (claim_reuse-Inv g p v)))
]
  where
    lists :
        ((claim_reuse g p).0.free ≡ p.free)
        × ((claim_reuse g p).0.config ≡ p.config)
        × ((claim_reuse g p).0.next_generation ≡ p.next_generation)
    lists = claim_reuse-lists g p

    taken :
        (claim_reuse g p).1 ≡ true
        → Chose p (g ∷ gs) (record { pool = (claim_reuse g p).0; chosen = some g; rest = gs })
    taken won = record {
      inv = claim_reuse-Inv g p v;
      free = lists.0;
      config = lists.1;
      next = lists.2;
      fewer = λ k. omega arith;
      chosen = (ground arith, claim_reuse-won g p won);
    }

    passed :
        Chose (claim_reuse g p).0 gs (choose gs (claim_reuse g p).0)
        → Chose p (g ∷ gs) (choose gs (claim_reuse g p).0)
    passed c = record {
      inv = c.inv;
      free = c.free ∙ lists.0;
      config = c.config ∙ lists.1;
      next = c.next ∙ lists.2;
      fewer = λ k. omega (arith, c.fewer k);
      chosen = later (choose gs (claim_reuse g p).0).chosen c.chosen;
    }
      where
        later :
            (o : Option ℕ)
            → IsChosen (claim_reuse g p).0 gs (choose gs (claim_reuse g p).0) o
            → IsChosen p (g ∷ gs) (choose gs (claim_reuse g p).0) o
        later none h = tt
        later (some k) (n, (b, e, z, e')) =
            (omega arith, (b, ground (arith, once k, claim_reuse-other g p k), z, e'))
