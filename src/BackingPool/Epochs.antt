-- ===== src/BackingPool/Epochs.antt =====
-- `BackingPool::OldestContentEpoch`, the floor to which a journal is trimmed.
use orgmodule_services.Common.{
  ℕ, ◌≤◌, ◌≡◌, refl, Bool, true, not, ◌&&◌, ◌||◌, Option, none, some, ltb, leb, ◌==◌, List, [], ◌∷◌,
  arith, Bool-cases, inl, inr, All, count_if,
}
use orgmodule_services.BackingPool.Backing.{Backing}
use orgmodule_services.BackingPool.State.{Pool}
use orgmodule_services.BackingPool.Upkeep.{oldest_of, oldest_content_epoch}

abbrev not_older : ℕ → Backing → Bool
not_older e b = b.content_epoch == 0 || leb e b.content_epoch

-- The epoch is of a backing that holds something, and none of those is older; or none holds any.
abbrev pub IsOldest : List Backing → Option ℕ → Type 0
IsOldest bs none = All (λ b. b.content_epoch ≡ 0) bs
IsOldest bs (some e) =
    (1 ≤ e) × ((1 ≤ count_if (λ b. b.content_epoch == e) bs) × All (λ b. not_older e b ≡ true) bs)

oldest_of-some :
    (bs : List Backing) (a : ℕ)
    → 1 ≤ a
    → (e : ℕ) × (oldest_of bs (some a) ≡ some e)
      × (1 ≤ e)
      × (e ≤ a)
      × ((e == a || ltb 0 (count_if (λ b. b.content_epoch == e) bs)) ≡ true)
      × (All (λ b. not_older e b ≡ true) bs)
unfolding oldest_of
oldest_of-some [] a n = (a, refl, n, omega arith, ground arith, tt)
oldest_of-some (b ∷ bs) a n =
    elim (Bool-cases (not (b.content_epoch == 0) && ltb b.content_epoch a)) [
      | inl older ↦
          let (e, found, pos, le, here, all) =
            oldest_of-some bs b.content_epoch (ground (arith, older)) in
          (
            e,
            rw (older, oldest_of) found,
            pos,
            ground (arith, older, le),
            ground (arith, here),
            (ground (arith, le), all),
          )
      | inr newer ↦
          let (e, found, pos, le, here, all) = oldest_of-some bs a n in
          (
            e,
            rw (newer, oldest_of) found,
            pos,
            le,
            ground (arith, here),
            (ground (arith, le, newer), all),
          )
    ]

oldest_of-none : (bs : List Backing) → IsOldest bs (oldest_of bs none)
unfolding oldest_of
oldest_of-none [] = tt
oldest_of-none (b ∷ bs) = elim (Bool-cases (b.content_epoch == 0)) [
  | inl zeroed ↦ rw (zeroed, oldest_of) (later zeroed (oldest_of bs none) (oldest_of-none bs))
  | inr holds ↦
      let (e, found, pos, le, here, all) =
        oldest_of-some bs b.content_epoch (ground (arith, holds)) in
      rw (holds, oldest_of) (rw found (pos, (ground (arith, here), (ground (arith, le), all))))
]
  where
    later : (b.content_epoch == 0) ≡ true → (o : Option ℕ) → IsOldest bs o → IsOldest (b ∷ bs) o
    later zeroed none h = (ground (arith, zeroed), h)
    later zeroed (some e) (n, (c, h)) = (n, (ground (arith, c), (ground (arith, zeroed), h)))

-- The result is the epoch of a backing that holds something, and no backing of the pool that holds
-- something has an older one; it is none exactly where no backing holds anything.
pub oldest_content_epoch-IsOldest : (p : Pool) → IsOldest p.all (oldest_content_epoch p)
unfolding oldest_content_epoch
oldest_content_epoch-IsOldest p = oldest_of-none p.all
