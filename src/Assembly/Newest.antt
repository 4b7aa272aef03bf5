-- ===== src/Assembly/Newest.antt =====
-- Which of the completed revisions Collect of `RevisionAssembler` takes.
use orgmodule_services.Common.{
  ℕ, ◌≡◌, ◌≤◌, refl, subst, Bool, true, false, Option, none, some, List, [], ◌∷◌, if◌then◌else◌,
  elim-cases, sym, arith, times, if-cases, some-cases, inl, inr, ◌∙◌, Option-cases,
}
use orgmodule_services.Assembly.{Assembler, Revision, is_in}
use orgmodule_services.Assembly.Picked.{IsComplete, IsPicked, walk_completed-IsPicked}
use orgmodule_services.Assembly.Calls.{
  Walk, walk_completed, hold_newest, gather, offer, collect, not_before,
}
use orgmodule_services.Assembly.Walked.{best_of, failed_in, walk_completed-IsTaken}

is_in-not_before_later :
    (q n : ℕ) (xs : List ℕ) → n ≤ q → is_in q xs ≡ true → is_in q (not_before n xs) ≡ true
unfolding is_in not_before
is_in-not_before_later q n [] e h = h
is_in-not_before_later q n (x ∷ xs) e h = ground (arith, e, h, is_in-not_before_later q n xs)

-- What Collect does for a revision: the published sequence does not go back; a completed and unfinished one
-- that has not failed is the published one or older; one that is not completed and not older than
-- the published one stays.
record TakesNewest (q : ℕ) (s t : Assembler) : Type 0 where
  goes_on : s.published_sequence ≤ t.published_sequence
  takes :
      1 ≤ times q s.completed
      → is_in q s.unfinished ≡ true
      → failed_in q s ≡ false
      → q ≤ t.published_sequence
  keeps :
      times q s.completed ≡ 0
      → is_in q s.unfinished ≡ true
      → t.published_sequence ≤ q
      → is_in q t.unfinished ≡ true

-- What the frame is offered: the revision that is published now, or what was held before.
abbrev pub Held : Type 0
Held = Option (ℕ × List (Option ℕ))

abbrev pub offered_of : Held → ℕ
offered_of none = 0
offered_of (some (r, slots)) = r

hold_newest-published :
    (n : Option ℕ) (s : Assembler)
    → (hold_newest n s).published_sequence ≡ best_of n s.published_sequence
unfolding hold_newest
hold_newest-published none s = refl
hold_newest-published (some r) s = refl

hold_newest-keeps :
    (n : Option ℕ) (s : Assembler) (q : ℕ)
    → (hold_newest n s).published_sequence ≤ q
    → is_in q s.unfinished ≡ true
    → is_in q (hold_newest n s).unfinished ≡ true
unfolding hold_newest
hold_newest-keeps none s q l i = i
hold_newest-keeps (some r) s q l i = is_in-not_before_later q r s.unfinished l i

offer-same :
    (taken : Bool) (s : Assembler)
    → ((offer taken s).0.published_sequence ≡ s.published_sequence)
      × ((offer taken s).0.unfinished ≡ s.unfinished)
unfolding offer
offer-same taken s =
    some-cases
      (λ (p : Assembler × ℕ).
        (p.0.published_sequence ≡ s.published_sequence) × (p.0.unfinished ≡ s.unfinished))
      s.held _ _ (refl, refl)
      (λ held e.
        if-cases
          (λ (p : Assembler × ℕ).
            (p.0.published_sequence ≡ s.published_sequence) × (p.0.unfinished ≡ s.unfinished))
          taken _ _ (λ t. (refl, refl)) (λ t. (refl, refl)))

takes_newest : (taken : Bool) (s : Assembler) (q : ℕ) → TakesNewest q s (collect taken s).0
unfolding collect gather
takes_newest taken s q =
    let start : Walk = record {
      newest = none;
      failures = [];
      assembler = record s { completed = [] };
    } in
    let w = walk_completed s.completed start in
    let k = walk_completed-IsTaken s.completed q start (omega arith) in
    let published = hold_newest-published w.newest w.assembler in
    let offered = offer-same taken (hold_newest w.newest w.assembler) in
    let p = k.walked_published in
    let b = k.walked_best in
    record {
      goes_on = omega (arith, published, offered.0, b);
      takes = λ n i ok. let l = k.walked_taken n i ok in omega (arith, published, offered.0, l);
      keeps = λ n i l. rw (offered.1) (
          hold_newest-keeps w.newest w.assembler q (omega (arith, l, offered.0))
            (k.walked_left n i));
    }

-- What Collect publishes. `held` is what is held for the frame before it is offered.
pub data Publishes (taken : Bool) (s t : Assembler) (sequence : ℕ) : Type 0 where
  nothing_new :
      ((q : ℕ) → IsComplete s q → ⊥)
      → t.published_sequence ≡ s.published_sequence
      → t.held ≡ (if taken then none else s.held)
      → sequence ≡ (if taken then offered_of s.held else 0)
      → Publishes taken s t sequence
  newest :
      (r : ℕ)
      → IsComplete s r
      → ((q : ℕ) → IsComplete s q → q ≤ r)
      → t.published_sequence ≡ r
      → t.held ≡ (if taken then none else some (r, (s.revisions r).slots))
      → sequence ≡ (if taken then r else 0)
      → Publishes taken s t sequence

-- What is held after an offer, and what Collect returns.
IsOffered : Bool → Held → Assembler × ℕ → Type 0
IsOffered taken held p =
    (p.0.held ≡ (if taken then none else held)) × (p.1 ≡ (if taken then offered_of held else 0))

offer-held : (taken : Bool) (s : Assembler) → IsOffered taken s.held (offer taken s)
unfolding offer IsOffered
offer-held taken s =
    elim-cases (IsOffered taken s.held) s.held _ _ (λ e. (ground (arith, e), ground (arith, e)))
      (λ held e.
        if-cases (IsOffered taken s.held) taken _ _ (λ t. (ground (arith, t), ground (arith, t, e)))
          (λ t. (ground (arith, t), ground (arith, t))))

start_of : Assembler → Walk
start_of s = record { newest = none; failures = []; assembler = record s { completed = [] } }

start_of-IsPicked : (s : Assembler) → IsPicked s (start_of s)
unfolding start_of
start_of-IsPicked s = record {
  same_revisions = refl;
  same_held = refl;
  same_published = refl;
  fewer = λ x h. h;
  best = λ r h. absurd cc;
}

module _ (s : Assembler) (w : Walk) (k : IsPicked s w) where
  held-none : w.newest ≡ none → (hold_newest w.newest w.assembler).held ≡ s.held
  unfolding hold_newest
  held-none e =
      subst (λ (n : Option ℕ). (hold_newest n w.assembler).held ≡ s.held) (sym e) k.same_held

  held-some :
      (r : ℕ)
      → w.newest ≡ some r
      → (hold_newest w.newest w.assembler).held ≡ some (r, (s.revisions r).slots)
  unfolding hold_newest
  held-some r e =
      subst (λ (n : Option ℕ). (hold_newest n w.assembler).held ≡ some (r, (s.revisions r).slots))
        (sym e)
        (subst
          (λ (f : ℕ → Revision). (hold_newest (some r) w.assembler).held ≡ some (r, (f r).slots))
          k.same_revisions refl)

  collect-Publishes :
      (taken : Bool)
      → ((q : ℕ)
          → IsComplete s q
          → q ≤ (offer taken (hold_newest w.newest w.assembler)).0.published_sequence)
      → let o = offer taken (hold_newest w.newest w.assembler) in Publishes taken s o.0 o.1
  unfolding IsOffered
  collect-Publishes taken all =
      let u = hold_newest w.newest w.assembler in
      let kept = (offer-same taken u).0 in
      let held = offer-held taken u in
      let published = hold_newest-published w.newest w.assembler in
      let before = k.same_published in
      elim (Option-cases w.newest) [
        | inl e ↦
            (let same : u.published_sequence ≡ s.published_sequence =
                ground (arith, published, before, e) in
              nothing_new
                (λ q c. (let l = all q c in let n = c.newer in omega (arith, l, n, kept, same)))
                (kept ∙ same)
                (subst (λ (h : Held). (offer taken u).0.held ≡ (if taken then none else h))
                  (held-none e) held.0)
                (subst (λ (h : Held). (offer taken u).1 ≡ (if taken then offered_of h else 0))
                  (held-none e) held.1))
        | inr (r, e) ↦
            (let same : u.published_sequence ≡ r = ground (arith, published, e) in
              newest r (k.best r e) (λ q c. (let l = all q c in omega (arith, l, kept, same)))
                (kept ∙ same)
                (subst (λ (h : Held). (offer taken u).0.held ≡ (if taken then none else h))
                  (held-some r e) held.0)
                (subst (λ (h : Held). (offer taken u).1 ≡ (if taken then offered_of h else 0))
                  (held-some r e) held.1))
      ]

-- Collect publishes what is said, and a revision that is not completed and not older stays.
pub record Collects (taken : Bool) (s : Assembler) (q : ℕ) : Type 0 where
  pub publishes : Publishes taken s (collect taken s).0 (collect taken s).1.0
  pub keeps :
      times q s.completed ≡ 0
      → is_in q s.unfinished ≡ true
      → (collect taken s).0.published_sequence ≤ q
      → is_in q (collect taken s).0.unfinished ≡ true

-- Collect publishes the newest of the revisions that are completed, not given up, not failed and past the
-- published one, where there is one: the published sequence becomes its, it is held for the frame
-- with the slots it was sealed with, and it is what Collect returns where the exchange takes it, after
-- which nothing is held. Where there is none, the published sequence stays, and what was held is
-- offered again. And each unfinished revision that is not completed and not older than the published
-- one stays unfinished.
pub collect-TakesNewest : (taken : Bool) (s : Assembler) (q : ℕ) → Collects taken s q
unfolding collect gather start_of
collect-TakesNewest taken s q =
    let picked =
      walk_completed-IsPicked s s.completed (start_of s) (λ x n. n) (start_of-IsPicked s) in
    record {
      publishes =
          collect-Publishes s (walk_completed s.completed (start_of s)) picked taken
            (λ r c. (takes_newest taken s r).takes c.completed c.unfinished c.unfailed);
      keeps = (takes_newest taken s q).keeps;
    }
