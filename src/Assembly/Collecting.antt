-- ===== src/Assembly/Collecting.antt =====
-- Collect of `RevisionAssembler` keeps its invariant, and what it holds for the frame is whole.
use orgmodule_services.Common.{
  ℕ, ◌≡◌, ◌≤◌, refl, subst, inl, inr, Bool, true, false, ◌||◌, Option, none, some, List, [], ◌∷◌,
  leb, arith, times, Bool-cases, if-cases, some-cases,
}
use orgmodule_services.Assembly.{
  FragmentState, pending, ready, failed, Requirement, Thread, Stats, Assembler, is_in,
}
use orgmodule_services.Assembly.Calls.{
  Walk, is_older, judge, visit, walk_completed, hold_newest, gather, offer, without, not_before,
}
use orgmodule_services.Assembly.Debts.{owes, owes_for, owes_for-le, waits_for-le, remains}
use orgmodule_services.Assembly.Settling.{is_known, is_settled_for}
use orgmodule_services.Assembly.Invariant.{sum_over, names, is_ready, IsWhole, Inv}

sum_over-le :
    (g h : Thread → ℕ)
    → ((t : Thread) → g t ≤ h t)
    → (ts : List Thread) → sum_over g ts ≤ sum_over h ts
unfolding sum_over
sum_over-le g h k [] = omega arith
sum_over-le g h k (t ∷ ts) =
    let one = k t in let rest = sum_over-le g h k ts in omega (arith, one, rest)

is_known-ready : (o : FragmentState) → is_known o false ≡ true → is_ready o ≡ true
is_known-ready pending h = h
is_known-ready (ready v) h = refl
is_known-ready (failed e) h = h

module _ (requirements : ℕ → List Requirement) where
  -- Nothing is owed to a revision whose count is 0.
  known :
      (s : Assembler)
      → Inv requirements s
      → (r f : ℕ) → is_in r s.unfinished ≡ true
      → remains r s ≡ 0
      → names f (s.revisions r).slots ≡ true
      → is_settled_for r f s ≡ true
  known s v r f i z n = elim (Bool-cases (is_settled_for r f s)) [
    | inl h ↦ h
    | inr h ↦
        let owed = v.owed r f i n h in
        let counts = v.counts r in
        let waiting = waits_for-le f r s.waiting in
        let mine = owes_for-le f r s.coordinator in
        let theirs = sum_over-le (owes_for f r) (owes r) (owes_for-le f r) s.settlers in
        absurd (omega (arith, owed, counts, waiting, mine, theirs, z))
  ]

  -- A revision that is complete and has not failed is whole.
  complete-IsWhole :
      (s : Assembler)
      → Inv requirements s
      → (r : ℕ) → is_in r s.unfinished ≡ true
      → remains r s ≡ 0
      → (s.revisions r).has_failed ≡ false
      → IsWhole requirements (s.revisions r).slots s.states
  complete-IsWhole s v r i z ok = record {
    all_ready = λ f n.
        is_known-ready (s.states f)
          (subst (λ b. is_known (s.states f) b ≡ true) ok (known s v r f i z n));
    closed_up = v.closing_up r;
  }

  -- Revisions that are given up leave the rest as it was.
  fewer-Inv :
      (s : Assembler)
      → Inv requirements s
      → (u : List ℕ) (st : Stats) → ((r : ℕ) → is_in r u ≡ true → is_in r s.unfinished ≡ true)
      → Inv requirements (record s { unfinished = u; stats = st })
  fewer-Inv s v u st sub = record {
    counts = v.counts;
    fresh = v.fresh;
    owed = λ r f i n h. v.owed r f (sub r i) n h;
    finished = v.finished;
    coordinator_settles = v.coordinator_settles;
    settlers_settle = v.settlers_settle;
    closed_settled = v.closed_settled;
    once = v.once;
    closing_up = v.closing_up;
    held_whole = v.held_whole;
  }

  pub record IsWalked (rs : List ℕ) (w : Walk) : Type 0 where
    pub inv : Inv requirements w.assembler
    pub newest_whole :
        (n : ℕ)
        → w.newest ≡ some n
        → IsWhole requirements (w.assembler.revisions n).slots w.assembler.states
    pub counted : (r : ℕ) → 1 ≤ times r rs → remains r w.assembler ≡ 0

  is_in-without : (q r : ℕ) (xs : List ℕ) → is_in q (without r xs) ≡ true → is_in q xs ≡ true
  unfolding is_in without
  is_in-without q r [] h = h
  is_in-without q r (x ∷ xs) h = ground (arith, h, is_in-without q r xs)

  is_in-not_before : (q n : ℕ) (xs : List ℕ) → is_in q (not_before n xs) ≡ true → is_in q xs ≡ true
  unfolding is_in not_before
  is_in-not_before q n [] h = h
  is_in-not_before q n (x ∷ xs) h = ground (arith, h, is_in-not_before q n xs)

  judge-IsWalked :
      (r : ℕ) (rs : List ℕ) (w : Walk)
      → IsWalked rs w
      → ((w.assembler.revisions r).has_failed ≡ false
          → IsWhole requirements (w.assembler.revisions r).slots w.assembler.states)
      → IsWalked rs (judge r w)
  unfolding judge
  judge-IsWalked r rs w k whole =
      let s = w.assembler in
      let same = fewer-Inv s k.inv s.unfinished in
      if-cases (IsWalked rs) (s.revisions r).has_failed _ _
        (λ e. record {
          inv = same _ (λ q h. h);
          newest_whole = k.newest_whole;
          counted = k.counted;
        })
        (λ e.
          if-cases (IsWalked rs) (leb r s.published_sequence || is_older r w.newest) _ _
            (λ old. record {
              inv = same _ (λ q h. h);
              newest_whole = k.newest_whole;
              counted = k.counted;
            })
            (λ new. record {
              inv = same _ (λ q h. h);
              newest_whole = λ n h.
                  let same_one : r ≡ n = cc in
                  subst (λ m. IsWhole requirements (s.revisions m).slots s.states) same_one
                    (whole e);
              counted = k.counted;
            }))

  visit-IsWalked : (r : ℕ) (rs : List ℕ) (w : Walk) → IsWalked (r ∷ rs) w → IsWalked rs (visit r w)
  unfolding visit times
  visit-IsWalked r rs w k =
      let s = w.assembler in
      let later : (q : ℕ) → 1 ≤ times q rs → remains q s ≡ 0 =
        λ q h. k.counted q (omega (arith, h)) in
      if-cases (IsWalked rs) (is_in r s.unfinished) _ _
        (λ here.
          judge-IsWalked r rs _
            (record {
              inv =
                  fewer-Inv s k.inv (without r s.unfinished) s.stats
                    (λ q. is_in-without q r s.unfinished);
              newest_whole = k.newest_whole;
              counted = later;
            })
            (complete-IsWhole s k.inv r here (k.counted r (ground arith))))
        (λ gone. record { inv = k.inv; newest_whole = k.newest_whole; counted = later })

  walk_completed-IsWalked :
      (rs : List ℕ) (w : Walk) → IsWalked rs w → IsWalked [] (walk_completed rs w)
  unfolding walk_completed
  walk_completed-IsWalked [] w k = k
  walk_completed-IsWalked (r ∷ rs) w k =
      walk_completed-IsWalked rs (visit r w) (visit-IsWalked r rs w k)

  hold_newest-Inv :
      (n : Option ℕ) (s : Assembler)
      → Inv requirements s
      → ((r : ℕ) → n ≡ some r → IsWhole requirements (s.revisions r).slots s.states)
      → Inv requirements (hold_newest n s)
  unfolding hold_newest
  hold_newest-Inv none s v whole = v
  hold_newest-Inv (some r) s v whole =
      let left =
        fewer-Inv s v (not_before r s.unfinished) s.stats
          (λ q. is_in-not_before q r s.unfinished) in
      record {
        counts = v.counts;
        fresh = v.fresh;
        owed = left.owed;
        finished = v.finished;
        coordinator_settles = v.coordinator_settles;
        settlers_settle = v.settlers_settle;
        closed_settled = v.closed_settled;
        once = v.once;
        closing_up = v.closing_up;
        held_whole = λ q slots h.
            let same : (s.revisions r).slots ≡ slots = cc in
            subst (λ (o : List (Option ℕ)). IsWhole requirements o s.states) same (whole r refl);
      }

  pub gather-Inv : (s : Assembler) → Inv requirements s → Inv requirements (gather s).0
  unfolding gather times
  gather-Inv s v =
      let start : Walk = record {
        newest = none;
        failures = [];
        assembler = record s { completed = [] };
      } in
      let emptied : Inv requirements (record s { completed = [] }) = record {
        counts = v.counts;
        fresh = λ r h. let k = v.fresh r h in omega (arith, k);
        owed = v.owed;
        finished = λ r h. v.finished r (omega (arith, h));
        coordinator_settles = v.coordinator_settles;
        settlers_settle = v.settlers_settle;
        closed_settled = v.closed_settled;
        once = v.once;
        closing_up = v.closing_up;
        held_whole = v.held_whole;
      } in
      let k = walk_completed-IsWalked s.completed start (record {
        inv = emptied;
        newest_whole = λ n h. absurd cc;
        counted = λ r h. v.finished r (omega (arith, h));
      }) in
      let w = walk_completed s.completed start in
      hold_newest-Inv w.newest w.assembler k.inv k.newest_whole

  pub offer-Inv :
      (taken : Bool) (s : Assembler) → Inv requirements s → Inv requirements (offer taken s).0
  unfolding offer
  offer-Inv taken s v =
      some-cases (λ (p : Assembler × ℕ). Inv requirements (p.0)) s.held _ _ v
        (λ held e.
          if-cases (λ (p : Assembler × ℕ). Inv requirements (p.0)) taken _ _
            (λ t. record {
              counts = v.counts;
              fresh = v.fresh;
              owed = v.owed;
              finished = v.finished;
              coordinator_settles = v.coordinator_settles;
              settlers_settle = v.settlers_settle;
              closed_settled = v.closed_settled;
              once = v.once;
              closing_up = v.closing_up;
              held_whole = λ r slots h. absurd cc;
            })
            (λ t. v))
