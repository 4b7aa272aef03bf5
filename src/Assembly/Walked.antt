-- ===== src/Assembly/Walked.antt =====
-- How far the walk of Collect of `RevisionAssembler` comes.
use orgmodule_services.Common.{
  ℕ, ◌≡◌, ◌≤◌, refl, subst, Bool, true, false, ◌||◌, Option, none, some, List, [], ◌∷◌, leb, ◌==◌,
  arith, times, Bool-cases, if-cases, inl, inr, ◌∙◌,
}
use orgmodule_services.Assembly.{Assembler, is_in}
use orgmodule_services.Assembly.Calls.{Walk, is_older, judge, visit, walk_completed, without}

-- The revision that the frame would have after a walk, if it ended here.
abbrev pub best_of : Option ℕ → ℕ → ℕ
best_of none published = published
best_of (some n) published = n

abbrev pub best : Walk → ℕ
best w = best_of w.newest w.assembler.published_sequence

abbrev pub failed_in : ℕ → Assembler → Bool
failed_in q s = (s.revisions q).has_failed

-- What a visit of `r` does for a revision `q`.
record IsVisited (r q : ℕ) (w u : Walk) : Type 0 where
  same_published : u.assembler.published_sequence ≡ w.assembler.published_sequence
  same_failed : failed_in q u.assembler ≡ failed_in q w.assembler
  no_worse : best w ≤ best u
  taken_in :
      r ≡ q → is_in q w.assembler.unfinished ≡ true → failed_in q w.assembler ≡ false → q ≤ best u
  left_in :
      (r == q) ≡ false
      → is_in q w.assembler.unfinished ≡ true
      → is_in q u.assembler.unfinished ≡ true

abbrev pub IsAhead : Walk → Type 0
IsAhead w = w.assembler.published_sequence ≤ best w

is_in-without_other :
    (q r : ℕ) (xs : List ℕ) → (r == q) ≡ false → is_in q xs ≡ true → is_in q (without r xs) ≡ true
unfolding is_in without
is_in-without_other q r [] e h = h
is_in-without_other q r (x ∷ xs) e h = ground (arith, e, h, is_in-without_other q r xs)

-- A revision that is not taken, and has not failed, is not past the best one.
older-le :
    (r : ℕ) (n : Option ℕ) (p : ℕ)
    → p ≤ best_of n p
    → (leb r p || is_older r n) ≡ true
    → r ≤ best_of n p
older-le r none p a h = ground (arith, h)
older-le r (some n) p a h = ground (arith, h, a)

newer-le : (r : ℕ) (n : Option ℕ) (p : ℕ) → (leb r p || is_older r n) ≡ false → best_of n p ≤ r
newer-le r none p h = ground (arith, h)
newer-le r (some n) p h = ground (arith, h)

record IsJudged (r : ℕ) (w u : Walk) : Type 0 where
  judged_published : u.assembler.published_sequence ≡ w.assembler.published_sequence
  judged_failed : (q : ℕ) → failed_in q u.assembler ≡ failed_in q w.assembler
  judged_unfinished : u.assembler.unfinished ≡ w.assembler.unfinished
  judged_best : best w ≤ best u
  judged_taken : failed_in r w.assembler ≡ false → r ≤ best u

judge-IsJudged : (r : ℕ) (w : Walk) → IsAhead w → IsJudged r w (judge r w)
unfolding judge
judge-IsJudged r w a =
    let s = w.assembler in
    if-cases (IsJudged r w) (s.revisions r).has_failed _ _
      (λ e. record {
        judged_published = refl;
        judged_failed = λ q. refl;
        judged_unfinished = refl;
        judged_best = omega arith;
        judged_taken = λ h. absurd cc;
      })
      (λ e.
        if-cases (IsJudged r w) (leb r s.published_sequence || is_older r w.newest) _ _
          (λ old. record {
            judged_published = refl;
            judged_failed = λ q. refl;
            judged_unfinished = refl;
            judged_best = omega arith;
            judged_taken = λ h. older-le r w.newest s.published_sequence a old;
          })
          (λ new. record {
            judged_published = refl;
            judged_failed = λ q. refl;
            judged_unfinished = refl;
            judged_best = newer-le r w.newest s.published_sequence new;
            judged_taken = λ h. omega arith;
          }))

visit-IsVisited : (r q : ℕ) (w : Walk) → IsAhead w → IsVisited r q w (visit r w)
unfolding visit
visit-IsVisited r q w a =
    let s = w.assembler in
    let given_up : Walk = record w {
      assembler = record s { unfinished = without r s.unfinished };
    } in
    if-cases (IsVisited r q w) (is_in r s.unfinished) _ _
      (λ here.
        let j = judge-IsJudged r given_up a in
        record {
          same_published = j.judged_published;
          same_failed = j.judged_failed q;
          no_worse = j.judged_best;
          taken_in =
              λ e i ok. subst (λ k. k ≤ best (judge r given_up)) e (j.judged_taken (rw e ok));
          left_in = λ e i. rw (j.judged_unfinished) (is_in-without_other q r s.unfinished e i);
        })
      (λ gone. record {
        same_published = refl;
        same_failed = refl;
        no_worse = omega arith;
        taken_in = λ e i ok. absurd (let there : is_in r s.unfinished ≡ true = rw e i in cc);
        left_in = λ e i. i;
      })

-- What a walk does for a revision.
pub record IsTaken (rs : List ℕ) (q : ℕ) (w u : Walk) : Type 0 where
  pub walked_published : u.assembler.published_sequence ≡ w.assembler.published_sequence
  pub walked_best : best w ≤ best u
  pub walked_taken :
      1 ≤ times q rs
      → is_in q w.assembler.unfinished ≡ true
      → failed_in q w.assembler ≡ false
      → q ≤ best u
  pub walked_left :
      times q rs ≡ 0 → is_in q w.assembler.unfinished ≡ true → is_in q u.assembler.unfinished ≡ true

pub walk_completed-IsTaken :
    (rs : List ℕ) (q : ℕ) (w : Walk) → IsAhead w → IsTaken rs q w (walk_completed rs w)
unfolding walk_completed times
walk_completed-IsTaken [] q w a = record {
  walked_published = refl;
  walked_best = omega arith;
  walked_taken = λ n i ok. absurd (omega (arith, n));
  walked_left = λ n i. i;
}
walk_completed-IsTaken (r ∷ rs) q w a =
    let one = visit-IsVisited r q w a in
    let ahead : IsAhead (visit r w) =
      let p = one.same_published in let b = one.no_worse in omega (arith, a, p, b) in
    let rest = walk_completed-IsTaken rs q (visit r w) ahead in
    record {
      walked_published = rest.walked_published ∙ one.same_published;
      walked_best = let b = one.no_worse in let c = rest.walked_best in omega (arith, b, c);
      walked_taken = λ n i ok. elim (Bool-cases (r == q)) [
        | inl e ↦
            let now = one.taken_in (ground (arith, e)) i ok in
            let c = rest.walked_best in omega (arith, now, c)
        | inr e ↦ rest.walked_taken (ground (arith, n, e)) (one.left_in e i) (one.same_failed ∙ ok)
      ];
      walked_left = λ n i. rest.walked_left (ground (arith, n)) (one.left_in (ground (arith, n)) i);
    }
