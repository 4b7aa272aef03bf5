-- ===== src/Assembly/Picked.antt =====
-- The newest revision that the walk of Collect of `RevisionAssembler` comes to.
use orgmodule_services.Common.{
  ℕ, ◌≡◌, ◌≤◌, ◌<◌, subst, true, false, ◌||◌, some, List, [], ◌∷◌, leb, arith, times, if-cases,
}
use orgmodule_services.Assembly.{Assembler, Revision, is_in}
use orgmodule_services.Assembly.Calls.{Walk, is_older, judge, visit, walk_completed, without}

-- A revision that may be published: completed, not given up, not failed, and past the published one.
pub record IsComplete (s : Assembler) (r : ℕ) : Type 0 where
  pub newer : s.published_sequence < r
  pub completed : 1 ≤ times r s.completed
  pub unfinished : is_in r s.unfinished ≡ true
  pub unfailed : (s.revisions r).has_failed ≡ false

-- A walk from `s`, after some of its revisions.
pub record IsPicked (s : Assembler) (w : Walk) : Type 0 where
  pub same_revisions : w.assembler.revisions ≡ s.revisions
  pub same_held : w.assembler.held ≡ s.held
  pub same_published : w.assembler.published_sequence ≡ s.published_sequence
  pub fewer : (x : ℕ) → is_in x w.assembler.unfinished ≡ true → is_in x s.unfinished ≡ true
  pub best : (r : ℕ) → w.newest ≡ some r → IsComplete s r

is_in-without : (x r : ℕ) (xs : List ℕ) → is_in x (without r xs) ≡ true → is_in x xs ≡ true
unfolding is_in without
is_in-without x r [] h = h
is_in-without x r (y ∷ ys) h = ground (arith, h, is_in-without x r ys)

judge-IsPicked :
    (s : Assembler) (r : ℕ) (w : Walk)
    → 1 ≤ times r s.completed
    → is_in r s.unfinished ≡ true
    → IsPicked s w
    → IsPicked s (judge r w)
unfolding judge
judge-IsPicked s r w n i k =
    if-cases (IsPicked s) (w.assembler.revisions r).has_failed _ _
      (λ e. record {
        same_revisions = k.same_revisions;
        same_held = k.same_held;
        same_published = k.same_published;
        fewer = k.fewer;
        best = k.best;
      })
      (λ e.
        if-cases (IsPicked s) (leb r w.assembler.published_sequence || is_older r w.newest) _ _
          (λ old. record {
            same_revisions = k.same_revisions;
            same_held = k.same_held;
            same_published = k.same_published;
            fewer = k.fewer;
            best = k.best;
          })
          (λ new. record {
            same_revisions = k.same_revisions;
            same_held = k.same_held;
            same_published = k.same_published;
            fewer = k.fewer;
            best = λ q h.
                let same : r ≡ q = cc in
                let published = k.same_published in
                let fresh : IsComplete s r = record {
                  newer = ground (arith, new, published);
                  completed = n;
                  unfinished = i;
                  unfailed =
                      subst (λ (f : ℕ → Revision). (f r).has_failed ≡ false) (k.same_revisions) e;
                } in
                subst (IsComplete s) same fresh;
          }))

visit-IsPicked :
    (s : Assembler) (r : ℕ) (w : Walk)
    → 1 ≤ times r s.completed
    → IsPicked s w
    → IsPicked s (visit r w)
unfolding visit
visit-IsPicked s r w n k =
    if-cases (IsPicked s) (is_in r w.assembler.unfinished) _ _
      (λ here. judge-IsPicked s r _ n (k.fewer r here) (record {
        same_revisions = k.same_revisions;
        same_held = k.same_held;
        same_published = k.same_published;
        fewer = λ x h. k.fewer x (is_in-without x r w.assembler.unfinished h);
        best = k.best;
      }))
      (λ gone. k)

pub walk_completed-IsPicked :
    (s : Assembler) (rs : List ℕ) (w : Walk)
    → ((x : ℕ) → 1 ≤ times x rs → 1 ≤ times x s.completed)
    → IsPicked s w
    → IsPicked s (walk_completed rs w)
unfolding walk_completed times
walk_completed-IsPicked s [] w h k = k
walk_completed-IsPicked s (r ∷ rs) w h k =
    walk_completed-IsPicked s rs (visit r w) (λ x n. h x (ground (arith, n)))
      (visit-IsPicked s r w (h r (ground arith)) k)
