-- ===== src/Assembly/Accounts.antt =====
-- The statistics of `RevisionAssembler`, and which revision Collect takes.
use orgmodule_services.Common.{
  ℕ, suc, ◌+◌, ◌≡◌, ◌≤◌, ◌<◌, refl, Bool, true, not, ◌||◌, Option, none, some, List, [], ◌∷◌, leb,
  ◌==◌, length, length-append, arith, times, times-append, if-cases, some-cases,
}
use orgmodule_services.Assembly.{
  FragmentState, ready, failed, Requirement, Thread, Assembler, is_in, new_assembler, thread_step,
}
use orgmodule_services.Assembly.Calls.{
  Walk, is_older, judge, visit, walk_completed, hold_newest, gather, offer, collect, without,
  not_before, resolve, fail, settle, seal, sealed_by, closes,
}
use orgmodule_services.Assembly.Invariant.{thread_step-IsKept}
use orgmodule_services.Assembly.Runs.{
  Act, resolve_act, fail_act, seal_act, collect_act, settler_act, coordinator_act, act, Reached,
  made, acted, is_ended, left_by, step_settler, step_coordinator, thread_at, replace,
}

abbrev pub counted_once : Option ℕ → ℕ
counted_once none = 0
counted_once (some n) = 1

-- Every revision that was sealed is counted once: by what became of it, or as unfinished. `extra` are those
-- that a walk has taken and not yet counted.
pub record IsAccounted (extra : ℕ) (s : Assembler) : Type 0 where
  pub balance :
      s.stats.sealed
      ≡ s.stats.published
        + s.stats.failed_count
        + s.stats.superseded
        + s.stats.abandoned
        + length s.unfinished
        + extra
  pub distinct : (r : ℕ) → times r s.unfinished ≤ 1
  pub not_later : (r : ℕ) → s.latest_sequence < r → times r s.unfinished ≡ 0

length-without : (r : ℕ) (xs : List ℕ) → length (without r xs) + times r xs ≡ length xs
unfolding without times
length-without r [] = omega arith
length-without r (x ∷ xs) = ground (arith, length-without r xs)

times-without : (q r : ℕ) (xs : List ℕ) → times q (without r xs) ≤ times q xs
unfolding without times
times-without q r [] = omega arith
times-without q r (x ∷ xs) = ground (arith, times-without q r xs)

times-not_before : (q n : ℕ) (xs : List ℕ) → times q (not_before n xs) ≤ times q xs
unfolding not_before times
times-not_before q n [] = omega arith
times-not_before q n (x ∷ xs) = ground (arith, times-not_before q n xs)

length-not_before : (n : ℕ) (xs : List ℕ) → length (not_before n xs) ≤ length xs
unfolding not_before
length-not_before n [] = omega arith
length-not_before n (x ∷ xs) = ground (arith, length-not_before n xs)

times-is_in : (r : ℕ) (xs : List ℕ) → is_in r xs ≡ true → 1 ≤ times r xs
unfolding is_in times
times-is_in r [] h = absurd cc
times-is_in r (x ∷ xs) h = ground (arith, h, times-is_in r xs)

judge-IsAccounted :
    (r : ℕ) (w : Walk)
    → IsAccounted (suc (counted_once w.newest)) w.assembler
    → IsAccounted (counted_once (judge r w).newest) (judge r w).assembler
unfolding judge
judge-IsAccounted r w k =
    if-cases (λ (u : Walk). IsAccounted (counted_once u.newest) u.assembler)
      (w.assembler.revisions r).has_failed _ _
      (λ e. record {
        balance = let b = k.balance in omega (arith, b);
        distinct = k.distinct;
        not_later = k.not_later;
      })
      (λ e.
        if-cases (λ (u : Walk). IsAccounted (counted_once u.newest) u.assembler)
          (leb r w.assembler.published_sequence || is_older r w.newest) _ _
          (λ old. record {
            balance = let b = k.balance in omega (arith, b);
            distinct = k.distinct;
            not_later = k.not_later;
          })
          (λ new. record {
            balance = let b = k.balance in omega (arith, b);
            distinct = k.distinct;
            not_later = k.not_later;
          }))

visit-IsAccounted :
    (r : ℕ) (w : Walk)
    → IsAccounted (counted_once w.newest) w.assembler
    → IsAccounted (counted_once (visit r w).newest) (visit r w).assembler
unfolding visit
visit-IsAccounted r w k =
    let s = w.assembler in
    if-cases (λ (u : Walk). IsAccounted (counted_once u.newest) u.assembler) (is_in r s.unfinished)
      _ _
      (λ here. judge-IsAccounted r _ (record {
        balance =
            let b = k.balance in
            let less = length-without r s.unfinished in
            let one = k.distinct r in
            let there = times-is_in r s.unfinished here in omega (arith, b, less, one, there);
        distinct = λ q.
            let one = k.distinct q in
            let less = times-without q r s.unfinished in omega (arith, one, less);
        not_later = λ q l.
            let zero_before = k.not_later q l in
            let less = times-without q r s.unfinished in omega (arith, zero_before, less);
      }))
      (λ gone. k)

walk_completed-IsAccounted :
    (rs : List ℕ) (w : Walk)
    → IsAccounted (counted_once w.newest) w.assembler
    → IsAccounted (counted_once (walk_completed rs w).newest) (walk_completed rs w).assembler
unfolding walk_completed
walk_completed-IsAccounted [] w k = k
walk_completed-IsAccounted (r ∷ rs) w k =
    walk_completed-IsAccounted rs (visit r w) (visit-IsAccounted r w k)

hold_newest-IsAccounted :
    (n : Option ℕ) (s : Assembler)
    → IsAccounted (counted_once n) s
    → IsAccounted 0 (hold_newest n s)
unfolding hold_newest
hold_newest-IsAccounted none s k = k
hold_newest-IsAccounted (some r) s k = record {
  balance =
      let b = k.balance in let less = length-not_before r s.unfinished in omega (arith, b, less);
  distinct = λ q.
      let one = k.distinct q in
      let less = times-not_before q r s.unfinished in omega (arith, one, less);
  not_later = λ q l.
      let zero_before = k.not_later q l in
      let less = times-not_before q r s.unfinished in omega (arith, zero_before, less);
}

collect-IsAccounted :
    (taken : Bool) (s : Assembler) → IsAccounted 0 s → IsAccounted 0 (collect taken s).0
unfolding collect gather offer
collect-IsAccounted taken s k =
    let start : Walk = record {
      newest = none;
      failures = [];
      assembler = record s { completed = [] };
    } in
    let w = walk_completed s.completed start in
    let walked =
      walk_completed-IsAccounted s.completed start
        (record { balance = k.balance; distinct = k.distinct; not_later = k.not_later }) in
    let gathered = hold_newest-IsAccounted w.newest w.assembler walked in
    some-cases (λ (p : Assembler × ℕ). IsAccounted 0 (p.0)) (hold_newest w.newest w.assembler).held
      _ _ gathered
      (λ held e.
        if-cases (λ (p : Assembler × ℕ). IsAccounted 0 (p.0)) taken _ _
          (λ t. record {
            balance = gathered.balance;
            distinct = gathered.distinct;
            not_later = gathered.not_later;
          })
          (λ t. gathered))

sealed_by-IsAccounted :
    (slots : List (Option ℕ)) (s : Assembler) → IsAccounted 0 s → IsAccounted 0 (sealed_by slots s)
unfolding sealed_by times
sealed_by-IsAccounted slots s k =
    let r = s.latest_sequence + 1 in
    record {
      balance =
          let b = k.balance in
          let more = length-append s.unfinished (r ∷ []) in omega (arith, b, more);
      distinct =
          λ q. ground (arith, k.distinct q, k.not_later q, times-append q s.unfinished (r ∷ []));
      not_later = λ q l. ground (arith, l, k.not_later q, times-append q s.unfinished (r ∷ []));
    }

stepped-IsAccounted :
    (locked : Bool) (t c : Thread) (ts : List Thread) (s : Assembler)
    → IsAccounted 0 s
    → IsAccounted 0 (record (thread_step locked t s).0 { coordinator = c; settlers = ts })
stepped-IsAccounted locked t c ts s k =
    let kept = thread_step-IsKept locked t s in
    record {
      balance = rw (kept.kept_stats, kept.kept_unfinished) k.balance;
      distinct = rw (kept.kept_unfinished) k.distinct;
      not_later = rw (kept.kept_unfinished, kept.kept_sequence) k.not_later;
    }

settle-IsAccounted :
    (f : ℕ) (o : FragmentState) (s : Assembler) → IsAccounted 0 s → IsAccounted 0 (settle f o s).0
unfolding settle
settle-IsAccounted f o s k =
    if-cases (λ (p : Assembler × Bool). IsAccounted 0 (p.0)) (s.claimed f) _ _ (λ e. k)
      (λ e. record { balance = k.balance; distinct = k.distinct; not_later = k.not_later })

act-IsAccounted :
    (requirements : ℕ → List Requirement) (a : Act) (s : Assembler)
    → IsAccounted 0 s
    → IsAccounted 0 (act requirements a s)
unfolding act resolve fail seal step_settler step_coordinator
act-IsAccounted requirements (resolve_act f n) s k = settle-IsAccounted f (ready n) s k
act-IsAccounted requirements (fail_act f e) s k = settle-IsAccounted f (failed e) s k
act-IsAccounted requirements (seal_act d) s k =
    if-cases (IsAccounted 0) (is_ended s.coordinator) _ _
      (λ idle.
        if-cases (λ r. IsAccounted 0 (left_by s r)) (not (d.base == s.latest_sequence)) _ _
          (λ stale. k)
          (λ base.
            if-cases (λ r. IsAccounted 0 (left_by s r)) (not (closes requirements d.slots d.slots))
              _ _ (λ open_yet. k) (λ closed. sealed_by-IsAccounted d.slots s k)))
      (λ busy. k)
act-IsAccounted requirements (collect_act taken) s k =
    if-cases (IsAccounted 0) (is_ended s.coordinator) _ _ (λ idle. collect-IsAccounted taken s k)
      (λ busy. k)
act-IsAccounted requirements (settler_act i locked) s k =
    some-cases (IsAccounted 0) (thread_at i s.settlers) s _ k (λ t h.
      stepped-IsAccounted locked t s.coordinator (replace i (thread_step locked t s).1 s.settlers) s
        k)
act-IsAccounted requirements (coordinator_act locked) s k =
    stepped-IsAccounted locked s.coordinator _ s.settlers s k

-- In every run of an assembler, each revision that was sealed is counted exactly once: as published,
-- failed, superseded or abandoned, or it is among the unfinished ones, where no revision stands twice
-- and none is later than the latest sealed.
pub Reached-IsAccounted :
    (requirements : ℕ → List Requirement) (s : Assembler) → Reached requirements s → IsAccounted 0 s
unfolding new_assembler times
Reached-IsAccounted requirements _ (made n) = record {
  balance = refl;
  distinct = λ r. omega arith;
  not_later = λ r h. refl;
}
Reached-IsAccounted requirements _ (acted a s fits r) =
    act-IsAccounted requirements a s (Reached-IsAccounted requirements s r)
