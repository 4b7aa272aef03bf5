-- ===== src/Assembly/Sealing.antt =====
-- The steps of threads, a settling and a seal keep the invariant of `RevisionAssembler`.
use orgmodule_services.Common.{
  ℕ, zero, suc, ◌+◌, ◌≡◌, ◌≤◌, ◌<◌, subst, ◌⊎◌, inl, inr, Bool, true, false, ◌||◌, Option, none,
  some, List, [], ◌∷◌, ◌++◌, ◌==◌, if◌then◌else◌, length, arith, times, times-append, length-append,
  ap, Bool-cases, if-cases, some-cases, All,
}
use orgmodule_services.Assembly.{
  FragmentState, Requirement, Thread, ended, Assembler, put, is_in, is_pending, thread_step,
}
use orgmodule_services.Common.{u32_max}
use orgmodule_services.Assembly.Calls.{closes, settle, distinct_of, sealed_by}
use orgmodule_services.Assembly.Debts.{owes, owes_for}
use orgmodule_services.Assembly.Settling.{Settles}
use orgmodule_services.Assembly.Invariant.{sum_over, names, pushes, stores, Inv}
use orgmodule_services.Assembly.Steps.{Settles-mono, All-mono, thread_step-Settles}
use orgmodule_services.Assembly.Keeping.{IsPlaced, placed-Inv, placed-IsSettled}
use orgmodule_services.Assembly.Runs.{thread_at, replace, step_settler, step_coordinator}

sum_over-thread_at :
    (i : ℕ) (t : Thread) (ts : List Thread)
    → thread_at i ts ≡ some t
    → (g : Thread → ℕ) → g t ≤ sum_over g ts
unfolding thread_at sum_over
sum_over-thread_at i t [] h g = absurd cc
sum_over-thread_at zero t (u ∷ ts) h g = let same : u ≡ t = cc in rw same (omega arith)
sum_over-thread_at (suc i) t (u ∷ ts) h g =
    let k = sum_over-thread_at i t ts h g in omega (arith, k)

sum_over-replace :
    (i : ℕ) (t n : Thread) (ts : List Thread)
    → thread_at i ts ≡ some t
    → (g : Thread → ℕ) → sum_over g (replace i n ts) + g t ≡ sum_over g ts + g n
unfolding thread_at replace sum_over
sum_over-replace i t n [] h g = absurd cc
sum_over-replace zero t n (u ∷ ts) h g = let same : u ≡ t = cc in rw same (omega arith)
sum_over-replace (suc i) t n (u ∷ ts) h g =
    let k = sum_over-replace i t n ts h g in omega (arith, k)

All-thread_at :
    (s : Assembler) (i : ℕ) (t : Thread) (ts : List Thread)
    → thread_at i ts ≡ some t
    → All (Settles s) ts
    → Settles s t
unfolding thread_at
All-thread_at s i t [] h a = absurd cc
All-thread_at s zero t (u ∷ ts) h a = let same : u ≡ t = cc in subst (Settles s) same a.0
All-thread_at s (suc i) t (u ∷ ts) h a = All-thread_at s i t ts h a.1

All-replace :
    (s : Assembler) (i : ℕ) (n : Thread) (ts : List Thread)
    → Settles s n
    → All (Settles s) ts
    → All (Settles s) (replace i n ts)
unfolding replace
All-replace s i n [] h a = tt
All-replace s zero n (u ∷ ts) h a = (h, a.1)
All-replace s (suc i) n (u ∷ ts) h a = (a.0, All-replace s i n ts h a.1)

length-distinct_of :
    (os : List (Option ℕ)) (distinct : List ℕ)
    → length (distinct_of os distinct) ≤ length os + length distinct
unfolding distinct_of
length-distinct_of [] distinct = omega arith
length-distinct_of (none ∷ os) distinct = omega (arith, length-distinct_of os distinct)
length-distinct_of (some f ∷ os) distinct =
    let rest = length-distinct_of os (if is_in f distinct then distinct else distinct ++ f ∷ []) in
    let one = length-append distinct (f ∷ []) in ground (arith, rest, one)

times-is_in : (f : ℕ) (xs : List ℕ) → is_in f xs ≡ true → 1 ≤ times f xs
unfolding is_in times
times-is_in f [] h = absurd cc
times-is_in f (x ∷ xs) h = ground (arith, h, times-is_in f xs)

times-added :
    (f g : ℕ) (os : List (Option ℕ)) (distinct : List ℕ)
    → (names f (some g ∷ os) ≡ true) ⊎ (1 ≤ times f distinct)
    → (names f os ≡ true)
      ⊎ (1 ≤ times f (if is_in g distinct then distinct else distinct ++ g ∷ []))
unfolding names times
times-added f g os distinct (inl n) = elim (Bool-cases (f == g)) [
  | inl e ↦
      let same : f ≡ g = ground (arith, e) in
      let there = times-is_in g distinct in
      let added = times-append f distinct (g ∷ []) in inr (ground (arith, e, same, there, added))
  | inr e ↦ inl (ground (arith, n, e))
]
times-added f g os distinct (inr k) =
    let added = times-append f distinct (g ∷ []) in inr (ground (arith, k, added))

times-distinct_of :
    (f : ℕ) (os : List (Option ℕ)) (distinct : List ℕ)
    → (names f os ≡ true) ⊎ (1 ≤ times f distinct)
    → 1 ≤ times f (distinct_of os distinct)
unfolding distinct_of names
times-distinct_of f [] distinct (inl h) = absurd cc
times-distinct_of f [] distinct (inr h) = h
times-distinct_of f (none ∷ os) distinct h = times-distinct_of f os distinct h
times-distinct_of f (some g ∷ os) distinct h =
    times-distinct_of f os (if is_in g distinct then distinct else distinct ++ g ∷ [])
      (times-added f g os distinct h)

is_in-last : (q r : ℕ) (xs : List ℕ) → is_in q (xs ++ r ∷ []) ≡ (is_in q xs || q == r)
unfolding is_in
is_in-last q r [] = ground arith
is_in-last q r (x ∷ xs) = ground (arith, is_in-last q r xs)

module _ (requirements : ℕ → List Requirement) (s : Assembler) (v : Inv requirements s) where
  pub step_coordinator-Inv : (locked : Bool) → Inv requirements (step_coordinator locked s)
  unfolding step_coordinator
  step_coordinator-Inv locked =
      let at : IsPlaced s s.coordinator (thread_step locked s.coordinator s).1
          (thread_step locked s.coordinator s).1 s.settlers =
        record { one_of = λ g. omega arith; replaced = λ g. omega arith } in
      placed-Inv requirements locked s s.coordinator _ s.settlers at v v.coordinator_settles
        (thread_step-Settles locked s.coordinator s v.coordinator_settles)
        (All-mono s (thread_step locked s.coordinator s).0
          (placed-IsSettled requirements locked s s.coordinator _ s.settlers at v
            v.coordinator_settles)
          s.settlers v.settlers_settle)

  stepped-Inv :
      (locked : Bool) (i : ℕ) (t : Thread)
      → thread_at i s.settlers ≡ some t
      → Inv requirements (record (thread_step locked t s).0 {
        coordinator = s.coordinator;
        settlers = replace i (thread_step locked t s).1 s.settlers;
      })
  stepped-Inv locked i t h =
      let next = (thread_step locked t s).1 in
      let ready_to = All-thread_at s i t s.settlers h v.settlers_settle in
      let at : IsPlaced s t next s.coordinator (replace i next s.settlers) = record {
        one_of = λ g. let k = sum_over-thread_at i t s.settlers h g in omega (arith, k);
        replaced = λ g. let k = sum_over-replace i t next s.settlers h g in omega (arith, k);
      } in
      let settled =
        placed-IsSettled requirements locked s t s.coordinator (replace i next s.settlers) at v
          ready_to in
      let u = (thread_step locked t s).0 in
      placed-Inv requirements locked s t s.coordinator (replace i next s.settlers) at v ready_to
        (Settles-mono s u settled s.coordinator v.coordinator_settles)
        (All-replace u i next s.settlers (thread_step-Settles locked t s ready_to)
          (All-mono s u settled s.settlers v.settlers_settle))

  pub step_settler-Inv : (i : ℕ) (locked : Bool) → Inv requirements (step_settler i locked s)
  unfolding step_settler
  step_settler-Inv i locked =
      some-cases (Inv requirements) (thread_at i s.settlers) s _ v (λ t h. stepped-Inv locked i t h)

  -- A claim is made once.
  pub settle-Inv :
      (f : ℕ) (o : FragmentState) → is_pending o ≡ false → Inv requirements (settle f o s).0
  unfolding settle put sum_over
  settle-Inv f o h =
      if-cases (λ (p : Assembler × Bool). Inv requirements (p.0)) (s.claimed f) _ _ (λ e. v)
        (λ e. record {
          counts = λ r. let k = v.counts r in omega (arith, k);
          fresh = λ r l. let k = v.fresh r l in omega (arith, k);
          owed = λ r g i n u. let k = v.owed r g i n u in omega (arith, k);
          finished = λ r l. v.finished r (omega (arith, l));
          coordinator_settles = v.coordinator_settles;
          settlers_settle = (h, v.settlers_settle);
          closed_settled = v.closed_settled;
          once = λ g. let k = v.once g in ground (arith, k, e);
          closing_up = v.closing_up;
          held_whole = v.held_whole;
        })

  pub sealed_by-Inv :
      (slots : List (Option ℕ))
      → s.coordinator ≡ ended
      → length slots < u32_max
      → closes requirements slots slots ≡ true
      → Inv requirements (sealed_by slots s)
  unfolding sealed_by put
  sealed_by-Inv slots e fits closed_up =
      let distinct = distinct_of slots [] in
      let r = s.latest_sequence + 1 in
      let new_fresh = v.fresh r (omega arith) in
      let none_owed = v.counts r in
      let few = length-distinct_of slots [] in
      record {
        counts = λ q. ground (arith, v.counts q, v.fresh q, ap (owes q) e, few, fits);
        fresh = λ q l. ground (arith, l, v.fresh q, ap (pushes q) e);
        owed = λ q f i n u. elim (Bool-cases (q == r)) [
          | inl new ↦
              let named = times-distinct_of f slots [] (inl (rw new at n)) in
              ground (arith, new, named)
          | inr old ↦
              let there = is_in-last q r s.unfinished in
              let before = v.owed q f (ground (arith, i, there, old)) (rw old at n) (rw old at u) in
              let idle = ap (owes_for f q) e in omega (arith, before, idle)
        ];
        finished = λ q l. ground (arith, l, v.fresh q, v.finished q, ap (pushes q) e);
        coordinator_settles = tt;
        settlers_settle = v.settlers_settle;
        closed_settled = v.closed_settled;
        once = λ f. let k = v.once f in let c = ap (stores f) e in omega (arith, k, c);
        closing_up = λ q. ground (arith, v.closing_up q, closed_up);
        held_whole = v.held_whole;
      }
