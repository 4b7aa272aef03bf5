-- ===== src/Flights/Served.antt =====
-- The callbacks of src/CompletionFlight.h: each one attached is called once, with the result.
use orgmodule_services.Common.{
  ℕ, zero, suc, ◌+◌, ◌≡◌, refl, subst, true, Option, none, some, List, [], ◌∷◌, ◌==◌, if◌then◌else◌,
  arith, All, if-cases, elim-cases, times, times-append,
}
use orgmodule_services.Flights.{
  Flight, new_flight, result, attach, set_value, set_failure, finish, take_at, make_call, attached,
  Reached, fresh, attaches, completes, fails, finishes, calls_one,
}

abbrev TakesOut : ℕ → List ℕ → Option (ℕ × List ℕ) → Type 0
TakesOut k xs none = Unit {0}
TakesOut k xs (some p) = times k xs ≡ (if k == p.0 then 1 else 0) + times k p.1

times-take_at : (k i : ℕ) (xs : List ℕ) → TakesOut k xs (take_at i xs)
unfolding take_at times
times-take_at k i [] = tt
times-take_at k zero (x ∷ xs) = refl
times-take_at k (suc i) (x ∷ xs) =
    elim-cases (TakesOut k (x ∷ xs)) (take_at i xs) _ _ (λ e. tt)
      (λ p e.
        let rest : TakesOut k xs (some p) = subst (TakesOut k xs) e (times-take_at k i xs) in
        omega (arith, rest))

module _ {A : Type 0} where
  -- How often a callback was called.
  unfoldable pub called : ℕ → List (ℕ × A) → ℕ
  called k [] = 0
  called k (x ∷ xs) = (if k == x.0 then 1 else 0) + called k xs

  abbrev pub AllAre : Option A → List (ℕ × A) → Type 0
  AllAre o calls = All (λ (x : ℕ × A). o ≡ some x.1) calls

  pub record IsServed (f : Flight A) (cs : List ℕ) : Type 0 where
    pub once : (k : ℕ) → times k cs ≡ times k f.callbacks + times k f.begun + called k f.calls
    pub waiting : f.done ≡ true → f.callbacks ≡ []
    pub delivered : AllAre (result f) f.calls

  attach-IsServed :
      (c : Option ℕ) (f : Flight A) (cs : List ℕ)
      → IsServed f cs
      → IsServed (attach c f) (attached c cs)
  unfolding attach attached result times
  attach-IsServed none f cs k = k
  attach-IsServed (some c) f cs k =
      if-cases (λ (g : Flight A). IsServed g (c ∷ cs)) f.done _ _
        (λ e. record {
          once = λ n.
              let before = k.once n in
              let put = times-append n f.begun (c ∷ []) in omega (arith, before, put);
          waiting = k.waiting;
          delivered = k.delivered;
        })
        (λ e. record {
          once = λ n.
              let before = k.once n in
              let put = times-append n f.callbacks (c ∷ []) in omega (arith, before, put);
          waiting = λ h. absurd cc;
          delivered = k.delivered;
        })

  -- Nothing is delivered before the result is there.
  delivered-none : (o : Option A) (xs : List (ℕ × A)) → AllAre none xs → AllAre o xs
  delivered-none o [] k = tt
  delivered-none o (x ∷ xs) k = let first = k.0 in absurd cc

  set_value-IsServed :
      (a : A) (f : Flight A) (cs : List ℕ)
      → result f ≡ none
      → IsServed f cs
      → IsServed (set_value a f) cs
  unfolding set_value
  set_value-IsServed a f cs e k = record {
    once = k.once;
    waiting = k.waiting;
    delivered = delivered-none _ f.calls (subst (λ (o : Option A). AllAre o f.calls) e k.delivered);
  }

  set_failure-IsServed :
      (a : A) (f : Flight A) (cs : List ℕ)
      → result f ≡ none
      → IsServed f cs
      → IsServed (set_failure a f) cs
  unfolding set_failure
  set_failure-IsServed a f cs e k = record {
    once = k.once;
    waiting = k.waiting;
    delivered = delivered-none _ f.calls (subst (λ (o : Option A). AllAre o f.calls) e k.delivered);
  }

  finish-IsServed : (f : Flight A) (cs : List ℕ) → IsServed f cs → IsServed (finish f) cs
  unfolding finish result times
  finish-IsServed f cs k = record {
    once = λ n.
        let before = k.once n in
        let both = times-append n f.begun f.callbacks in omega (arith, before, both);
    waiting = λ h. refl;
    delivered = k.delivered;
  }

  make_call-IsServed :
      (i : ℕ) (f : Flight A) (cs : List ℕ) → IsServed f cs → IsServed (make_call i f) cs
  unfolding make_call result called
  make_call-IsServed i f cs k =
      elim-cases (λ (g : Flight A). IsServed g cs) (take_at i f.begun) _ _ (λ e. k)
        (λ p taken.
          elim-cases (λ (g : Flight A). IsServed g cs) (result f) _ _ (λ e. k)
            (λ a there. record {
              once = λ n.
                  let before = k.once n in
                  let out : TakesOut n f.begun (some p) =
                    subst (TakesOut n f.begun) taken (times-take_at n i f.begun) in
                  omega (arith, before, out);
              waiting = k.waiting;
              delivered = (there, k.delivered);
            }))

  -- In every run of a flight's threads: each callback is attached as often as it waits, is about to be called
  -- and was called together; none waits once the flight is done; and each call was given the result.
  pub Reached-IsServed : (f : Flight A) (cs : List ℕ) → Reached f cs → IsServed f cs
  unfolding new_flight times called
  Reached-IsServed _ _ fresh = record { once = λ n. refl; waiting = λ h. refl; delivered = tt }
  Reached-IsServed _ _ (attaches c f cs r) = attach-IsServed c f cs (Reached-IsServed f cs r)
  Reached-IsServed _ _ (completes a f cs e r) =
      set_value-IsServed a f cs e (Reached-IsServed f cs r)
  Reached-IsServed _ _ (fails a f cs e r) = set_failure-IsServed a f cs e (Reached-IsServed f cs r)
  Reached-IsServed _ _ (finishes a f cs e d r) = finish-IsServed f cs (Reached-IsServed f cs r)
  Reached-IsServed _ _ (calls_one i f cs r) = make_call-IsServed i f cs (Reached-IsServed f cs r)
