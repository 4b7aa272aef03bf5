-- ===== src/Flights.antt =====
-- src/CompletionFlight.h: one request in flight, its result and the callbacks of all that joined it. Each
-- of Attach, the promise's value, Finish and the call of a callback is a step; a step that takes the mutex
-- is one step.
pub mod Served
use orgmodule_services.Common.{
  ℕ, zero, suc, ◌+◌, ◌≡◌, Bool, true, false, Option, none, some, List, [], ◌∷◌, ◌++◌, if◌then◌else◌,
}

-- `future_` has a value, or the exception whose artifact is `failure_`; `begun` are the calls that Attach or
-- Finish is about to make, `calls` those made.
pub record Flight (A : Type 0) : Type 0 where
  pub value : Option A
  pub failure : Option A
  pub done : Bool
  pub callbacks : List ℕ
  pub begun : List ℕ
  pub calls : List (ℕ × A)

unfoldable pub take_at : ℕ → List ℕ → Option (ℕ × List ℕ)
take_at i [] = none
take_at zero (x ∷ xs) = some (x, xs)
take_at (suc i) (x ∷ xs) = elim (take_at i xs) [ none ↦ none | some p ↦ some (p.0, x ∷ p.1) ]

unfoldable pub attached : Option ℕ → List ℕ → List ℕ
attached none cs = cs
attached (some c) cs = c ∷ cs

module _ {A : Type 0} where
  unfoldable pub new_flight : Flight A
  new_flight = record {
    value = none;
    failure = none;
    done = false;
    callbacks = [];
    begun = [];
    calls = [];
  }

  -- `Result`.
  unfoldable pub result : Flight A → Option A
  result f = elim f.failure [ none ↦ f.value | some a ↦ some a ]

  -- `Attach`, of a callback or of none.
  unfoldable pub attach : Option ℕ → Flight A → Flight A
  attach none f = f
  attach (some c) f =
      if f.done
      then record f { begun = f.begun ++ c ∷ [] }
      else record f { callbacks = f.callbacks ++ c ∷ [] }

  -- `Complete` up to Finish.
  unfoldable pub set_value : A → Flight A → Flight A
  set_value a f = record f { value = some a }

  -- `Fail` up to Finish.
  unfoldable pub set_failure : A → Flight A → Flight A
  set_failure a f = record f { failure = some a }

  -- `Finish` up to its calls.
  unfoldable pub finish : Flight A → Flight A
  finish f = record f { done = true; callbacks = []; begun = f.begun ++ f.callbacks }

  -- The call of a callback, by Finish or by Attach.
  unfoldable pub make_call : ℕ → Flight A → Flight A
  make_call i f = elim (take_at i f.begun) [
    | none ↦ f
    | some p ↦ elim (result f) [
      | none ↦ f
      | some a ↦ record f { begun = p.1; calls = (p.0, a) ∷ f.calls }
    ]
  ]

  -- The runs, with the callbacks attached so far. Exactly one of Complete and Fail is called, once, and its
  -- Finish after it.
  pub data Reached : Flight A → List ℕ → Type 0 where
    fresh : Reached new_flight []
    attaches :
        (c : Option ℕ) (f : Flight A) (cs : List ℕ)
        → Reached f cs
        → Reached (attach c f) (attached c cs)
    completes :
        (a : A) (f : Flight A) (cs : List ℕ)
        → result f ≡ none
        → Reached f cs
        → Reached (set_value a f) cs
    fails :
        (a : A) (f : Flight A) (cs : List ℕ)
        → result f ≡ none
        → Reached f cs
        → Reached (set_failure a f) cs
    finishes :
        (a : A) (f : Flight A) (cs : List ℕ)
        → result f ≡ some a
        → f.done ≡ false
        → Reached f cs
        → Reached (finish f) cs
    calls_one : (i : ℕ) (f : Flight A) (cs : List ℕ) → Reached f cs → Reached (make_call i f) cs
