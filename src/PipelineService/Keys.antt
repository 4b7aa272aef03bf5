-- ===== src/PipelineService/Keys.antt =====
-- The keys of the builds in flight in src/PipelineService.cpp.
use orgmodule_services.Common.{
  ℕ, zero, suc, ◌≡◌, ◌∙◌, refl, sym, subst, Bool, false, ◌||◌, none, List, [], ◌∷◌, ◌==◌,
  if◌then◌else◌, arith, if-cases,
}
use orgmodule_services.Flights.{Flight}
use orgmodule_services.PipelineService.{Artifact, find_flight, insert_at, on_flight}

abbrev pub Flights : Type 0
Flights = List (ℕ × Flight Artifact)

unfoldable pub in_keys : ℕ → List (ℕ × Flight Artifact) → Bool
in_keys k [] = false
in_keys k (x ∷ xs) = k == x.0 || in_keys k xs

abbrev pub AllApart : List (ℕ × Flight Artifact) → Type 0
AllApart [] = Unit {0}
AllApart (x ∷ xs) = (in_keys x.0 xs ≡ false) × AllApart xs

pub in_keys-on_flight :
    (k key : ℕ) (g : Flight Artifact → Flight Artifact) (xs : Flights)
    → in_keys k (on_flight key g xs) ≡ in_keys k xs
unfolding in_keys on_flight
in_keys-on_flight k key g [] = refl
in_keys-on_flight k key g (x ∷ xs) = ground (arith, in_keys-on_flight k key g xs)

key-on_flight :
    (key : ℕ) (g : Flight Artifact → Flight Artifact) (x : ℕ × Flight Artifact)
    → (if key == x.0 then (x.0, g x.1) else x).0 ≡ x.0
key-on_flight key g x =
    if-cases (λ (y : ℕ × Flight Artifact). y.0 ≡ x.0) (key == x.0) _ _ (λ e. refl) (λ e. refl)

pub apart-on_flight :
    (key : ℕ) (g : Flight Artifact → Flight Artifact) (xs : Flights)
    → AllApart xs
    → AllApart (on_flight key g xs)
unfolding on_flight
apart-on_flight key g [] a = tt
apart-on_flight key g (x ∷ xs) a = (
  subst (λ (k : ℕ). in_keys k (on_flight key g xs) ≡ false) (sym (key-on_flight key g x))
      (in_keys-on_flight x.0 key g xs ∙ a.0),
  apart-on_flight key g xs a.1,
)

pub in_keys-insert_at :
    (k i : ℕ) (x : ℕ × Flight Artifact) (xs : Flights)
    → in_keys k (insert_at i x xs) ≡ (k == x.0 || in_keys k xs)
unfolding in_keys insert_at
in_keys-insert_at k i x [] = refl
in_keys-insert_at k zero x (y ∷ ys) = refl
in_keys-insert_at k (suc i) x (y ∷ ys) = ground (arith, in_keys-insert_at k i x ys)

pub apart-insert_at :
    (i : ℕ) (x : ℕ × Flight Artifact) (xs : Flights)
    → in_keys x.0 xs ≡ false
    → AllApart xs
    → AllApart (insert_at i x xs)
unfolding insert_at in_keys
apart-insert_at i x [] h a = (h, tt)
apart-insert_at zero x (y ∷ ys) h a = (h, a)
apart-insert_at (suc i) x (y ∷ ys) h a =
    let other = in_keys-insert_at y.0 i x ys in
    let first = a.0 in
    (ground (arith, other, first, h), apart-insert_at i x ys (ground (arith, h)) a.1)

pub find-in_keys : (k : ℕ) (xs : Flights) → find_flight k xs ≡ none → in_keys k xs ≡ false
unfolding in_keys find_flight
find-in_keys k [] h = refl
find-in_keys k (x ∷ xs) h = let rest = find-in_keys k xs in ground (arith, rest, h)
