-- ===== src/Examples/Flights.antt =====
-- A flight at a concrete run: the callback 7 is attached, the flight completed with 42, the callback 8
-- attached after its end, and both called.
use orgmodule_services.Common.{ℕ, ◌≡◌, refl, some, List, [], ◌∷◌}
use orgmodule_services.Flights.{
  Flight, new_flight, result, attach, set_value, finish, take_at, make_call, attached, Reached,
  fresh, attaches, completes, finishes, calls_one,
}
use orgmodule_services.Flights.Served.{IsServed, Reached-IsServed}

abbrev joined_flight : Flight ℕ
joined_flight = attach (some 7) new_flight

abbrev done_flight : Flight ℕ
done_flight = finish (set_value 42 joined_flight)

abbrev last_flight : Flight ℕ
last_flight = make_call 0 (make_call 0 (attach (some 8) done_flight))

abbrev both : List ℕ
both = attached (some 8) (attached (some 7) [])

last_flight-calls : last_flight.calls ≡ (8, 42) ∷ (7, 42) ∷ []
unfolding make_call take_at result attach finish set_value new_flight
last_flight-calls = refl

last_flight-Reached : Reached last_flight both
unfolding result attach finish set_value new_flight attached
last_flight-Reached = calls_one 0 _ both (
    calls_one 0 _ both (
      attaches (some 8) done_flight _ (
        finishes 42 (set_value 42 joined_flight) _ refl refl
          (completes 42 joined_flight _ refl (attaches (some 7) new_flight [] fresh)))))

Reached-IsServed_example : IsServed last_flight both
Reached-IsServed_example = Reached-IsServed last_flight both last_flight-Reached
