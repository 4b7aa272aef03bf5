-- ===== src/Examples/Leases.antt =====
-- The leased slots at a concrete run: a slot that is written while a reader leases its vector.
use orgmodule_services.Common.{◌≡◌, refl, ℕ, [], ◌∷◌, ok}
use orgmodule_services.Leased.{
  Slots, prepare_write, prepare_backing, make_vector, slot_at, set_slot, copies, put, use_count,
  slot_uses, lease_uses, write, acquire_slot, lease_of, new_slots,
}
use orgmodule_services.Leased.Spared.{
  write_call, lease_call, called, Reached, made, later, ResultSpares, prepare_write-ResultSpares,
}

abbrev leased_slots : Slots ℕ
leased_slots = called 0 (lease_call 0) (called 0 (write_call 0 2 (4 ∷ 5 ∷ [])) (new_slots 3))

leased_slots-Reached : Reached 0 leased_slots
leased_slots-Reached = later (lease_call 0) _ (later (write_call 0 2 (4 ∷ 5 ∷ [])) _ (made 3))

-- The vector 0 is leased, so the next write has a new one.
prepare_write-leased : prepare_write 0 0 1 leased_slots ≡ ok (make_vector 0 0 1 leased_slots)
unfolding prepare_write prepare_backing make_vector called acquire_slot lease_of slot_at set_slot
    copies put write use_count slot_uses lease_uses new_slots
prepare_write-leased = refl

prepare_write-ResultSpares_example : ResultSpares leased_slots (prepare_write 0 0 1 leased_slots)
prepare_write-ResultSpares_example =
    prepare_write-ResultSpares 0 leased_slots leased_slots-Reached 0 1
