-- ===== src/Examples/Pools.antt =====
-- The backing pool at concrete calls.
use native.Mathlib.Omega.{arith}
use orgmodule_services.Common.{ℕ, ◌≡◌, refl, false, Option, some}
use orgmodule_services.BackingPool.Backing.{
  bind, reusable, same_key, try_claim, sort_by, insert_by, BackingRequest, BackingAllocation,
}
use orgmodule_services.BackingPool.Store.{lookup, modify, erase}
use orgmodule_services.BackingPool.State.{
  Pool, Config, create, take_returned, note_class, backings_of, release_all, claim_reuse,
  lease_free, add_backing, raise_event, arm_availability,
}
use orgmodule_services.BackingPool.Acquire.{
  acquire, acquire_other, exhaust_or_allocate, finish, look, choose, arrive, Outcome, leased,
}
use orgmodule_services.BackingPool.Upkeep.{
  bind_lease, set_contents, release_lease, push_returned, oldest_content_epoch,
}
use orgmodule_services.BackingPool.Circulation.{Inv}
use orgmodule_services.BackingPool.Exclusive.{Granted}
use orgmodule_services.BackingPool.Granting.{acquire-Granted}
use orgmodule_services.BackingPool.Reach.{
  acquire_act, release_act, contents_act, bind_act, act, allowed, Reached, made, acted, Reached-Inv,
}
use orgmodule_services.BackingPool.Epochs.{IsOldest, oldest_content_epoch-IsOldest}

abbrev pub config : Config
config = record { max_per_class = 1; frames_in_flight = 3; spare_free = 1; reuse_bound = false }

abbrev request : BackingRequest
request = record {
  capacity_class = 64;
  stride = 4;
  flags = record { unordered_access = false; indirect_arguments = false; device_address = false };
  compatibility = 0;
}

abbrev pub allocate : BackingRequest → Option BackingAllocation
allocate r = some (record { buffer = some 0; address = 0; srv_index = 0 })

abbrev pub no_pins : ℕ → ℕ
no_pins g = 0

-- A lease is filled to epoch 7 and bound to the point 5.
abbrev filled : Pool
filled = act allocate (bind_act 1 5) (
    act allocate (contents_act 1 7)
      (act allocate (acquire_act no_pins 0 request 9) (create config)))

filled-Reached : Reached allocate filled
unfolding allowed create act bind_lease set_contents acquire take_returned note_class look choose
    arrive release_all finish acquire_other exhaust_or_allocate add_backing backings_of modify bind
    lookup sort_by
filled-Reached = acted (bind_act 1 5) _ refl (
    acted (contents_act 1 7) _ refl
      (acted (acquire_act no_pins 0 request 9) (create config) refl (made config)))

-- The lease went.
abbrev freed : Pool
freed = act allocate (release_act 1) filled

freed-Reached : Reached allocate freed
unfolding allowed create act bind_lease set_contents acquire take_returned note_class look choose
    arrive release_all finish acquire_other exhaust_or_allocate add_backing backings_of modify bind
    lookup sort_by
freed-Reached = acted (release_act 1) filled refl filled-Reached

reused :
    (acquire allocate no_pins 5 request 9 freed).1
    ≡ leased 1 (record { allocated = false; released = 0; write_after = 0 })
unfolding create act bind_lease set_contents acquire take_returned note_class look choose arrive
    release_all finish acquire_other exhaust_or_allocate add_backing backings_of modify bind lookup
    sort_by same_key insert_by erase reusable try_claim claim_reuse lease_free raise_event
    push_returned release_lease arm_availability
reused = refl

-- At the point 4 the only backing of the class is still bound.
waits :
    (acquire allocate no_pins 4 request 9 freed).1
    ≡ Outcome.exhausted (record { allocated = false; released = 0; write_after = 0 })
unfolding create act bind_lease set_contents acquire take_returned note_class look choose arrive
    release_all finish acquire_other exhaust_or_allocate add_backing backings_of modify bind lookup
    sort_by same_key insert_by erase reusable try_claim claim_reuse lease_free raise_event
    push_returned release_lease arm_availability
waits = refl

Reached-Inv_example : Inv freed
Reached-Inv_example = Reached-Inv allocate freed freed-Reached

acquire-Granted_example : Granted allocate 5 request (acquire allocate no_pins 5 request 9 freed)
unfolding create act bind_lease set_contents acquire take_returned note_class look choose arrive
    release_all finish acquire_other exhaust_or_allocate add_backing backings_of modify bind lookup
    sort_by release_lease push_returned raise_event
acquire-Granted_example =
    acquire-Granted allocate no_pins 5 request 9 freed (omega arith)
      (Reached-Inv allocate freed freed-Reached)

oldest_content_epoch-IsOldest_example : IsOldest freed.all (oldest_content_epoch freed)
oldest_content_epoch-IsOldest_example = oldest_content_epoch-IsOldest freed
