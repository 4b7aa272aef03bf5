-- ===== src/Examples/Journaled.antt =====
-- A journaled buffer set of one part at a concrete publication.
use orgmodule_services.Common.{refl, true, false, none, some, [], ◌∷◌, arith}
use orgmodule_services.BackingPool.Backing.{Backing, BackingFlags}
use orgmodule_services.BackingPool.State.{Config, create}
use orgmodule_services.BackingPool.Circulation.{create-Inv}
use orgmodule_services.Growth.Policy.{doubling_policy}
use orgmodule_services.Journaled.{run}
use orgmodule_services.Journaled.Publishing.{PartState, Target, Script, PartRequest, Host, publish}
use orgmodule_services.Journaled.Undone.{Published, publish-Published}

abbrev no_flags : BackingFlags
no_flags = record { unordered_access = false; indirect_arguments = false; device_address = false }

abbrev host : Host
host = record {
  allocate = λ request. some (record { buffer = some 1; address = 100; srv_index = 2 });
  accepts = λ w. true;
  moment = λ i. record { pins = λ g. 0; completed = 0 };
}

abbrev pool_config : Config
pool_config = record {
  max_per_class = 0;
  frames_in_flight = 2;
  spare_free = 1;
  reuse_bound = false;
}

abbrev part : PartState
part = record {
  config = record { stride = 4; flags = no_flags; policy = doubling_policy 64 };
  pool = create pool_config;
  high_water = 0;
}

-- Rows 2 and 3 of four bytes each.
abbrev write_two : Target → Script
write_two target = record { writes = run (record { at = 8; size = 8 }) ∷ []; result = some 5 }

abbrev request : PartRequest
request = record { units = 4; prefer_epoch = 5; emit = some write_two; append_into = none }

publish-Published_example :
    Published host (request ∷ []) (part ∷ []) (publish host (request ∷ []) (part ∷ []))
unfolding create
publish-Published_example =
    publish-Published host (request ∷ []) (part ∷ []) refl
      (((create-Inv pool_config), omega arith, λ g h. absurd cc), tt)

abbrev head : Backing
head = record {
  buffer = some 1;
  generation = 1;
  capacity_class = 64;
  byte_capacity = 256;
  address = 100;
  srv_index = 2;
  stride = 4;
  flags = no_flags;
  compatibility = 0;
  content_epoch = 4;
  sealed_bytes = 8;
  safe_at = 0;
  leases = 2;
  retired = false;
  readback_pins = 0;
  binding_consumers = 0;
}

abbrev append_request : PartRequest
append_request = record request { append_into = some 1 }

abbrev head_part : PartState
head_part = record part { pool = record (create pool_config) { all = head ∷ [] } }
