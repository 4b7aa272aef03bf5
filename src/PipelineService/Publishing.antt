-- ===== src/PipelineService/Publishing.antt =====
-- PublishReady of src/PipelineService.cpp.
use orgmodule_services.Common.{ℕ, none, some, List, [], ◌∷◌, ◌++◌, ◌==◌, if◌then◌else◌}
use orgmodule_services.Flights.{Flight, result}
use orgmodule_services.PipelineService.{Artifact, Displaced, Service, write}

unfoldable pub retire_payload : ℕ → Artifact → List Displaced → List Displaced
retire_payload fence a retired = elim a.payload [
  | none ↦ retired
  | some p ↦ retired ++ record { fence = fence; payload = p } ∷ []
]

-- The id's active pipeline of another key.
unfoldable pub displace : ℕ → ℕ → ℕ → Service → Service
displace fence key id s = elim (s.active_key_by_id id) [
  | none ↦ s
  | some prior ↦ if prior == key then s else record s {
    retired = elim (s.active prior) [
      | none ↦ s.retired
      | some a ↦ retire_payload fence a s.retired
    ];
    active = write s.active prior none;
    ids_by_key = write s.ids_by_key prior none;
  }
]

unfoldable pub activate : ℕ → ℕ → ℕ → Artifact → Service → Service
activate fence key id a s = record s {
  retired = elim (s.active key) [
    | none ↦ s.retired
    | some old ↦ retire_payload fence old s.retired
  ];
  active = write s.active key (some a);
  active_key_by_id = write s.active_key_by_id id (some key);
}

-- A failure is not kept.
unfoldable pub forget : ℕ → Service → Service
forget key s = elim (s.active key) [
  | none ↦ record s { ids_by_key = write s.ids_by_key key none }
  | some a ↦ s
]

-- One build that is ready.
unfoldable pub publish_one : ℕ → ℕ → Artifact → Service → Service
publish_one fence key a s = elim (s.ids_by_key key) [
  | none ↦ s
  | some id ↦ elim a.payload [
    | none ↦ forget key s
    | some p ↦ activate fence key id a (displace fence key id s)
  ]
]

-- The loop: the flights that are not ready stay.
unfoldable pub publish_flights :
    ℕ → List (ℕ × Flight Artifact) → Service → Service × List (ℕ × Flight Artifact)
publish_flights fence [] s = (s, [])
publish_flights fence (x ∷ xs) s = elim (result x.1) [
  | none ↦ (let rest = publish_flights fence xs s in (rest.0, x ∷ rest.1))
  | some a ↦ publish_flights fence xs (publish_one fence x.0 a s)
]

-- `PublishReady`.
unfoldable pub publish_ready : ℕ → Service → Service
publish_ready fence s =
    let end = publish_flights fence s.in_flight s in record end.0 { in_flight = end.1 }
