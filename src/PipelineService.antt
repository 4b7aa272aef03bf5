-- ===== src/PipelineService.antt =====
-- include/ORGModuleServices/PipelineService.h and src/PipelineService.cpp: the builds in flight and the
-- active pipelines. A recipe's id is a number, and so is the key that BuildKey makes of it. What takes the
-- mutex is one step.
pub mod Publishing
pub mod Runs
pub mod Single
pub mod Keys
pub mod Kept
use orgmodule_services.Common.{
  ℕ, zero, suc, ◌+◌, ◌≡◌, Bool, true, false, Option, none, some, List, [], ◌∷◌, ◌++◌, ◌==◌,
  if◌then◌else◌, u64, leb,
}
use orgmodule_services.Flights.{Flight, new_flight, attach, set_value, finish, result}

pub record Artifact : Type 0 where
  pub key : ℕ
  pub generation : ℕ
  pub payload : Option ℕ
  pub error : Option ℕ

-- A displaced payload.
pub record Displaced : Type 0 where
  pub fence : ℕ
  pub payload : ℕ

pub record Service : Type 0 where
  pub next_generation : ℕ
  pub in_flight : List (ℕ × Flight Artifact)
  pub active : ℕ → Option Artifact
  pub ids_by_key : ℕ → Option ℕ
  pub active_key_by_id : ℕ → Option ℕ
  pub retired : List Displaced

unfoldable pub new_service : Service
new_service = record {
  next_generation = 1;
  in_flight = [];
  active = λ k. none;
  ids_by_key = λ k. none;
  active_key_by_id = λ i. none;
  retired = [];
}

unfoldable pub write {ℓ} : {A : Type ℓ} → (ℕ → A) → ℕ → A → ℕ → A
write f k a n = if n == k then a else f n

unfoldable pub find_flight : ℕ → List (ℕ × Flight Artifact) → Option (Flight Artifact)
find_flight k [] = none
find_flight k (x ∷ xs) = if k == x.0 then some x.1 else find_flight k xs

-- The map's order is any: a new flight comes at any place of it.
unfoldable pub insert_at :
    ℕ → ℕ × Flight Artifact → List (ℕ × Flight Artifact) → List (ℕ × Flight Artifact)
insert_at i x [] = x ∷ []
insert_at zero x (y ∷ ys) = x ∷ y ∷ ys
insert_at (suc i) x (y ∷ ys) = y ∷ insert_at i x ys

unfoldable pub on_flight :
    ℕ
    → (Flight Artifact → Flight Artifact)
    → List (ℕ × Flight Artifact)
    → List (ℕ × Flight Artifact)
on_flight k g [] = []
on_flight k g (x ∷ xs) = (if k == x.0 then (x.0, g x.1) else x) ∷ on_flight k g xs

-- What a request finds: an active pipeline, a build in flight, or that it is to start one.
pub data Found : Type 0 where
  published : Artifact → Found
  joined : Found
  owns : ℕ → Found

-- `Request` under its lock.
unfoldable pub request : ℕ → ℕ → ℕ → Service → Service × Found
request place key id s = elim (s.active key) [
  | some a ↦ (s, published a)
  | none ↦ elim (find_flight key s.in_flight) [
    | some f ↦ (s, joined)
    | none ↦ (
      record s {
        next_generation = u64 (s.next_generation + 1);
        ids_by_key = write s.ids_by_key key (some id);
        in_flight = insert_at place (key, new_flight) s.in_flight;
      },
      owns s.next_generation,
    )
  ]
]

-- What a recipe's factory does: there is none, it returns a payload or no payload, or throws.
pub data Built : Type 0 where
  no_factory : Built
  returned : Option ℕ → Built
  threw : Option ℕ → Built

abbrev pub missing_factory : ℕ
missing_factory = 0

abbrev pub no_payload : ℕ
no_payload = 1

abbrev pub refused : ℕ
refused = 2

-- The task's artifact.
unfoldable pub build_artifact : ℕ → ℕ → Built → Artifact
build_artifact key generation no_factory = record {
  key = key;
  generation = generation;
  payload = none;
  error = some missing_factory;
}
build_artifact key generation (returned none) = record {
  key = key;
  generation = generation;
  payload = none;
  error = some no_payload;
}
build_artifact key generation (returned (some p)) = record {
  key = key;
  generation = generation;
  payload = some p;
  error = none;
}
build_artifact key generation (threw e) = record {
  key = key;
  generation = generation;
  payload = none;
  error = e;
}

-- The executor refuses the task, or the task ends.
unfoldable pub end_build : ℕ → ℕ → Option Built → Service → Service
end_build key generation built s =
    let artifact : Artifact = elim built [
      | none ↦ record { key = key; generation = generation; payload = none; error = some refused }
      | some b ↦ build_artifact key generation b
    ] in
    record s { in_flight = on_flight key (set_value artifact) s.in_flight }

-- The steps of a flight that leave its value: Attach, Finish and the calls.
unfoldable pub attach_callback : ℕ → Option ℕ → Service → Service
attach_callback key callback s = record s {
  in_flight = on_flight key (attach callback) s.in_flight;
}

unfoldable pub finish_flight : ℕ → Service → Service
finish_flight key s = record s { in_flight = on_flight key finish s.in_flight }

-- `Retire`.
unfoldable pub drop_passed : ℕ → List Displaced → List Displaced
drop_passed completed [] = []
drop_passed completed (x ∷ xs) =
    let rest = drop_passed completed xs in if leb x.fence completed then rest else x ∷ xs

unfoldable pub retire : ℕ → Service → Service
retire completed s = record s { retired = drop_passed completed s.retired }

-- `Find`; the artifact of a key without one is empty.
unfoldable pub find : ℕ → Service → Artifact
find key s = elim (s.active key) [
  | none ↦ record { key = 0; generation = 0; payload = none; error = none }
  | some a ↦ a
]
