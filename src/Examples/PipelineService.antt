-- ===== src/Examples/PipelineService.antt =====
-- The pipeline service at a concrete run: two keys of one id are built and published one after the other.
use orgmodule_services.Common.{◌≡◌, refl, some, [], ◌∷◌}
use orgmodule_services.Flights.{set_value, new_flight, result}
use orgmodule_services.PipelineService.{
  Service, new_service, request, returned, end_build, build_artifact, insert_at, find_flight,
  on_flight, write,
}
use orgmodule_services.PipelineService.Publishing.{
  publish_ready, publish_flights, publish_one, activate, displace, retire_payload,
}
use orgmodule_services.PipelineService.Runs.{
  request_step, build_step, publish_step, take_step, made, took,
}
use orgmodule_services.PipelineService.Kept.{IsOrdered, Reached-IsOrdered}

abbrev first_published : Service
first_published = take_step (publish_step 3) (
    take_step (build_step 5 1 (some (returned (some 50))))
      (take_step (request_step 0 5 1) new_service))

abbrev second_published : Service
second_published = take_step (publish_step 4) (
    take_step (build_step 6 2 (some (returned (some 60))))
      (take_step (request_step 0 6 1) first_published))

second_published-key : second_published.active_key_by_id 1 ≡ some 6
unfolding take_step publish_ready publish_flights publish_one activate displace retire_payload
    request end_build build_artifact insert_at find_flight on_flight write set_value new_flight
    result new_service
second_published-key = refl

second_published-retired : second_published.retired ≡ record { fence = 4; payload = 50 } ∷ []
unfolding take_step publish_ready publish_flights publish_one activate displace retire_payload
    request end_build build_artifact insert_at find_flight on_flight write set_value new_flight
    result new_service
second_published-retired = refl

Reached-IsOrdered_example : IsOrdered second_published
Reached-IsOrdered_example = Reached-IsOrdered second_published (
    took (publish_step 4) _ (
      took (build_step 6 2 (some (returned (some 60)))) _ (
        took (request_step 0 6 1) first_published (
          took (publish_step 3) _ (
            took (build_step 5 1 (some (returned (some 50)))) _
              (took (request_step 0 5 1) new_service made))))))
