-- ===== src/PipelineService/Runs.antt =====
-- Runs of src/PipelineService.cpp: the steps of its callers and of its builds, in any order.
use orgmodule_services.Common.{ℕ, Option}
use orgmodule_services.PipelineService.{
  Service, new_service, request, Built, end_build, attach_callback, finish_flight, retire,
}
use orgmodule_services.PipelineService.Publishing.{publish_ready}

pub data Step : Type 0 where
  request_step : ℕ → ℕ → ℕ → Step
  build_step : ℕ → ℕ → Option Built → Step
  attach_step : ℕ → Option ℕ → Step
  finish_step : ℕ → Step
  publish_step : ℕ → Step
  retire_step : ℕ → Step

unfoldable pub take_step : Step → Service → Service
take_step (request_step place key id) s = (request place key id s).0
take_step (build_step key generation built) s = end_build key generation built s
take_step (attach_step key callback) s = attach_callback key callback s
take_step (finish_step key) s = finish_flight key s
take_step (publish_step fence) s = publish_ready fence s
take_step (retire_step completed) s = retire completed s

pub data Reached : Service → Type 0 where
  made : Reached new_service
  took : (t : Step) (s : Service) → Reached s → Reached (take_step t s)
