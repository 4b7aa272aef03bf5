-- ===== src/Pipelines/Runs.antt =====
-- Runs of the pipeline registry: its calls, in any order.
use orgmodule_services.Common.{ℕ, ◌<◌, Bool, List, length, u32_mod}
use orgmodule_services.Pipelines.{
  LiveBuild, Registry, new_registry, register, request_reload, release_slot,
}
use orgmodule_services.Pipelines.Paths.{PathName}
use orgmodule_services.Pipelines.Reloads.{Answer, complete, service}
use orgmodule_services.Pipelines.Publishing.{publish, retire, drain}

pub data Act : Type 0 where
  register_act : List PathName → Bool → ℕ → ℕ → ℕ → Act
  request_act : PathName → Bool → Act
  release_act : ℕ → Act
  complete_act : ℕ → ℕ → LiveBuild → Act
  service_act : Bool → (ℕ → Answer) → Act
  publish_act : ℕ → Act
  retire_act : ℕ → Act
  drain_act : Act

unfoldable pub act : Act → Registry → Registry
act (register_act sources has_rebuild payload fingerprint built_for) r =
    (register sources has_rebuild payload fingerprint built_for r).0
act (request_act changed force) r = request_reload changed force r
act (release_act e) r = release_slot e r
act (complete_act number i build) r = complete number i build r
act (service_act accepted answers) r = (service accepted answers r).0
act (publish_act point) r = (publish point r).0
act (retire_act completed) r = (retire completed r).0
act drain_act r = drain r

-- The registry has fewer entries than a 32-bit count holds.
pub data Reached : Registry → Type 0 where
  made : Reached new_registry
  acted : (a : Act) (r : Registry) → length r.ids < u32_mod → Reached r → Reached (act a r)
