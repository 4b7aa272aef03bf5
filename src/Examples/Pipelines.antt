-- ===== src/Examples/Pipelines.antt =====
-- The pipeline registry at a concrete run: an entry of the source "a" is registered, and a reload of the
-- changed file "x/A" asked for.
use orgmodule_services.Common.{
  ℕ, ◌≡◌, ◌↔◌, ◌<◌, refl, true, false, none, some, [], ◌∷◌, length, u32_mod, arith, inr,
}
use orgmodule_services.Pipelines.{
  Registry, new_registry, register, request_reload, add_file, has_path, put, prune,
}
use orgmodule_services.Pipelines.Paths.{
  normalize, same_shader_file, drop_dots, after_last, starts_with, fold_byte, same_path, has_suffix,
}
use orgmodule_services.Pipelines.Reloads.{
  Answer, now, later, start_batch, service, reloads_all, items_of, is_chosen, is_declared,
  any_source, any_file,
}
use orgmodule_services.Pipelines.Runs.{
  Act, register_act, request_act, service_act, act, Reached, made, acted,
}
use orgmodule_services.Pipelines.Counting.{IsCounted}
use orgmodule_services.Pipelines.Counted.{Reached-IsCounted}
use orgmodule_services.Pipelines.Asking.{IsAsked, is_item, entry_among}
use orgmodule_services.Pipelines.Remembered.{Reached-IsAsked}
use orgmodule_services.Pipelines.Picking.{IsDue, start_batch_takes}
use orgmodule_services.Pipelines.Finishing.{service_finishes}

abbrev register_one : Act
register_one = register_act ((97 ∷ []) ∷ []) true 5 6 0

abbrev ask : Act
ask = request_act (120 ∷ 47 ∷ 65 ∷ []) false

abbrev asked_registry : Registry
asked_registry = act ask (act register_one new_registry)

-- "Data\Shaders\./B" is the file "b".
normalize_test :
    normalize
      (68 ∷ 97 ∷ 116 ∷ 97 ∷ 92 ∷ 83 ∷ 104 ∷ 97 ∷ 100 ∷ 101 ∷ 114 ∷ 115 ∷ 92 ∷ 46 ∷ 47 ∷ 66 ∷ [])
    ≡ 98 ∷ []
unfolding normalize drop_dots after_last starts_with fold_byte
normalize_test = refl

asked_registry-Reached : Reached asked_registry
unfolding act register new_registry
asked_registry-Reached =
    acted ask (act register_one new_registry) (omega arith)
      (acted register_one new_registry (omega arith) made)

asked_registry-few : length asked_registry.ids < u32_mod
unfolding act register request_reload new_registry
asked_registry-few = omega arith

abbrev start_reload : Act
start_reload = service_act true (λ i. later)

Reached-IsCounted_example : IsCounted (act start_reload asked_registry)
Reached-IsCounted_example =
    Reached-IsCounted (act start_reload asked_registry)
      (acted start_reload asked_registry asked_registry-few asked_registry-Reached)

Reached-IsAsked_example : IsAsked (act start_reload asked_registry)
Reached-IsAsked_example =
    Reached-IsAsked (act start_reload asked_registry)
      (acted start_reload asked_registry asked_registry-few asked_registry-Reached)

-- The entry is in the reload.
start_batch_takes_test : is_item 0 (start_batch asked_registry).running ≡ true
unfolding start_batch prune act register request_reload new_registry add_file put normalize
    entry_among items_of is_chosen has_path reloads_all is_declared any_source same_shader_file
    drop_dots after_last starts_with fold_byte same_path has_suffix any_file
start_batch_takes_test = refl

start_batch_takes_example :
    (is_item 0 (start_batch asked_registry).running ≡ true)
    ↔ IsDue asked_registry.request asked_registry.entries 0
unfolding act register request_reload new_registry put
start_batch_takes_example = start_batch_takes asked_registry 0 asked_registry-Reached refl refl

abbrev built_now : ℕ → Answer
built_now i = now (record { payload = some 8; fingerprint = 9; error = none })

service_finishes_example : (service true built_now asked_registry).1.0 ≡ true
unfolding act register request_reload new_registry
service_finishes_example =
    service_finishes true built_now asked_registry asked_registry-Reached asked_registry-few refl
      refl (inr (λ i e. absurd cc))
