-- ===== src/Examples/Journals.antt =====
-- Journals and replays at concrete inputs.
use native.Mathlib.Omega.{arith}
use orgmodule_services.Common.{◌≡◌, ◌≤◌, refl, none, some, [], ◌∷◌, ok, err, out_of_range}
use orgmodule_services.BackingPool.State.{Pool}
use orgmodule_services.BackingPool.Store.{lookup}
use orgmodule_services.Examples.Pools.{config}
use orgmodule_services.Examples.Versions.{stale, before, input}
use orgmodule_services.Images.{pages_of, pages_from, zeros}
use orgmodule_services.Versions.Version.{BuildInput}
use orgmodule_services.Versions.Replay.{
  replay, replay_journal, validate, replay_bytes, shadow_of, last_checkpoint, is_open,
}
use orgmodule_services.Versions.Replay.Sized.{IsReplay, replay-IsReplay}
use orgmodule_services.Journal.{
  Journal, new_journal, initialize, append_write, enter_write, refused_write, written_pages,
  copy_into, grow_pages, push_pages, resized, overwrite, at_index, acknowledge,
}
use orgmodule_services.Journal.Trim.{
  made, initialized, appended, IsComplete, Reached-IsComplete, acknowledge-reaches,
}

abbrev started : Journal
started = record {
  element_stride = 2;
  write_sequence = 1;
  element_count = 1;
  capacity = 4;
  previous = none;
  writes = [];
  base_sequence = 0;
  byte_size = 2;
  pages = (7 ∷ 8 ∷ []) ∷ [];
}

-- A write past the end leaves zeros between.
abbrev grown : Journal
grown = record started {
  write_sequence = 2;
  element_count = 3;
  byte_size = 6;
  writes = record { sequence = 2; byte_offset = 4; byte_size = 2 } ∷ [];
  pages = (7 ∷ 8 ∷ 0 ∷ 0 ∷ 5 ∷ 6 ∷ []) ∷ [];
}

starts : initialize (7 ∷ 8 ∷ []) 1 4 (new_journal 2) ≡ ok started
unfolding initialize pages_of pages_from
starts = refl

grows : append_write 2 (5 ∷ 6 ∷ []) 3 started ≡ ok grown
unfolding append_write enter_write refused_write written_pages copy_into grow_pages push_pages
    resized overwrite at_index zeros
grows = refl

refuses : append_write 4 (5 ∷ 6 ∷ []) 5 started ≡ err out_of_range
unfolding append_write refused_write
refuses = refl

Reached-IsComplete_example :
    IsComplete grown (record { sequence = 2; byte_offset = 4; byte_size = 2 } ∷ [])
Reached-IsComplete_example =
    Reached-IsComplete grown (record { sequence = 2; byte_offset = 4; byte_size = 2 } ∷ []) (
      appended 2 (5 ∷ 6 ∷ []) 3 started grown [] grows (omega arith)
        (initialized (7 ∷ 8 ∷ []) 1 4 (new_journal 2) started [] starts (made 2)))

abbrev pool : Pool
pool = record {
  config = config;
  all = stale ∷ [];
  free = [];
  returned = [];
  active = [];
  next_generation = 3;
  census = record {
    live = 1;
    free_count = 0;
    bytes = 8;
    allocated = 1;
    reused = 0;
    released = 0;
    exhausted = 0;
  };
  events = 0;
  scan_events = 0;
  armed_at = 0;
  waiters = [];
  woken = [];
  subscribed = [];
}

acknowledge-reaches_example :
    (acknowledge (some pool) (some before) (record grown { write_sequence = 9 })).base_sequence ≤ 3
unfolding lookup
acknowledge-reaches_example =
    acknowledge-reaches pool (some before) (record grown { write_sequence = 9 }) 2 stale refl
      (omega arith) (omega arith)

abbrev whole : BuildInput
whole = record input { previous = none; element_count = 2; bytes = 7 ∷ 8 ∷ [] }

replay-IsReplay_example : IsReplay whole (7 ∷ 8 ∷ [])
unfolding replay replay_journal validate replay_bytes shadow_of last_checkpoint is_open
replay-IsReplay_example = replay-IsReplay whole (7 ∷ 8 ∷ []) refl
