-- ===== src/Pipelines.antt =====
-- src/PipelineRegistry.cpp and include/ORGModuleServices/PipelineRegistry.h: the live pipelines and their
-- reloads. Paths has the file names; here are the registry's state and the calls that any thread makes.
-- Each call is one step under its mutex.
pub mod Paths
pub mod Reloads
pub mod Publishing
pub mod Runs
pub mod Counting
pub mod Counted
pub mod Asking
pub mod Asked
pub mod Remembered
pub mod Picking
pub mod Finishing
use orgmodule_services.Common.{
  ℕ, zero, suc, ◌+◌, ◌-◌, ◌*◌, Bool, true, false, not, ◌&&◌, ◌||◌, Option, none, some, List, [],
  ◌∷◌, ◌++◌, map, ltb, leb, ◌==◌, if◌then◌else◌, max, length, keep_if, u32,
}
use orgmodule_services.Pipelines.Paths.{PathName, normalize, same_path}

-- An entry; its slot dies with its last holder. `built` is the fingerprint of the slot's payload.
pub record Entry : Type 0 where
  pub alive : Bool
  pub sources : List PathName
  pub has_rebuild : Bool
  pub built : ℕ
  pub stale : Bool
  pub in_batch : Bool
  pub payload : ℕ

-- What a rebuild ends with: a new payload, an error, or neither where nothing changed.
pub record LiveBuild : Type 0 where
  pub payload : Option ℕ
  pub fingerprint : ℕ
  pub error : Option ℕ

-- A rebuild of a reload: its entry, what it is asked, and its result once it is in.
pub record Item : Type 0 where
  pub entry : ℕ
  pub fingerprint : ℕ
  pub force : Bool
  pub build : Option LiveBuild

-- A reload in progress; its number stands for the object that a late callback holds.
pub record Batch : Type 0 where
  pub number : ℕ
  pub items : List Item
  pub remaining : ℕ

pub record Request : Type 0 where
  pub is_asked : Bool
  pub all : Bool
  pub force : Bool
  pub files : List PathName

pub record Outcome : Type 0 where
  pub serial : ℕ
  pub entry_count : ℕ
  pub rebuilt : ℕ
  pub failed : ℕ
  pub unchanged : ℕ
  pub errors : List (ℕ × ℕ)

pub record Staged : Type 0 where
  pub target : ℕ
  pub payload : ℕ
  pub fingerprint : ℕ

pub record Retired : Type 0 where
  pub point : ℕ
  pub payload : ℕ

-- The entries are those of `ids`, in `entries`; `made` is the next one's number.
pub record Registry : Type 0 where
  pub entries : ℕ → Entry
  pub ids : List ℕ
  pub made : ℕ
  pub prune_at : ℕ
  pub request : Request
  pub asked : Bool
  pub sources_generation : ℕ
  pub running : Option Batch
  pub batches : ℕ
  pub staged : List Staged
  pub outcome : Outcome
  pub generation : ℕ
  pub retired : List Retired

abbrev pub no_entry : Entry
no_entry = record {
  alive = false;
  sources = [];
  has_rebuild = false;
  built = 0;
  stale = false;
  in_batch = false;
  payload = 0;
}

abbrev pub no_request : Request
no_request = record { is_asked = false; all = false; force = false; files = [] }

unfoldable pub new_registry : Registry
new_registry = record {
  entries = λ e. no_entry;
  ids = [];
  made = 0;
  prune_at = 64;
  request = no_request;
  asked = false;
  sources_generation = 0;
  running = none;
  batches = 0;
  staged = [];
  outcome = record {
    serial = 0;
    entry_count = 0;
    rebuilt = 0;
    failed = 0;
    unchanged = 0;
    errors = [];
  };
  generation = 0;
  retired = [];
}

unfoldable pub put {ℓ} : {A : Type ℓ} → (ℕ → A) → ℕ → A → ℕ → A
put f k a n = if n == k then a else f n

abbrev pub is_kept : (ℕ → Entry) → ℕ → Bool
is_kept entries e = (entries e).alive || (entries e).in_batch

-- `PruneLocked`.
unfoldable pub prune : Registry → Registry
prune r =
    let ids = keep_if (is_kept r.entries) r.ids in
    record r { ids = ids; prune_at = max 64 (length ids * 2) }

-- `Register`, of sources that are not normalized yet.
unfoldable pub register : List PathName → Bool → ℕ → ℕ → ℕ → Registry → Registry × ℕ
register sources has_rebuild payload fingerprint built_for r =
    let pruned = if leb r.prune_at (length r.ids) then prune r else r in
    let stale = ltb built_for r.sources_generation in
    (
      record pruned {
        entries = put r.entries r.made (record {
          alive = true;
          sources = map normalize sources;
          has_rebuild = has_rebuild;
          built = fingerprint;
          stale = stale;
          in_batch = false;
          payload = payload;
        });
        ids = pruned.ids ++ r.made ∷ [];
        made = r.made + 1;
        asked = stale || r.asked;
      },
      r.made,
    )

unfoldable pub has_path : PathName → List PathName → Bool
has_path p [] = false
has_path p (q ∷ qs) = same_path p q || has_path p qs

unfoldable pub add_file : PathName → Bool → Request → Request
add_file changed force q =
    let asked = record q { is_asked = true; force = q.force || force } in
    let file = normalize changed in
    elim changed [
      | [] ↦ record asked { all = true }
      | x ∷ xs ↦
          if q.all
          then asked
          else if has_path file q.files
          then asked
          else record asked { files = q.files ++ file ∷ [] }
    ]

-- `RequestReload`.
unfoldable pub request_reload : PathName → Bool → Registry → Registry
request_reload changed force r = record r {
  request = add_file changed force r.request;
  asked = true;
}

-- The last holder of a slot lets it go.
unfoldable pub release_slot : ℕ → Registry → Registry
release_slot e r = record r { entries = put r.entries e (record (r.entries e) { alive = false }) }
