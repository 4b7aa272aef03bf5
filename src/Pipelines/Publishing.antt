-- ===== src/Pipelines/Publishing.antt =====
-- Publish, Retire and DrainRetired of src/PipelineRegistry.cpp: the payloads of the slots.
use orgmodule_services.Common.{
  ℕ, ◌+◌, List, [], ◌∷◌, ◌++◌, leb, ◌==◌, if◌then◌else◌, u32, u64, length,
}
use orgmodule_services.Pipelines.{Staged, Retired, Registry, put}

-- A staged payload goes into its slot; the one it replaces is held. One whose slot is gone is dropped.
unfoldable pub publish_staged : ℕ → List Staged → Registry → List Retired → Registry × List Retired
publish_staged point [] r replaced = (r, replaced)
publish_staged point (s ∷ ss) r replaced =
    let e = r.entries s.target in
    let swapped = record r {
      entries = put r.entries s.target (record e { payload = s.payload; built = s.fingerprint });
    } in
    publish_staged point ss (if e.alive then swapped else r)
      (if e.alive then replaced ++ record { point = point; payload = e.payload } ∷ [] else replaced)

-- `Publish`: how many slots changed.
unfoldable pub publish : ℕ → Registry → Registry × ℕ
publish point r =
    let (q, replaced) = publish_staged point r.staged (record r { staged = [] }) [] in
    (
      record q {
        retired = q.retired ++ replaced;
        generation = if length replaced == 0 then q.generation else u64 (q.generation + 1);
      },
      u32 (length replaced),
    )

-- The payloads that `Retire` releases, and those it leaves: it stops at the first whose point is not
-- completed.
unfoldable pub release_passed : ℕ → List Retired → List Retired × List Retired
release_passed completed [] = ([], [])
release_passed completed (x ∷ xs) =
    let rest = release_passed completed xs in
    if leb x.point completed then (x ∷ rest.0, rest.1) else ([], x ∷ xs)

unfoldable pub retire : ℕ → Registry → Registry × List Retired
retire completed r = (
  record r { retired = (release_passed completed r.retired).1 },
  (release_passed completed r.retired).0,
)

-- `DrainRetired`.
unfoldable pub drain : Registry → Registry
drain r = record r { retired = []; staged = [] }
