-- ===== src/Pipelines/Reloads.antt =====
-- The reloads of src/PipelineRegistry.cpp: StartBatch, its rebuilds and their completions, FinishBatch and
-- Service. What the executor and the rebuilds do is an argument.
use orgmodule_services.Common.{
  ℕ, zero, suc, ◌+◌, Bool, true, false, not, ◌&&◌, ◌||◌, Option, none, some, List, [], ◌∷◌, ◌++◌,
  ◌==◌, if◌then◌else◌, length, count_if, take, u32, u64,
}
use orgmodule_services.BackingPool.State.{sub32}
use orgmodule_services.Pipelines.{
  Entry, LiveBuild, Item, Batch, Request, Staged, Registry, no_request, prune,
}
use orgmodule_services.Pipelines.Paths.{PathName, same_shader_file}

abbrev pub is_done : Item → Bool
is_done i = elim i.build [ none ↦ false | some b ↦ true ]

-- The first call of an item's done; a second is ignored.
unfoldable pub set_build : ℕ → LiveBuild → List Item → List Item
set_build i build [] = []
set_build zero build (x ∷ xs) = (if is_done x then x else record x { build = some build }) ∷ xs
set_build (suc i) build (x ∷ xs) = x ∷ set_build i build xs

unfoldable pub awaits : ℕ → List Item → Bool
awaits i [] = false
awaits zero (x ∷ xs) = not (is_done x)
awaits (suc i) (x ∷ xs) = awaits i xs

-- `Batch::Complete`.
unfoldable pub complete_item : ℕ → LiveBuild → Batch → Batch
complete_item i build b =
    if awaits i b.items
    then record b { items = set_build i build b.items; remaining = sub32 b.remaining 1 }
    else b

-- A rebuild's call on the batch that it was started for: another is not the running one.
unfoldable pub complete : ℕ → ℕ → LiveBuild → Registry → Registry
complete number i build r = elim r.running [
  | none ↦ r
  | some b ↦ if b.number == number then record r { running = some (complete_item i build b) } else r
]

unfoldable pub any_source : PathName → List PathName → Bool
any_source file [] = false
any_source file (s ∷ sources) = same_shader_file file s || any_source file sources

unfoldable pub is_declared : (ℕ → Entry) → PathName → List ℕ → Bool
is_declared entries file [] = false
is_declared entries file (e ∷ es) =
    any_source file (entries e).sources || is_declared entries file es

-- A file that no entry is built from may be any entry's.
unfoldable pub reloads_all : (ℕ → Entry) → List ℕ → List PathName → Bool → Bool
reloads_all entries ids [] all = all
reloads_all entries ids (file ∷ files) all =
    reloads_all entries ids files (all || not (is_declared entries file ids))

unfoldable pub any_file : List PathName → List PathName → Bool
any_file [] sources = false
any_file (file ∷ files) sources = any_source file sources || any_file files sources

abbrev pub is_picked : Request → Bool → Entry → Bool
is_picked request all e = request.is_asked && (all || any_file request.files e.sources)

-- Whether an entry is in the next reload.
unfoldable pub is_chosen : Request → Bool → Entry → Bool
is_chosen request all e = not e.in_batch && (e.alive && (is_picked request all e || e.stale))

unfoldable pub items_of : Request → Bool → (ℕ → Entry) → List ℕ → List Item
items_of request all entries [] = []
items_of request all entries (e ∷ es) =
    let rest = items_of request all entries es in
    if is_chosen request all (entries e)
    then record {
      entry = e;
      fingerprint = (entries e).built;
      force = is_picked request all (entries e) && request.force;
      build = none;
    }
      ∷ rest
    else rest

unfoldable pub take_in : Request → Bool → (ℕ → Entry) → List ℕ → ℕ → Entry
take_in request all entries [] n = entries n
take_in request all entries (e ∷ es) n =
    let rest = take_in request all entries es n in
    if n == e && is_chosen request all (entries e)
    then record (entries e) { stale = false; in_batch = true }
    else rest

-- `StartBatch` up to its task: the request is taken, and the reload's entries with it.
unfoldable pub start_batch : Registry → Registry
start_batch r =
    let q = prune r in
    let request = r.request in
    let all = reloads_all q.entries q.ids request.files request.all in
    let items = items_of request all q.entries q.ids in
    record q {
      request = no_request;
      asked = false;
      entries = take_in request all q.entries q.ids;
      sources_generation =
          if request.is_asked then u64 (q.sources_generation + 1) else q.sources_generation;
      running = some (record { number = q.batches; items = items; remaining = u32 (length items) });
      batches = q.batches + 1;
    }

-- What a rebuild does when it is started: it calls done at once, throws (its message may be empty), or
-- calls it later.
pub data Answer : Type 0 where
  now : LiveBuild → Answer
  threw : Option ℕ → Answer
  later : Answer

abbrev pub no_rebuild : ℕ
no_rebuild = 0

abbrev pub refused : ℕ
refused = 1

abbrev pub build_error : Option ℕ → LiveBuild
build_error e = record { payload = none; fingerprint = 0; error = e }

unfoldable pub start_rebuild : (ℕ → Entry) → ℕ → Answer → Item → Batch → Batch
start_rebuild entries i answer item b =
    if not (entries item.entry).has_rebuild
    then complete_item i (build_error (some no_rebuild)) b
    else elim answer [
      | now build ↦ complete_item i build b
      | threw e ↦ complete_item i (build_error e) b
      | later ↦ b
    ]

-- The task, over the items that the batch was made with.
unfoldable pub start_rebuilds : (ℕ → Entry) → (ℕ → Answer) → ℕ → List Item → Batch → Batch
start_rebuilds entries answers i [] b = b
start_rebuilds entries answers i (x ∷ xs) b =
    start_rebuilds entries answers (suc i) xs (start_rebuild entries i (answers i) x b)

unfoldable pub refuse_all : ℕ → List Item → Batch → Batch
refuse_all i [] b = b
refuse_all i (x ∷ xs) b = refuse_all (suc i) xs (complete_item i (build_error (some refused)) b)

-- The executor takes the task or not; where it runs it on another thread, the answers are `later`.
unfoldable pub launch : Bool → (ℕ → Answer) → Registry → Registry
launch accepted answers r = elim r.running [
  | none ↦ r
  | some b ↦ record r {
    running =
        some (
          if accepted
          then start_rebuilds r.entries answers 0 b.items b
          else refuse_all 0 b.items b);
  }
]

abbrev pub result_of : Item → LiveBuild
result_of i = elim i.build [
  | none ↦ record { payload = none; fingerprint = 0; error = none }
  | some b ↦ b
]

abbrev pub is_rebuilt : Item → Bool
is_rebuilt i = elim (result_of i).payload [ none ↦ false | some p ↦ true ]

abbrev pub has_failed : Item → Bool
has_failed i = not (is_rebuilt i) && elim (result_of i).error [ none ↦ false | some e ↦ true ]

abbrev pub is_unchanged : Item → Bool
is_unchanged i = not (is_rebuilt i) && not (has_failed i)

unfoldable pub staged_of : List Item → List Staged
staged_of [] = []
staged_of (x ∷ xs) =
    let rest = staged_of xs in
    elim (result_of x).payload [
      | none ↦ rest
      | some p ↦
          record { target = x.entry; payload = p; fingerprint = (result_of x).fingerprint } ∷ rest
    ]

unfoldable pub errors_of : List Item → List (ℕ × ℕ)
errors_of [] = []
errors_of (x ∷ xs) =
    let rest = errors_of xs in
    if has_failed x
    then elim (result_of x).error [ none ↦ rest | some e ↦ (x.entry, e) ∷ rest ]
    else rest

unfoldable pub let_go : List Item → (ℕ → Entry) → ℕ → Entry
let_go [] entries n = entries n
let_go (x ∷ xs) entries n =
    let rest = let_go xs entries n in
    if n == x.entry then record (entries n) { in_batch = false } else rest

-- `FinishBatch`; eight errors are kept.
unfoldable pub finish_batch : Batch → Registry → Registry
finish_batch b r = record r {
  running = none;
  entries = let_go b.items r.entries;
  staged = r.staged ++ staged_of b.items;
  outcome = record {
    serial = u64 (r.outcome.serial + 1);
    entry_count = u32 (length b.items);
    rebuilt = u32 (count_if is_rebuilt b.items);
    failed = u32 (count_if has_failed b.items);
    unchanged = u32 (count_if is_unchanged b.items);
    errors = take 8 (errors_of b.items);
  };
}

-- The running reload is finished once every rebuild is in.
unfoldable pub finish_done : Registry → Registry × Bool
finish_done r = elim r.running [
  | none ↦ (r, false)
  | some b ↦ if b.remaining == 0 then (finish_batch b r, true) else (r, false)
]

abbrev pub is_idle : Registry → Bool
is_idle r = elim r.running [ none ↦ true | some b ↦ false ]

abbrev pub has_staged : Registry → Bool
has_staged r = elim r.staged [ [] ↦ false | s ∷ ss ↦ true ]

-- `Service`: whether a reload finished, and whether payloads wait.
unfoldable pub service : Bool → (ℕ → Answer) → Registry → Registry × (Bool × Bool)
service accepted answers r =
    let (first, finished) = finish_done r in
    if is_idle first && first.asked
    then (let (second, again) = finish_done (launch accepted answers (start_batch first)) in
        (second, (finished || again, has_staged second)))
    else (first, (finished, has_staged first))
