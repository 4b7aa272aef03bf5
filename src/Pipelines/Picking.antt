-- ===== src/Pipelines/Picking.antt =====
-- Which entries a reload of src/PipelineRegistry.cpp takes.
use orgmodule_services.Common.{
  ℕ, ◌≡◌, ◌⊎◌, ◌↔◌, inl, inr, refl, sym, ◌∙◌, subst, Bool, true, false, not, ◌||◌, none, List, [],
  ◌∷◌, All, Bool-cases, keep_if, arith,
}
use orgmodule_services.Pipelines.{Entry, Request, Registry, is_kept}
use orgmodule_services.Pipelines.Paths.{PathName, same_shader_file}
use orgmodule_services.Pipelines.Reloads.{
  any_source, is_declared, reloads_all, any_file, is_picked, start_batch,
}
use orgmodule_services.Pipelines.Runs.{Reached}
use orgmodule_services.Pipelines.Asking.{among, is_item, IsAsked}
use orgmodule_services.Pipelines.Asked.{
  kept, takes_all, idle-in_batch, listed-kept, start_batch-is_item,
}
use orgmodule_services.Pipelines.Remembered.{Reached-IsAsked}

abbrev pub Any {ℓ} : {A : Type ℓ} → (A → Type 0) → List A → Type 0
Any P [] = ⊥
Any P (x ∷ xs) = P x ⊎ Any P xs

-- A changed file is one of the sources, or none of them.
abbrev pub IsSourceOf : List PathName → PathName → Type 0
IsSourceOf sources file = Any (λ (s : PathName). same_shader_file file s ≡ true) sources

abbrev pub IsForeignTo : List PathName → PathName → Type 0
IsForeignTo sources file = All (λ (s : PathName). same_shader_file file s ≡ false) sources

-- No live entry is built from a file: an include, which any entry may be built from.
abbrev pub IsInclude : (ℕ → Entry) → PathName → Type 0
IsInclude entries file = (n : ℕ) → (entries n).alive ≡ true → IsForeignTo (entries n).sources file

-- Why an entry is to be rebuilt.
pub data IsDue (request : Request) (entries : ℕ → Entry) (e : ℕ) : Type 0 where
  stale : (entries e).stale ≡ true → IsDue request entries e
  for_all : request.is_asked ≡ true → request.all ≡ true → IsDue request entries e
  by_source :
      request.is_asked ≡ true
      → Any (IsSourceOf (entries e).sources) request.files
      → IsDue request entries e
  by_include :
      request.is_asked ≡ true → Any (IsInclude entries) request.files → IsDue request entries e

any_source-true :
    (file : PathName) (ss : List PathName) → any_source file ss ≡ true → IsSourceOf ss file
unfolding any_source
any_source-true file [] h = absurd cc
any_source-true file (s ∷ ss) h = elim (Bool-cases (same_shader_file file s)) [
  | inl e ↦ inl e
  | inr e ↦ inr (any_source-true file ss (ground (arith, e, h)))
]

any_source-found :
    (file : PathName) (ss : List PathName) → IsSourceOf ss file → any_source file ss ≡ true
unfolding any_source
any_source-found file [] h = absurd h
any_source-found file (s ∷ ss) (inl e) = ground (arith, e)
any_source-found file (s ∷ ss) (inr k) = ground (arith, any_source-found file ss k)

any_source-false :
    (file : PathName) (ss : List PathName) → any_source file ss ≡ false → IsForeignTo ss file
unfolding any_source
any_source-false file [] h = tt
any_source-false file (s ∷ ss) h = (ground (arith, h), any_source-false file ss (ground (arith, h)))

any_source-foreign :
    (file : PathName) (ss : List PathName) → IsForeignTo ss file → any_source file ss ≡ false
unfolding any_source
any_source-foreign file [] h = refl
any_source-foreign file (s ∷ ss) (e, k) = ground (arith, e, any_source-foreign file ss k)

any_file-true : (files ss : List PathName) → any_file files ss ≡ true → Any (IsSourceOf ss) files
unfolding any_file
any_file-true [] ss h = absurd cc
any_file-true (file ∷ files) ss h = elim (Bool-cases (any_source file ss)) [
  | inl e ↦ inl (any_source-true file ss e)
  | inr e ↦ inr (any_file-true files ss (ground (arith, e, h)))
]

any_file-found : (files ss : List PathName) → Any (IsSourceOf ss) files → any_file files ss ≡ true
unfolding any_file
any_file-found [] ss h = absurd h
any_file-found (file ∷ files) ss (inl e) = ground (arith, any_source-found file ss e)
any_file-found (file ∷ files) ss (inr k) = ground (arith, any_file-found files ss k)

is_declared-false :
    (entries : ℕ → Entry) (file : PathName) (es : List ℕ) (n : ℕ)
    → is_declared entries file es ≡ false
    → among n es ≡ true
    → any_source file (entries n).sources ≡ false
unfolding is_declared among
is_declared-false entries file [] n h a = absurd cc
is_declared-false entries file (e ∷ es) n h a =
    ground (arith, h, a, is_declared-false entries file es n)

is_declared-foreign :
    (entries : ℕ → Entry) (file : PathName) (es : List ℕ)
    → ((n : ℕ) → among n es ≡ true → any_source file (entries n).sources ≡ false)
    → is_declared entries file es ≡ false
unfolding is_declared among
is_declared-foreign entries file [] h = refl
is_declared-foreign entries file (e ∷ es) h =
    let first = h e in
    let rest =
      is_declared-foreign entries file es (λ n a. (let one = h n in ground (arith, one, a))) in
    ground (arith, first, rest)

among-kept : (p : ℕ → Bool) (n : ℕ) (es : List ℕ) → among n (keep_if p es) ≡ true → p n ≡ true
unfolding among
among-kept p n [] h = absurd cc
among-kept p n (e ∷ es) h = ground (arith, h, among-kept p n es)

reloads_all-true :
    (entries : ℕ → Entry) (ids : List ℕ) (files : List PathName) (all : Bool)
    → reloads_all entries ids files all ≡ true
    → (all ≡ true) ⊎ Any (λ (file : PathName). is_declared entries file ids ≡ false) files
unfolding reloads_all
reloads_all-true entries ids [] all h = inl h
reloads_all-true entries ids (file ∷ files) all h =
    elim (reloads_all-true entries ids files (all || not (is_declared entries file ids)) h) [
      | inl e ↦ (elim (Bool-cases (is_declared entries file ids)) [
        | inl d ↦ inl (ground (arith, d, e))
        | inr d ↦ inr (inl d)
      ])
      | inr k ↦ inr (inr k)
    ]

reloads_all-asked :
    (entries : ℕ → Entry) (ids : List ℕ) (files : List PathName)
    → reloads_all entries ids files true ≡ true
unfolding reloads_all
reloads_all-asked entries ids [] = refl
reloads_all-asked entries ids (file ∷ files) = reloads_all-asked entries ids files

reloads_all-found :
    (entries : ℕ → Entry) (ids : List ℕ) (files : List PathName) (all : Bool)
    → Any (λ (file : PathName). is_declared entries file ids ≡ false) files
    → reloads_all entries ids files all ≡ true
unfolding reloads_all
reloads_all-found entries ids [] all h = absurd h
reloads_all-found entries ids (file ∷ files) all (inl e) =
    let asked : (all || not (is_declared entries file ids)) ≡ true = ground (arith, e) in
    subst (λ (b : Bool). reloads_all entries ids files b ≡ true) (sym asked)
      (reloads_all-asked entries ids files)
reloads_all-found entries ids (file ∷ files) all (inr k) = reloads_all-found entries ids files _ k

Any-map :
    (P Q : PathName → Type 0) (files : List PathName)
    → ((f : PathName) → P f → Q f)
    → Any P files
    → Any Q files
Any-map P Q [] g h = h
Any-map P Q (f ∷ fs) g (inl h) = inl (g f h)
Any-map P Q (f ∷ fs) g (inr h) = inr (Any-map P Q fs g h)

module _ (r : Registry) (k : IsAsked r) (idle : r.running ≡ none) where
  -- With no reload running, the entries that are kept are the live ones.
  alive-kept : (n : ℕ) → among n (kept r k idle) ≡ true → (r.entries n).alive ≡ true
  alive-kept n a =
      let is_one = among-kept (is_kept r.entries) n r.ids a in
      let free = idle-in_batch r k idle n in ground (arith, is_one, free)

  undeclared-IsInclude :
      (file : PathName)
      → is_declared r.entries file (kept r k idle) ≡ false
      → IsInclude r.entries file
  undeclared-IsInclude file d n alive =
      any_source-false file (r.entries n).sources
        (is_declared-false r.entries file (kept r k idle) n d (listed-kept r k idle n alive))

  IsInclude-undeclared :
      (file : PathName)
      → IsInclude r.entries file
      → is_declared r.entries file (kept r k idle) ≡ false
  IsInclude-undeclared file h =
      is_declared-foreign r.entries file (kept r k idle)
        (λ n a. any_source-foreign file (r.entries n).sources (h n (alive-kept n a)))

  takes-IsDue :
      (e : ℕ)
      → (is_picked r.request (takes_all r k idle) (r.entries e) || (r.entries e).stale) ≡ true
      → IsDue r.request r.entries e
  takes-IsDue e h = elim (Bool-cases (r.entries e).stale) [
    | inl s ↦ stale s
    | inr s ↦
        (let asked : r.request.is_asked ≡ true = ground (arith, h, s) in
          elim (Bool-cases (any_file r.request.files (r.entries e).sources)) [
            | inl own ↦ by_source asked (any_file-true r.request.files (r.entries e).sources own)
            | inr other ↦
                (let all : takes_all r k idle ≡ true = ground (arith, h, s, other) in
                  elim (reloads_all-true r.entries (kept r k idle) r.request.files r.request.all
                    all) [
                      | inl a ↦ for_all asked a
                      | inr i ↦
                          by_include asked (Any-map _ _ r.request.files undeclared-IsInclude i)
                    ])
          ])
  ]

  IsDue-takes :
      (e : ℕ)
      → IsDue r.request r.entries e
      → (is_picked r.request (takes_all r k idle) (r.entries e) || (r.entries e).stale) ≡ true
  IsDue-takes e (stale s) = ground (arith, s)
  IsDue-takes e (for_all asked a) =
      let all : takes_all r k idle ≡ true =
        subst (λ (b : Bool). reloads_all r.entries (kept r k idle) r.request.files b ≡ true) (sym a)
          (reloads_all-asked r.entries (kept r k idle) r.request.files) in
      ground (arith, asked, all)
  IsDue-takes e (by_source asked own) =
      let one = any_file-found r.request.files (r.entries e).sources own in
      ground (arith, asked, one)
  IsDue-takes e (by_include asked i) =
      let all : takes_all r k idle ≡ true =
        reloads_all-found r.entries (kept r k idle) r.request.files r.request.all
          (Any-map _ _ r.request.files IsInclude-undeclared i) in
      ground (arith, asked, all)

-- Where a run has come to a registry with no reload running, the reload that starts there has a live entry
-- exactly when the entry is stale, or a reload is asked for that is of all entries, or whose changed
-- files have one that is a source of the entry, or one that is a source of no live entry.
pub start_batch_takes :
    (r : Registry) (e : ℕ)
    → Reached r
    → r.running ≡ none
    → (r.entries e).alive ≡ true
    → (is_item e (start_batch r).running ≡ true) ↔ IsDue r.request r.entries e
start_batch_takes r e reached idle alive =
    let k = Reached-IsAsked r reached in
    let same = start_batch-is_item r k idle e alive in
    (λ h. takes-IsDue r k idle e (sym same ∙ h), λ h. same ∙ IsDue-takes r k idle e h)
