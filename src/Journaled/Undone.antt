-- ===== src/Journaled/Undone.antt =====
-- What a Publish of `JournaledBufferSet` leaves of all its parts.
use orgmodule_services.Common.{
  ℕ, suc, ◌≡◌, inl, inr, refl, subst, Bool, true, not, Option, none, some, List, [], ◌∷◌, ◌==◌,
  length, Fault, Result, ok, err, arith, Option-cases, if-cases, elim-cases,
}
use orgmodule_services.BackingPool.Backing.{Backing}
use orgmodule_services.BackingPool.Store.{lookup, lookup-modify}
use orgmodule_services.BackingPool.State.{Pool, sub32, raise_event}
use orgmodule_services.BackingPool.Upkeep.{release_lease, set_contents, push_returned}
use orgmodule_services.BackingPool.Circulation.{Inv}
use orgmodule_services.BackingPool.Life.{is_leased, release_lease-Inv, set_contents-Inv}
use orgmodule_services.Journaled.Publishing.{
  PartState, PartRequest, PartVersion, Host, publish_part, Progress, publish_parts, empty_backing,
  end_lease, undo, Publication, publish,
}
use orgmodule_services.Journaled.Sealed.{IsWritten, publish_part-IsWritten}
use orgmodule_services.Journaled.Outcomes.{
  IsHeld, IsReady, has_no_fault, publish_part-IsTurn, lookup-set_contents,
}

abbrev pub AllOrderly : List PartState → Type 0
AllOrderly [] = Unit {0}
AllOrderly (p ∷ ps) = Inv p.pool × AllOrderly ps

abbrev pub AllReady : List PartRequest → List PartState → Type 0
AllReady rs [] = Unit {0}
AllReady [] (p ∷ ps) = Inv p.pool × AllReady [] ps
AllReady (r ∷ rs) (p ∷ ps) = IsReady r p × AllReady rs ps

-- Every part of a publication holds what its emit said.
abbrev pub AllWhole : List PartVersion → List PartState → Type 0
AllWhole [] ps = AllOrderly ps
AllWhole (v ∷ vs) [] = ⊥
AllWhole (v ∷ vs) (p ∷ ps) = Inv p.pool × IsHeld p v true × AllWhole vs ps

abbrev pub IsLeased : PartState → PartVersion → Type 0
IsLeased p v = (g : ℕ) → v.lease ≡ some g → is_leased g p.pool ≡ true

abbrev pub AllLeased : List PartVersion → List PartState → Type 0
AllLeased [] ps = AllOrderly ps
AllLeased (v ∷ vs) [] = ⊥
AllLeased (v ∷ vs) (p ∷ ps) = Inv p.pool × IsLeased p v × AllLeased vs ps

-- The backing of a version holds nothing.
abbrev pub IsEmptied : PartState → PartVersion → Type 0
IsEmptied p v =
    (g : ℕ)
    → v.lease ≡ some g
    → (b : Backing) × (lookup g p.pool.all ≡ some b) × (b.content_epoch ≡ 0)

abbrev pub AllEmptied : List PartVersion → List PartState → Type 0
AllEmptied [] ps = AllOrderly ps
AllEmptied (v ∷ vs) [] = ⊥
AllEmptied (v ∷ vs) (p ∷ ps) = Inv p.pool × IsEmptied p v × AllEmptied vs ps

abbrev pub Progressed : Option Fault → List PartVersion → List PartState → Type 0
Progressed none vs ps = AllWhole vs ps
Progressed (some e) vs ps = AllLeased vs ps

AllReady-AllOrderly : (rs : List PartRequest) (ps : List PartState) → AllReady rs ps → AllOrderly ps
AllReady-AllOrderly rs [] h = tt
AllReady-AllOrderly [] (p ∷ ps) h = (h.0, AllReady-AllOrderly [] ps h.1)
AllReady-AllOrderly (r ∷ rs) (p ∷ ps) h = (h.0.0, AllReady-AllOrderly rs ps h.1)

IsHeld-IsLeased : (p : PartState) (v : PartVersion) (whole : Bool) → IsHeld p v whole → IsLeased p v
IsHeld-IsLeased p v whole h g e = let (b, there, leased, kept) = h g e in leased

progress-step :
    (f : Option Fault) (p : PartState) (v : PartVersion) (vs : List PartVersion)
    (ps : List PartState)
    → Inv p.pool
    → IsHeld p v true
    → Progressed f vs ps
    → Progressed f (v ∷ vs) (p ∷ ps)
progress-step none p v vs ps i h k = (i, h, k)
progress-step (some e) p v vs ps i h k = (i, IsHeld-IsLeased p v true h, k)

publish_parts-Progressed :
    (host : Host) (i : ℕ) (parts : List PartState) (rs : List PartRequest)
    → AllReady rs parts
    → Progressed
        (publish_parts host i parts rs).fault
        (publish_parts host i parts rs).versions
        (publish_parts host i parts rs).parts
unfolding publish_parts
publish_parts-Progressed host i [] rs h = tt
publish_parts-Progressed host i (p ∷ ps) [] h = (h.0, AllReady-AllOrderly [] ps h.1)
publish_parts-Progressed host i (p ∷ ps) (r ∷ rs) h =
    let turn = publish_part host (host.moment i) r p in
    let k = publish_part-IsTurn host (host.moment i) r p h.0 in
    elim-cases (λ (g : Progress). Progressed g.fault g.versions g.parts) turn.fault _ _
      (λ f.
        let whole = subst (λ g. IsHeld turn.part turn.version (has_no_fault g)) f k.holds in
        let rest = publish_parts host (suc i) ps rs in
        progress-step rest.fault turn.part turn.version rest.versions rest.parts k.orderly whole
          (publish_parts-Progressed host (suc i) ps rs h.1))
      (λ e f. (
        k.orderly,
        IsHeld-IsLeased turn.part turn.version _ k.holds,
        AllReady-AllOrderly rs ps h.1,
      ))

lookup-release_lease :
    (g : ℕ) (p : Pool) (b : Backing)
    → lookup g p.all ≡ some b
    → (c : Backing) × (lookup g (release_lease g p).all ≡ some c)
      × (c.content_epoch ≡ b.content_epoch)
unfolding push_returned raise_event release_lease
lookup-release_lease g p b e =
    let found = lookup-modify g g (λ x. record x { leases = sub32 x.leases 1 }) p.all (λ x. refl) in
    (record b { leases = sub32 b.leases 1 }, rw (e, release_lease) (ground (arith, e, found)), refl)

is_leased-lookup :
    (g : ℕ) (p : Pool) → is_leased g p ≡ true → (b : Backing) × (lookup g p.all ≡ some b)
is_leased-lookup g p h = elim (Option-cases (lookup g p.all)) [
  | inl e ↦ absurd (ground (arith, h, e))
  | inr found ↦ found
]

undone-IsEmptied :
    (o : Option ℕ) (p : PartState)
    → Inv p.pool
    → ((g : ℕ) → o ≡ some g → is_leased g p.pool ≡ true)
    → Inv (end_lease o (empty_backing o p)).pool
      × ((g : ℕ)
          → o ≡ some g
          → (b : Backing) × (lookup g (end_lease o (empty_backing o p)).pool.all ≡ some b)
            × (b.content_epoch ≡ 0))
unfolding end_lease empty_backing
undone-IsEmptied none p i l = (i, λ g h. absurd cc)
undone-IsEmptied (some g) p i l =
    let (b, found) = is_leased-lookup g p.pool (l g refl) in
    let emptied = set_contents g 0 p.pool in
    let there = lookup-set_contents g 0 p.pool b found in
    let still : is_leased g emptied ≡ true = let h = l g refl in ground (arith, h, found, there) in
    let (c, at, same) = lookup-release_lease g emptied (record b { content_epoch = 0 }) there in
    (
      release_lease-Inv g emptied still (set_contents-Inv g 0 p.pool i),
      λ h e.
          let k : g ≡ h = cc in
          subst
            (λ n.
              (x : Backing) × (lookup n (release_lease g emptied).all ≡ some x)
              × (x.content_epoch ≡ 0))
            k (c, at, same),
    )

undo-AllEmptied :
    (vs : List PartVersion) (ps : List PartState) → AllLeased vs ps → AllEmptied vs (undo vs ps)
unfolding undo
undo-AllEmptied [] ps h = h
undo-AllEmptied (v ∷ vs) [] h = h
undo-AllEmptied (v ∷ vs) (p ∷ ps) h =
    let one = undone-IsEmptied v.lease p h.0 h.1 in (one.0, one.1, undo-AllEmptied vs ps h.2)

-- The turns of a publication that throws nothing.
pub data AllWritten
    : List PartRequest → List PartState → List PartState → List PartVersion → Type 0 where
  no_more : AllWritten [] [] [] []
  one_more :
      (r : PartRequest) (before after : PartState) (v : PartVersion) (rs : List PartRequest)
      (ps qs : List PartState) (vs : List PartVersion)
      → IsWritten r before after v
      → AllWritten rs ps qs vs
      → AllWritten (r ∷ rs) (before ∷ ps) (after ∷ qs) (v ∷ vs)

publish_parts-AllWritten :
    (host : Host) (i : ℕ) (parts : List PartState) (rs : List PartRequest)
    → length rs ≡ length parts
    → (publish_parts host i parts rs).fault ≡ none
    → AllWritten rs parts
        (publish_parts host i parts rs).parts
        (publish_parts host i parts rs).versions
unfolding publish_parts
publish_parts-AllWritten host i [] [] same = λ h. no_more
publish_parts-AllWritten host i [] (r ∷ rs) same = absurd (omega (arith, same))
publish_parts-AllWritten host i (p ∷ ps) [] same = absurd (omega (arith, same))
publish_parts-AllWritten host i (p ∷ ps) (r ∷ rs) same =
    let turn = publish_part host (host.moment i) r p in
    elim-cases (λ (g : Progress). g.fault ≡ none → AllWritten (r ∷ rs) (p ∷ ps) g.parts g.versions)
      turn.fault _ _
      (λ f h.
        one_more r p turn.part turn.version rs ps _ _
          (publish_part-IsWritten host (host.moment i) r p f)
          (publish_parts-AllWritten host (suc i) ps rs (omega (arith, same)) h))
      (λ e f h. absurd cc)

-- What Publish leaves: of a publication, every part written and whole; of one that threw, every backing
-- that it had taken without contents.
abbrev pub Published :
    Host → List PartRequest → List PartState → List PartState × Result Publication → Type 0
Published host rs parts (ps, ok publication) =
    AllWritten rs parts ps publication.parts × AllWhole publication.parts ps
Published host rs parts (ps, err e) = AllEmptied (publish_parts host 0 parts rs).versions ps

-- Publish with one request for each part, from pools in order that have generations left, where a backing to append
-- into is leased and has room for one lease more, and whatever the emits, the uploader, the
-- allocation hook and other threads' pins do: all pools are in order afterwards. If it returns, each
-- part asked for has a leased backing that holds the position its emit returned for that backing, and
-- its sealed mark is past the units and, for an append, not below the head's before the call; and a
-- part asked for nothing is as before. If it throws, each backing that a part's version names holds
-- nothing.
pub publish-Published :
    (host : Host) (rs : List PartRequest) (parts : List PartState)
    → length rs ≡ length parts
    → AllReady rs parts
    → Published host rs parts (publish host rs parts)
unfolding publish
publish-Published host rs parts e h =
    let k = publish_parts-Progressed host 0 parts rs h in
    if-cases (Published host rs parts) (not (length rs == length parts)) _ _
      (λ other. absurd (ground (arith, other, e)))
      (λ same.
        let p = publish_parts host 0 parts rs in
        elim-cases (Published host rs parts) p.fault _ _
          (λ f. (
            publish_parts-AllWritten host 0 parts rs e f,
            subst (λ g. Progressed g p.versions p.parts) f k,
          ))
          (λ thrown f.
            undo-AllEmptied p.versions p.parts (subst (λ g. Progressed g p.versions p.parts) f k)))
