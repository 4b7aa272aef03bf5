-- ===== src/Versions/Predecessor/Bytes.antt =====
-- What the leased backing holds once the writes of a build from a predecessor are done.
use orgmodule_services.Common.{
  ℕ, ◌+◌, ◌-◌, ◌≡◌, ◌<◌, ◌∙◌, ap, refl, Bool, true, false, not, ◌&&◌, ◌||◌, Option, none, some, ltb,
  ◌==◌, min, arith, if-cases, some-cases, List, [], ◌∷◌, if◌then◌else◌,
}
use orgmodule_services.BackingPool.Backing.{Backing}
use orgmodule_services.BackingPool.State.{Pool}
use orgmodule_services.BackingPool.Acquire.{AcquireInfo}
use orgmodule_services.BackingPool.Upkeep.{set_contents}
use orgmodule_services.Versions.Intervals.{Interval, add, within, covers}
use orgmodule_services.Versions.Intervals.Adding.{IsApart, add-covers}
use orgmodule_services.Versions.Delta.{
  DeltaWrite, UploadRange, ByteRange, delta_uploads, add_changed, copy_ranges,
}
use orgmodule_services.Versions.Delta.Memory.{in_ranges, uploads_at, copies_at, writes_at}
use orgmodule_services.Versions.Delta.Resolve.{delta_uploads-covers, delta_uploads-writes}
use orgmodule_services.Versions.Delta.Contents.{build-contents, writes_at-old}
use orgmodule_services.Versions.Version.{
  PublishedVersion, BuildInput, BuildError, ready, failed, cancelled,
}
use orgmodule_services.Versions.Choice.{ClassChoice}
use orgmodule_services.Versions.Predecessor.{
  Caller, Built, is_nil, let_go, copy_limit, missing_of, plan_copies, queue, plan, used_bytes,
  is_whole,
}

add_changed-covers :
    (x limit : ℕ) (rs : List ByteRange) (m : List Interval)
    → IsApart m
    → covers x (add_changed limit rs m) ≡ (covers x m || (ltb x limit && in_ranges x rs))
unfolding add_changed in_ranges within
add_changed-covers x limit [] m a = ground arith
add_changed-covers x limit (r ∷ rs) m a =
    let begin = min r.offset limit in
    let (a', c) = add-covers begin (begin + min r.size (limit - begin)) m a in
    ground (
      arith,
      c x,
      add_changed-covers x limit rs (add begin (begin + min r.size (limit - begin)) m) a',
    )

-- What the host promises of a byte of a backing and the predecessor's there: a backing marked with
-- the predecessor's position holds its byte, and one marked with an older position holds it
-- outside the ranges that `changedSince` tells for that.
pub record KeepsUp (input : BuildInput) (previous : PublishedVersion) (b : Backing)
    (x before old : ℕ) : Type 0 where
  pub same : b.content_epoch ≡ previous.write_sequence → old ≡ before
  pub outside :
      (changed : ℕ → Option (List ByteRange)) (ranges : List ByteRange)
      → input.changed_since ≡ some changed
      → changed b.content_epoch ≡ some ranges
      → in_ranges x ranges ≡ false
      → old ≡ before

-- What the copies and the backing's own byte give.
record Lacks (x before old : ℕ) (missing : List Interval × Bool) : Type 0 where
  pub lacks : (if covers x missing.0 then before else old) ≡ before

missing_of-covers :
    (input : BuildInput) (previous : PublishedVersion) (b : Backing) (allocated : Bool)
    (used x before old : ℕ)
    → KeepsUp input previous b x before old
    → x < copy_limit previous used
    → Lacks x before old (missing_of input previous b allocated used)
unfolding missing_of covers within
missing_of-covers input previous b allocated used x before old k h =
    if-cases (Lacks x before old)
      (allocated
        || b.content_epoch == 0
        || ltb previous.write_sequence b.content_epoch
        || not (b.capacity_class == previous.capacity))
      _ _ (λ e. all)
      (λ e.
        if-cases (Lacks x before old) (b.content_epoch == previous.write_sequence) _ _
          (λ e. record { lacks = k.same (ground (arith, e)) })
          (λ e. some-cases (Lacks x before old) input.changed_since _ _ all (λ changed given.
            some-cases (Lacks x before old) (changed b.content_epoch) _
              (λ ranges. (add_changed (copy_limit previous used) ranges [], false)) all
              (λ ranges told. record {
                lacks = ground (
                  arith,
                  add_changed-covers x (copy_limit previous used) ranges [] tt,
                  k.outside changed ranges given told,
                );
              }))))
  where
    all : Lacks x before old (add 0 (copy_limit previous used) [], true)
    all = record { lacks = ground (arith, (add-covers 0 (copy_limit previous used) [] tt).1 x) }

is_whole-covers :
    (used x : ℕ) (m : List Interval) → x < used → is_whole used m ≡ true → covers x m ≡ true
unfolding is_whole covers within
is_whole-covers used x [] h e = ground (arith, e)
is_whole-covers used x (i ∷ []) h e = ground (arith, e)
is_whole-covers used x (i ∷ j ∷ m) h e = ground (arith, e)

-- A byte that the version has of its predecessor, where it has one, whose backing keeps up.
abbrev pub IsFrom : BuildInput → Backing → Option PublishedVersion → ℕ → ℕ → ℕ → Type 0
IsFrom input b none x before old = Unit {0}
IsFrom input b (some previous) x before old =
    (x < copy_limit previous (used_bytes input)) × KeepsUp input previous b x before old

-- What is promised of a byte, for a build that made a version.
record IsBytes (writes : List DeltaWrite) (x before old : ℕ) (r : Built) : Type 0 where
  pub bytes :
      (v : PublishedVersion)
      → r.outcome ≡ ready v
      → uploads_at x r.uploads (copies_at x r.copies before old) ≡ writes_at x writes before

failed-IsBytes :
    (writes : List DeltaWrite) (x before old g : ℕ) (why : BuildError) (p : Pool)
    → IsBytes writes x before old (let_go (failed why) g p)
failed-IsBytes writes x before old g why p = record { bytes = λ v r. absurd cc }

cancelled-IsBytes :
    (writes : List DeltaWrite) (x before old g : ℕ) (p : Pool)
    → IsBytes writes x before old (let_go cancelled g p)
cancelled-IsBytes writes x before old g p = record { bytes = λ v r. absurd cc }

queue-IsBytes :
    (caller : Caller) (input : BuildInput) (choice : ClassChoice) (b : Backing)
    (copies : List Interval) (whole : Bool) (uploads : List UploadRange) (p : Pool)
    (writes : List DeltaWrite) (x before old : ℕ)
    → uploads_at x uploads (copies_at x copies before old) ≡ writes_at x writes before
    → IsBytes writes x before old (queue caller input choice b copies whole uploads p)
unfolding queue
queue-IsBytes caller input choice b copies whole uploads p writes x before old h =
    if-cases (IsBytes writes x before old) b.retired _ _ (λ e. gone _)
      (λ e.
        if-cases (IsBytes writes x before old)
          (not (is_nil copies) && not (caller.takes_copies copies)) _ _ (λ e. gone _)
          (λ e.
            if-cases (IsBytes writes x before old)
              (not (is_nil uploads) && not (caller.takes_uploads uploads)) _ _ (λ e. gone _)
              (λ e. record { bytes = λ v r. h })))
  where
    gone :
        (why : BuildError)
        → IsBytes writes x before old
            (let_go (failed why) b.generation (set_contents b.generation 0 p))
    gone why = failed-IsBytes writes x before old b.generation why (set_contents b.generation 0 p)

plan_copies-bytes :
    (input : BuildInput) (b : Backing) (allocated : Bool) (writes : List DeltaWrite)
    (planned : List Interval × Bool) (o : Option PublishedVersion) (x before old : ℕ)
    → input.previous ≡ o
    → x < used_bytes input
    → IsFrom input b o x before old
    → plan_copies input b allocated (used_bytes input) (delta_uploads writes).1 ≡ some planned
    → uploads_at x (delta_uploads writes).0 (copies_at x planned.0 before old)
      ≡ writes_at x writes before
unfolding plan_copies copies_at
plan_copies-bytes input b allocated writes planned none x before old e h f g =
    let m = (delta_uploads writes).1 in
    let whole : is_whole (used_bytes input) m ≡ true = ground (arith, e, g) in
    let none_copied : planned.0 ≡ [] = ground (arith, e, g) in
    ground (
      arith,
      none_copied,
      (delta_uploads-writes writes x old).2,
      writes_at-old x writes old before,
      is_whole-covers (used_bytes input) x m h whole,
      (delta_uploads-covers x writes).1,
    )
plan_copies-bytes input b allocated writes planned (some previous) x before old e h (l, k) g =
    let m = (delta_uploads writes).1 in
    let missing = missing_of input previous b allocated (used_bytes input) in
    let copied : planned.0 ≡ copy_ranges m missing.0 = ground (arith, e, g) in
    let kept =
      (missing_of-covers input previous b allocated (used_bytes input) x before old k l).lacks in
    rw copied ((build-contents writes missing.0 x before old).0 ∙ ap (writes_at x writes) kept)

-- A build from a predecessor that makes a version leaves at each of its bytes what the delta's
-- writes, in their order, make of the predecessor's byte; whatever the backing held there, where it
-- keeps up with the predecessor as the host promises. Without a predecessor the delta's writes
-- alone make every byte.
pub plan-bytes :
    (caller : Caller) (input : BuildInput) (choice : ClassChoice) (info : AcquireInfo) (b : Backing)
    (writes : List DeltaWrite) (p : Pool) (x before old : ℕ) (v : PublishedVersion)
    → x < used_bytes input
    → IsFrom input b input.previous x before old
    → (plan caller input choice info b writes p).outcome ≡ ready v
    → uploads_at x
        (plan caller input choice info b writes p).uploads
        (copies_at x (plan caller input choice info b writes p).copies before old)
      ≡ writes_at x writes before
unfolding plan
plan-bytes caller input choice info b writes p x before old v h f r =
    (some-cases (IsBytes writes x before old)
        (plan_copies input b info.allocated (used_bytes input) (delta_uploads writes).1) _ _
        (failed-IsBytes writes x before old b.generation _ p)
        (λ planned e.
          if-cases (IsBytes writes x before old) (caller.stops 2) _ _
            (λ e. cancelled-IsBytes writes x before old b.generation p)
            (λ s.
              queue-IsBytes caller input choice b planned.0 planned.1 (delta_uploads writes).0 p
                writes x before old
                (plan_copies-bytes input b info.allocated writes planned input.previous x before old
                  refl h f e)))).bytes
      v r
