-- ===== src/Versions/Snapshot/Order.antt =====
-- A build from an image and its pool.
use orgmodule_services.Common.{
  ℕ, ◌<◌, refl, Bool, not, ◌&&◌, ◌||◌, Option, none, some, Result, ok, err, ltb, ◌==◌, arith,
  u64_max, if-cases, some-cases, List, [],
}
use orgmodule_services.BackingPool.Backing.{Backing, BackingRequest}
use orgmodule_services.BackingPool.State.{Pool}
use orgmodule_services.BackingPool.Acquire.{Outcome, acquire, leased, exhausted, threw}
use orgmodule_services.BackingPool.Circulation.{Inv}
use orgmodule_services.BackingPool.Exclusive.{IsGrant}
use orgmodule_services.BackingPool.Granting.{acquire-Granted}
use orgmodule_services.Images.{BufferImage}
use orgmodule_services.Versions.Version.{BuildInput, BuildError, BuildOutcome, failed, cancelled}
use orgmodule_services.Versions.Choice.{ClassChoice, choose_class}
use orgmodule_services.Versions.Predecessor.{Caller, request_of, used_bytes}
use orgmodule_services.Versions.Predecessor.Order.{
  IsKept, InHand, release-Inv, forgot-InHand, suspend-IsOrderly,
}
use orgmodule_services.Versions.Snapshot.{
  Queued, Made, no_writes, drop_lease, queue_ranges, dirty_ranges, publish, upload_image, Source,
  source, no_source, source_image, fill_from_image, fill_backing, use_backing, build,
  needs_contents,
}

pub record IsOrderly (m : Made) : Type 0 where
  pub inv : Inv m.pool
  pub kept : IsKept m.pool m.outcome

module _ (caller : Caller) (takes : Queued → Bool) (input : BuildInput) (choice : ClassChoice) where
  dropped :
      (why : BuildError) (p : Pool) (b : Backing)
      → InHand p b
      → IsOrderly (drop_lease (failed why) b.generation p)
  dropped why p b h = record { inv = release-Inv p b h; kept = tt }

  publish-IsOrderly :
      (b : Backing) (held : ℕ) (image : Option BufferImage) (queued : List Queued) (p : Pool)
      → InHand p (record b { content_epoch = held })
      → IsOrderly (publish caller input choice b image queued p)
  publish-IsOrderly b held image queued p h =
      let after = forgot-InHand input.write_sequence p (record b { content_epoch = held }) h in
      record {
        inv = after.inv;
        kept = (
          record b { content_epoch = input.write_sequence },
          after.found,
          record {
            one = h.one;
            circulates = h.circulates;
            unpinned = h.unpinned;
            unconsumed = h.unconsumed;
            class = refl;
            contents = refl;
          },
        );
      }

  upload_image-IsOrderly :
      (allocated : Bool) (b : Backing) (held : Option BufferImage) (image : BufferImage) (p : Pool)
      → InHand p b
      → IsOrderly (upload_image caller takes input choice allocated b held image p)
  unfolding upload_image
  upload_image-IsOrderly allocated b held image p h =
      let forgot = forgot-InHand 0 p b h in
      some-cases IsOrderly
        (queue_ranges takes b image (dirty_ranges input allocated b held image)).1 _ _
        (publish-IsOrderly b 0 (some image) _ _ forgot)
        (λ why e. record { inv = release-Inv _ (record b { content_epoch = 0 }) forgot; kept = tt })

  fill_from_image-IsOrderly :
      (allocated : Bool) (b : Backing) (held image : Option BufferImage) (p : Pool)
      → InHand p b
      → IsOrderly (fill_from_image caller takes input choice allocated b held image p)
  unfolding fill_from_image
  fill_from_image-IsOrderly allocated b held image p h =
      if-cases IsOrderly (caller.stops 1) _ _ (λ e. record { inv = release-Inv p b h; kept = tt })
        (λ e. some-cases IsOrderly b.buffer _ _ (dropped BuildError.no_buffer p b h) (λ buffer e.
          some-cases IsOrderly image _ _ (publish-IsOrderly b b.content_epoch none [] p h)
            (λ contents e.
              if-cases IsOrderly (needs_contents input && not (contents.byte_size == 0)) _ _
                (λ e. upload_image-IsOrderly allocated b held contents p h)
                (λ e. publish-IsOrderly b b.content_epoch (some contents) [] p h))))

  fill_backing-IsOrderly :
      (allocated : Bool) (b : Backing) (held : Option BufferImage) (p : Pool)
      → InHand p b
      → IsOrderly (fill_backing caller takes input choice allocated b held p)
  unfolding fill_backing
  fill_backing-IsOrderly allocated b held p h =
      if-cases IsOrderly (ltb b.byte_capacity (used_bytes input)) _ _
        (λ e. dropped BuildError.backing_small p b h) (λ e. sourced (source_image input))
    where
      sourced :
          (s : Source)
          → IsOrderly (elim s [
            | no_source why ↦ drop_lease (failed why) b.generation p
            | source image ↦ fill_from_image caller takes input choice allocated b held image p
          ])
      sourced (no_source why) = dropped why p b h
      sourced (source image) = fill_from_image-IsOrderly allocated b held image p h

  use_backing-IsOrderly :
      (images : ℕ → Option BufferImage) (completed : ℕ) (request : BackingRequest) (q : Pool)
      (got : Outcome)
      → Inv q
      → IsGrant caller.allocate completed request q got
      → IsOrderly (use_backing caller takes images input choice q got)
  unfolding use_backing
  use_backing-IsOrderly images completed request q threw v h = record { inv = v; kept = tt }
  use_backing-IsOrderly images completed request q (exhausted info) v h = record {
    inv = (suspend-IsOrderly caller q v).0;
    kept = (suspend-IsOrderly caller q v).1;
  }
  use_backing-IsOrderly images completed request q (leased g info) v (b, e, x) =
      rw (e, use_backing)
        (fill_backing-IsOrderly info.allocated b (images g) q (record {
          inv = v;
          found = ground (arith, e, v g);
          one = x.one;
          circulates = x.circulates;
          unpinned = x.unpinned;
          unconsumed = x.unconsumed;
        }))

-- From a pool in order, while generations are left, whatever the caller and the upload service
-- answer, the backings hold and other threads pin: a build from an image leaves the pool in order; the version's backing is of its
-- class, held by its lease alone, with no pin and no consumer, and marked to hold the version's
-- contents.
pub build-IsOrderly :
    (caller : Caller) (takes : Queued → Bool) (images : ℕ → Option BufferImage) (input : BuildInput)
    (p : Pool)
    → p.next_generation < u64_max
    → Inv p
    → IsOrderly (build caller takes images input p)
unfolding build
build-IsOrderly caller takes images input p small v =
    let nothing = λ (why : BuildError). unleased (failed why) tt in
    if-cases IsOrderly (not input.has_upload_service || input.element_stride == 0) _ _
      (λ e. nothing _)
      (λ e.
        if-cases IsOrderly (not input.has_pool) _ _ (λ e. nothing _)
          (λ e.
            if-cases IsOrderly (caller.stops 0) _ _ (λ e. unleased cancelled tt)
              (λ e. chosen (choose_class caller.now input))))
  where
    unleased : (o : BuildOutcome) → IsKept p o → IsOrderly (no_writes o p)
    unleased o k = record { inv = v; kept = k }

    chosen :
        (r : Result ClassChoice)
        → IsOrderly (elim r [
          | err e ↦ no_writes (failed BuildError.threw) p
          | ok choice ↦
              let (q, got) =
                acquire caller.allocate caller.pins caller.completed
                  (request_of input choice.capacity_class)
                  input.write_sequence
                  p in
              use_backing caller takes images input choice q got
        ])
    chosen (err e) = unleased _ tt
    chosen (ok choice) =
        let (v', got) =
          acquire-Granted caller.allocate caller.pins caller.completed
            (request_of input choice.capacity_class) input.write_sequence p small v in
        use_backing-IsOrderly caller takes input choice images caller.completed
          (request_of input choice.capacity_class) _ _ v' got
