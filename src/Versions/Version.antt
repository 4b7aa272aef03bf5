-- ===== src/Versions/Version.antt =====
-- What a build of a version is asked for, and what it makes
-- (include/ORGModuleServices/VersionedBufferBuild.h).
use orgmodule_services.Common.{ℕ, Bool, List, Option}
use orgmodule_services.BackingPool.Backing.{BackingFlags}
use orgmodule_services.Growth.Policy.{GrowthPolicy}
use orgmodule_services.Growth.Window.{ShrinkPolicy, ShrinkWindow}
use orgmodule_services.Images.{BufferImage}
use orgmodule_services.Versions.Delta.{Emitted, ByteRange}

-- `BufferRevisionMode`
pub data RevisionMode : Type 0 where
  patch replace : RevisionMode

pub record BufferWrite : Type 0 where
  pub sequence : ℕ
  pub byte_offset : ℕ
  pub byte_size : ℕ

-- `PublishedBufferVersion`. Its lease is of the backing with the generation `backing_epoch`; the
-- host's state and its tag are opaque.
pub record PublishedVersion : Type 0 where
  pub revision : ℕ
  pub write_sequence : ℕ
  pub element_count : ℕ
  pub capacity : ℕ
  pub element_stride : ℕ
  pub revision_mode : RevisionMode
  pub content_version : ℕ
  pub content_epoch : ℕ
  pub backing_epoch : ℕ
  pub resource : Option ℕ
  pub image : Option BufferImage
  pub tag : Option ℕ
  pub uploaded_bytes : ℕ
  pub copied_bytes : ℕ
  pub copied_whole : Bool
  pub shrink_window : ShrinkWindow
  pub shrunk : Bool

-- `VersionedBufferBuildInput`. Of the upload service and the pool it says here whether they are
-- given; a hook that is not given is `none`. `emit_delta` is what the hook hands over, in order.
pub record BuildInput : Type 0 where
  pub has_upload_service : Bool
  pub write_sequence : ℕ
  pub element_stride : ℕ
  pub element_count : ℕ
  pub capacity : ℕ
  pub flags : BackingFlags
  pub gpu_written : Bool
  pub tag : Option ℕ
  pub previous : Option PublishedVersion
  pub has_pool : Bool
  pub writes : List BufferWrite
  pub image : Option BufferImage
  pub journal_base_sequence : ℕ
  pub bytes : List ℕ
  pub predecessor_copy : Bool
  pub changed_since : Option (ℕ → Option (List ByteRange))
  pub emit_delta : Option (List Emitted)
  pub growth : Option GrowthPolicy
  pub shrink : ShrinkPolicy

-- Why a build fails, a constructor for each text.
pub data BuildError : Type 0 where
  input_missing no_pool cannot_suspend backing_small no_buffer not_covered backing_retired
        enqueue_failed no_emit_delta gpu_written_copy count_invalid previous_unfit bound_backing
        predecessor_backing delta_outside delta_uncovered copy_enqueue_failed threw :
      BuildError
  bytes_overflow journal_range journal_open image_mismatch bytes_mismatch delta_needs_image :
      BuildError

-- `VersionedBufferBuildOutcome`
pub data BuildOutcome : Type 0 where
  ready : PublishedVersion → BuildOutcome
  suspended : ℕ → BuildOutcome
  failed : BuildError → BuildOutcome
  cancelled : BuildOutcome
