-- ===== src/Growth/Contents.antt =====
-- include/ORGModuleServices/GrowableBufferTypes.h: extents, requirements and contents of growable
-- buffers.
pub mod Laws
use orgmodule_services.Common.{
  ℕ, ◌+◌, ◌-◌, ◌*◌, ◌/◌, ◌^◌, Bool, not, ◌&&◌, Option, some, Result, ok, ltb, leb, ◌==◌,
  if◌then◌else◌, u64,
}
use orgmodule_services.Growth.Policy.{GrowthPolicy, next}

pub record BufferExtent : Type 0 where
  pub fixed_bytes : ℕ
  pub unit_bytes : ℕ
  pub structured_stride : ℕ  -- std::uint32_t; 0: raw

unfoldable pub bytes_for : BufferExtent → ℕ → ℕ
bytes_for extent units = u64 (extent.fixed_bytes + u64 (units * extent.unit_bytes))

unfoldable pub units_in : BufferExtent → ℕ → ℕ
units_in extent bytes =
    if not (extent.unit_bytes == 0) && ltb extent.fixed_bytes bytes
    then (bytes - extent.fixed_bytes) / extent.unit_bytes
    else 0

-- `BytesFor(units) + structuredStride - 1` in 64 bits.
unfoldable pub elements_for : BufferExtent → ℕ → ℕ
elements_for extent units =
    if extent.structured_stride == 0
    then 0
    else u64 (bytes_for extent units + extent.structured_stride + (2 ^ 64 - 1))
      / extent.structured_stride

unfoldable pub capacity_class_for : BufferExtent → ℕ → ℕ
capacity_class_for extent units =
    if extent.structured_stride == 0 then bytes_for extent units else elements_for extent units

pub record GrowableRequirement : Type 0 where
  pub units : ℕ
  pub newer_than : ℕ

unfoldable pub merge : GrowableRequirement → GrowableRequirement → GrowableRequirement
merge a b = record {
  units = if ltb b.units a.units then a.units else b.units;
  newer_than = if ltb b.newer_than a.newer_than then a.newer_than else b.newer_than;
}

unfoldable pub met_by : GrowableRequirement → ℕ → ℕ → Bool
met_by r held_units serial = leb r.units held_units && ltb r.newer_than serial

unfoldable pub grow_to : GrowableRequirement → GrowthPolicy → ℕ → Result ℕ
grow_to r policy held_units =
    if leb r.units held_units then ok held_units else next policy held_units r.units

pub record FilledContents {ℓ} (Stamp : Type ℓ) : Type ℓ where
  pub serial : ℕ
  pub stamp : Stamp

-- `FilledVersion::Holds`.
unfoldable pub holds : ℕ → ℕ → Bool
holds serial named = not (serial == 0) && serial == named

-- `FilledContents::Since`, with what the version's capture holds.
unfoldable pub since {ℓ} : {Stamp : Type ℓ} → FilledContents Stamp → ℕ → Option Stamp → Option Stamp
since filled named captured = if holds filled.serial named then some filled.stamp else captured

-- `FilledContents::Filled`.
unfoldable pub fill {ℓ} : {Stamp : Type ℓ} → FilledContents Stamp → ℕ → Stamp → FilledContents Stamp
fill filled named written = record { serial = named; stamp = written }
