-- ===== src/BackingPool/Backing.antt =====
-- One pooled allocation, what a caller asks of the pool, and the tests of reuse.
use orgmodule_services.Common.{
  ℕ, ◌*◌, Bool, true, false, not, ◌&&◌, Option, ltb, leb, ◌==◌, if◌then◌else◌, u64, List, [], ◌∷◌,
}

pub record BackingFlags : Type 0 where
  pub unordered_access : Bool
  pub indirect_arguments : Bool
  pub device_address : Bool

abbrev pub same_bool : Bool → Bool → Bool
same_bool true b = b
same_bool false b = not b

-- A request for a backing. What only the allocation hook reads (`name`, `like`) is not here.
pub record BackingRequest : Type 0 where
  pub capacity_class : ℕ  -- std::uint64_t
  pub stride : ℕ  -- std::uint32_t
  pub flags : BackingFlags
  pub compatibility : ℕ

pub byte_capacity_of : BackingRequest → ℕ
byte_capacity_of request =
    if request.stride == 0
    then request.capacity_class
    else u64 (request.capacity_class * request.stride)

-- What the allocation hook makes; a buffer is named by a number.
pub record BackingAllocation : Type 0 where
  pub buffer : Option ℕ
  pub address : ℕ
  pub srv_index : ℕ

pub record Backing : Type 0 where
  pub buffer : Option ℕ
  pub generation : ℕ
  pub capacity_class : ℕ
  pub byte_capacity : ℕ
  pub address : ℕ
  pub srv_index : ℕ
  pub stride : ℕ
  pub flags : BackingFlags
  pub compatibility : ℕ
  pub content_epoch : ℕ
  pub sealed_bytes : ℕ
  pub safe_at : ℕ
  pub leases : ℕ
  pub retired : Bool
  pub readback_pins : ℕ
  pub binding_consumers : ℕ

-- `State::Key`, of a backing and of a request.
pub record Key : Type 0 where
  pub stride : ℕ
  pub flags : BackingFlags
  pub compatibility : ℕ

abbrev pub key_of : Backing → Key
key_of b = record { stride = b.stride; flags = b.flags; compatibility = b.compatibility }

abbrev pub request_key : BackingRequest → Key
request_key r = record { stride = r.stride; flags = r.flags; compatibility = r.compatibility }

abbrev pub same_flags : BackingFlags → BackingFlags → Bool
same_flags a b =
    same_bool a.unordered_access b.unordered_access
    && (same_bool a.indirect_arguments b.indirect_arguments
        && same_bool a.device_address b.device_address)

unfoldable pub same_key : Key → Key → Bool
same_key a b =
    a.stride == b.stride && (same_flags a.flags b.flags && a.compatibility == b.compatibility)

-- `Reusable`, at the clock's completed point.
unfoldable pub reusable : ℕ → Backing → Bool
reusable completed b =
    b.leases == 0 && (leb b.safe_at completed && (b.readback_pins == 0 && b.binding_consumers == 0))

-- `TryClaim`: the backing, and whether it left circulation.
unfoldable pub try_claim : Backing → Backing × Bool
try_claim b =
    let marked = record b { retired = true } in
    if marked.binding_consumers == 0
    then (marked, true)
    else (record marked { retired = false }, false)

-- `BackingLease::Bind`: the latest point wins.
unfoldable pub bind : ℕ → Backing → Backing
bind point b = if ltb b.safe_at point then record b { safe_at = point } else b

-- Nearest the journal first: the highest epoch at or below the preferred one, then the lowest past it.
unfoldable pub nearer : ℕ → Backing → Backing → Bool
nearer prefer a b =
    let ua = leb a.content_epoch prefer in
    let ub = leb b.content_epoch prefer in
    if not (same_bool ua ub)
    then ua
    else if ua
    then ltb b.content_epoch a.content_epoch
    else ltb a.content_epoch b.content_epoch

-- A sort by a test of order. `std::ranges::sort` leaves the order of equals open; here they keep it.
unfoldable pub insert_by : (Backing → Backing → Bool) → Backing → List Backing → List Backing
insert_by before x [] = x ∷ []
insert_by before x (y ∷ ys) =
    let rest = insert_by before x ys in if before y x then y ∷ rest else x ∷ y ∷ ys

unfoldable pub sort_by : (Backing → Backing → Bool) → List Backing → List Backing
unfolding insert_by
sort_by before [] = []
sort_by before (x ∷ xs) = insert_by before x (sort_by before xs)
