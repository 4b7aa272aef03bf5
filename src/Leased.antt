-- ===== src/Leased.antt =====
-- `LeasedArraySlots` of include/ORGModuleServices/Async/LeasedArraySlots.h: the vectors that slots hold
-- and readers lease. A vector is named by a number, in the order they are made; its use count is the
-- number of slots and leases that name it. A vector that nothing names stays in `vectors`.
pub mod Spared
use orgmodule_services.Common.{
  ℕ, zero, suc, ◌+◌, ◌-◌, Bool, true, false, Option, none, some, List, [], ◌∷◌, ◌++◌, ◌==◌,
  if◌then◌else◌, Result, ok, err, out_of_range, take, length,
}

pub record Slots {ℓ} (A : Type ℓ) : Type ℓ where
  pub vectors : ℕ → List A
  pub made : ℕ
  pub slots : List (Option ℕ)
  pub leases : List ℕ

unfoldable pub lease_uses : ℕ → List ℕ → ℕ
lease_uses v [] = 0
lease_uses v (l ∷ ls) = (if v == l then 1 else 0) + lease_uses v ls

unfoldable pub slot_uses : ℕ → List (Option ℕ) → ℕ
slot_uses v [] = 0
slot_uses v (none ∷ os) = slot_uses v os
slot_uses v (some l ∷ os) = (if v == l then 1 else 0) + slot_uses v os

unfoldable pub use_count {ℓ} : {A : Type ℓ} → ℕ → Slots A → ℕ
use_count v s = slot_uses v s.slots + lease_uses v s.leases

-- `m_slots.at`: none past the end.
unfoldable pub slot_at : ℕ → List (Option ℕ) → Option (Option ℕ)
slot_at i [] = none
slot_at zero (o ∷ os) = some o
slot_at (suc i) (o ∷ os) = slot_at i os

unfoldable pub set_slot : ℕ → ℕ → List (Option ℕ) → List (Option ℕ)
set_slot i v [] = []
set_slot zero v (o ∷ os) = some v ∷ os
set_slot (suc i) v (o ∷ os) = o ∷ set_slot i v os

unfoldable pub copies {ℓ} : {A : Type ℓ} → ℕ → A → List A
copies zero a = []
copies (suc n) a = a ∷ copies n a

unfoldable pub resize {ℓ} : {A : Type ℓ} → ℕ → A → List A → List A
resize count a xs = take count xs ++ copies (count - length xs) a

unfoldable pub put {ℓ} : {A : Type ℓ} → ℕ → List A → (ℕ → List A) → ℕ → List A
put v xs vectors k = if k == v then xs else vectors k

-- A new vector of `count` elements in the slot.
unfoldable pub make_vector {ℓ} : {A : Type ℓ} → A → ℕ → ℕ → Slots A → ℕ × Slots A
make_vector a slot count s = (
  s.made,
  record s {
    vectors = put s.made (copies count a) s.vectors;
    made = suc s.made;
    slots = set_slot slot s.made s.slots;
  },
)

-- A backing is resized where the slot alone holds it, and else replaced.
unfoldable pub prepare_backing {ℓ} : {A : Type ℓ} → A → ℕ → ℕ → Slots A → Option ℕ → ℕ × Slots A
prepare_backing a slot count s none = make_vector a slot count s
prepare_backing a slot count s (some v) =
    if use_count v s == 1
    then (v, record s { vectors = put v (resize count a (s.vectors v)) s.vectors })
    else make_vector a slot count s

-- `PrepareWrite`, with the value-initialized element: the vector whose span it returns.
unfoldable pub prepare_write {ℓ} : {A : Type ℓ} → A → ℕ → ℕ → Slots A → Result (ℕ × Slots A)
prepare_write a slot count s = elim (slot_at slot s.slots) [
  | none ↦ err out_of_range
  | some backing ↦ ok (prepare_backing a slot count s backing)
]

-- The caller's write through the span.
unfoldable pub write {ℓ} : {A : Type ℓ} → ℕ → List A → Slots A → Slots A
write v xs s = record s { vectors = put v xs s.vectors }

-- `Acquire`: an empty slot gives an empty lease.
unfoldable pub lease_of {ℓ} : {A : Type ℓ} → Slots A → Option ℕ → Option ℕ × Slots A
lease_of s none = (none, s)
lease_of s (some v) = (some v, record s { leases = v ∷ s.leases })

unfoldable pub acquire_slot {ℓ} : {A : Type ℓ} → ℕ → Slots A → Result (Option ℕ × Slots A)
acquire_slot slot s = elim (slot_at slot s.slots) [
  | none ↦ err out_of_range
  | some backing ↦ ok (lease_of s backing)
]

-- A reader that drops a lease of a vector.
unfoldable pub drop_one : ℕ → List ℕ → List ℕ
drop_one v [] = []
drop_one v (l ∷ ls) = let rest = drop_one v ls in if v == l then ls else l ∷ rest

unfoldable pub drop_slot_lease {ℓ} : {A : Type ℓ} → ℕ → Slots A → Slots A
drop_slot_lease v s = record s { leases = drop_one v s.leases }

-- A fresh storage of a number of slots.
unfoldable pub new_slots {ℓ} : {A : Type ℓ} → ℕ → Slots A
new_slots n = record { vectors = λ v. []; made = 0; slots = copies n none; leases = [] }
