-- ===== src/Leased/Spared.antt =====
-- `LeasedArraySlots`: what a write through a prepared span does to the vectors that readers lease.
use orgmodule_services.Common.{
  ℕ, zero, suc, ◌+◌, ◌≡◌, ◌≢◌, ◌≤◌, ◌<◌, refl, Option, none, some, List, [], ◌∷◌, ◌==◌,
  if◌then◌else◌, Result, ok, err, arith, subst, if-cases, some-cases,
}
use orgmodule_services.Leased.{
  Slots, lease_uses, slot_uses, use_count, slot_at, set_slot, put, copies, resize, make_vector,
  prepare_backing, prepare_write, write, lease_of, acquire_slot, drop_one, drop_slot_lease,
  new_slots,
}

-- Every vector that a slot or a lease names has been made.
pub record IsMade {ℓ} {A : Type ℓ} (s : Slots A) : Type 0 where
  pub slots_made : (v : ℕ) → 0 < slot_uses v s.slots → v < s.made
  pub leases_made : (v : ℕ) → 0 < lease_uses v s.leases → v < s.made

-- What a write into the prepared span leaves: every leased vector as it was.
abbrev pub Spares {ℓ} : {A : Type ℓ} → Slots A → ℕ × Slots A → Type ℓ
Spares {A = A} s (v, prepared) =
    (l : ℕ) (xs : List A)
    → 0 < lease_uses l s.leases
    → (write v xs prepared).vectors l ≡ s.vectors l

abbrev pub ResultSpares {ℓ} : {A : Type ℓ} → Slots A → Result (ℕ × Slots A) → Type ℓ
ResultSpares s (ok p) = Spares s p
ResultSpares s (err f) = Unit

-- What a call leaves, where an exception leaves the state as it was.
abbrev pub left_by {ℓ} : {A : Type ℓ} {B : Type 0} → Slots A → Result (B × Slots A) → Slots A
left_by s (ok p) = p.1
left_by s (err f) = s

abbrev pub written_by {ℓ} : {A : Type ℓ} → List A → Slots A → Result (ℕ × Slots A) → Slots A
written_by xs s (ok (v, p)) = write v xs p
written_by xs s (err f) = s

-- A writer that prepares a slot and writes it, a reader's lease, and its end.
pub data Call {ℓ} (A : Type ℓ) : Type ℓ where
  write_call : ℕ → ℕ → List A → Call A
  lease_call : ℕ → Call A
  drop_call : ℕ → Call A

unfoldable pub called {ℓ} : {A : Type ℓ} → A → Call A → Slots A → Slots A
called a (write_call slot count xs) s = written_by xs s (prepare_write a slot count s)
called a (lease_call slot) s = left_by s (acquire_slot slot s)
called a (drop_call v) s = drop_slot_lease v s

pub data Reached {ℓ} {A : Type ℓ} (a : A) : Slots A → Type ℓ where
  made : (n : ℕ) → Reached a (new_slots n)
  later : (c : Call A) (s : Slots A) → Reached a s → Reached a (called a c s)

slot_uses-set_slot :
    (i v l : ℕ) (os : List (Option ℕ))
    → slot_uses l (set_slot i v os) ≤ (if l == v then 1 else 0) + slot_uses l os
unfolding slot_uses set_slot
slot_uses-set_slot i v l [] = ground arith
slot_uses-set_slot zero v l (none ∷ os) = omega arith
slot_uses-set_slot zero v l (some k ∷ os) = omega arith
slot_uses-set_slot (suc i) v l (none ∷ os) = slot_uses-set_slot i v l os
slot_uses-set_slot (suc i) v l (some k ∷ os) =
    let h = slot_uses-set_slot i v l os in omega (arith, h)

slot_uses-slot_at :
    (i v : ℕ) (os : List (Option ℕ)) → slot_at i os ≡ some (some v) → 0 < slot_uses v os
unfolding slot_uses slot_at
slot_uses-slot_at i v [] h = absurd cc
slot_uses-slot_at zero v (none ∷ os) h = absurd cc
slot_uses-slot_at zero v (some k ∷ os) h = let e : k ≡ v = cc in ground (arith, e)
slot_uses-slot_at (suc i) v (none ∷ os) h = slot_uses-slot_at i v os h
slot_uses-slot_at (suc i) v (some k ∷ os) h =
    let rest = slot_uses-slot_at i v os h in omega (arith, rest)

put-other {ℓ} :
    {A : Type ℓ} (v : ℕ) (xs : List A) (f : ℕ → List A) (k : ℕ) → k ≢ v → put v xs f k ≡ f k
unfolding put
put-other v xs f k h = ground (arith, h)

make_vector-Spares {ℓ} :
    {A : Type ℓ} (a : A) (slot count : ℕ) (s : Slots A)
    → IsMade s
    → Spares s (make_vector a slot count s)
unfolding make_vector write
make_vector-Spares a slot count s m l xs h =
    let other : l ≢ s.made = λ e. let before = m.leases_made l h in omega (arith, e, before) in
    rw (put-other s.made xs (put s.made (copies count a) s.vectors) l other)
      (put-other s.made (copies count a) s.vectors l other)

make_vector-IsMade {ℓ} :
    {A : Type ℓ} (a : A) (slot count : ℕ) (s : Slots A)
    → IsMade s
    → IsMade (make_vector a slot count s).1
unfolding make_vector
make_vector-IsMade a slot count s m = record {
  slots_made = λ v h.
      let set = slot_uses-set_slot slot s.made v s.slots in
      let before = m.slots_made v in ground (arith, h, set, before);
  leases_made = λ v h. let before = m.leases_made v h in omega (arith, before);
}

prepare_backing-Spares {ℓ} :
    {A : Type ℓ} (a : A) (slot count : ℕ) (s : Slots A) (backing : Option ℕ)
    → slot_at slot s.slots ≡ some backing
    → IsMade s
    → Spares s (prepare_backing a slot count s backing)
unfolding prepare_backing use_count write
prepare_backing-Spares a slot count s none e m = make_vector-Spares a slot count s m
prepare_backing-Spares a slot count s (some v) e m =
    if-cases (Spares s) (use_count v s == 1) _ _
      (λ alone l xs h.
        let held = slot_uses-slot_at slot v s.slots e in
        let other : l ≢ v = λ same.
          let used : 0 < lease_uses v s.leases = subst (λ k. 0 < lease_uses k s.leases) same h in
          ground (arith, alone, held, used) in
        rw (put-other v xs (put v (resize count a (s.vectors v)) s.vectors) l other)
          (put-other v (resize count a (s.vectors v)) s.vectors l other))
      (λ shared. make_vector-Spares a slot count s m)

prepare_backing-IsMade {ℓ} :
    {A : Type ℓ} (a : A) (slot count : ℕ) (s : Slots A) (backing : Option ℕ)
    → IsMade s
    → IsMade (prepare_backing a slot count s backing).1
unfolding prepare_backing
prepare_backing-IsMade {A = A} a slot count s none m = make_vector-IsMade a slot count s m
prepare_backing-IsMade {A = A} a slot count s (some v) m =
    if-cases (λ (p : ℕ × Slots A). IsMade (p.1)) (use_count v s == 1) _ _
      (λ alone. record { slots_made = m.slots_made; leases_made = m.leases_made })
      (λ shared. make_vector-IsMade a slot count s m)

lease_of-IsMade {ℓ} :
    {A : Type ℓ} (s : Slots A) (slot : ℕ) (backing : Option ℕ)
    → slot_at slot s.slots ≡ some backing
    → IsMade s
    → IsMade (lease_of s backing).1
unfolding lease_of lease_uses
lease_of-IsMade s slot none e m = m
lease_of-IsMade s slot (some v) e m = record {
  slots_made = m.slots_made;
  leases_made = λ l h.
      let held = m.slots_made v (slot_uses-slot_at slot v s.slots e) in
      let before = m.leases_made l in ground (arith, h, held, before);
}

lease_uses-drop_one : (l v : ℕ) (ls : List ℕ) → lease_uses l (drop_one v ls) ≤ lease_uses l ls
unfolding lease_uses drop_one
lease_uses-drop_one l v [] = omega arith
lease_uses-drop_one l v (k ∷ ls) = let rest = lease_uses-drop_one l v ls in ground (arith, rest)

slot_uses-copies : (v n : ℕ) → slot_uses v (copies n none) ≡ 0
unfolding slot_uses copies
slot_uses-copies v zero = refl
slot_uses-copies v (suc n) = slot_uses-copies v n

called-IsMade {ℓ} :
    {A : Type ℓ} (a : A) (c : Call A) (s : Slots A) → IsMade s → IsMade (called a c s)
unfolding called prepare_write acquire_slot drop_slot_lease write
called-IsMade a (write_call slot count xs) s m =
    some-cases (λ r. IsMade (written_by xs s r)) (slot_at slot s.slots) _ _ m
      (λ backing e.
        let p = prepare_backing-IsMade a slot count s backing m in
        record { slots_made = p.slots_made; leases_made = p.leases_made })
called-IsMade a (lease_call slot) s m =
    some-cases (λ r. IsMade (left_by {B = Option ℕ} s r)) (slot_at slot s.slots) _ _ m
      (λ backing e. lease_of-IsMade s slot backing e m)
called-IsMade a (drop_call v) s m = record {
  slots_made = m.slots_made;
  leases_made = λ l h.
      let less = lease_uses-drop_one l v s.leases in m.leases_made l (omega (arith, h, less));
}

Reached-IsMade {ℓ} : {A : Type ℓ} (a : A) (s : Slots A) → Reached a s → IsMade s
unfolding new_slots lease_uses
Reached-IsMade a _ (made n) = record {
  slots_made = λ v h. let empty = slot_uses-copies v n in omega (arith, h, empty);
  leases_made = λ v h. omega (arith, h);
}
Reached-IsMade a _ (later c s r) = called-IsMade a c s (Reached-IsMade a s r)

-- In every state that writes, leases and drops of leases make of fresh slots: where PrepareWrite does
-- not throw, whatever the caller then writes through the span it got, every vector that a reader
-- leases holds what it held before the call.
pub prepare_write-ResultSpares {ℓ} :
    {A : Type ℓ} (a : A) (s : Slots A)
    → Reached a s
    → (slot count : ℕ) → ResultSpares s (prepare_write a slot count s)
unfolding prepare_write
prepare_write-ResultSpares a s r slot count =
    some-cases (ResultSpares s) (slot_at slot s.slots) _ _ tt
      (λ backing e. prepare_backing-Spares a slot count s backing e (Reached-IsMade a s r))
