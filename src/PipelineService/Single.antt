-- ===== src/PipelineService/Single.antt =====
-- The active pipelines of src/PipelineService.cpp: one of each id.
use orgmodule_services.Common.{
  ℕ, ◌≡◌, ◌≢◌, Bool, true, false, Option, none, some, ◌==◌, arith, if-cases, elim-cases,
}
use orgmodule_services.PipelineService.{Artifact, Service, write}
use orgmodule_services.PipelineService.Publishing.{displace, activate, forget, publish_one}

abbrev pub has {ℓ} : {A : Type ℓ} → Option A → Bool
has o = elim o [ none ↦ false | some a ↦ true ]

-- The ids and the active keys are in step: an id's key is active and has that id, and an active key has an
-- id, whose key it is.
pub record IsSingle (s : Service) : Type 0 where
  pub keyed : (i k : ℕ) → s.active_key_by_id i ≡ some k → has (s.active k) ≡ true
  pub named : (i k : ℕ) → s.active_key_by_id i ≡ some k → s.ids_by_key k ≡ some i
  pub listed :
      (i k : ℕ) → has (s.active k) ≡ true → s.ids_by_key k ≡ some i → s.active_key_by_id i ≡ some k
  pub identified : (k : ℕ) → has (s.active k) ≡ true → has (s.ids_by_key k) ≡ true

-- The id has no active pipeline, the others are in step.
record IsVacant (key id : ℕ) (s : Service) : Type 0 where
  keyed : (i k : ℕ) → i ≢ id → s.active_key_by_id i ≡ some k → has (s.active k) ≡ true
  named : (i k : ℕ) → i ≢ id → s.active_key_by_id i ≡ some k → s.ids_by_key k ≡ some i
  listed :
      (i k : ℕ) → has (s.active k) ≡ true → s.ids_by_key k ≡ some i → s.active_key_by_id i ≡ some k
  vacant : (k : ℕ) → has (s.active k) ≡ true → s.ids_by_key k ≢ some id
  identified : (k : ℕ) → has (s.active k) ≡ true → has (s.ids_by_key k) ≡ true
  own : s.ids_by_key key ≡ some id

displace-IsVacant :
    (fence key id : ℕ) (s : Service)
    → IsSingle s
    → has (s.active key) ≡ false
    → s.ids_by_key key ≡ some id
    → IsVacant key id (displace fence key id s)
unfolding displace write
displace-IsVacant fence key id s c free own =
    elim-cases (IsVacant key id) (s.active_key_by_id id) _ _
      (λ e. record {
        keyed = λ i k n. c.keyed i k;
        named = λ i k n. c.named i k;
        listed = c.listed;
        vacant = λ k h same. (let there = c.listed id k h same in cc);
        identified = c.identified;
        own = own;
      })
      (λ prior e.
        if-cases (IsVacant key id) (prior == key) _ _
          (λ same. absurd (let there = c.keyed id prior e in ground (arith, there, same, free)))
          (λ other.
            let was = c.named id prior e in
            record {
              keyed = λ i k n h.
                  (let there = c.keyed i k h in
                    let name = c.named i k h in ground (arith, there, name, was, n, h));
              named = λ i k n h. (let name = c.named i k h in ground (arith, name, was, n));
              listed = λ i k h name. (let kept = c.listed i k in ground (arith, kept, h, name));
              vacant = λ k h same. (let kept = c.listed id k in ground (arith, kept, h, same, e));
              identified = λ k h. (let kept = c.identified k in ground (arith, kept, h));
              own = ground (arith, own, other);
            }))

activate-IsSingle :
    (fence key id : ℕ) (a : Artifact) (s : Service)
    → IsVacant key id s
    → IsSingle (activate fence key id a s)
unfolding activate write
activate-IsSingle fence key id a s c = record {
  keyed = λ i k h. (let kept = c.keyed i k in ground (arith, kept, h));
  named = λ i k h. (let kept = c.named i k in let mine = c.own in ground (arith, kept, mine, h));
  listed = λ i k h name.
      (let kept = c.listed i k in
        let none_left = c.vacant k in
        let mine = c.own in ground (arith, kept, none_left, mine, h, name));
  identified =
      λ k h. (let kept = c.identified k in let mine = c.own in ground (arith, kept, mine, h));
}

forget-IsSingle : (key : ℕ) (s : Service) → IsSingle s → IsSingle (forget key s)
unfolding forget write
forget-IsSingle key s c =
    elim-cases IsSingle (s.active key) _ _
      (λ e. record {
        keyed = c.keyed;
        named = λ i k h.
            (let there = c.keyed i k h in
              let name = c.named i k h in ground (arith, there, name, e));
        listed = λ i k h name. (let kept = c.listed i k in ground (arith, kept, h, name));
        identified = λ k h. (let kept = c.identified k in ground (arith, kept, h, e));
      })
      (λ a e. c)

pub publish_one-IsSingle :
    (fence key : ℕ) (a : Artifact) (s : Service)
    → has (s.active key) ≡ false
    → IsSingle s
    → IsSingle (publish_one fence key a s)
unfolding publish_one
publish_one-IsSingle fence key a s free c =
    elim-cases IsSingle (s.ids_by_key key) _ _ (λ e. c)
      (λ id own.
        elim-cases IsSingle a.payload _ _ (λ e. forget-IsSingle key s c)
          (λ p e.
            activate-IsSingle fence key id a (displace fence key id s)
              (displace-IsVacant fence key id s c free own)))

-- A key that is not active stays so, but the one published.
IsFree : ℕ → Service → Type 0
IsFree k s = has (s.active k) ≡ false

displace-IsFree :
    (fence key id k : ℕ) (s : Service) → IsFree k s → IsFree k (displace fence key id s)
unfolding displace write IsFree
displace-IsFree fence key id k s free =
    elim-cases (λ (t : Service). has (t.active k) ≡ false) (s.active_key_by_id id) _ _ (λ e. free)
      (λ prior e.
        if-cases (λ (t : Service). has (t.active k) ≡ false) (prior == key) _ _ (λ same. free)
          (λ other. ground (arith, free)))

pub publish_one-free :
    (fence key k : ℕ) (a : Artifact) (s : Service)
    → k ≢ key
    → has (s.active k) ≡ false
    → has ((publish_one fence key a s).active k) ≡ false
unfolding publish_one activate forget write IsFree
publish_one-free fence key k a s ne free =
    elim-cases (λ (t : Service). has (t.active k) ≡ false) (s.ids_by_key key) _ _ (λ e. free)
      (λ id own.
        elim-cases (λ (t : Service). has (t.active k) ≡ false) a.payload _ _
          (λ e.
            elim-cases (λ (t : Service). has (t.active k) ≡ false) (s.active key) _ _ (λ e. free)
              (λ o e. free))
          (λ p e. (let kept = displace-IsFree fence key id k s free in ground (arith, kept, ne))))
