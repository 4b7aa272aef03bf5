-- ===== src/Exchange.antt =====
-- include/ORGModuleServices/Async/PublicationExchange.h: three slots between one producer (the
-- coordinator) and one consumer (the frame owner). Each thread's call is a chain of steps of at
-- most one atomic operation each; a state is what memory holds and where each thread stands.
pub mod WaitFree
use orgmodule_services.Common.{
  ℕ, suc, ltb, ◌==◌, if◌then◌else◌, Bool, true, false, Option, none, some, List, [], ◌∷◌,
}

pub data SlotState : Type 0 where
  empty ready active retired : SlotState

-- Where a call of `TryPublish`, `TryReplace` or `ReclaimRetired` stands, with the candidate that it
-- still owns. Numbers name the slot that the next step reads or writes.
pub data Producer {ℓ} (A : Type ℓ) : Type ℓ where
  at_rest : Producer A
  -- TryReplace: before `m_ready.exchange(kNone)`, and before the slot taken back is retired.
  take_back : A → Producer A
  retire_ready : A → ℕ → Producer A
  -- TryPublish: before the load of `m_ready`.
  check_ready : A → Producer A
  -- ReclaimRetired's loop, in a call with a candidate or of its own: before the load of a slot's
  -- state, and before a retired slot is emptied.
  reclaim : Option A → ℕ → Producer A
  empty_slot : Option A → ℕ → Producer A
  -- TryPublish's loop: before the load of a slot's state, before the slot is filled, before
  -- `m_ready.store(i)`.
  scan : A → ℕ → Producer A
  fill : A → ℕ → Producer A
  announce : ℕ → Producer A
  -- The call has returned: whether it published.
  returned : Bool → Producer A

pub data Selection : Type 0 where
  unchanged selected rejected : Selection

-- Where a call of `TrySelect` or `ClearActive` stands.
pub data Consumer : Type 0 where
  at_rest : Consumer
  -- TrySelect: before `m_ready.exchange(kNone)`, before `accept` is asked, before the slot becomes
  -- the active one, before a refused slot is retired.
  take_ready : Consumer
  judge : ℕ → Consumer
  activate : ℕ → Consumer
  reject : ℕ → Consumer
  -- ClearActive: before `m_active` is exchanged.
  clear : Consumer
  -- Before the slot that was active is retired; what the call returns then.
  retire : ℕ → Selection → Consumer
  returned : Selection → Consumer
  -- `*slot.value` of a slot that holds nothing.
  null_read : Consumer

pub record State {ℓ} (A : Type ℓ) : Type ℓ where
  pub slot_state : ℕ → SlotState
  pub slot_value : ℕ → Option A
  pub ready_index : Option ℕ  -- m_ready; kNone is none
  pub active_index : Option ℕ  -- m_active, the consumer's own
  pub producer : Producer A
  pub consumer : Consumer

abbrev pub update {ℓ} : {A : Type ℓ} → (ℕ → A) → ℕ → A → ℕ → A
update f i v j = if i == j then v else f j

-- The calls that each thread may make; a candidate may be null.
pub data ProducerCall {ℓ} (A : Type ℓ) : Type ℓ where
  try_publish try_replace : Option A → ProducerCall A
  reclaim_retired : ProducerCall A

abbrev pub slot_count : ℕ
slot_count = 3

abbrev pub is_state_empty : SlotState → Bool
is_state_empty empty = true
is_state_empty _ = false

abbrev pub is_state_retired : SlotState → Bool
is_state_retired retired = true
is_state_retired _ = false

module _ {ℓ} {A : Type ℓ} where
  unfoldable pub initial : State A
  initial = record {
    slot_state = λ i. SlotState.empty;
    slot_value = λ i. none;
    ready_index = none;
    active_index = none;
    producer = Producer.at_rest;
    consumer = Consumer.at_rest;
  }

  unfoldable pub begin_producer : ProducerCall A → Producer A
  begin_producer (try_publish (some candidate)) = check_ready candidate
  begin_producer (try_publish none) = Producer.returned false
  begin_producer (try_replace (some candidate)) = take_back candidate
  begin_producer (try_replace none) = Producer.returned false
  begin_producer reclaim_retired = reclaim none 0

  unfoldable pub take_back_step : State A → A → Option ℕ → State A
  take_back_step s candidate none = record s { producer = check_ready candidate }
  take_back_step s candidate (some i) = record s {
    ready_index = none;
    producer = retire_ready candidate i;
  }

  unfoldable pub check_step : State A → A → Option ℕ → State A
  check_step s candidate none = record s { producer = reclaim (some candidate) 0 }
  check_step s candidate (some i) = record s { producer = Producer.returned false }

  unfoldable pub end_reclaim : Option A → Producer A
  end_reclaim none = Producer.at_rest
  end_reclaim (some candidate) = scan candidate 0

  -- One step of the producer's call.
  unfoldable pub producer_step : State A → Producer A → State A
  unfolding take_back_step check_step end_reclaim
  producer_step s at_rest = s
  producer_step s (take_back candidate) = take_back_step s candidate s.ready_index
  producer_step s (retire_ready candidate i) = record s {
    slot_state = update s.slot_state i retired;
    producer = check_ready candidate;
  }
  producer_step s (check_ready candidate) = check_step s candidate s.ready_index
  producer_step s (reclaim candidate i) =
      if ltb i slot_count
      then record s {
        producer =
            if is_state_retired (s.slot_state i)
            then empty_slot candidate i
            else reclaim candidate (suc i);
      }
      else record s { producer = end_reclaim candidate }
  producer_step s (empty_slot candidate i) = record s {
    slot_value = update s.slot_value i none;
    slot_state = update s.slot_state i empty;
    producer = reclaim candidate (suc i);
  }
  producer_step s (scan candidate i) =
      if ltb i slot_count
      then record s {
        producer =
            if is_state_empty (s.slot_state i) then fill candidate i else scan candidate (suc i);
      }
      else record s { producer = Producer.returned false }
  producer_step s (fill candidate i) = record s {
    slot_value = update s.slot_value i (some candidate);
    slot_state = update s.slot_state i ready;
    producer = announce i;
  }
  producer_step s (announce i) = record s {
    ready_index = some i;
    producer = Producer.returned true;
  }
  producer_step s (returned b) = s

  unfoldable pub take_step : State A → Option ℕ → State A
  take_step s none = record s { consumer = Consumer.returned unchanged }
  take_step s (some i) = record s { ready_index = none; consumer = judge i }

  unfoldable pub judge_step : (A → Bool) → ℕ → Option A → Consumer
  judge_step accept i none = null_read
  judge_step accept i (some value) = if accept value then activate i else reject i

  -- One step of the consumer's call; `accept` is its admission predicate.
  unfoldable pub consumer_step : (A → Bool) → State A → Consumer → State A
  unfolding take_step judge_step
  consumer_step accept s at_rest = s
  consumer_step accept s take_ready = take_step s s.ready_index
  consumer_step accept s (judge i) = record s { consumer = judge_step accept i (s.slot_value i) }
  consumer_step accept s (activate i) = record s {
    active_index = some i;
    slot_state = update s.slot_state i active;
    consumer = elim s.active_index [
      | none ↦ Consumer.returned selected
      | some previous ↦ retire previous selected
    ];
  }
  consumer_step accept s (reject i) = record s {
    slot_state = update s.slot_state i retired;
    consumer = Consumer.returned rejected;
  }
  consumer_step accept s clear = record s {
    active_index = none;
    consumer = elim s.active_index [
      | none ↦ Consumer.returned unchanged
      | some previous ↦ retire previous unchanged
    ];
  }
  consumer_step accept s (retire i result) = record s {
    slot_state = update s.slot_state i retired;
    consumer = Consumer.returned result;
  }
  consumer_step accept s (returned r) = s
  consumer_step accept s null_read = s
