-- ===== src/Pump/Word.antt =====
-- The pump's word: the state in its low two bits, the epoch above them.
use orgmodule_services.Common.{ℕ, ◌+◌, ◌*◌, ◌/◌, ◌%◌, ◌≡◌, u64, arith, ◌==◌, if◌then◌else◌}
use orgmodule_services.Pump.{PumpState, idle, scheduled, running, stopping, next_epoch, epoch_mod}

abbrev pub code_of : PumpState → ℕ
code_of idle = 0
code_of scheduled = 1
code_of running = 2
code_of stopping = 3

-- `Word`: the shift drops the bits past the word, and the low two are free for the state.
unfoldable pub word : PumpState → ℕ → ℕ
word state epoch = u64 (epoch * 4) + code_of state

-- `StateOf` and `EpochOf`
unfoldable pub state_of : ℕ → PumpState
state_of w =
    if w % 4 == 0
    then idle
    else if w % 4 == 1
    then scheduled
    else if w % 4 == 2
    then running
    else stopping

unfoldable pub epoch_of : ℕ → ℕ
epoch_of w = w / 4

-- `fetch_or(kStateMask)`
unfoldable pub stop_word : ℕ → ℕ
stop_word w = w / 4 * 4 + 3

-- The word gives its two parts back, the epoch up to its 62 bits; the next epoch's word is that of
-- the epoch counted in 62 bits; and the stopping word keeps the epoch.
pub word-parts :
    (state : PumpState) (epoch : ℕ)
    → (state_of (word state epoch) ≡ state)
      × (epoch_of (word state epoch) ≡ epoch % epoch_mod)
      × (word state (epoch + 1) ≡ word state (next_epoch epoch))
      × (stop_word (word state epoch) ≡ word stopping epoch)
unfolding word state_of epoch_of stop_word
word-parts idle epoch = (ground arith, omega arith, omega arith, omega arith)
word-parts scheduled epoch = (ground arith, omega arith, omega arith, omega arith)
word-parts running epoch = (ground arith, omega arith, omega arith, omega arith)
word-parts stopping epoch = (ground arith, omega arith, omega arith, omega arith)
