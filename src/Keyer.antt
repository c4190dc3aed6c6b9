-- ===== src/Keyer.antt =====
-- App/keyer/Keyer.cpp, App/keyer/Keyer.h, App/utils/IDitDah.h: the iambic keyer.
-- A call to an output device (IKeyerCW) is an entry of a log, newest last; each entry goes to every
-- device of m_keyerCWList, so the list itself is left out of the log. m_lastPressed and
-- m_lastQueued have no initialiser in the source: `none` is the indeterminate value.
-- A handler runs whole between two others. The thread object is reduced to whether it runs.
pub mod Threads
pub mod Calls
pub mod Safety
pub mod Squeeze
pub mod Release
mod Tests
use cwkeyer.Base.{
  ℕ, ◌+◌, ◌==◌, Bool, true, false, ◌&&◌, List, [], ◌∷◌, ◌++◌, Option, none, some, length, ltb,
  if◌then◌else◌,
}
use cwkeyer.Base.Int.{ℤ, pos, ◌+ℤ◌}
use cwkeyer.Timing.{KeyerItem, dit, dah, inter_element_space, calculate_duration}

-- enum Mode
pub data Mode : Type 0 where
  ultimatic iambic_a iambic_b : Mode

-- A call to the output devices, or a sleep of the keyer's thread.
pub data Output : Type 0 where
  run_cw : KeyerItem → ℤ → Output
  start_run_cw stop_run_cw : Output
  sleep_for : ℤ → Output

pub record Keyer : Type 0 where
  pub dit_time : ℤ
  pub dah_time : ℤ
  pub space_time : ℤ
  pub dit_pressed : Bool
  pub dah_pressed : Bool
  pub last_pressed : Option KeyerItem
  pub last_queued : Option KeyerItem
  pub mode : Mode
  pub queue : List KeyerItem
  pub started : Bool
  pub log : List Output

-- The initialisers of the class.
unfoldable pub new_keyer : Keyer
new_keyer = record {
  dit_time = pos 0;
  dah_time = pos 0;
  space_time = pos 0;
  dit_pressed = false;
  dah_pressed = false;
  last_pressed = none;
  last_queued = none;
  mode = iambic_b;
  queue = [];
  started = false;
  log = [];
}

-- Keyer::stopKeyer. The queue and the pressed flags stay as they are.
unfoldable pub stop_keyer : Keyer → Keyer
stop_keyer k = if k.started then record k { started = false } else k

-- Keyer::initKeyer; `none` is the fault of a division by zero, reached after the stop.
unfoldable pub init_keyer : ℤ → Mode → Keyer → Option Keyer
unfolding stop_keyer
init_keyer wpm mode k = elim (calculate_duration dit wpm) [
  | none ↦ none
  | some d ↦ elim (calculate_duration dah wpm) [
    | none ↦ none
    | some h ↦ elim (calculate_duration inter_element_space wpm) [
      | none ↦ none
      | some s ↦ some (record (stop_keyer k) {
        dit_time = d;
        dah_time = h;
        space_time = s;
        mode = mode;
        started = true;
      })
    ]
  ]
]

-- Keyer::enqueue: at most one element waits.
unfoldable pub enqueue : KeyerItem → Keyer → Keyer
enqueue item k =
    if ltb (length k.queue) 1
    then record k { last_queued = some item; queue = k.queue ++ item ∷ [] }
    else k

unfoldable pub on_dit : Bool → Keyer → Keyer
unfolding enqueue
on_dit pressed k =
    if pressed
    then enqueue dit (record k { dit_pressed = true; last_pressed = some dit })
    else record k { dit_pressed = false }

unfoldable pub on_dah : Bool → Keyer → Keyer
unfolding enqueue
on_dah pressed k =
    if pressed
    then enqueue dah (record k { dah_pressed = true; last_pressed = some dah })
    else record k { dah_pressed = false }

abbrev pub emit : Output → Keyer → Keyer
emit o k = record k { log = k.log ++ o ∷ [] }

-- Keyer::onStraight goes to the devices directly.
unfoldable pub on_straight : Bool → Keyer → Keyer
on_straight pressed k = emit (if pressed then start_run_cw else stop_run_cw) k

unfoldable pub play_dit_dah : KeyerItem → Keyer → Keyer
play_dit_dah dit k = emit (sleep_for (k.dit_time +ℤ k.space_time)) (emit (run_cw dit k.dit_time) k)
play_dit_dah dah k = emit (sleep_for (k.dah_time +ℤ k.space_time)) (emit (run_cw dah k.dah_time) k)
play_dit_dah _ k = k

unfoldable pub opposite : KeyerItem → KeyerItem
opposite dit = dah
opposite _ = dit

-- An element that is played, with the squeeze sampled before the sleep.
pub record Playing : Type 0 where
  pub item : KeyerItem
  pub squeeze : Bool

-- One round of Keyer::keyerCall up to the sleep in playDitDah: the wait for an element, its
-- removal, the sample of the squeeze, and the calls to the devices. `none` is the wait, or the end
-- of the loop.
unfoldable pub take_item : List KeyerItem → Keyer → Option (Playing × Keyer)
unfolding play_dit_dah
take_item [] k = none
take_item (item ∷ rest) k = some (
  record { item = item; squeeze = k.dit_pressed && k.dah_pressed },
  play_dit_dah item (record k { queue = rest }),
)

unfoldable pub begin_item : Keyer → Option (Playing × Keyer)
unfolding take_item
begin_item k = if k.started then take_item k.queue k else none

-- `enqueue` of a field that may be indeterminate: reading it then is a fault.
unfoldable pub enqueue_field : Option KeyerItem → Keyer → Option Keyer
enqueue_field none k = none
enqueue_field (some item) k = some (enqueue item k)

unfoldable pub opposite_field : Option KeyerItem → Option KeyerItem
unfolding opposite
opposite_field none = none
opposite_field (some item) = some (opposite item)

-- The choice after a squeeze, by the mode.
unfoldable pub after_squeeze : Mode → Keyer → Option Keyer
unfolding enqueue_field opposite_field
after_squeeze ultimatic k = enqueue_field k.last_pressed k
after_squeeze iambic_a k = enqueue_field (opposite_field k.last_queued) k
after_squeeze iambic_b k = enqueue_field (opposite_field k.last_queued) k

-- The rest of the round of Keyer::keyerCall, after the sleep; paddle events may have come between.
unfoldable pub end_item : Playing → Keyer → Option Keyer
end_item p k =
    if p.squeeze
    then after_squeeze k.mode k
    else if k.dit_pressed
    then some (enqueue dit k)
    else if k.dah_pressed
    then some (enqueue dah k)
    else some k
