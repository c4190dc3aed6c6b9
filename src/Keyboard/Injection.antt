-- ===== src/Keyboard/Injection.antt =====
-- App/keyboard/Keyboard_linux.cpp, Keyboard.h: paddle changes passed on as keys of a virtual
-- keyboard. The queued signals ditChanged and dahChanged are delivered in order.
use mathlib.Core.List.{append-nil, append_assoc}
use cwkeyer.Base.{◌≡◌, sym, Bool, true, false, List, [], ◌∷◌, ◌++◌, if◌then◌else◌, arith}
use cwkeyer.Paddle.{Call, on_dit, on_dah, on_straight}

-- KEY_SEMICOLON and KEY_EQUAL, for the dit and the dah.
pub data KeyCode : Type 0 where
  key_semicolon : KeyCode
  key_equal : KeyCode

pub data InputEvent : Type 0 where
  ev_key : KeyCode → Bool → InputEvent
  syn_report : InputEvent

-- `opened` is g_uinputFd ≥ 0; `events` are the events written.
pub record Keyboard : Type 0 where
  pub opened : Bool
  pub enabled : Bool
  pub events : List InputEvent

unfoldable pub uinput_emit : InputEvent → Keyboard → Keyboard
uinput_emit e k = record k { events = k.events ++ e ∷ [] }

-- setupUInput; `opens` is the result of open.
unfoldable pub setup_uinput : Bool → Keyboard → Keyboard
setup_uinput opens k = record k { opened = opens }

unfoldable pub teardown_uinput : Keyboard → Keyboard
teardown_uinput k = if k.opened then record k { opened = false } else k

-- Keyboard::Keyboard and Keyboard::~Keyboard
unfoldable pub new_keyboard : Bool → Keyboard
unfolding setup_uinput
new_keyboard opens = setup_uinput opens (record { opened = false; enabled = false; events = [] })

unfoldable pub delete_keyboard : Keyboard → Keyboard
unfolding teardown_uinput
delete_keyboard k = teardown_uinput k

unfoldable pub send_key : KeyCode → Bool → Keyboard → Keyboard
unfolding uinput_emit
send_key code pressed k =
    if k.opened then uinput_emit syn_report (uinput_emit (ev_key code pressed) k) else k

-- Keyboard::onDit, onDah and onStraight, with pressDit and pressDah.
unfoldable pub call : Call → Keyboard → Keyboard
call (on_dit pressed) k = if k.enabled then send_key key_semicolon pressed k else k
call (on_dah pressed) k = if k.enabled then send_key key_equal pressed k else k
call (on_straight pressed) k = k

unfoldable pub set_keyboard_enabled : Bool → Keyboard → Keyboard
set_keyboard_enabled enabled k = record k { enabled = enabled }

unfoldable pub calls : List Call → Keyboard → Keyboard
calls [] k = k
calls (c ∷ cs) k = calls cs (call c k)

-- The keys of the calls, each followed by a report.
unfoldable pub keys_of : List Call → List InputEvent
keys_of [] = []
keys_of (on_dit b ∷ cs) = ev_key key_semicolon b ∷ syn_report ∷ keys_of cs
keys_of (on_dah b ∷ cs) = ev_key key_equal b ∷ syn_report ∷ keys_of cs
keys_of (on_straight b ∷ cs) = keys_of cs

-- An enabled keyboard that is open writes a key and a report for each call of a paddle, in order,
-- and nothing for a straight key.
calls-keys_of :
    (cs : List Call) (k : Keyboard)
    → k.opened ≡ true
    → k.enabled ≡ true
    → (calls cs k).events ≡ k.events ++ keys_of cs
unfolding calls call send_key uinput_emit keys_of
calls-keys_of [] k up on = sym (append-nil k.events)
calls-keys_of (on_dit b ∷ cs) k up on = ground (
  arith,
  calls-keys_of cs (send_key key_semicolon b k),
  append_assoc k.events (ev_key key_semicolon b ∷ []) (syn_report ∷ []),
  append_assoc k.events (ev_key key_semicolon b ∷ syn_report ∷ []) (keys_of cs),
)
calls-keys_of (on_dah b ∷ cs) k up on = ground (
  arith,
  calls-keys_of cs (send_key key_equal b k),
  append_assoc k.events (ev_key key_equal b ∷ []) (syn_report ∷ []),
  append_assoc k.events (ev_key key_equal b ∷ syn_report ∷ []) (keys_of cs),
)
calls-keys_of (on_straight b ∷ cs) k up on = calls-keys_of cs k up on
