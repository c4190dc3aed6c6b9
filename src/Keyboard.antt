-- ===== src/Keyboard.antt =====
-- App/keyboard/KeyboardListener.cpp and _linux.cpp, _win.cpp: the keys of a keyboard or an adapter
-- as paddles. The codes of the window systems are parameters.
pub mod Lock
pub mod Injection
pub mod WindowsKeys
pub mod Echo
pub mod Hooks
mod Tests
use cwkeyer.Base.{
  ℕ, ◌+◌, Bool, true, false, ◌&&◌, ◌||◌, not, List, [], ◌∷◌, ◌++◌, Option, none, some, ltb, ◌==◌,
  if◌then◌else◌, get_elem?, ◌>>=◌,
}
use cwkeyer.Paddle.{Call, on_dit, on_dah}

-- `has_context` is m_context ≠ 0; a key of 0 is none.
pub record KeyboardListener : Type 0 where
  pub enabled : Bool
  pub running : Bool
  pub has_context : Bool
  pub dit_pressed : Bool
  pub dah_pressed : Bool
  pub dit_key : ℕ
  pub dah_key : ℕ
  pub last_dit_changed : ℕ
  pub last_dah_changed : ℕ
  pub calls : List Call

unfoldable pub new_listener : KeyboardListener
new_listener = record {
  enabled = false;
  running = false;
  has_context = false;
  dit_pressed = false;
  dah_pressed = false;
  dit_key = 0;
  dah_key = 0;
  last_dit_changed = 0;
  last_dah_changed = 0;
  calls = [];
}

abbrev pub same : Bool → Bool → Bool
same true b = b
same false b = not b

-- setDitPressed and setDahPressed, at the time `now`.
unfoldable pub set_dit_pressed : ℕ → Bool → ℕ → KeyboardListener → KeyboardListener
set_dit_pressed now pressed key l =
    let l₁ = record l { dit_key = key } in
    if not (l.dit_key == 0) && not (l.dit_key == key)
    then l
    else if not (same pressed l.dit_pressed)
    then record l₁ {
      last_dit_changed = now;
      dit_pressed = pressed;
      calls = l.calls ++ on_dit pressed ∷ [];
    }
    else l₁

unfoldable pub set_dah_pressed : ℕ → Bool → ℕ → KeyboardListener → KeyboardListener
set_dah_pressed now pressed key l =
    let l₁ = record l { dah_key = key } in
    if not (l.dah_key == 0) && not (l.dah_key == key)
    then l
    else if not (same pressed l.dah_pressed)
    then record l₁ {
      last_dah_changed = now;
      dah_pressed = pressed;
      calls = l.calls ++ on_dah pressed ∷ [];
    }
    else l₁

-- handle_event on Linux: an event counts if it comes from the server and has data, of which the
-- first two octets are the type and the code of the key.
unfoldable pub is_dit_key : ℕ → Bool
is_dit_key code = code == 0x22 || code == 0x25

unfoldable pub is_dah_key : ℕ → Bool
is_dah_key code = code == 0x23 || code == 0x6D

unfoldable pub handle_event : ℕ → ℕ → Bool → List ℕ → KeyboardListener → Option KeyboardListener
handle_event key_press now from_server [] l = some l
handle_event key_press now false octets l = some l
handle_event key_press now true octets l = do
  type ← get_elem? octets 0
  code ← get_elem? octets 1
  let l₁ = if is_dit_key code then set_dit_pressed now (type == key_press) code l else l
  some (if is_dah_key code then set_dah_pressed now (type == key_press) code l₁ else l₁)

-- The constants of Windows that lowLevelKeyboard uses.
pub record Win32 : Type 0 where
  pub wm_keydown : ℕ
  pub wm_syskeydown : ℕ
  pub vk_oem_plus : ℕ
  pub vk_rcontrol : ℕ
  pub vk_lcontrol : ℕ
  pub vk_oem_1 : ℕ

-- lowLevelKeyboard; `is_action` is nCode == HC_ACTION.
unfoldable pub low_level_keyboard : Win32 → ℕ → Bool → ℕ → ℕ → KeyboardListener → KeyboardListener
low_level_keyboard w now is_action message code l =
    let pressed = message == w.wm_keydown || message == w.wm_syskeydown in
    if not is_action
    then l
    else if code == w.vk_oem_plus || code == w.vk_rcontrol
    then set_dah_pressed now pressed code l
    else if code == w.vk_lcontrol || code == w.vk_oem_1
    then set_dit_pressed now pressed code l
    else l

-- What hook on Linux meets, its two displays being there: the range, the context, and whether the
-- context could be enabled.
pub record Recording : Type 0 where
  pub range : Bool
  pub context : Bool
  pub enabled : Bool

unfoldable pub hook : Recording → KeyboardListener → KeyboardListener
hook x l =
    if l.has_context
    then l
    else if not x.range
    then l
    else if not x.context
    then l
    else if not x.enabled
    then record l { has_context = true }
    else record l { has_context = true; running = true }

unfoldable pub unhook : KeyboardListener → KeyboardListener
unhook l = record l { running = false; has_context = false }

-- setEnabled
unfoldable pub set_enabled : Recording → Bool → KeyboardListener → KeyboardListener
set_enabled x enabled l =
    let l₁ = record l { enabled = enabled } in
    let l₂ = record l₁ { dit_pressed = false; dah_pressed = false } in
    if same l.enabled enabled then l else if enabled then hook x l₂ else unhook l₁

-- The condition of eventLoopWithTimer to send a timer event; the interval is 20 ms.
unfoldable pub sends_timer_event : ℕ → KeyboardListener → Bool
sends_timer_event now l =
    (l.dit_pressed || l.dah_pressed)
    && (not (ltb now (l.last_dit_changed + 20)) || not (ltb now (l.last_dah_changed + 20)))
