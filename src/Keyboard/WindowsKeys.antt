-- ===== src/Keyboard/WindowsKeys.antt =====
-- App/keyboard/Keyboard_win.cpp: paddle changes passed on as keys by SendInput.
use cwkeyer.Base.{ℕ, Bool, not, List, [], ◌∷◌, ◌++◌, if◌then◌else◌}
use cwkeyer.Paddle.{Call, on_dit, on_dah, on_straight}

-- An INPUT of type INPUT_KEYBOARD, with KEYEVENTF_SCANCODE, and KEYEVENTF_KEYUP or not.
pub record KeyInput : Type 0 where
  pub vk : ℕ
  pub scan : ℕ
  pub key_up : Bool

-- VK_OEM_1 and VK_OEM_PLUS, and MapVirtualKey to a scan code.
pub record VirtualKeys : Type 0 where
  pub vk_oem_1 : ℕ
  pub vk_oem_plus : ℕ
  pub map_virtual_key : ℕ → ℕ

-- The keyboard, with the input that was sent; the queued signals are delivered in order.
pub record WinKeyboard : Type 0 where
  pub enabled : Bool
  pub inputs : List KeyInput

module _ (keys : VirtualKeys) where
  -- sendKey
  unfoldable pub send_key_win : ℕ → Bool → WinKeyboard → WinKeyboard
  send_key_win vk pressed k = record k {
    inputs =
        k.inputs ++ record { vk = vk; scan = keys.map_virtual_key vk; key_up = not pressed } ∷ [];
  }

  -- onDit, onDah and onStraight, with pressDit and pressDah.
  unfoldable pub call_win : Call → WinKeyboard → WinKeyboard
  unfolding send_key_win
  call_win (on_dit pressed) k = if k.enabled then send_key_win keys.vk_oem_1 pressed k else k
  call_win (on_dah pressed) k = if k.enabled then send_key_win keys.vk_oem_plus pressed k else k
  call_win (on_straight pressed) k = k

unfoldable pub enable_win : Bool → WinKeyboard → WinKeyboard
enable_win enabled k = record k { enabled = enabled }
