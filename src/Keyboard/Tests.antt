-- ===== src/Keyboard/Tests.antt =====
-- The keyboard listener at concrete inputs; X11 has the number 2 for KeyPress.
use cwkeyer.Base.{◌≡◌, refl, inl, true, false, List, [], ◌∷◌, some, arith}
use cwkeyer.Paddle.{Call, on_dah, on_dit, dit_after, Edges, dah_after}
use cwkeyer.Keyboard.Echo.{
  Layout, IsApt, IsFree, calls_win, hear_inputs, paddles_of, calls_heard_back,
}
use cwkeyer.Keyboard.{
  Win32, KeyboardListener, new_listener, handle_event, is_dit_key, is_dah_key, set_dit_pressed,
  set_enabled, Recording,
}
use cwkeyer.Keyboard.Hooks.{Hook, hook_win, set_enabled_win}
use cwkeyer.Keyboard.Lock.{KeyChange, Told, disabled_while_pressed}

abbrev recording : Recording
recording = record { range = true; context = true; enabled = true }

abbrev holding : KeyboardListener
holding = record {
  enabled = true;
  running = true;
  has_context = true;
  dit_pressed = true;
  dah_pressed = false;
  dit_key = 0x22;
  dah_key = 0;
  last_dit_changed = 50;
  last_dah_changed = 0;
  calls = on_dit true ∷ [];
}

reads_key_press :
    handle_event 2 50 true
      (2 ∷ 0x22 ∷ [])
      (record new_listener { enabled = true; running = true; has_context = true })
    ≡ some holding
unfolding handle_event is_dit_key is_dah_key set_dit_pressed new_listener
reads_key_press = refl

holding-Told : Told holding
unfolding Edges dit_after dah_after
holding-Told = record { edges = (refl, tt); dit_known = refl; dah_known = refl }

-- A second dit key is ignored; the first is released.
abbrev changes : List KeyChange
changes =
    record { is_dit = true; pressed = false; key = 0x25; now = 60 }
    ∷ record { is_dit = true; pressed = false; key = 0x22; now = 70 }
    ∷ []

disabled_while_pressed_example :
    let m =
      set_dit_pressed 90 false 0x22
        (set_enabled recording true (set_enabled recording false holding)) in
    (m.dit_pressed ≡ false) × (dit_after false m.calls ≡ true) × (m.calls ≡ on_dit true ∷ [])
disabled_while_pressed_example =
    disabled_while_pressed recording recording 0x22 90 holding holding-Told refl refl refl

-- The constants of Windows, and a layout whose scan codes are the keys.
abbrev windows : Win32
windows = record {
  wm_keydown = 0x100;
  wm_syskeydown = 0x104;
  vk_oem_plus = 0xBB;
  vk_rcontrol = 0xA3;
  vk_lcontrol = 0xA2;
  vk_oem_1 = 0xBA;
}

abbrev layout : Layout
layout = record { scan_of = λ key. key; key_of = λ scan. scan; wm_keyup = 0x101 }

layout-IsApt : IsApt windows layout
layout-IsApt = record {
  up_is_no_press = (λ e. omega arith, λ e. omega arith);
  keys_apart = (λ e. omega arith, λ e. omega arith);
  dit_back = refl;
  dah_back = refl;
}

abbrev squeezed : List Call
squeezed = on_dit true ∷ on_dah true ∷ on_dit false ∷ on_dah false ∷ []

squeezed-Edges : Edges false false false squeezed
unfolding Edges
squeezed-Edges = (refl, (refl, (refl, (refl, tt))))

-- A listener that has just been enabled, with its hook.
abbrev hooked_listener : Hook × KeyboardListener
unfolding set_enabled_win
hooked_listener =
    set_enabled_win true true (record { hooked = false; instance_set = false }, new_listener)

hooked_listener-IsFree : IsFree windows layout hooked_listener.1
unfolding new_listener set_enabled_win
hooked_listener-IsFree = record { dit_free = inl refl; dah_free = inl refl }

calls_heard_back_example :
    (hear_inputs windows layout hooked_listener.0
      (λ n. n)
      0
      (calls_win windows layout squeezed (record { enabled = true; inputs = [] })).inputs
      hooked_listener.1).calls
    ≡ paddles_of windows layout squeezed
unfolding new_listener set_enabled_win hook_win
calls_heard_back_example =
    calls_heard_back windows layout layout-IsApt hooked_listener.0 (λ n. n) squeezed false
      (record { enabled = true; inputs = [] }) hooked_listener.1 refl refl hooked_listener-IsFree
      squeezed-Edges
