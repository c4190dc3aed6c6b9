-- ===== src/Keyboard/Echo.antt =====
-- The keys that App/keyboard/Keyboard_win.cpp sends, as App/keyboard/KeyboardListener_win.cpp hears
-- them. With KEYEVENTF_SCANCODE Windows takes the scan code alone; the keyboard layout makes a virtual
-- key of it again.
use mathlib.Core.List.{append-nil, append_assoc}
use cwkeyer.Base.{
  refl, false, inl, inr, Bool-cases, ℕ, suc, ◌≡◌, ◌≢◌, sym, ap, ◌∙◌, ◌⊎◌, Bool, true, not, List, [],
  ◌∷◌, ◌++◌, if◌then◌else◌, arith,
}
use cwkeyer.Paddle.{Call, on_dit, on_dah, on_straight, Edges}
use cwkeyer.Keyboard.{KeyboardListener, Win32, low_level_keyboard, set_dit_pressed, set_dah_pressed}
use cwkeyer.Keyboard.Hooks.{Hook}
use cwkeyer.Keyboard.WindowsKeys.{KeyInput, VirtualKeys, WinKeyboard, call_win, send_key_win}

-- The layout, and the message of a key that is released.
pub record Layout : Type 0 where
  pub scan_of : ℕ → ℕ
  pub key_of : ℕ → ℕ
  pub wm_keyup : ℕ

-- The constants differ where the code tells them apart, and the scan codes of the two keys are
-- theirs.
pub record IsApt (w : Win32) (x : Layout) : Type 0 where
  pub up_is_no_press : (x.wm_keyup ≢ w.wm_keydown) × (x.wm_keyup ≢ w.wm_syskeydown)
  pub keys_apart : (w.vk_oem_1 ≢ w.vk_oem_plus) × (w.vk_oem_1 ≢ w.vk_rcontrol)
  pub dit_back : x.key_of (x.scan_of w.vk_oem_1) ≡ w.vk_oem_1
  pub dah_back : x.key_of (x.scan_of w.vk_oem_plus) ≡ w.vk_oem_plus

module _ (w : Win32) (x : Layout) where
  abbrev pub keys : VirtualKeys
  keys = record { vk_oem_1 = w.vk_oem_1; vk_oem_plus = w.vk_oem_plus; map_virtual_key = x.scan_of }

  unfoldable pub calls_win : List Call → WinKeyboard → WinKeyboard
  calls_win [] k = k
  calls_win (c ∷ cs) k = calls_win cs (call_win keys c k)

  -- While its hook is installed, the listener's function gets input number n at the time `clock n`.
  unfoldable pub hear_input : Hook → ℕ → KeyInput → KeyboardListener → KeyboardListener
  hear_input h now i l =
      if h.hooked
      then low_level_keyboard w now true (if i.key_up then x.wm_keyup else w.wm_keydown)
          (x.key_of i.scan) l
      else l

  unfoldable pub hear_inputs :
      Hook → (ℕ → ℕ) → ℕ → List KeyInput → KeyboardListener → KeyboardListener
  hear_inputs h clock n [] l = l
  hear_inputs h clock n (i ∷ is) l = hear_inputs h clock (suc n) is (hear_input h (clock n) i l)

  unhooked-hear_inputs :
      (h : Hook) (clock : ℕ → ℕ) (n : ℕ) (is : List KeyInput) (l : KeyboardListener)
      → h.hooked ≡ false
      → hear_inputs h clock n is l ≡ l
  unfolding hear_inputs hear_input
  unhooked-hear_inputs h clock n [] l off = refl
  unhooked-hear_inputs h clock n (i ∷ is) l off =
      rw off (unhooked-hear_inputs h clock (suc n) is l off)

  abbrev input_of : ℕ → Bool → KeyInput
  input_of vk pressed = record { vk = vk; scan = x.scan_of vk; key_up = not pressed }

  inputs_of : List Call → List KeyInput
  inputs_of [] = []
  inputs_of (on_dit b ∷ cs) = input_of w.vk_oem_1 b ∷ inputs_of cs
  inputs_of (on_dah b ∷ cs) = input_of w.vk_oem_plus b ∷ inputs_of cs
  inputs_of (on_straight b ∷ cs) = inputs_of cs

  -- The calls of the two paddles.
  unfoldable pub paddles_of : List Call → List Call
  paddles_of [] = []
  paddles_of (on_dit b ∷ cs) = on_dit b ∷ paddles_of cs
  paddles_of (on_dah b ∷ cs) = on_dah b ∷ paddles_of cs
  paddles_of (on_straight b ∷ cs) = paddles_of cs

  calls_win-inputs_of :
      (cs : List Call) (k : WinKeyboard)
      → k.enabled ≡ true
      → (calls_win cs k).inputs ≡ k.inputs ++ inputs_of cs
  unfolding calls_win call_win send_key_win inputs_of
  calls_win-inputs_of [] k on = sym (append-nil k.inputs)
  calls_win-inputs_of (on_dit b ∷ cs) k on = ground (
    arith,
    calls_win-inputs_of cs (send_key_win keys w.vk_oem_1 b k),
    append_assoc k.inputs (input_of w.vk_oem_1 b ∷ []) (inputs_of cs),
  )
  calls_win-inputs_of (on_dah b ∷ cs) k on = ground (
    arith,
    calls_win-inputs_of cs (send_key_win keys w.vk_oem_plus b k),
    append_assoc k.inputs (input_of w.vk_oem_plus b ∷ []) (inputs_of cs),
  )
  calls_win-inputs_of (on_straight b ∷ cs) k on = calls_win-inputs_of cs k on

  -- No other key holds a paddle.
  pub record IsFree (l : KeyboardListener) : Type 0 where
    pub dit_free : (l.dit_key ≡ 0) ⊎ (l.dit_key ≡ w.vk_oem_1)
    pub dah_free : (l.dah_key ≡ 0) ⊎ (l.dah_key ≡ w.vk_oem_plus)

  module _ (apt : IsApt w x) (h : Hook) where
    hear-dit :
        (now : ℕ) (b : Bool) (l : KeyboardListener)
        → h.hooked ≡ true
        → hear_input h now (input_of w.vk_oem_1 b) l ≡ set_dit_pressed now b w.vk_oem_1 l
    unfolding hear_input low_level_keyboard
    hear-dit now b l on = rw apt.dit_back (ground (arith, apt.keys_apart, apt.up_is_no_press))

    hear-dah :
        (now : ℕ) (b : Bool) (l : KeyboardListener)
        → h.hooked ≡ true
        → hear_input h now (input_of w.vk_oem_plus b) l ≡ set_dah_pressed now b w.vk_oem_plus l
    unfolding hear_input low_level_keyboard
    hear-dah now b l on = rw apt.dah_back (ground (arith, apt.up_is_no_press))

    dit-heard :
        (now : ℕ) (b : Bool) (l : KeyboardListener)
        → IsFree l
        → b ≡ not l.dit_pressed
        → let m = set_dit_pressed now b w.vk_oem_1 l in
          IsFree m
          × (m.calls ≡ l.calls ++ on_dit b ∷ [])
          × (m.dit_pressed ≡ b)
          × (m.dah_pressed ≡ l.dah_pressed)
    unfolding set_dit_pressed
    dit-heard now b l f e = ground (arith, f.dit_free, f.dah_free)

    dah-heard :
        (now : ℕ) (b : Bool) (l : KeyboardListener)
        → IsFree l
        → b ≡ not l.dah_pressed
        → let m = set_dah_pressed now b w.vk_oem_plus l in
          IsFree m
          × (m.calls ≡ l.calls ++ on_dah b ∷ [])
          × (m.dit_pressed ≡ l.dit_pressed)
          × (m.dah_pressed ≡ b)
    unfolding set_dah_pressed
    dah-heard now b l f e = ground (arith, f.dit_free, f.dah_free)

    module _ (clock : ℕ → ℕ) where
      inputs_heard :
          (n : ℕ) (s : Bool) (cs : List Call) (l : KeyboardListener)
          → h.hooked ≡ true
          → IsFree l
          → Edges l.dit_pressed l.dah_pressed s cs
          → (hear_inputs h clock n (inputs_of cs) l).calls ≡ l.calls ++ paddles_of cs
      unfolding hear_inputs inputs_of paddles_of Edges
      inputs_heard n s [] l on f e = sym (append-nil l.calls)
      inputs_heard n s (on_dit b ∷ cs) l on f (e, es) =
          let m = set_dit_pressed (clock n) b w.vk_oem_1 l in
          let (free, told, dit, dah) = dit-heard (clock n) b l f e in
          ap (λ l'. (hear_inputs h clock (suc n) (inputs_of cs) l').calls)
            (hear-dit (clock n) b l on)
          ∙ (inputs_heard (suc n) s cs m on free (rw (dit, dah) es)
              ∙ ap (λ c. c ++ paddles_of cs) told
              ∙ append_assoc l.calls (on_dit b ∷ []) (paddles_of cs))
      inputs_heard n s (on_dah b ∷ cs) l on f (e, es) =
          let m = set_dah_pressed (clock n) b w.vk_oem_plus l in
          let (free, told, dit, dah) = dah-heard (clock n) b l f e in
          ap (λ l'. (hear_inputs h clock (suc n) (inputs_of cs) l').calls)
            (hear-dah (clock n) b l on)
          ∙ (inputs_heard (suc n) s cs m on free (rw (dit, dah) es)
              ∙ ap (λ c. c ++ paddles_of cs) told
              ∙ append_assoc l.calls (on_dah b ∷ []) (paddles_of cs))
      inputs_heard n s (on_straight b ∷ cs) l on f (e, es) = inputs_heard n b cs l on f es

      -- Calls of the paddles that are each a change of what the listener holds, given to an enabled
      -- keyboard that has sent nothing yet: while the listener's hook is installed, they come back
      -- through the listener as the same calls in the same order, whenever the keys arrive, if no other
      -- key holds a paddle of the listener, and the layout gives back the two keys from their scan codes;
      -- while it is not, the listener calls nothing.
      pub calls_heard_back :
          (cs : List Call) (s : Bool) (k : WinKeyboard) (l : KeyboardListener)
          → k.enabled ≡ true
          → k.inputs ≡ []
          → IsFree l
          → Edges l.dit_pressed l.dah_pressed s cs
          → (hear_inputs h clock 0 (calls_win cs k).inputs l).calls
            ≡ (if h.hooked then l.calls ++ paddles_of cs else l.calls)
      calls_heard_back cs s k l on none_yet f e = elim (Bool-cases h.hooked) [
        | inl hooked ↦
            simp (calls_win-inputs_of cs k on, none_yet, hooked) (inputs_heard 0 s cs l hooked f e)
        | inr off ↦
            simp off
              (ap (λ l'. l'.calls) (unhooked-hear_inputs h clock 0 (calls_win cs k).inputs l off))
      ]
