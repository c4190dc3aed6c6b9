-- ===== src/Keyboard/Hooks.antt =====
-- hook, unhook and setEnabled of App/keyboard/KeyboardListener_win.cpp: the low-level hook and the pointer that its
-- function reads.
use cwkeyer.Base.{◌≡◌, Bool, true, false, not, List, [], ◌∷◌, if◌then◌else◌, arith}
use cwkeyer.Keyboard.{KeyboardListener, same}

-- m_hook ≠ nullptr, and s_instance ≠ nullptr.
pub record Hook : Type 0 where
  pub hooked : Bool
  pub instance_set : Bool

-- hook; `installs` is whether SetWindowsHookEx gives a hook.
unfoldable pub hook_win : Bool → Hook → Hook
hook_win installs h = if not h.hooked then record { hooked = installs; instance_set = true } else h

unfoldable pub unhook_win : Hook → Hook
unhook_win h = if h.hooked then record { hooked = false; instance_set = false } else h

-- KeyboardListener::setEnabled on Windows.
unfoldable pub set_enabled_win : Bool → Bool → Hook × KeyboardListener → Hook × KeyboardListener
unfolding hook_win unhook_win
set_enabled_win installs enabled (h, l) =
    let l₁ = record l { enabled = enabled } in
    let l₂ = record l₁ { dit_pressed = false; dah_pressed = false } in
    if same l.enabled enabled
    then (h, l)
    else if enabled
    then (hook_win installs h, l₂)
    else (unhook_win h, l₁)

-- Calls of hook, with what the system answers, and of unhook.
pub data HookCall : Type 0 where
  hooks : Bool → HookCall
  unhooks : HookCall

unfoldable pub hook_calls : List HookCall → Hook → Hook
hook_calls [] h = h
hook_calls (hooks installs ∷ cs) h = hook_calls cs (hook_win installs h)
hook_calls (unhooks ∷ cs) h = hook_calls cs (unhook_win h)

-- After any calls, from a state in which the pointer is set while the hook is, the pointer that the
-- hook's function reads is set while the hook is.
hook_calls-instance :
    (cs : List HookCall) (h : Hook)
    → (h.hooked ≡ true → h.instance_set ≡ true)
    → (hook_calls cs h).hooked ≡ true
    → (hook_calls cs h).instance_set ≡ true
unfolding hook_calls hook_win unhook_win
hook_calls-instance [] h v on = v on
hook_calls-instance (hooks installs ∷ cs) h v on =
    hook_calls-instance cs (hook_win installs h) (λ e. ground arith) on
hook_calls-instance (unhooks ∷ cs) h v on =
    hook_calls-instance cs (unhook_win h) (λ e. ground arith) on
