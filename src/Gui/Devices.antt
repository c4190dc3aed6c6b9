-- ===== src/Gui/Devices.antt =====
-- The paddles of App/gui/GuiConnector.cpp: the USB device, the keyboard listener, and the keys that
-- are sent for the paddles of the device.
-- What libusb and the window system answer is passed in. A call that throws or ends the program has
-- no result. The JSON text of deviceUpdated is kept as its two values.
use cwkeyer.Base.{
  ℕ, zero, suc, ◌+◌, ◌-◌, ◌/◌, ◌%◌, ◌^◌, ◌≡◌, refl, ap, ◌∙◌, Bool, true, false, ◌&&◌, ◌||◌, List,
  [], ◌∷◌, ◌++◌, Option, none, some, ltb, if◌then◌else◌, arith,
}
use cwkeyer.Base.Int.{ℤ, pos, negsuc}
use cwkeyer.Base.Text.{codes}
use cwkeyer.Remote.{to_string}
use cwkeyer.Usb.Device.{Device}
use cwkeyer.Usb.Connection.{
  Connection, Outcome, done, fails, terminates, crashes, connect_device, disconnect_device, Ready,
  has, connect-disconnect,
}
use cwkeyer.Usb.Detect.{Bus, detect_device}
use cwkeyer.Keyboard.{KeyboardListener, Recording, same, set_enabled}
use cwkeyer.Keyboard.Injection.{Keyboard, set_keyboard_enabled}

pub data DeviceSignal : Type 0 where
  enabled_zadig_changed : Bool → DeviceSignal
  enabled_keyboard_changed : Bool → DeviceSignal
  device_detecting : DeviceSignal
  device_updated : List ℕ → Bool → DeviceSignal

pub record Paddles (D : Type 0) : Type 0 where
  pub device : Connection D
  pub keyboard_listener : KeyboardListener
  pub keyboard : Keyboard
  pub signals : List DeviceSignal

-- The digit of a hexadecimal number.
abbrev pub hex_digit : ℕ → ℕ
hex_digit n = if ltb n 10 then 48 + n else 87 + n

-- `count` hexadecimal digits of n, before `rest`.
unfoldable pub hex_digits : ℕ → ℕ → List ℕ → List ℕ
hex_digits zero n rest = rest
hex_digits (suc count) n rest = hex_digits count (n / 16) (hex_digit (n % 16) ∷ rest)

-- UsbDevice::intToHex of an int of 32 bits
unfoldable pub int_to_hex : ℤ → List ℕ
unfolding hex_digits
int_to_hex (pos n) = codes "0x" ++ hex_digits 8 (n % 2 ^ 32) []
int_to_hex (negsuc n) = codes "0x" ++ hex_digits 8 (2 ^ 32 - 1 - n % 2 ^ 32) []

unfoldable pub device_text : Device → List ℕ
unfolding int_to_hex
device_text d =
    codes "Device vid="
    ++ int_to_hex d.vendor_id
    ++ codes " pid="
    ++ int_to_hex d.product_id
    ++ codes " \ninterface="
    ++ (elim d.interface [ none ↦ codes "N/A" | some i ↦ to_string i.interface_num ])
    ++ codes " endpoint="
    ++ (elim d.interface [ none ↦ codes "N/A" | some i ↦ int_to_hex i.endpoint ])

module _ {D : Type 0} where
  -- sendDeviceUpdated
  unfoldable pub send_device_updated : Option Device → Paddles D → Paddles D
  unfolding device_text
  send_device_updated none g = record g {
    signals =
        g.signals
        ++ enabled_zadig_changed false
          ∷ device_updated (codes "Vail Adapter / VBand adapter") g.keyboard_listener.enabled
          ∷ [];
  }
  send_device_updated (some d) g = record g {
    signals =
        g.signals
        ++ enabled_zadig_changed g.device.connected
          ∷ device_updated (device_text d) g.device.connected
          ∷ [];
  }

  -- The listener goes on where there is no device.
  unfoldable pub listen_without : Recording → Option Device → Paddles D → Paddles D
  listen_without x none g = record g { keyboard_listener = set_enabled x true g.keyboard_listener }
  listen_without x (some d) g = g

  unfoldable pub with_device : Recording → Outcome D → Paddles D → Option (Paddles D)
  unfolding listen_without
  with_device x (done u) g =
      some (send_device_updated u.detected (listen_without x u.detected (record g { device = u })))
  with_device x fails g = none
  with_device x terminates g = none
  with_device x crashes g = none

  -- setEnabledKeyboard
  unfoldable pub set_enabled_keyboard : Bool → Paddles D → Paddles D
  set_enabled_keyboard enabled g =
      if same g.keyboard_listener.enabled enabled then g else record g {
        keyboard = set_keyboard_enabled enabled g.keyboard;
        signals = g.signals ++ enabled_keyboard_changed enabled ∷ [];
      }

  unfoldable pub set_all_enabled : List Bool → Paddles D → Paddles D
  set_all_enabled [] g = g
  set_all_enabled (b ∷ bs) g = set_all_enabled bs (set_enabled_keyboard b g)

  module _ (of_int : ℤ → D) (to_int : D → ℤ) where
    -- disconnectDevice
    unfoldable pub disconnect_paddles : Recording → Paddles D → Paddles D
    disconnect_paddles x g =
        let u = disconnect_device of_int to_int g.device in
        send_device_updated u.detected
          (record g { device = u; keyboard_listener = set_enabled x false g.keyboard_listener })

    -- connectDevice, and the part of initConnector that starts the paddles.
    unfoldable pub connect_paddles : Recording → Bool → Paddles D → Option (Paddles D)
    unfolding with_device
    connect_paddles x claimed g = with_device x (connect_device of_int to_int claimed g.device) g

    -- detectDevice
    unfoldable pub detect_paddles : Bus → Paddles D → Option (Paddles D)
    detect_paddles bus g = elim (detect_device bus of_int to_int g.device) [
      | done u ↦ some (
          send_device_updated u.detected
            (record g { device = u; signals = g.signals ++ device_detecting ∷ [] }))
      | fails ↦ none
      | terminates ↦ none
      | crashes ↦ none
    ]

abbrev any_of : List Bool → Bool
any_of [] = false
any_of (b ∷ bs) = b || any_of bs

abbrev all_of : List Bool → Bool
all_of [] = true
all_of (b ∷ bs) = b && all_of bs

-- Calls of setEnabledKeyboard, in any number: while the listener is off, the keys of the paddles are
-- on as soon as one call asks for that, and no call switches them off again; while it is on, they are
-- off as soon as one call asks for that, and no call switches them on.
set_all_enabled_lem :
    {D : Type 0} (bs : List Bool) (g : Paddles D)
    → (set_all_enabled bs g).keyboard.enabled ≡ (
        if g.keyboard_listener.enabled
        then g.keyboard.enabled && all_of bs
        else g.keyboard.enabled || any_of bs)
unfolding set_all_enabled set_enabled_keyboard set_keyboard_enabled
set_all_enabled_lem [] g = ground arith
set_all_enabled_lem (b ∷ bs) g =
    let rest = set_all_enabled_lem bs (set_enabled_keyboard b g) in ground arith

listen_without-same :
    {D : Type 0} (x : Recording) (o : Option Device) (g : Paddles D)
    → has o ≡ true
    → listen_without x o g ≡ g
unfolding listen_without
listen_without-same x none g h = absurd (cc)
listen_without-same x (some d) g h = refl

send_device_updated-same :
    {D : Type 0} (o : Option Device) (g : Paddles D)
    → ((send_device_updated o g).device.connected ≡ g.device.connected)
      × ((send_device_updated o g).keyboard_listener.enabled ≡ g.keyboard_listener.enabled)
unfolding send_device_updated
send_device_updated-same none g = (refl, refl)
send_device_updated-same (some d) g = (refl, refl)

-- For a device that is known and free, and whose interface can be claimed, connectDevice of the window
-- connects it and leaves a listener that is on as it is: both are paddles of the keyer then.
connect_keeps_listening :
    {D : Type 0} (of_int : ℤ → D) (to_int : D → ℤ) (x : Recording) (g : Paddles D)
    → Ready of_int to_int g.device
    → g.keyboard_listener.enabled ≡ true
    → (h : Paddles D) × (connect_paddles of_int to_int x true g ≡ some h)
      × (h.device.connected ≡ true)
      × (h.keyboard_listener.enabled ≡ true)
unfolding connect_paddles with_device
connect_keeps_listening of_int to_int x g r on =
    let (v, e, up, known, disk, again) = connect-disconnect of_int to_int g.device r in
    let g' = record g { device = v } in
    let there : has v.detected ≡ true = ap (λ o. has o) known ∙ r.known in
    let shown = send_device_updated-same v.detected g' in
    (
      send_device_updated v.detected g',
      ground (arith, listen_without-same x v.detected g' there),
      shown.0 ∙ up,
      shown.1 ∙ on,
    )
