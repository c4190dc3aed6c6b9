-- ===== src/Gui/Load.antt =====
-- loadConfiguration (App/gui/GuiConnector.cpp), but for the amplitude and the frequency.
pub mod Running
use cwkeyer.Base.{
  ℕ, ◌<◌, ◌≡◌, ◌≢◌, Bool, true, false, not, ◌&&◌, ◌||◌, List, [], ◌∷◌, Option, none, some, arith,
  if◌then◌else◌, length, refl, ◌∙◌,
}
use cwkeyer.Base.Int.{ℤ, pos, ltb_ℤ}
use cwkeyer.Base.Text.{codes}
use cwkeyer.Configuration.{JsonValue, number, boolean, text, object, find, as_int}
use cwkeyer.Gui.{GuiConnector, is_index, store, store_int}
use cwkeyer.Usb.Device.{int_eq}

abbrev pub default_wpm : ℤ
default_wpm = pos 25

abbrev pub default_farns_worth : ℤ
default_farns_worth = pos 25

-- The modes: ULTIMATIC, IAMBIC_A and IAMBIC_B are 1, 2 and 3.
abbrev pub default_mode : ℤ
default_mode = pos 3

abbrev pub default_remote_port : ℤ
default_remote_port = pos 50005

abbrev pub default_remote_mox_delay_ms : ℤ
default_remote_mox_delay_ms = pos 250

abbrev pub default_remote_ip : List ℕ
default_remote_ip = codes "127.0.0.1"

module _ {D : Type 0} (of_int : ℤ → D) (to_int : D → ℤ) where
  -- getValueInt, of the file as it is.
  unfoldable pub get_int : List ℕ → GuiConnector D → ℤ
  get_int key g = as_int of_int to_int (find key g.config)

  unfoldable pub load_wpm : GuiConnector D → GuiConnector D
  load_wpm g =
      let wpm = get_int (codes "wpm") g in
      if ltb_ℤ (pos 0) wpm
      then record g { wpm = wpm }
      else store_int of_int to_int (codes "wpm") default_wpm (record g { wpm = default_wpm })

  unfoldable pub load_farns_worth : GuiConnector D → GuiConnector D
  load_farns_worth g =
      let farns_worth = get_int (codes "farnsWorth") g in
      if ltb_ℤ (pos 0) farns_worth
      then record g { farns_worth = farns_worth }
      else store_int of_int to_int (codes "farnsWorth") default_farns_worth
          (record g { farns_worth = default_farns_worth })

  unfoldable pub is_mode : ℤ → Bool
  is_mode mode = int_eq mode (pos 1) || int_eq mode (pos 2) || int_eq mode (pos 3)

  unfoldable pub load_mode : GuiConnector D → GuiConnector D
  load_mode g =
      let mode = get_int (codes "mode") g in
      if is_mode mode
      then record g { mode = mode }
      else store_int of_int to_int (codes "mode") default_mode (record g { mode = default_mode })

  unfoldable pub load_indices : GuiConnector D → GuiConnector D
  load_indices g =
      let sel_dev = get_int (codes "selected_audio_device") g in
      let sel_com = get_int (codes "commout") g in
      let sel_com_in = get_int (codes "commin") g in
      let ports = length g.comm_ports in
      record g {
        selected_audio_device =
            if is_index sel_dev g.audio_devices then sel_dev else g.selected_audio_device;
        selected_comm_port = if is_index sel_com ports then sel_com else g.selected_comm_port;
        selected_comm_port_in =
            if is_index sel_com_in ports then sel_com_in else g.selected_comm_port_in;
      }

  unfoldable pub load_remote_port : GuiConnector D → GuiConnector D
  load_remote_port g =
      let port = get_int (codes "remote_port") g in
      if ltb_ℤ (pos 0) port && not (ltb_ℤ (pos 65535) port)
      then record g { remote_port = port }
      else store_int of_int to_int (codes "remote_port") default_remote_port
          (record g { remote_port = default_remote_port })

  unfoldable pub load_mox_delay : GuiConnector D → GuiConnector D
  load_mox_delay g =
      let delay = get_int (codes "remote_mox_delay_ms") g in
      if not (ltb_ℤ delay (pos 0))
      then record g { remote_mox_delay_ms = delay }
      else store_int of_int to_int (codes "remote_mox_delay_ms") default_remote_mox_delay_ms
          (record g { remote_mox_delay_ms = default_remote_mox_delay_ms })

  -- An address is read if there is one; a value that is no text reads as the empty text.
  default_ip : GuiConnector D → GuiConnector D
  default_ip g =
      store (codes "remote_ip") (text default_remote_ip)
        (record g { server_ip = default_remote_ip })

  pub ip_of : Option (JsonValue D) → GuiConnector D → GuiConnector D
  unfolding default_ip
  ip_of (some (text (c ∷ s))) g = record g { server_ip = c ∷ s }
  ip_of _ g = default_ip g

  unfoldable pub load_server_ip : GuiConnector D → GuiConnector D
  unfolding ip_of
  load_server_ip g = ip_of (find (codes "remote_ip") g.config) g

  unfoldable pub load_configuration : GuiConnector D → GuiConnector D
  load_configuration g =
      load_server_ip (
        load_mox_delay
          (load_remote_port (load_indices (load_mode (load_farns_worth (load_wpm g))))))

  -- What each setting may be.
  pub record InRange (g : GuiConnector D) : Type 0 where
    pub wpm_positive : ltb_ℤ (pos 0) g.wpm ≡ true
    pub farns_worth_positive : ltb_ℤ (pos 0) g.farns_worth ≡ true
    pub mode_known : is_mode g.mode ≡ true
    pub port_valid : ltb_ℤ (pos 0) g.remote_port && not (ltb_ℤ (pos 65535) g.remote_port) ≡ true
    pub delay_valid : ltb_ℤ g.remote_mox_delay_ms (pos 0) ≡ false
    pub ip_given : g.server_ip ≢ []

  wpm_step : (g : GuiConnector D) → ltb_ℤ (pos 0) (load_wpm g).wpm ≡ true
  unfolding load_wpm
  wpm_step g = ground arith

  farns_worth_step :
      (g : GuiConnector D)
      → (ltb_ℤ (pos 0) (load_farns_worth g).farns_worth ≡ true) × ((load_farns_worth g).wpm ≡ g.wpm)
  unfolding load_farns_worth
  farns_worth_step g = ground arith

  mode_step :
      (g : GuiConnector D)
      → (is_mode (load_mode g).mode ≡ true)
        × ((load_mode g).wpm ≡ g.wpm)
        × ((load_mode g).farns_worth ≡ g.farns_worth)
  unfolding load_mode is_mode
  mode_step g = ground arith

  -- The three speeds and the mode of two states.
  abbrev pub Same : GuiConnector D → GuiConnector D → Type 0
  Same g h = (g.wpm ≡ h.wpm) × (g.farns_worth ≡ h.farns_worth) × (g.mode ≡ h.mode)

  pub port_step :
      (g : GuiConnector D)
      → (ltb_ℤ (pos 0) (load_remote_port g).remote_port
            && not (ltb_ℤ (pos 65535) (load_remote_port g).remote_port)
          ≡ true)
        × Same (load_remote_port g) g
  unfolding load_remote_port
  port_step g = ground arith

  pub delay_step :
      (g : GuiConnector D)
      → (ltb_ℤ (load_mox_delay g).remote_mox_delay_ms (pos 0) ≡ false)
        × Same (load_mox_delay g) g
        × ((load_mox_delay g).remote_port ≡ g.remote_port)
  unfolding load_mox_delay
  delay_step g = ground arith

  pub ip_step :
      (v : Option (JsonValue D)) (g : GuiConnector D)
      → ((ip_of v g).server_ip ≢ [])
        × Same (ip_of v g) g
        × ((ip_of v g).remote_port ≡ g.remote_port)
        × ((ip_of v g).remote_mox_delay_ms ≡ g.remote_mox_delay_ms)
  unfolding ip_of default_ip
  ip_step none g = ground arith
  ip_step (some (number x)) g = ground arith
  ip_step (some (boolean b)) g = ground arith
  ip_step (some (text [])) g = ground arith
  ip_step (some (text (c ∷ s))) g = ground arith
  ip_step (some (object o)) g = ground arith

  -- Whatever a file that can be read and written holds, the speeds that loadConfiguration leaves are positive, the mode is one
  -- of the three, the port is from 1 to 65535, the delay is not negative and the address is not
  -- empty.
  pub load_configuration-InRange : (g : GuiConnector D) → InRange (load_configuration g)
  unfolding load_configuration load_indices load_server_ip
  load_configuration-InRange g =
      let g₁ = load_wpm g in
      let g₂ = load_farns_worth g₁ in
      let g₃ = load_mode g₂ in
      let g₄ = load_indices g₃ in
      let g₅ = load_remote_port g₄ in
      let g₆ = load_mox_delay g₅ in
      let ip = ip_step (find (codes "remote_ip") g₆.config) g₆ in
      ground (arith, wpm_step g, farns_worth_step g₁, mode_step g₂, port_step g₄, delay_step g₅, ip)

  -- If the file has a speed from 1 to 24 and no Farnsworth speed above 0, loadConfiguration leaves a
  -- Farnsworth speed of 25, which is above the speed.
  loaded_out_of_step :
      (n : ℕ) (g : GuiConnector D)
      → 0 < n
      → n < 25
      → get_int (codes "wpm") g ≡ pos n
      → ltb_ℤ (pos 0) (get_int (codes "farnsWorth") g) ≡ false
      → ((load_configuration g).wpm ≡ pos n) × ((load_configuration g).farns_worth ≡ pos 25)
  unfolding load_configuration load_indices load_server_ip load_wpm load_farns_worth get_int
  loaded_out_of_step n g low high w f =
      let g₁ = load_wpm g in
      let g₂ = load_farns_worth g₁ in
      let g₃ = load_mode g₂ in
      let g₄ = load_indices g₃ in
      let g₅ = load_remote_port g₄ in
      let g₆ = load_mox_delay g₅ in
      let ip = ip_step (find (codes "remote_ip") g₆.config) g₆ in
      ground (arith, mode_step g₂, port_step g₄, delay_step g₅, ip)
