-- ===== src/Gui/Startup.antt =====
-- What the constructor of GuiConnector and initConnector (App/gui/GuiConnector.cpp) leave behind.
mod Tests
use cwkeyer.Base.{
  zero, suc, Returns, ℕ, ◌≡◌, refl, sym, ap, ◌∙◌, Bool, true, false, List, none, some, arith,
}
use cwkeyer.Timing.{calculate_duration, paris_div}
use cwkeyer.Keyer.{Keyer, Mode, init_keyer}
use cwkeyer.Base.Int.{ℤ, negsuc, ltb_ℤ, pos}
use cwkeyer.Base.Text.{codes}
use cwkeyer.Configuration.{boolean, insert, read_full_json}
use cwkeyer.Usb.Connection.{Connection, connect_device, done}
use cwkeyer.Keyboard.{Recording}
use cwkeyer.Sound.{Audio, stop, set_enabled, init_with_device, configured}
use cwkeyer.Sound.Events.{reset_sound, apply_enabled}
use cwkeyer.Gui.{GuiConnector, reset_keyer, reset_cw_decoder, restart}
use cwkeyer.Gui.Changes.{init_keyer-Returns}
use cwkeyer.Gui.Load.{InRange, load_configuration-InRange}
use cwkeyer.Gui.Load.Running.{running, load_configuration-running}
use cwkeyer.Gui.Remotes.{RemoteInv, reset_remotes, set_remote_connected, reset_remotes-RemoteInv}
use cwkeyer.Gui.Devices.{connect_paddles, with_device, listen_without, send_device_updated}
use cwkeyer.Gui.Sounds.{SoundPanel, Defaults, chosen, try_reset, saved_enabled}
use cwkeyer.Gui.SoundSteps.{SoundInStep, saved_enabled-other}
use cwkeyer.Gui.Window.{
  Window, Machine, new_window, load_comm_ports, load_audio_devices, load_amplitude, load_frequency,
  Doubles, share, load_window, construct, reset_all, init_connector,
}

-- The window after the start: settings in range; the keyer set up with the speed and the mode, the
-- sound and the remote client with their settings; no decoder.
pub record Started {D : Type 0} (audio : Audio D) (defaults : Defaults D) (doubles : Doubles D)
    (starts : List ℕ → ℤ → ℤ → Bool) (w : Window D) : Type 0 where
  pub in_range : InRange doubles.of_int doubles.to_int w.settings
  pub keyed : w.settings.keyer ≡ (w.settings.wpm, w.settings.mode)
  pub keyer_starts : (mode : Mode) (k : Keyer) → Returns (init_keyer w.settings.wpm mode k)
  pub undecoded : w.settings.decoder ≡ none
  pub sounding : SoundInStep audio defaults w.panel
  pub device : w.panel.selected_audio_device ≡ w.settings.selected_audio_device
  pub remote : RemoteInv starts w.settings

module _ {D : Type 0} (audio : Audio D) (defaults : Defaults D) (doubles : Doubles D)
    (starts : List ℕ → ℤ → ℤ → Bool) where
  abbrev pub supported : SoundPanel D → Bool
  supported g =
      audio.supports (chosen defaults.device g.audio_device_list g.selected_audio_device) 44100

  try_reset-SoundInStep :
      (g : SoundPanel D)
      → supported g ≡ true
      → ((try_reset audio defaults g).1 ≡ true)
        × SoundInStep audio defaults (try_reset audio defaults g).0
        × ((try_reset audio defaults g).0.selected_audio_device ≡ g.selected_audio_device)
        × ((try_reset audio defaults g).0.config ≡ g.config)
  unfolding try_reset reset_sound init_with_device configured apply_enabled set_enabled stop
  try_reset-SoundInStep g h = ground arith

  try_reset_fails :
      (g : SoundPanel D) → supported g ≡ false → (try_reset audio defaults g).1 ≡ false
  unfolding try_reset reset_sound init_with_device configured
  try_reset_fails g h = ground arith

  reset_remotes-same :
      (g : GuiConnector D)
      → InRange doubles.of_int doubles.to_int g
      → InRange doubles.of_int doubles.to_int (reset_remotes starts g)
        × ((reset_remotes starts g).keyer ≡ g.keyer)
        × ((reset_remotes starts g).wpm ≡ g.wpm)
        × ((reset_remotes starts g).mode ≡ g.mode)
        × ((reset_remotes starts g).decoder ≡ g.decoder)
        × ((reset_remotes starts g).selected_audio_device ≡ g.selected_audio_device)
  unfolding reset_remotes set_remote_connected
  reset_remotes-same g v = ground (
    arith, v.wpm_positive, v.farns_worth_positive, v.mode_known, v.port_valid, v.delay_valid,
    v.ip_given,
  )

  reset_remotes-saved_enabled :
      (g : GuiConnector D)
      → saved_enabled audio defaults (reset_remotes starts g).config
        ≡ saved_enabled audio defaults g.config
  unfolding reset_remotes set_remote_connected
  reset_remotes-saved_enabled g =
      let started = starts g.server_ip g.remote_port g.remote_mox_delay_ms in
      let key = codes "remote_connected" in
      let once = saved_enabled-other audio defaults key (boolean false) g.config (λ e. cc) in
      let twice =
        saved_enabled-other audio defaults key (boolean started)
          (insert key (boolean false) g.config) (λ e. cc) in
      ground (arith, once, twice)

  -- From settings in range, with the decoder off and one choice of the audio device: where that
  -- device takes the format, the resets of initConnector run to their end.
  reset_all-Started :
      (w : Window D)
      → InRange doubles.of_int doubles.to_int w.settings
      → w.settings.decoder ≡ none
      → w.panel.selected_audio_device ≡ w.settings.selected_audio_device
      → w.panel.config ≡ w.settings.config
      → supported w.panel ≡ true
      → ((reset_all audio defaults doubles starts w).1 ≡ true)
        × Started audio defaults doubles starts (reset_all audio defaults doubles starts w).0
  unfolding reset_all reset_keyer reset_cw_decoder restart
  reset_all-Started w v off one file h =
      let g = reset_cw_decoder (reset_keyer w.settings) in
      let (fine, step, kept, filed) = try_reset-SoundInStep w.panel h in
      let (range, keyer, wpm, mode, decoder, device) = reset_remotes-same g (record {
        wpm_positive = v.wpm_positive;
        farns_worth_positive = v.farns_worth_positive;
        mode_known = v.mode_known;
        port_valid = v.port_valid;
        delay_valid = v.delay_valid;
        ip_given = v.ip_given;
      }) in
      let same : saved_enabled audio defaults (reset_remotes starts g).config
          ≡ saved_enabled audio defaults (try_reset audio defaults w.panel).0.config =
        reset_remotes-saved_enabled g ∙ ap (saved_enabled audio defaults) (sym (filed ∙ file)) in
      rw fine (
        refl,
        record {
          in_range = range;
          keyed = ground (arith, keyer, wpm, mode);
          keyer_starts = init_keyer-Returns _ range.wpm_positive;
          undecoded = ground (arith, decoder, off);
          sounding = record {
            pitch = step.pitch;
            loudness = step.loudness;
            device = step.device;
            made = step.made;
            enabling = rw same step.enabling;
          };
          device = ground (arith, kept, one, device);
          remote = reset_remotes-RemoteInv starts g;
        },
      )

  reset_all_fails :
      (w : Window D)
      → supported w.panel ≡ false
      → let (v, finished) = reset_all audio defaults doubles starts w in
        (finished ≡ false) × (v.settings ≡ reset_keyer w.settings)
  unfolding reset_all
  reset_all_fails w h = rw (try_reset_fails w.panel h) (refl, refl)

  construct-share :
      (m : Machine D)
      → let w = construct audio defaults doubles m in
        InRange doubles.of_int doubles.to_int w.settings
        × (running w.settings ≡ (none, none))
        × (w.panel.selected_audio_device ≡ w.settings.selected_audio_device)
  unfolding construct load_window new_window load_comm_ports load_audio_devices
  construct-share m =
      let w =
        load_comm_ports m.ports
          (load_audio_devices m.audio_outputs (new_window audio defaults doubles m)) in
      let panel =
        load_frequency audio defaults doubles (load_amplitude audio defaults doubles w.panel) in
      let g = record w.settings { config = panel.config } in
      (
        load_configuration-InRange doubles.of_int doubles.to_int g,
        load_configuration-running doubles.of_int doubles.to_int g,
        refl,
      )

  -- On a machine whose configuration file can be read and written, whatever it holds: if connectDevice
  -- returns, and the audio device that is chosen takes the format, the constructor and initConnector run to their end. The settings
  -- are then in range, the keyer was set up with the speed and the mode, which initKeyer takes without
  -- a division by zero, no decoder runs, the sound was set up with the settings and is on exactly if
  -- the file says so, where it says anything, and a remote client that runs was started with the
  -- settings; where the file says that none runs, none does.
  pub start_up_lem :
      (m : Machine D) (x : Recording) (claimed : Bool) (u : Connection D)
      → connect_device doubles.of_int doubles.to_int claimed
          (construct audio defaults doubles m).paddles.device
        ≡ done u
      → supported (construct audio defaults doubles m).panel ≡ true
      → (w : Window D) × (init_connector audio defaults doubles starts x claimed
            (construct audio defaults doubles m)
          ≡ some (w, true))
        × Started audio defaults doubles starts w
  unfolding init_connector connect_paddles with_device
  start_up_lem m x claimed u e h =
      let w = construct audio defaults doubles m in
      let p =
        send_device_updated u.detected
          (listen_without x u.detected (record w.paddles { device = u })) in
      let w₁ = share (read_full_json p.device.disk) (record w { paddles = p }) in
      let (range, off, one) = construct-share m in
      let (fine, started) =
        reset_all-Started w₁
          (record {
            wpm_positive = range.wpm_positive;
            farns_worth_positive = range.farns_worth_positive;
            mode_known = range.mode_known;
            port_valid = range.port_valid;
            delay_valid = range.delay_valid;
            ip_given = range.ip_given;
          })
          (ground (arith, off)) one refl h in
      let w₂ = (reset_all audio defaults doubles starts w₁).0 in
      (w₂, rw e (ground (arith, fine)), started)

  -- On a machine whose configuration file can be read and written, whatever it holds: if connectDevice
  -- returns, and the audio device that is chosen does not take the format, an
  -- exception leaves initConnector: the keyer has been set up with the speed and the mode, and the
  -- remote client is not started, whatever the file says.
  pub start_up_fails :
      (m : Machine D) (x : Recording) (claimed : Bool) (u : Connection D)
      → connect_device doubles.of_int doubles.to_int claimed
          (construct audio defaults doubles m).paddles.device
        ≡ done u
      → supported (construct audio defaults doubles m).panel ≡ false
      → (w : Window D) × (init_connector audio defaults doubles starts x claimed
            (construct audio defaults doubles m)
          ≡ some (w, false))
        × (w.settings.keyer ≡ (w.settings.wpm, w.settings.mode))
        × (w.settings.remote ≡ none)
  unfolding init_connector connect_paddles with_device reset_keyer reset_cw_decoder
  start_up_fails m x claimed u e h =
      let w = construct audio defaults doubles m in
      let p =
        send_device_updated u.detected
          (listen_without x u.detected (record w.paddles { device = u })) in
      let w₁ = share (read_full_json p.device.disk) (record w { paddles = p }) in
      let (range, off, one) = construct-share m in
      let (threw, kept) = reset_all_fails w₁ h in
      let w₂ = (reset_all audio defaults doubles starts w₁).0 in
      (w₂, rw e (ground (arith, threw)), rw kept refl, rw kept (ap (λ r. r.1) off))
