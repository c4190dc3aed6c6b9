-- ===== src/Gui/Window.antt =====
-- The constructor of GuiConnector and initConnector (App/gui/GuiConnector.cpp): the start of the
-- program.
-- The three parts of the window read and write one configuration file, which `share` keeps the same
-- in all of them. The keyer has no arguments of initKeyer until initConnector has run; (0, 3) stands
-- for that.
use cwkeyer.Base.{
  ℕ, Bool, true, false, List, [], ◌∷◌, Option, none, some, if◌then◌else◌, length, ◌>>=◌,
}
use cwkeyer.Base.Int.{ℤ, pos, negsuc}
use cwkeyer.Base.Text.{codes}
use cwkeyer.Configuration.{JsonObject, Disk, number, find, as_double, read_full_json}
use cwkeyer.Sound.{Audio, new_sound}
use cwkeyer.Keyboard.{new_listener, Recording}
use cwkeyer.Keyboard.Injection.{new_keyboard}
use cwkeyer.Gui.{
  GuiConnector, audio_devices_changed, comm_ports_changed, signal, reset_keyer, reset_cw_decoder,
}
use cwkeyer.Gui.Load.{
  default_wpm, default_farns_worth, default_mode, default_remote_port, default_remote_mox_delay_ms,
  default_remote_ip, load_configuration,
}
use cwkeyer.Gui.Remotes.{reset_remotes}
use cwkeyer.Gui.Devices.{Paddles, connect_paddles}
use cwkeyer.Gui.Sounds.{SoundPanel, Defaults, keep, try_reset}

pub record Window (D : Type 0) : Type 0 where
  pub settings : GuiConnector D
  pub panel : SoundPanel D
  pub paddles : Paddles D
  pub audio_descriptions : List (List ℕ)

-- What the program finds when it starts: the audio outputs with their descriptions, the serial ports
-- that listPorts gives, the configuration file, whether the virtual keyboard can be opened, and the number that
-- stands for a QAudioDevice made with no device. The file is missing or not, and holds an object or
-- not; it can be read and written, otherwise an exception ends the program.
pub record Machine (D : Type 0) : Type 0 where
  pub audio_outputs : List (ℕ × List ℕ)
  pub ports : List (List ℕ)
  pub file_present : Bool
  pub file_root : Option (JsonObject D)
  pub opens_keyboard : Bool
  pub null_device : ℕ

-- DEFAULT_AMPLITUDE, and the test for a double above 0.
pub record Doubles (D : Type 0) : Type 0 where
  pub half : D
  pub positive : D → Bool
  pub of_int : ℤ → D
  pub to_int : D → ℤ

abbrev first_all : {A B : Type 0} → List (A × B) → List A
first_all [] = []
first_all ((a, b) ∷ rest) = a ∷ first_all rest

abbrev second_all : {A B : Type 0} → List (A × B) → List B
second_all [] = []
second_all ((a, b) ∷ rest) = b ∷ second_all rest

abbrev pub disk_of : {D : Type 0} → Machine D → Disk D
disk_of m = record {
  present = m.file_present;
  readable = true;
  writable = true;
  root = m.file_root;
}

module _ {D : Type 0} where
  abbrev pub share : JsonObject D → Window D → Window D
  share o w = record w {
    settings = record w.settings { config = o };
    panel = record w.panel { config = o };
    paddles = record w.paddles {
      device = record w.paddles.device {
        disk = record w.paddles.device.disk { present = true; root = some o };
      };
    };
  }

  -- loadAudioDevices
  unfoldable pub load_audio_devices : List (ℕ × List ℕ) → Window D → Window D
  load_audio_devices outputs w = record w {
    audio_descriptions = second_all outputs;
    panel = record w.panel { audio_device_list = first_all outputs };
    settings =
        signal (audio_devices_changed (second_all outputs))
          (record w.settings { audio_devices = length outputs });
  }

  -- loadCommPorts
  unfoldable pub load_comm_ports : List (List ℕ) → Window D → Window D
  load_comm_ports ports w = record w {
    settings = signal (comm_ports_changed ports) (record w.settings { comm_ports = ports });
  }

module _ {D : Type 0} (audio : Audio D) (defaults : Defaults D) (doubles : Doubles D) where
  -- The start of loadConfiguration: the amplitude and the frequency.
  unfoldable pub load_amplitude : SoundPanel D → SoundPanel D
  load_amplitude g =
      let amp = as_double doubles.of_int doubles.to_int (find (codes "amplitude") g.config) in
      if doubles.positive amp
      then record g { amplitude = amp }
      else keep audio defaults (codes "amplitude") (number doubles.half)
          (record g { amplitude = doubles.half })

  unfoldable pub load_frequency : SoundPanel D → SoundPanel D
  load_frequency g =
      let freq = as_double doubles.of_int doubles.to_int (find (codes "frequency") g.config) in
      let default = doubles.of_int (pos 650) in
      if doubles.positive freq
      then record g { frequency = freq }
      else keep audio defaults (codes "frequency") (number default)
          (record g { frequency = default })

  -- The whole of loadConfiguration.
  unfoldable pub load_window : Window D → Window D
  unfolding load_amplitude load_frequency
  load_window w =
      let panel = load_frequency (load_amplitude w.panel) in
      let g =
        load_configuration doubles.of_int doubles.to_int
          (record w.settings { config = panel.config }) in
      share g.config (record w {
        settings = g;
        panel = record panel { selected_audio_device = g.selected_audio_device };
      })

  -- The initialisers of the class, and the objects that the constructor makes; UsbDevice finds libusb.
  unfoldable pub new_window : Machine D → Window D
  unfolding new_sound new_listener new_keyboard
  new_window m = record {
    settings = record {
      wpm = default_wpm;
      farns_worth = default_farns_worth;
      mode = default_mode;
      audio_devices = 0;
      selected_audio_device = pos 0;
      comm_ports = [];
      selected_comm_port = negsuc 0;
      selected_comm_port_in = negsuc 0;
      remote_port = default_remote_port;
      remote_mox_delay_ms = default_remote_mox_delay_ms;
      server_ip = default_remote_ip;
      config = read_full_json (disk_of m);
      keyer = (pos 0, default_mode);
      decoder = none;
      comm_out = none;
      comm_in = none;
      remote = none;
      signals = [];
    };
    panel = record {
      amplitude = doubles.half;
      frequency = doubles.of_int (pos 650);
      selected_audio_device = pos 0;
      audio_device_list = [];
      config = read_full_json (disk_of m);
      sound = new_sound m.null_device (doubles.of_int (pos 0));
      signals = [];
    };
    paddles = record {
      device = record { detected = none; connected = false; joinable = false; disk = (disk_of m) };
      keyboard_listener = new_listener;
      keyboard = new_keyboard m.opens_keyboard;
      signals = [];
    };
    audio_descriptions = [];
  }

  -- GuiConnector::GuiConnector
  unfoldable pub construct : Machine D → Window D
  unfolding new_window
  construct m =
      load_window (load_comm_ports m.ports (load_audio_devices m.audio_outputs (new_window m)))

  -- initConnector after initDevice: resetKeyer, resetSound, resetCwDecoder and resetRemotes. Where
  -- resetSound throws, the exception leaves initConnector (second component false).
  unfoldable pub reset_all : (List ℕ → ℤ → ℤ → Bool) → Window D → Window D × Bool
  reset_all starts w =
      let g = reset_keyer w.settings in
      let (panel, done) = try_reset audio defaults w.panel in
      let w₁ = record w { settings = g; panel = panel } in
      let h = reset_remotes starts (reset_cw_decoder g) in
      if done then (share h.config (record w₁ { settings = h }), true) else (w₁, false)

  -- initConnector; no result where connectDevice throws or ends the program.
  unfoldable pub init_connector :
      (List ℕ → ℤ → ℤ → Bool) → Recording → Bool → Window D → Option (Window D × Bool)
  init_connector starts x claimed w = do
    p ← connect_paddles doubles.of_int doubles.to_int x claimed w.paddles
    some (reset_all starts (share (read_full_json p.device.disk) (record w { paddles = p })))
