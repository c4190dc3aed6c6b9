-- ===== src/Gui/Tests.antt =====
-- The settings at concrete values; the doubles are whole numbers here.
use cwkeyer.Base.{
  Returns, ℕ, ◌≡◌, refl, inr, Bool, true, false, List, [], ◌∷◌, none, some, arith, ◌==◌,
}
use cwkeyer.Base.Int.{ℤ, pos}
use cwkeyer.Base.Text.{codes}
use cwkeyer.Configuration.{number, boolean, end, field, find, as_int, to_bool}
use cwkeyer.Gui.{GuiConnector, set_enabled_comm_out, port_at}
use cwkeyer.Usb.Device.{int_eq}
use cwkeyer.Gui.Speeds.{InStep}
use cwkeyer.Keyer.{Keyer, Mode, init_keyer}
use cwkeyer.Decoder.{CwDecoder, start}
use cwkeyer.Gui.Changes.{
  Positive, valid, all_valid, Change, to_wpm, to_farns_worth, to_mode, decoding, run, run-InStep,
}
use cwkeyer.Gui.Load.{
  get_int, is_mode, load_configuration, Same, InRange, load_configuration-InRange,
}
use cwkeyer.Gui.Persist.{Stored}
use cwkeyer.Gui.Restart.{settings_restored}
use cwkeyer.Gui.Remotes.{RemoteInv, stored_connected, run-RemoteInv}
use cwkeyer.Remote.{to_string, digits}
use cwkeyer.Keyboard.{new_listener}
use cwkeyer.Usb.Device.{Device}
use cwkeyer.Gui.Devices.{Paddles, device_text, int_to_hex, hex_digits}
use cwkeyer.Sound.{Audio}
use cwkeyer.Gui.Sounds.{SoundPanel, Defaults, saved_enabled, chosen}
use cwkeyer.Gui.SoundSteps.{
  SoundInStep, to_frequency, to_device, sounding, change_sounds, change_sounds-SoundInStep,
}

abbrev same : ℤ → ℤ
same n = n

abbrev at_25 : GuiConnector ℤ
at_25 = record {
  wpm = pos 25;
  farns_worth = pos 25;
  mode = pos 3;
  audio_devices = 1;
  selected_audio_device = pos 0;
  comm_ports = [];
  selected_comm_port = ℤ.negsuc 0;
  selected_comm_port_in = ℤ.negsuc 0;
  remote_port = pos 50005;
  remote_mox_delay_ms = pos 250;
  server_ip = codes "127.0.0.1";
  config =
      field (codes "remote_connected") (boolean true) (field (codes "wpm") (number (pos 12)) end);
  keyer = (pos 25, pos 3);
  decoder = some (pos 25, pos 25);
  comm_out = none;
  comm_in = none;
  remote = some (codes "127.0.0.1", pos 50005, pos 250);
  signals = [];
}

-- With no port selected, the list of ports is read at -1.
no_port_selected : set_enabled_comm_out true at_25 ≡ none
unfolding set_enabled_comm_out port_at
no_port_selected = refl

at_25-InStep : InStep at_25
at_25-InStep = record { ordered = omega arith; keyed = refl; decoded = inr refl }

abbrev changes : List Change
changes =
    to_farns_worth (pos 30)
    ∷ to_mode (pos 1)
    ∷ decoding false
    ∷ to_wpm (pos 12)
    ∷ decoding true
    ∷ []

changes_valid : all_valid same same changes ≡ true
unfolding all_valid valid is_mode
changes_valid = refl

run-InStep_example :
    (h : GuiConnector ℤ) × (run same same changes at_25 ≡ some h)
    × InStep h
    × Positive h
    × ((mode : Mode) (k : Keyer) → Returns (init_keyer h.wpm mode k))
    × ((now : ℕ) (d : CwDecoder) → Returns (start h.farns_worth h.wpm now d))
run-InStep_example = run-InStep same same changes at_25 changes_valid at_25-InStep (refl, refl)

-- A state with the speeds and the mode in the file.
abbrev in_file : GuiConnector ℤ
in_file = record at_25 {
  config =
      field (codes "wpm") (number (pos 25))
        (field (codes "farnsWorth") (number (pos 25)) (field (codes "mode") (number (pos 3)) end));
}

in_file-Stored : Stored same same in_file
unfolding find as_int is_mode
in_file-Stored = record {
  wpm = refl;
  farns_worth = refl;
  mode = refl;
  wpm_positive = refl;
  farns_worth_positive = refl;
  mode_known = refl;
}

settings_restored_example :
    (h : GuiConnector ℤ) × (run same same changes in_file ≡ some h)
    × Same same same (load_configuration same same (record at_25 { config = h.config })) h
settings_restored_example =
    settings_restored same same (λ n. refl) changes in_file at_25 changes_valid in_file-Stored

load_configuration-InRange_example : InRange same same (load_configuration same same at_25)
load_configuration-InRange_example = load_configuration-InRange same same at_25

loads_wpm : get_int same same (codes "wpm") at_25 ≡ pos 12
unfolding get_int find as_int
loads_wpm = refl

loads_no_farns_worth : get_int same same (codes "farnsWorth") at_25 ≡ pos 0
unfolding get_int find as_int
loads_no_farns_worth = refl

-- A server that accepts one port.
abbrev starts_7300 : List ℕ → ℤ → ℤ → Bool
starts_7300 ip port delay = int_eq port (pos 7300)

is_connected : stored_connected at_25 ≡ true
unfolding stored_connected to_bool find
is_connected = refl

at_25-RemoteInv : RemoteInv starts_7300 at_25
at_25-RemoteInv = record {
  settings = inr refl;
  recorded = λ e. absurd (ground (arith, is_connected));
}

run-RemoteInv_example : RemoteInv starts_7300 (
    cwkeyer.Gui.Remotes.run same same starts_7300
      (λ ip. ip)
      (cwkeyer.Gui.Remotes.to_port (pos 7300) ∷ cwkeyer.Gui.Remotes.to_delay (pos 90) ∷ [])
      at_25)
run-RemoteInv_example =
    run-RemoteInv same same starts_7300 (λ ip. ip)
      (cwkeyer.Gui.Remotes.to_port (pos 7300) ∷ cwkeyer.Gui.Remotes.to_delay (pos 90) ∷ []) at_25
      at_25-RemoteInv

abbrev paddle : Device
paddle = record {
  vendor_id = pos 0x413d;
  product_id = pos 0x2107;
  path = none;
  interface = some (record { interface_num = pos 0; endpoint = pos 0x81; packet_size = pos 8 });
}

-- A paddle that is plugged in later, while the listener is on.
abbrev listening : Paddles ℤ
listening = record {
  device = record {
    detected = some paddle;
    connected = false;
    joinable = false;
    disk = record { present = true; readable = true; writable = true; root = none };
  };
  keyboard_listener = record new_listener { enabled = true; running = true; has_context = true };
  keyboard = record { opened = true; enabled = false; events = [] };
  signals = [];
}

shows_paddle :
    device_text paddle
    ≡ codes "Device vid=0x0000413d pid=0x00002107 \ninterface=0 endpoint=0x00000081"
unfolding device_text int_to_hex hex_digits to_string digits
shows_paddle = refl

-- Sound on device 4, the second of the list; device 3 does not take the format.
abbrev audio : Audio ℤ
audio = record {
  supports = λ device rate. device == 4;
  starts = λ n. true;
  samples_in = λ rate seconds. 220;
  seconds = λ ms. ms;
}

abbrev defaults : Defaults ℤ
defaults = record {
  device = 0;
  attack = pos 5;
  release = pos 5;
  fuzzy_compare = int_eq;
  of_int = same;
}

abbrev panel : SoundPanel ℤ
panel = record {
  amplitude = pos 1;
  frequency = pos 650;
  selected_audio_device = pos 1;
  audio_device_list = 3 ∷ 4 ∷ [];
  config = field (codes "enabled_sound") (boolean true) end;
  sound = record {
    sink = some (record { id = 0; running = false });
    active_buffer = none;
    cw_generator = none;
    device = 4;
    enabled = true;
    sample_rate = 44100;
    attack_samples = 220;
    release_samples = 220;
    frequency = pos 650;
    amplitude = pos 1;
    attack_time = pos 5;
    release_time = pos 5;
    cache_sound = [];
    sink_device = none;
    made_with = some (4, pos 650, pos 1);
    push_timer = none;
    sinks = 1;
    starts = 0;
    written = [];
  };
  signals = [];
}

panel-SoundInStep : SoundInStep audio defaults panel
unfolding saved_enabled find to_bool chosen
panel-SoundInStep = record {
  pitch = refl;
  loudness = refl;
  device = refl;
  made = inr refl;
  enabling = refl;
}

change_sounds-SoundInStep_example : SoundInStep audio defaults (
    change_sounds audio defaults
      (to_frequency (pos 700) ∷ sounding false ∷ to_device (pos 0) ∷ [])
      panel)
change_sounds-SoundInStep_example =
    change_sounds-SoundInStep audio defaults
      (to_frequency (pos 700) ∷ sounding false ∷ to_device (pos 0) ∷ []) panel panel-SoundInStep
