-- ===== src/Gui/Startup/Tests.antt =====
-- The start of the program on two machines; the doubles are whole numbers here.
use cwkeyer.Base.{ℕ, ◌≡◌, refl, Bool, true, false, List, [], ◌∷◌, none, some, ◌==◌}
use cwkeyer.Base.Int.{ℤ, pos, ltb_ℤ}
use cwkeyer.Base.Text.{codes}
use cwkeyer.Configuration.{
  number, boolean, end, field, get_value, map_result, look_up, remove, remove_value,
  write_full_json, find, as_int, as_double, insert, object_of, read_full_json,
}
use cwkeyer.Usb.Connection.{Connection, Outcome, done, connect_device}
use cwkeyer.Usb.Device.{int_eq, from_json, interface_from_json}
use cwkeyer.Keyboard.{Recording, new_listener}
use cwkeyer.Sound.{Audio, new_sound}
use cwkeyer.Gui.Sounds.{Defaults, chosen}
use cwkeyer.Gui.{is_index}
use cwkeyer.Gui.Load.{
  load_configuration, load_server_ip, load_mox_delay, get_int, load_remote_port, load_indices,
  load_mode, is_mode, load_farns_worth, load_wpm,
}
use cwkeyer.Gui.Window.{
  load_window, load_amplitude, load_frequency, new_window, load_comm_ports, load_audio_devices,
  Window, Machine, Doubles, construct, init_connector,
}
use cwkeyer.Gui.Startup.{Started, supported, start_up_lem, start_up_fails}

abbrev same : ℤ → ℤ
same n = n

-- Device 4 takes the format.
abbrev audio : Audio ℤ
audio = record {
  supports = λ device rate. device == 4;
  starts = λ n. true;
  samples_in = λ rate seconds. 220;
  seconds = λ ms. ms;
}

abbrev defaults : Defaults ℤ
defaults = record {
  device = 0;
  attack = pos 5;
  release = pos 5;
  fuzzy_compare = int_eq;
  of_int = same;
}

abbrev doubles : Doubles ℤ
doubles = record { half = pos 1; positive = ltb_ℤ (pos 0); of_int = same; to_int = same }

-- A machine with two audio outputs, of which the file chooses the second, and one with none.
abbrev desk : Machine ℤ
desk = record {
  audio_outputs = (3, codes "HDMI") ∷ (4, codes "Speaker") ∷ [];
  ports = codes "/dev/ttyUSB0" ∷ [];
  file_present = true;
  file_root = some (
      field (codes "selected_audio_device") (number (pos 1))
        (field (codes "remote_connected") (boolean true) end));
  opens_keyboard = true;
  null_device = 0;
}

abbrev mute : Machine ℤ
mute = record desk { audio_outputs = [] }

abbrev records : Recording
records = record { range = true; context = true; enabled = true }

abbrev starts : List ℕ → ℤ → ℤ → Bool
starts ip port delay = int_eq port (pos 50005)

abbrev result : Connection ℤ → Outcome ℤ → Connection ℤ
result u (done v) = v
result u _ = u

abbrev connected : Machine ℤ → Connection ℤ
connected m =
    let u = (construct audio defaults doubles m).paddles.device in
    result u (connect_device same same true u)

finds_nothing :
    connect_device same same true (construct audio defaults doubles desk).paddles.device
    ≡ done (connected desk)
unfolding connect_device get_value map_result look_up remove remove_value write_full_json from_json
    interface_from_json construct chosen load_window load_configuration load_server_ip find
    load_mox_delay get_int as_int load_remote_port load_indices load_mode is_mode load_farns_worth
    load_wpm as_double load_comm_ports load_audio_devices insert object_of read_full_json
    load_amplitude load_frequency new_window is_index new_listener new_sound
finds_nothing = refl

desk-supported :
    supported audio defaults doubles starts (construct audio defaults doubles desk).panel ≡ true
unfolding construct chosen load_window load_configuration load_server_ip find load_mox_delay get_int
    as_int load_remote_port load_indices load_mode is_mode load_farns_worth load_wpm as_double
    load_comm_ports load_audio_devices insert object_of read_full_json load_amplitude load_frequency
    new_window is_index new_listener new_sound
desk-supported = refl

mute_finds_nothing :
    connect_device same same true (construct audio defaults doubles mute).paddles.device
    ≡ done (connected mute)
unfolding connect_device get_value map_result look_up remove remove_value write_full_json from_json
    interface_from_json construct chosen load_window load_configuration load_server_ip find
    load_mox_delay get_int as_int load_remote_port load_indices load_mode is_mode load_farns_worth
    load_wpm as_double load_comm_ports load_audio_devices insert object_of read_full_json
    load_amplitude load_frequency new_window is_index new_listener new_sound
mute_finds_nothing = refl

mute_unsupported :
    supported audio defaults doubles starts (construct audio defaults doubles mute).panel ≡ false
unfolding construct chosen load_window load_configuration load_server_ip find load_mox_delay get_int
    as_int load_remote_port load_indices load_mode is_mode load_farns_worth load_wpm as_double
    load_comm_ports load_audio_devices insert object_of read_full_json load_amplitude load_frequency
    new_window is_index new_listener new_sound
mute_unsupported = refl

start_up_lem_example :
    (w : Window ℤ) × (init_connector audio defaults doubles starts records true
        (construct audio defaults doubles desk)
      ≡ some (w, true))
    × Started audio defaults doubles starts w
start_up_lem_example =
    start_up_lem audio defaults doubles starts desk records true (connected desk) finds_nothing
      desk-supported

start_up_fails_example :
    (w : Window ℤ) × (init_connector audio defaults doubles starts records true
        (construct audio defaults doubles mute)
      ≡ some (w, false))
    × (w.settings.keyer ≡ (w.settings.wpm, w.settings.mode))
    × (w.settings.remote ≡ none)
start_up_fails_example =
    start_up_fails audio defaults doubles starts mute records true (connected mute)
      mute_finds_nothing mute_unsupported
