-- ===== src/Gui/Quit/Tests.antt =====
-- The switches of the window, and the end of the program in the middle of a transmission; the doubles are whole numbers here.
use cwkeyer.Base.{◌≡◌, refl, true, false, [], ◌∷◌, none, some}
use cwkeyer.Base.Int.{ℤ, pos}
use cwkeyer.Timing.{dit}
use cwkeyer.Keyer.{new_keyer}
use cwkeyer.Sound.{new_sound}
use cwkeyer.Serial.{SerialComm, SerialInv, Opening}
use cwkeyer.Remote.{Network, trx, keyer_timed}
use cwkeyer.Remote.Wire.{MoxInv}
use cwkeyer.Keyboard.{new_listener}
use cwkeyer.Base.Text.{codes}
use cwkeyer.Configuration.{end}
use cwkeyer.Gui.{port_at, enabled_comm_out_changed, enabled_comm_in_changed}
use cwkeyer.Gui.Switches.{
  Panel, switch_comm_out, switch_comm_in, enabled_comm_out, enabled_comm_in, switches_lem,
}
use cwkeyer.Gui.Quit.{Parts, Ended, quit, quit_lem}

abbrev same : ℤ → ℤ
same n = n

abbrev open_network : Network
open_network = record {
  accepts = λ n octets. true;
  mask = λ n. record { m₀ = 1; m₁ = 2; m₂ = 3; m₃ = 4 };
}

-- A port with the key down.
abbrev key_down : SerialComm
key_down = record {
  serial = true;
  running = true;
  rts_control = false;
  dtr_control = false;
  lines = record { dtr = true; rts = false };
  opened = 1;
}

-- A port that is closed.
abbrev key_up : SerialComm
key_up = record key_down {
  serial = false;
  running = false;
  lines = record { dtr = false; rts = false };
  opened = 0;
}

key_up-SerialInv : SerialInv key_up
key_up-SerialInv = record { open_iff_running = refl; one = refl }

-- All parts but the USB device run, and the keyer plays a dit.
abbrev busy_parts : Parts ℤ
busy_parts = record {
  sound = new_sound 0 (pos 0);
  device = record {
    detected = none;
    connected = false;
    joinable = false;
    disk = record { present = true; readable = true; writable = true; root = none };
  };
  keyer = record {
    keyer = record new_keyer { started = true };
    waiting = 0;
    busy = some (record { item = dit; squeeze = false });
  };
  serial_comm = key_down;
  serial_comm_in = record { port = key_down; piped = true; thread = true };
  remote = record {
    socket_fd = some 5;
    running = true;
    mox_active = true;
    stop_timer = false;
    scheduled = true;
    token = 3;
    deactivation_at = 1310;
    release_delay = pos 250;
    wire = trx true ∷ keyer_timed (pos 60) ∷ [];
    sends = 2;
  };
  keyboard = record { opened = true; enabled = false; events = [] };
  keyboard_listener = record new_listener { enabled = true; running = true; has_context = true };
  cw_decoder = record {
    inter_element = pos 60;
    letter = pos 180;
    word = pos 420;
    started = true;
    running = true;
    sequence = [];
    last_signal_time = 0;
    last_duration = pos 0;
    log = [];
  };
}

key_down-SerialInv : SerialInv key_down
key_down-SerialInv = record { open_iff_running = refl; one = refl }

remote-MoxInv : MoxInv busy_parts.remote
remote-MoxInv = record {
  wire_inv = record { opened = λ e. refl; follows = λ e. refl; proper = refl };
  pending = λ e m. refl;
}

quit_lem_example :
    (q : Parts ℤ) × (quit same same open_network busy_parts ≡ some q)
    × Ended same same open_network busy_parts q
quit_lem_example =
    quit_lem same same open_network busy_parts refl refl key_down-SerialInv refl refl remote-MoxInv
      refl refl

-- The thread of a device whose interface could not be claimed.
abbrev stray_parts : Parts ℤ
stray_parts = record busy_parts { device = record busy_parts.device { joinable = true } }

-- A window with a port selected for each direction, both off, and a system that opens no port.
abbrev both_off : Panel ℤ
both_off = record {
  settings = record {
    wpm = pos 25;
    farns_worth = pos 25;
    mode = pos 3;
    audio_devices = 1;
    selected_audio_device = pos 0;
    comm_ports = codes "/dev/ttyUSB0" ∷ codes "/dev/ttyUSB1" ∷ [];
    selected_comm_port = pos 1;
    selected_comm_port_in = pos 0;
    remote_port = pos 50005;
    remote_mox_delay_ms = pos 250;
    server_ip = codes "127.0.0.1";
    config = end;
    keyer = (pos 25, pos 3);
    decoder = none;
    comm_out = none;
    comm_in = none;
    remote = none;
    signals = [];
  };
  parts = record busy_parts {
    serial_comm = key_up;
    serial_comm_in = record { port = key_up; piped = false; thread = false };
  };
}

abbrev no_port : Opening
no_port = record { opens = false; gets = true; sets = true }

switches_lem_example :
    (v : Panel ℤ) × (u : Panel ℤ) × (switch_comm_out no_port true both_off ≡ some v)
    × (switch_comm_in true no_port true both_off ≡ some u)
    × (v.settings.signals ≡ enabled_comm_out_changed true ∷ [])
    × (u.settings.signals ≡ enabled_comm_in_changed true ∷ [])
    × (enabled_comm_out v ≡ false)
    × (enabled_comm_in u ≡ false)
unfolding enabled_comm_out enabled_comm_in
switches_lem_example =
    switches_lem no_port true true (codes "/dev/ttyUSB1") (codes "/dev/ttyUSB0") both_off
      (unfold port_at in refl) (unfold port_at in refl) key_up-SerialInv key_up-SerialInv
