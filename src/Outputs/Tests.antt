-- ===== src/Outputs/Tests.antt =====
-- The devices of the keyer at concrete states.
use cwkeyer.Base.{ℕ, ◌≡◌, refl, Bool, true, false, List, [], ◌∷◌, Option, none, some}
use cwkeyer.Base.Int.{pos}
use cwkeyer.Timing.{dit}
use cwkeyer.Keyer.{Output, new_keyer}
use cwkeyer.Serial.Threads.{Keying}
use cwkeyer.Serial.Proxy.{Monitor, dsr_monitor_loop, last_reading}
use cwkeyer.Decoder.{CwDecoder}
use cwkeyer.Remote.{Network}
use cwkeyer.Remote.Frame.{mask_key}
use cwkeyer.Outputs.{play}
use cwkeyer.Outputs.Devices.{serial_cw}
use cwkeyer.Keyer.Calls.{calls}
use cwkeyer.Outputs.Straight.{line_keys_device}
use cwkeyer.Outputs.Keys.{serial_key}

abbrev open_network : Network
open_network = record { accepts = λ n bytes. true; mask = λ n. mask_key n 7 8 9 }

abbrev punctual : ℕ → ℕ
punctual n = 0

abbrev port_up : Keying
port_up = record {
  port = record {
    serial = true;
    running = true;
    rts_control = false;
    dtr_control = false;
    lines = record { dtr = false; rts = false };
    opened = 1;
  };
  fd = 5;
  tasks = [];
}

abbrev tuned : CwDecoder
tuned = record {
  inter_element = pos 60;
  letter = pos 180;
  word = pos 420;
  started = true;
  running = true;
  sequence = [];
  last_signal_time = 0;
  last_duration = pos 0;
  log = [];
}

-- A dit, and a press of the straight key.
abbrev outputs : List Output
outputs =
    Output.run_cw dit (pos 60)
    ∷ Output.sleep_for (pos 120)
    ∷ Output.start_run_cw
    ∷ Output.stop_run_cw
    ∷ []

-- The line goes up, is not read once, and goes down and up again.
abbrev readings : List (Option Bool)
readings = some true ∷ none ∷ some false ∷ some false ∷ some true ∷ []

abbrev monitor : Monitor
monitor = record { last_dsr = some false; calls = [] }

quiet : new_keyer.log ≡ []
unfolding new_keyer
quiet = refl

port_is_up : serial_key.Ready port_up × (serial_key.keyed port_up ≡ false)
unfolding serial_key
port_is_up = ((refl, refl), refl)

line_keys_device_example :
    let played =
      play serial_cw punctual 0 0
        (calls (dsr_monitor_loop readings monitor).calls new_keyer).log
        port_up in
    serial_key.Ready played
    × (serial_key.keyed played ≡ last_reading (serial_key.keyed port_up) readings)
unfolding serial_key
line_keys_device_example =
    line_keys_device serial_cw serial_key punctual 0 0 readings monitor new_keyer port_up
      (refl, refl) quiet refl refl

keyed_at_last : last_reading false readings ≡ true
unfolding last_reading
keyed_at_last = refl
