-- ===== src/Remote/Tests.antt =====
-- The remote client at concrete inputs.
use cwkeyer.Base.{
  ℕ, ◌≡◌, refl, Bool, true, false, List, [], ◌∷◌, ◌++◌, some, none, ◌⊎◌, arith, leb, Option,
  if◌then◌else◌,
}
use cwkeyer.Base.Int.{pos}
use cwkeyer.Base.Text.{codes}
use cwkeyer.Timing.{dit, dah}
use cwkeyer.Remote.{
  Network, RemoteClient, trx, keyer, keyer_timed, new_client, start_run_cw, line_of, to_string,
  digits,
}
use cwkeyer.Remote.Base64.{base64_encode}
use cwkeyer.Remote.Frame.{mask_key, frame}
use cwkeyer.Remote.Frame.RoundTrip.{read_frame, read_frame-frame}
use cwkeyer.Remote.Handshake.{
  perform_web_socket_handshake, crlf, receive, is_web_socket_upgrade_response, contains,
  starts_with,
}
use cwkeyer.Remote.Handshake.Accepts.{concat, Accepted, handshake-Accepted}
use cwkeyer.Remote.Session.{idle, ended, Connecting, timer_step}
use cwkeyer.Remote.Wire.{MoxInv}
use cwkeyer.Remote.Events.{
  Event, runs, wakes, starts, stops, proceeds, calm, run, StageInv, run-MoxInv_new,
}
use cwkeyer.Remote.Straight.{held_key_loses_mox}
use cwkeyer.Remote.Socket.{send_raw, send_raw_lem}

base64_of_text : base64_encode (codes "keyer") ≡ codes "a2V5ZXI="
unfolding base64_encode cwkeyer.Remote.Base64.sextet cwkeyer.Remote.Base64.at
    cwkeyer.Remote.Base64.triple
base64_of_text = refl

timed_line : line_of (keyer_timed (pos 60)) ≡ codes "keyer:0,true,60;"
unfolding line_of to_string digits
timed_line = refl

read_frame-frame_example :
    read_frame (frame (mask_key 1 2 3 4) (codes "trx") ++ []) ≡ some (codes "trx", [])
read_frame-frame_example =
    read_frame-frame 1 2 3 4 (codes "trx") [] (omega arith, (omega arith, (omega arith, tt)))
      (omega arith)

abbrev response : List ℕ
response =
    codes "HTTP/1.1 101 Switching Protocols" ++ crlf ++ codes "Upgrade: websocket" ++ crlf ++ crlf

accepts_response : perform_web_socket_handshake true (response ∷ []) ≡ true
unfolding perform_web_socket_handshake receive is_web_socket_upgrade_response contains starts_with
accepts_response = refl

handshake-Accepted_example :
    (true ≡ true)
    × (got : List ℕ) × (later : List ℕ) × (concat (response ∷ []) ≡ got ++ later)
    × Accepted got
handshake-Accepted_example = handshake-Accepted true (response ∷ []) accepts_response

-- A network that takes every frame.
abbrev open_network : Network
open_network = record { accepts = λ n bytes. true; mask = λ n. mask_key n 7 8 9 }

abbrev connecting : Connecting
connecting = record {
  platform_init = true;
  connection = some 5;
  request_sent = true;
  answer = response ∷ [];
}

-- A start, a dit, a turn of the thread, and a stop with an element between its parts.
abbrev session : List Event
session =
    starts (codes "10.0.0.1") (pos 50001) (pos 250) connecting
    ∷ proceeds
    ∷ proceeds
    ∷ proceeds
    ∷ runs dit (pos 60) 1000
    ∷ wakes 1001
    ∷ stops
    ∷ wakes 1002
    ∷ wakes 1003
    ∷ proceeds
    ∷ runs dah (pos 180) 1004
    ∷ proceeds
    ∷ proceeds
    ∷ []

run-MoxInv_new_example : StageInv open_network (run open_network session (calm, ended, new_client))
run-MoxInv_new_example = run-MoxInv_new open_network session

-- A client in the middle of a transmission.
abbrev transmitting : RemoteClient
transmitting = record {
  socket_fd = some 5;
  running = true;
  mox_active = true;
  stop_timer = false;
  scheduled = true;
  token = 3;
  deactivation_at = 1310;
  release_delay = pos 250;
  wire = trx true ∷ keyer_timed (pos 60) ∷ [];
  sends = 2;
}

transmitting-MoxInv : MoxInv transmitting
transmitting-MoxInv = record {
  wire_inv = record { opened = λ e. refl; follows = λ e. refl; proper = refl };
  pending = λ e m. refl;
}

-- A client that is connected and silent.
abbrev silent : RemoteClient
silent = record transmitting { mox_active = false; scheduled = false; wire = [] }

held_key_loses_mox_example :
    (timer_step open_network 1500 idle (start_run_cw open_network 1000 silent)).1.wire
    ≡ trx true ∷ keyer true ∷ trx false ∷ []
held_key_loses_mox_example =
    held_key_loses_mox open_network 249 1000 1500 silent (λ n bytes. refl) refl refl refl refl refl
      (omega arith) (omega arith)

-- A send that takes one octet at a time.
send_raw_lem_example :
    (done : Bool) × (gone : List ℕ) × (left : List ℕ) × (send_raw
        (λ n bytes. pos 1)
        true
        (codes "abc")
      ≡ some (done, gone))
    × (gone ++ left ≡ codes "abc")
    × ((done ≡ false) ⊎ ((true ≡ true) × (gone ≡ codes "abc")))
send_raw_lem_example = send_raw_lem (λ n bytes. pos 1) true (codes "abc")

-- On Windows, a send that takes two octets at a time and then fails.
abbrev fails_third : ℕ → List ℕ → Option ℕ
fails_third n bytes = if leb 2 n then none else some 2
