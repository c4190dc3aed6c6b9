-- ===== src/Outputs/Keys.antt =====
-- The devices that take a straight key: SerialComm on Linux and on Windows, and RemoteClient.
use cwkeyer.Base.{ℕ, ◌+◌, ◌/◌, ◌≡◌, refl, Bool, true, false, List, [], ◌∷◌, ◌++◌, arith}
use cwkeyer.Base.Int.{pos}
use cwkeyer.Serial
use cwkeyer.Serial.Windows
use cwkeyer.Serial.Threads.{Keying}
use cwkeyer.Serial.Windows.{WinSerial, dtr, rts, sleeps}
use cwkeyer.Remote
use cwkeyer.Remote.{
  Network, RemoteClient, Command, trx, keyer, keyer_timed, is_open, send_command,
  send_keyer_command, ensure_mox, activate_mox, send_command_line, release_after,
  schedule_mox_release, deactivate_mox, send_line, u64,
}
use cwkeyer.Remote.Straight.{send_line-sent, sent}
use cwkeyer.Outputs.{KeyerCw}
use cwkeyer.Outputs.Devices.{serial_cw, remote_cw}
use cwkeyer.Outputs.Straight.{StraightKey}

abbrev pub IsKeying : Keying → Type 0
IsKeying s = (s.port.running ≡ true) × (s.port.serial ≡ true)

pub serial_cw-IsKeying :
    (now : ℕ) (s : Keying)
    → IsKeying s
    → (IsKeying (serial_cw.start_run_cw now s)
        × ((serial_cw.start_run_cw now s).port.lines.dtr ≡ true))
      × IsKeying (serial_cw.stop_run_cw now s)
      × ((serial_cw.stop_run_cw now s).port.lines.dtr ≡ false)
unfolding serial_cw Serial.start_run_cw Serial.stop_run_cw
serial_cw-IsKeying now s r = ground arith

-- The key of a serial port that is open is its DTR line.
unfoldable pub serial_key : StraightKey serial_cw
serial_key = record {
  Ready = IsKeying;
  keyed = λ s. s.port.lines.dtr;
  starts = λ now s r. (serial_cw-IsKeying now s r).0;
  stops = λ now s r. ((serial_cw-IsKeying now s r).1, (serial_cw-IsKeying now s r).2);
}

-- SerialComm on Windows
unfoldable pub windows_cw : KeyerCw WinSerial
windows_cw = record {
  run_cw = λ now item duration s. Windows.run_cw item duration s;
  start_run_cw = λ now s. Windows.set_dtr true s;
  stop_run_cw = λ now s. Windows.set_dtr false s;
}

-- The DTR line after what was set on the lines.
unfoldable pub dtr_after : Bool → List Windows.Output → Bool
dtr_after b [] = b
dtr_after b (dtr c ∷ os) = dtr_after c os
dtr_after b (_ ∷ os) = dtr_after b os

dtr_after-append :
    (b : Bool) (os : List Windows.Output) (c : Bool) → dtr_after b (os ++ dtr c ∷ []) ≡ c
unfolding dtr_after
dtr_after-append b [] c = refl
dtr_after-append b (dtr e ∷ os) c = dtr_after-append e os c
dtr_after-append b (rts e ∷ os) c = dtr_after-append b os c
dtr_after-append b (sleeps e ∷ os) c = dtr_after-append b os c

abbrev pub IsKeyingWin : WinSerial → Type 0
IsKeyingWin s = (s.running ≡ true) × (s.handle ≡ true)

pub windows_cw-IsKeyingWin :
    (b : Bool) (s : WinSerial)
    → IsKeyingWin s
    → IsKeyingWin (Windows.set_dtr b s) × (dtr_after false (Windows.set_dtr b s).outputs ≡ b)
unfolding Windows.set_dtr
windows_cw-IsKeyingWin b s r = ground (arith, dtr_after-append false s.outputs b)

unfoldable pub windows_key : StraightKey windows_cw
unfolding windows_cw
windows_key = record {
  Ready = IsKeyingWin;
  keyed = λ s. dtr_after false s.outputs;
  starts = λ now s r. windows_cw-IsKeyingWin true s r;
  stops = λ now s r. windows_cw-IsKeyingWin false s r;
}

-- What the server knows of the key after some commands.
unfoldable pub keyer_after : Bool → List Command → Bool
keyer_after b [] = b
keyer_after b (keyer c ∷ cs) = keyer_after c cs
keyer_after b (_ ∷ cs) = keyer_after b cs

keyer_after-append : (b c : Bool) (cs : List Command) → keyer_after b (cs ++ keyer c ∷ []) ≡ c
unfolding keyer_after
keyer_after-append b c [] = refl
keyer_after-append b c (keyer e ∷ cs) = keyer_after-append e c cs
keyer_after-append b c (trx e ∷ cs) = keyer_after-append b c cs
keyer_after-append b c (keyer_timed e ∷ cs) = keyer_after-append b c cs

keyer_after-trx :
    (b c : Bool) (cs : List Command) → keyer_after b (cs ++ trx c ∷ []) ≡ keyer_after b cs
unfolding keyer_after
keyer_after-trx b c [] = refl
keyer_after-trx b c (keyer e ∷ cs) = keyer_after-trx e c cs
keyer_after-trx b c (trx e ∷ cs) = keyer_after-trx b c cs
keyer_after-trx b c (keyer_timed e ∷ cs) = keyer_after-trx b c cs

module _ (net : Network) (takes : (n : ℕ) (bytes : List ℕ) → net.accepts n bytes ≡ true) where
  abbrev pub IsUp : RemoteClient → Type 0
  IsUp r = (r.running ≡ true) × (is_open r.socket_fd ≡ true)

  release_after-key :
      (now : ℕ) (r : RemoteClient)
      → IsUp r
      → IsUp (release_after net (pos 0) now r).0
        × (keyer_after false (release_after net (pos 0) now r).0.wire ≡ keyer_after false r.wire)
  unfolding release_after schedule_mox_release deactivate_mox
  release_after-key now r up =
      ground (arith, send_line-sent net (trx false) r takes, keyer_after-trx false false r.wire)

  ensure_mox-key :
      (r : RemoteClient) → IsUp r → ((ensure_mox net r).1 ≡ true) × IsUp (ensure_mox net r).0
  unfolding ensure_mox activate_mox
  ensure_mox-key r up = ground (arith, send_line-sent net (trx true) r takes)

  send_command_line-key :
      (b : Bool) (now : ℕ) (r : RemoteClient)
      → IsUp r
      → IsUp (send_command_line net (keyer b) (pos 0) now r).0
        × (keyer_after false (send_command_line net (keyer b) (pos 0) now r).0.wire ≡ b)
  unfolding send_command_line
  send_command_line-key b now r up = ground (
    arith,
    send_line-sent net (keyer b) r takes,
    release_after-key now (sent (keyer b) r),
    keyer_after-append false b r.wire,
  )

  pub send_command-key :
      (b : Bool) (now : ℕ) (r : RemoteClient)
      → IsUp r
      → IsUp (send_command net b now r).0
        × (keyer_after false (send_command net b now r).0.wire ≡ b)
  unfolding send_command send_keyer_command
  send_command-key b now r up =
      let r₁ = record r { scheduled = false; token = u64 (r.token + 1) } in
      let (keyed, up') = ensure_mox-key r₁ up in
      ground (arith, send_command_line-key b now (ensure_mox net r₁).0 up')

  -- The key of a remote client that is connected, over a network that takes every frame, is what the
  -- last keying command says.
  unfoldable pub remote_key : StraightKey (remote_cw net)
  unfolding remote_cw Remote.start_run_cw Remote.stop_run_cw
  remote_key = record {
    Ready = IsUp;
    keyed = λ r. keyer_after false r.wire;
    starts = λ now r up. send_command-key true (now / 1000000) r up;
    stops = λ now r up. send_command-key false (now / 1000000) r up;
  }
