-- ===== src/Outputs/Devices.antt =====
-- The devices that GuiConnector's constructor (App/gui/GuiConnector.cpp) gives to the keyer, on Linux:
-- sound, serial key, decoder and remote client, in this order.
-- Sound only emits queued signals in the keyer's thread: its state here is the queue of Qt's event
-- loop, newest last. The remote client reads the clock in milliseconds. The threads of the serial
-- key, of the decoder and of the remote client have their turns in Serial.Threads, Chain.Decoding and
-- Chain.OnAir; these are the calls alone.
use mathlib.Core.List.{append_assoc, append-nil}
use cwkeyer.Base.{ℕ, suc, ◌/◌, ◌≡◌, refl, sym, ap, ◌∙◌, List, [], ◌∷◌, ◌++◌}
use cwkeyer.Keyer.{Output, run_cw, start_run_cw, stop_run_cw, sleep_for}
use cwkeyer.Sound.Events.{Event, plays, starts_cw, stops_cw}
use cwkeyer.Serial
use cwkeyer.Serial.Threads
use cwkeyer.Serial.Threads.{Keying}
use cwkeyer.Decoder
use cwkeyer.Decoder.{CwDecoder}
use cwkeyer.Remote
use cwkeyer.Remote.{Network, RemoteClient}
use cwkeyer.Chain.{hear}
use cwkeyer.Outputs.{KeyerCw, add_keyer_cw, play, play_all, play_all-map}

-- Sound::runCW, startRunCw and stopRunCw
unfoldable pub sound_cw : {D : Type 0} → KeyerCw (List (Event D))
sound_cw = record {
  run_cw = λ now item duration q. q ++ plays duration ∷ [];
  start_run_cw = λ now q. q ++ starts_cw ∷ [];
  stop_run_cw = λ now q. q ++ stops_cw ∷ [];
}

-- SerialComm, with the threads of runCW.
unfoldable pub serial_cw : KeyerCw Keying
serial_cw = record {
  run_cw = λ now item duration s. Threads.run_cw duration s;
  start_run_cw = λ now s. record s { port = Serial.start_run_cw s.port };
  stop_run_cw = λ now s. record s { port = Serial.stop_run_cw s.port };
}

-- CwDecoder; it takes no straight key.
unfoldable pub decoder_cw : KeyerCw CwDecoder
decoder_cw = record {
  run_cw = λ now item duration d. Decoder.run_cw item duration now now d;
  start_run_cw = λ now d. d;
  stop_run_cw = λ now d. d;
}

unfoldable pub remote_cw : Network → KeyerCw RemoteClient
remote_cw net = record {
  run_cw = λ now item duration r. Remote.run_cw net item duration (now / 1000000) r;
  start_run_cw = λ now r. Remote.start_run_cw net (now / 1000000) r;
  stop_run_cw = λ now r. Remote.stop_run_cw net (now / 1000000) r;
}

-- An element of m_keyerCWList.
pub data Device (D : Type 0) : Type 0 where
  sound : List (Event D) → Device D
  serial_comm : Keying → Device D
  cw_decoder : CwDecoder → Device D
  remote_client : RemoteClient → Device D

-- The call of a virtual function, from what each class has for it.
abbrev dispatch :
    {D : Type 0}
    → (List (Event D) → List (Event D))
    → (Keying → Keying)
    → (CwDecoder → CwDecoder)
    → (RemoteClient → RemoteClient)
    → Device D
    → Device D
dispatch a b c d (sound q) = sound (a q)
dispatch a b c d (serial_comm s) = serial_comm (b s)
dispatch a b c d (cw_decoder e) = cw_decoder (c e)
dispatch a b c d (remote_client r) = remote_client (d r)

unfoldable pub gui_cw : {D : Type 0} → Network → KeyerCw (Device D)
unfolding sound_cw serial_cw decoder_cw remote_cw
gui_cw net = record {
  run_cw = λ now item duration.
      dispatch (sound_cw.run_cw now item duration) (serial_cw.run_cw now item duration)
        (decoder_cw.run_cw now item duration) ((remote_cw net).run_cw now item duration);
  start_run_cw = λ now.
      dispatch (sound_cw.start_run_cw now) (serial_cw.start_run_cw now)
        (decoder_cw.start_run_cw now) ((remote_cw net).start_run_cw now);
  stop_run_cw = λ now.
      dispatch (sound_cw.stop_run_cw now) (serial_cw.stop_run_cw now) (decoder_cw.stop_run_cw now)
        ((remote_cw net).stop_run_cw now);
}

-- The list that the constructor builds: Keyer(m_sound), and three calls of addKeyerCW.
unfoldable pub gui_devices :
    {D : Type 0} → List (Event D) → Keying → CwDecoder → RemoteClient → List (Device D)
unfolding add_keyer_cw
gui_devices q s d r =
    add_keyer_cw (remote_client r)
      (add_keyer_cw (cw_decoder d) (add_keyer_cw (serial_comm s) (add_keyer_cw (sound q) [])))

-- The queued signals of the outputs.
unfoldable pub events_of : {D : Type 0} → List Output → List (Event D)
events_of [] = []
events_of (run_cw item duration ∷ os) = plays duration ∷ events_of os
events_of (start_run_cw ∷ os) = starts_cw ∷ events_of os
events_of (stop_run_cw ∷ os) = stops_cw ∷ events_of os
events_of (sleep_for duration ∷ os) = events_of os

module _ {D : Type 0} (net : Network) (late : ℕ → ℕ) where
  abbrev alone : ℕ → ℕ → List Output → Device D → Device D
  alone n now os = play (gui_cw net) late n now os

  play-sound :
      (n now : ℕ) (os : List Output) (q : List (Event D))
      → alone n now os (sound q) ≡ sound (q ++ events_of os)
  unfolding play gui_cw events_of
  play-sound n now [] q = ap (λ l. sound l) (sym (append-nil q))
  play-sound n now (run_cw item duration ∷ os) q =
      play-sound n now os (q ++ plays duration ∷ [])
      ∙ ap (λ l. sound l) (append_assoc q (plays duration ∷ []) (events_of os))
  play-sound n now (start_run_cw ∷ os) q =
      play-sound n now os (q ++ starts_cw ∷ [])
      ∙ ap (λ l. sound l) (append_assoc q (starts_cw ∷ []) (events_of os))
  play-sound n now (stop_run_cw ∷ os) q =
      play-sound n now os (q ++ stops_cw ∷ [])
      ∙ ap (λ l. sound l) (append_assoc q (stops_cw ∷ []) (events_of os))
  play-sound n now (sleep_for duration ∷ os) q = play-sound (suc n) _ os q

  play-cw_decoder :
      (n now : ℕ) (os : List Output) (d : CwDecoder)
      → alone n now os (cw_decoder d) ≡ cw_decoder (hear late n now os d)
  unfolding play gui_cw hear
  play-cw_decoder n now [] d = refl
  play-cw_decoder n now (run_cw item duration ∷ os) d = play-cw_decoder n now os _
  play-cw_decoder n now (start_run_cw ∷ os) d = play-cw_decoder n now os d
  play-cw_decoder n now (stop_run_cw ∷ os) d = play-cw_decoder n now os d
  play-cw_decoder n now (sleep_for duration ∷ os) d = play-cw_decoder (suc n) _ os d

  play-serial_comm :
      (n now : ℕ) (os : List Output) (s : Keying)
      → alone n now os (serial_comm s) ≡ serial_comm (play serial_cw late n now os s)
  unfolding play gui_cw
  play-serial_comm n now [] s = refl
  play-serial_comm n now (run_cw item duration ∷ os) s = play-serial_comm n now os _
  play-serial_comm n now (start_run_cw ∷ os) s = play-serial_comm n now os _
  play-serial_comm n now (stop_run_cw ∷ os) s = play-serial_comm n now os _
  play-serial_comm n now (sleep_for duration ∷ os) s = play-serial_comm (suc n) _ os s

  play-remote_client :
      (n now : ℕ) (os : List Output) (r : RemoteClient)
      → alone n now os (remote_client r) ≡ remote_client (play (remote_cw net) late n now os r)
  unfolding play gui_cw
  play-remote_client n now [] r = refl
  play-remote_client n now (run_cw item duration ∷ os) r = play-remote_client n now os _
  play-remote_client n now (start_run_cw ∷ os) r = play-remote_client n now os _
  play-remote_client n now (stop_run_cw ∷ os) r = play-remote_client n now os _
  play-remote_client n now (sleep_for duration ∷ os) r = play-remote_client (suc n) _ os r

  -- What the four devices make of any outputs of the keyer, in the order of the list: the sound gets the
  -- signals of the calls, the serial key and the remote client what each would get alone, and the decoder
  -- hears what it would hear alone.
  gui_devices_lem :
      (n now : ℕ) (os : List Output) (q : List (Event D)) (s : Keying) (d : CwDecoder)
      (r : RemoteClient)
      → play_all (gui_cw net) late n now os (gui_devices q s d r)
        ≡ gui_devices
            (q ++ events_of os)
            (play serial_cw late n now os s)
            (hear late n now os d)
            (play (remote_cw net) late n now os r)
  unfolding gui_devices
  gui_devices_lem n now os q s d r =
      rw
        (
          play_all-map (gui_cw net) late n now os (gui_devices q s d r),
          play-sound n now os q,
          play-serial_comm n now os s,
          play-cw_decoder n now os d,
          play-remote_client n now os r,
        )
        refl
