-- ===== src/Chain/Tests.antt =====
-- A keyer at 20 WPM with its decoder and its remote client: the theorems at concrete states.
use cwkeyer.Base.{ℕ, zero, suc, ◌≡◌, refl, inr, true, false, some, List, [], ◌∷◌, arith}
use cwkeyer.Base.Int.{pos}
use cwkeyer.Timing.{dit, dah}
use cwkeyer.Remote.{Network, RemoteClient, trx, keyer_timed}
use cwkeyer.Remote.Frame.{mask_key}
use cwkeyer.Remote.Session.{idle}
use cwkeyer.Keyer.{Keyer, Output, iambic_b}
use cwkeyer.Keyer.Squeeze.{rounds, IsSqueezed}
use cwkeyer.Decoder.{CwDecoder}
use cwkeyer.Chain.OnAir.{on_air, commands_of, squeeze_on_air}
use cwkeyer.Chain.Release.{mox_released}
use cwkeyer.Chain.Mox.{Play, Live, play_all, turn_all}

abbrev open_network : Network
open_network = record { accepts = λ n bytes. true; mask = λ n. mask_key n 7 8 9 }

abbrev ready : RemoteClient
ready = record {
  socket_fd = some 5;
  running = true;
  mox_active = false;
  stop_timer = false;
  scheduled = false;
  token = 1;
  deactivation_at = 0;
  release_delay = pos 250;
  wire = [];
  sends = 0;
}

-- A dah at 1000 ms, and a dit while the release waits.
abbrev first_dah : Play
first_dah = record { is_dah = true; shorter = 179; now = 1000; turns = 1000 ∷ 1010 ∷ [] }

abbrev then_dit : Play
then_dit = record { is_dah = false; shorter = 59; now = 1240; turns = 1241 ∷ [] }

ready-Live : Live false 249 2 idle ready
ready-Live = record {
  running = refl;
  opened = refl;
  on = refl;
  going = refl;
  delay = refl;
  waits = tt;
  tokens = omega arith;
}

mox_released_example :
    let s =
      turn_all open_network
        (1550 ∷ 1550 ∷ [])
        (play_all open_network (first_dah ∷ then_dit ∷ []) (idle, ready)) in
    (s.1.mox_active ≡ false)
    × (s.1.wire ≡ trx true ∷ keyer_timed (pos 180) ∷ keyer_timed (pos 60) ∷ trx false ∷ [])
mox_released_example =
    mox_released open_network (λ n bytes. refl) 249 1550 1550 first_dah (then_dit ∷ []) idle ready
      ready-Live (ground arith) (omega arith) (omega arith)

-- Both paddles held, and a dah that waits: "TETE..." without the spaces, "-.-." as one letter.
abbrev held : Keyer
held = record {
  dit_time = pos 60;
  dah_time = pos 180;
  space_time = pos 60;
  dit_pressed = true;
  dah_pressed = true;
  last_pressed = some dit;
  last_queued = some dah;
  mode = iambic_b;
  queue = dah ∷ [];
  started = true;
  log = [];
}

held-IsSqueezed : IsSqueezed held dah
held-IsSqueezed = record {
  running = refl;
  iambic = λ e. cc;
  dit_held = refl;
  dah_held = refl;
  waits = refl;
  queued = refl;
  element = inr refl;
}

abbrev listening : CwDecoder
listening = record {
  inter_element = pos 60;
  letter = pos 180;
  word = pos 420;
  started = true;
  running = true;
  sequence = [];
  last_signal_time = 0;
  last_duration = pos 0;
  log = [];
}

-- A client before the first element, and two turns of its thread within each sleep of a dah, a dit and
-- a dah, which are 3 ms late.
abbrev turns_within : ℕ → List ℕ
turns_within zero = 1000 ∷ 1100 ∷ []
turns_within (suc zero) = 1250 ∷ 1360 ∷ []
turns_within _ = []

squeeze_on_air_example :
    (k' : Keyer) × (played : List Output) × (rounds 3 held ≡ some k')
    × (k'.log ≡ played)
    × ((on_air open_network (λ j. 3) turns_within 0 1000 played (idle, ready)).1.wire
        ≡ trx true ∷ commands_of played)
    × ((on_air open_network (λ j. 3) turns_within 0 1000 played (idle, ready)).1.mox_active ≡ true)
squeeze_on_air_example =
    squeeze_on_air open_network (λ j. 3) turns_within 2 249 59 179 60 0 1000 dah held idle ready
      (λ n bytes. refl) held-IsSqueezed refl refl refl (λ j. omega arith) (ground arith)
      (record {
        running = refl;
        opened = refl;
        on = refl;
        going = refl;
        delay = refl;
        waits = tt;
        tokens = omega arith;
      })
