-- ===== src/Chain/Paddles/Tests.antt =====
-- A paddle on USB at concrete states: a squeeze and its release.
use cwkeyer.Base.{◌≡◌, refl, true, false, List, [], ◌∷◌, none, some, arith}
use cwkeyer.Timing.{dah}
use cwkeyer.Keyer.{new_keyer}
use cwkeyer.Chain.Paddles.{
  Bench, Turn, reports, times_out, takes, ends, turns, dit_named, dah_named,
}
use cwkeyer.Chain.Paddles.Follows.{InTouch, paddles_followed}
use cwkeyer.Chain.Paddles.Silence.{keyer_falls_silent}

abbrev started : Bench
started = record {
  device = record { dit = false; dah = false; calls = [] };
  keyer = record { keyer = record new_keyer { started = true }; waiting = 1; busy = none };
  keyboard = record { opened = false; enabled = false; events = [] };
}

started-InTouch : InTouch started
unfolding new_keyer
started-InTouch = record {
  keyer_inv = record { keyer_inv = ground arith; busy_set = λ p e. cc };
  dit = refl;
  dah = refl;
}

-- The dit paddle, both paddles while the dit plays, and none.
abbrev squeeze : List Turn
squeeze =
    reports 1 0 0 0 []
    ∷ takes
    ∷ reports 0 0 1 1 []
    ∷ ends
    ∷ takes
    ∷ times_out
    ∷ reports 2 0 0 0 []
    ∷ []

paddles_followed_example :
    (c : Bench) × (turns squeeze started ≡ some c)
    × InTouch c
    × (c.keyer.keyer.dit_pressed ≡ dit_named started.device.dit squeeze)
    × (c.keyer.keyer.dah_pressed ≡ dah_named started.device.dah squeeze)
paddles_followed_example = paddles_followed squeeze started started-InTouch

-- Both paddles went up while a dah played that began with a squeeze.
abbrev released : Bench
released = record started {
  keyer = record {
    keyer = record new_keyer { started = true; last_pressed = some dah; last_queued = some dah };
    waiting = 0;
    busy = some (record { item = dah; squeeze = true });
  };
}

released-InTouch : InTouch released
unfolding new_keyer
released-InTouch = record {
  keyer_inv = record { keyer_inv = ground arith; busy_set = λ p e. ground arith };
  dit = refl;
  dah = refl;
}

keyer_falls_silent_example :
    (c : Bench) × (turns (ends ∷ takes ∷ ends ∷ []) released ≡ some c)
    × (c.keyer.keyer.queue ≡ [])
    × (c.keyer.busy ≡ none)
keyer_falls_silent_example =
    keyer_falls_silent released released-InTouch refl refl refl (λ e. absurd (cc))
