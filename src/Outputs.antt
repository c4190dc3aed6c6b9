-- ===== src/Outputs.antt =====
-- App/utils/IKeyerCW.h and the loops of App/keyer/Keyer.cpp over m_keyerCWList: the output devices
-- and how the keyer's outputs reach each of them.
pub mod Devices
pub mod Straight
pub mod Keys
mod Tests
use mathlib.Core.List.{map}
use cwkeyer.Base.{ℕ, suc, ◌+◌, ◌*◌, ◌≡◌, refl, sym, ap, ◌∙◌, List, [], ◌∷◌, ◌++◌}
use cwkeyer.Base.Int.{ℤ, pos_part}
use cwkeyer.Timing.{KeyerItem}
use cwkeyer.Keyer.{Output, run_cw, start_run_cw, stop_run_cw, sleep_for}

-- class IKeyerCW: what a device makes of each call. A call comes at a time of the steady clock, in
-- nanoseconds.
pub record KeyerCw (D : Type 0) : Type 0 where
  pub run_cw : ℕ → KeyerItem → ℤ → D → D
  pub start_run_cw : ℕ → D → D
  pub stop_run_cw : ℕ → D → D

-- Keyer::addKeyerCW
unfoldable pub add_keyer_cw : {D : Type 0} → D → List D → List D
add_keyer_cw device devices = devices ++ device ∷ []

module _ {D : Type 0} (cw : KeyerCw D) where
  -- The outputs of the keyer, from the time `now` and the sleep number n on: each call goes to every
  -- device of the list, in order, before the next output.
  unfoldable pub play_all : (ℕ → ℕ) → ℕ → ℕ → List Output → List D → List D
  play_all late n now [] ds = ds
  play_all late n now (run_cw item duration ∷ os) ds =
      play_all late n now os (map (cw.run_cw now item duration) ds)
  play_all late n now (start_run_cw ∷ os) ds = play_all late n now os (map (cw.start_run_cw now) ds)
  play_all late n now (stop_run_cw ∷ os) ds = play_all late n now os (map (cw.stop_run_cw now) ds)
  play_all late n now (sleep_for duration ∷ os) ds =
      play_all late (suc n) (now + pos_part duration * 1000000 + late n) os ds

  -- The same outputs, to one device alone.
  unfoldable pub play : (ℕ → ℕ) → ℕ → ℕ → List Output → D → D
  play late n now [] d = d
  play late n now (run_cw item duration ∷ os) d = play late n now os (cw.run_cw now item duration d)
  play late n now (start_run_cw ∷ os) d = play late n now os (cw.start_run_cw now d)
  play late n now (stop_run_cw ∷ os) d = play late n now os (cw.stop_run_cw now d)
  play late n now (sleep_for duration ∷ os) d =
      play late (suc n) (now + pos_part duration * 1000000 + late n) os d

  map-map : (f g : D → D) (ds : List D) → map f (map g ds) ≡ map (λ d. f (g d)) ds
  map-map f g [] = refl
  map-map f g (d ∷ ds) = ap (◌∷◌ (f (g d))) (map-map f g ds)

  map-same : (ds : List D) → map (λ d. d) ds ≡ ds
  map-same [] = refl
  map-same (d ∷ ds) = ap (◌∷◌ d) (map-same ds)

  -- Whatever the outputs are, each device of the list ends as it would if it had got them alone.
  pub play_all-map :
      (late : ℕ → ℕ) (n now : ℕ) (os : List Output) (ds : List D)
      → play_all late n now os ds ≡ map (play late n now os) ds
  unfolding play_all play
  play_all-map late n now [] ds = sym (map-same ds)
  play_all-map late n now (run_cw item duration ∷ os) ds =
      play_all-map late n now os (map (cw.run_cw now item duration) ds)
      ∙ map-map (play late n now os) (cw.run_cw now item duration) ds
  play_all-map late n now (start_run_cw ∷ os) ds =
      play_all-map late n now os (map (cw.start_run_cw now) ds)
      ∙ map-map (play late n now os) (cw.start_run_cw now) ds
  play_all-map late n now (stop_run_cw ∷ os) ds =
      play_all-map late n now os (map (cw.stop_run_cw now) ds)
      ∙ map-map (play late n now os) (cw.stop_run_cw now) ds
  play_all-map late n now (sleep_for duration ∷ os) ds =
      play_all-map late (suc n) (now + pos_part duration * 1000000 + late n) os ds
