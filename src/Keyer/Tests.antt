-- ===== src/Keyer/Tests.antt =====
-- The keyer at 20 WPM: runs, and the theorems at concrete states.
use mathlib.Core.Option
use cwkeyer.Base.{◌≡◌, refl, inl, true, false, some, List, [], ◌∷◌}
use cwkeyer.Base.Int.{ℤ, pos, ◌+ℤ◌}
use cwkeyer.Timing.{KeyerItem, dit, dah, calculate_duration}
use cwkeyer.Timing.Sleep.{sleep_for_us, element_sleeps}
use cwkeyer.Keyer.{
  Keyer, Mode, Playing, run_cw, sleep_for, iambic_a, iambic_b, new_keyer, init_keyer, on_dit,
  on_dah, begin_item, end_item, opposite, enqueue, enqueue_field, after_squeeze, play_dit_dah,
}
use cwkeyer.Keyer.Threads.{System, Reach, new_system, here, next, press_dit, init, take}
use cwkeyer.Keyer.Squeeze.{rounds, swapped, Sends, IsSqueezed, squeeze_alternates}
use cwkeyer.Keyer.Release.{release_adds_one}

-- A running keyer at 20 WPM, with the paddles and the waiting element given.
abbrev at_20 : Mode → List KeyerItem → Keyer
at_20 m waiting = record {
  dit_time = pos 60;
  dah_time = pos 180;
  space_time = pos 60;
  dit_pressed = true;
  dah_pressed = true;
  last_pressed = some dah;
  last_queued = some dit;
  mode = m;
  queue = waiting;
  started = true;
  log = [];
}

starts_at_20 :
    init_keyer (pos 20) iambic_a new_keyer
    ≡ some (record new_keyer {
      dit_time = pos 60;
      dah_time = pos 180;
      space_time = pos 60;
      mode = iambic_a;
      started = true;
    })
unfolding init_keyer calculate_duration new_keyer
starts_at_20 = refl

sends_dit_dah_dit :
    Option.map (λ k. k.log) (rounds 3 (at_20 iambic_b (dit ∷ [])))
    ≡ some (
        run_cw dit (pos 60)
        ∷ sleep_for (pos 120)
        ∷ run_cw dah (pos 180)
        ∷ sleep_for (pos 240)
        ∷ run_cw dit (pos 60)
        ∷ sleep_for (pos 120)
        ∷ [])
unfolding rounds begin_item end_item after_squeeze enqueue enqueue_field opposite ◌+ℤ◌
sends_dit_dah_dit = refl

squeezed : IsSqueezed (at_20 iambic_b (dit ∷ [])) dit
squeezed = record {
  running = refl;
  iambic = λ e. cc;
  dit_held = refl;
  dah_held = refl;
  waits = refl;
  queued = refl;
  element = inl refl;
}

squeeze_alternates_example : Sends swapped IsSqueezed 5 (at_20 iambic_b (dit ∷ [])) dit
squeeze_alternates_example = squeeze_alternates 5 (at_20 iambic_b (dit ∷ [])) dit squeezed

release_adds_one_example :
    (p : Playing) × (k₁ : Keyer) × (k₂ : Keyer) × (begin_item (at_20 iambic_b (dit ∷ []))
      ≡ some (p, k₁))
    × (end_item p (on_dah false (on_dit false k₁)) ≡ some k₂)
    × (k₂.dit_pressed ≡ false)
    × (k₂.dah_pressed ≡ false)
    × (k₂.queue ≡ swapped dit ∷ [])
release_adds_one_example = release_adds_one (at_20 iambic_b (dit ∷ [])) dit squeezed

abbrev plain_dah : Playing
plain_dah = record { item = dah; squeeze = false }

-- A start at 20 WPM, a press of the dit paddle, and the thread takes the element.
abbrev pressed_keyer : Keyer
pressed_keyer = record new_keyer {
  dit_time = pos 60;
  dah_time = pos 180;
  space_time = pos 60;
  mode = iambic_a;
  started = true;
  dit_pressed = true;
  last_pressed = some dit;
  last_queued = some dit;
  queue = dit ∷ [];
}

abbrev playing_dit : Playing
playing_dit = record { item = dit; squeeze = false }

abbrev playing_system : System
playing_system = record {
  keyer = play_dit_dah dit (record pressed_keyer { queue = [] });
  waiting = 0;
  busy = some playing_dit;
}

playing_system-Reach : Reach new_system playing_system
unfolding new_system init_keyer calculate_duration new_keyer on_dit begin_item
playing_system-Reach =
    next (next (next here (init (pos 20) iambic_a _ refl)) (press_dit true))
      (take 0 playing_dit _ refl refl refl)

-- A keyer started at 25 words a minute.
abbrev at_25 : Keyer
at_25 = record new_keyer {
  dit_time = pos 48;
  dah_time = pos 144;
  space_time = pos 48;
  mode = iambic_a;
  started = true;
}

starts_at_25 : init_keyer (pos 25) iambic_a new_keyer ≡ some at_25
unfolding init_keyer calculate_duration new_keyer
starts_at_25 = refl

element_sleeps_example :
    (r : ℤ) × (q : ℤ) × ((play_dit_dah dit at_25).log ≡ run_cw dit (pos 48) ∷ sleep_for r ∷ [])
    × (sleep_for_us r ≡ some 96000)
    × ((play_dit_dah dah at_25).log ≡ run_cw dah (pos 144) ∷ sleep_for q ∷ [])
    × (sleep_for_us q ≡ some 192000)
unfolding new_keyer
element_sleeps_example = element_sleeps 24 iambic_a new_keyer at_25 starts_at_25
