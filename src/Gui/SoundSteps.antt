-- ===== src/Gui/SoundSteps.antt =====
-- Sequences of changes of the sound settings of App/gui/GuiConnector.cpp.
use cwkeyer.Base.{
  ℕ, ◌≡◌, ◌≢◌, refl, ◌⊎◌, inl, inr, Bool-cases, Bool, true, false, not, List, [], ◌∷◌, Option, none,
  some, arith, length, if◌then◌else◌, ◌||◌,
}
use cwkeyer.Base.Int.{ℤ}
use cwkeyer.Base.Text.{codes}
use cwkeyer.Configuration.Laws.{find-insert, find-insert_ne}
use cwkeyer.Configuration.{JsonObject, JsonValue, number, boolean, insert, to_bool}
use cwkeyer.Sound.{Audio, stop, set_enabled, init_with_device, configured}
use cwkeyer.Sound.Events.{reset_sound, apply_enabled}
use cwkeyer.Gui.{is_index}
use cwkeyer.Usb.Device.{int_eq}
use cwkeyer.Gui.Sounds.{
  SoundPanel, Defaults, chosen, saved_enabled, reset_panel, set_amplitude, set_frequency,
  set_selected_audio_device, set_enabled_sound, tell, keep, amplitude_changed, frequency_changed,
  selected_audio_device_changed,
}

pub data SoundChange (D : Type 0) : Type 0 where
  to_amplitude : D → SoundChange D
  to_frequency : D → SoundChange D
  to_device : ℤ → SoundChange D
  sounding : Bool → SoundChange D

-- The sound is on if the file says so; the file need not say it.
abbrev pub Agrees : Option Bool → Bool → Type 0
Agrees none b = Unit {0}
Agrees (some a) b = a ≡ b

module _ {D : Type 0} (audio : Audio D) (defaults : Defaults D) where
  unfoldable pub change_sound : SoundChange D → SoundPanel D → SoundPanel D
  change_sound (to_amplitude x) g = set_amplitude audio defaults x g
  change_sound (to_frequency x) g = set_frequency audio defaults x g
  change_sound (to_device i) g = set_selected_audio_device audio defaults i g
  change_sound (sounding b) g = set_enabled_sound audio defaults b g

  unfoldable pub change_sounds : List (SoundChange D) → SoundPanel D → SoundPanel D
  change_sounds [] g = g
  change_sounds (c ∷ cs) g = change_sounds cs (change_sound c g)

  -- What Sound holds is what the settings say; so is what its sink and its generator were made with,
  -- where the chosen device takes the format.
  pub record SoundInStep (g : SoundPanel D) : Type 0 where
    pub pitch : g.sound.frequency ≡ g.frequency
    pub loudness : g.sound.amplitude ≡ g.amplitude
    pub device : g.sound.device ≡ chosen defaults.device g.audio_device_list g.selected_audio_device
    pub made :
        (audio.supports (chosen defaults.device g.audio_device_list g.selected_audio_device) 44100
          ≡ false)
        ⊎ (g.sound.made_with
            ≡ some (
              chosen defaults.device g.audio_device_list g.selected_audio_device,
              g.frequency,
              g.amplitude,
            ))
    pub enabling : Agrees (saved_enabled audio defaults g.config) g.sound.enabled

  reset_panel-SoundInStep :
      (g : SoundPanel D)
      → Agrees (saved_enabled audio defaults g.config) g.sound.enabled
      → SoundInStep (reset_panel audio defaults g)
  unfolding reset_panel reset_sound init_with_device configured apply_enabled set_enabled stop
  reset_panel-SoundInStep g h =
      elim (Bool-cases (
        audio.supports (chosen defaults.device g.audio_device_list g.selected_audio_device)
          44100)) [ inl e ↦ ground arith | inr e ↦ ground arith ]

  -- A value kept under another key.
  pub saved_enabled-other :
      (key : List ℕ) (v : JsonValue D) (o : JsonObject D)
      → key ≢ codes "enabled_sound"
      → saved_enabled audio defaults (insert key v o) ≡ saved_enabled audio defaults o
  unfolding saved_enabled
  saved_enabled-other key v o h = ground (arith, find-insert_ne key (codes "enabled_sound") v o h)

  -- A reset after a value is kept under another key.
  kept-SoundInStep :
      (g g₁ : SoundPanel D) (key : List ℕ) (v : JsonValue D)
      → key ≢ codes "enabled_sound"
      → SoundInStep g
      → g₁.config ≡ insert key v g.config
      → g₁.sound ≡ g.sound
      → SoundInStep (reset_panel audio defaults g₁)
  kept-SoundInStep g g₁ key v ne step c s =
      let other = saved_enabled-other key v g.config ne in
      reset_panel-SoundInStep g₁ (rw (c, s) (rw other step.enabling))

  either-SoundInStep :
      (test : Bool) (g h : SoundPanel D)
      → SoundInStep g
      → SoundInStep h
      → SoundInStep (if test then g else h)
  either-SoundInStep true g h v w = v
  either-SoundInStep false g h v w = w

  change_sound-SoundInStep :
      (c : SoundChange D) (g : SoundPanel D) → SoundInStep g → SoundInStep (change_sound c g)
  unfolding change_sound set_amplitude set_frequency set_selected_audio_device set_enabled_sound
      set_enabled saved_enabled to_bool
  change_sound-SoundInStep (to_amplitude x) g v =
      let g₁ =
        tell audio defaults (amplitude_changed x)
          (keep audio defaults (codes "amplitude") (number x) (record g { amplitude = x })) in
      either-SoundInStep (defaults.fuzzy_compare g.amplitude x) g (reset_panel audio defaults g₁) v
        (kept-SoundInStep g g₁ (codes "amplitude") (number x) (λ e. cc) v refl refl)
  change_sound-SoundInStep (to_frequency x) g v =
      let g₁ =
        keep audio defaults (codes "frequency") (number x)
          (tell audio defaults (frequency_changed x) (record g { frequency = x })) in
      either-SoundInStep (defaults.fuzzy_compare g.frequency x) g (reset_panel audio defaults g₁) v
        (kept-SoundInStep g g₁ (codes "frequency") (number x) (λ e. cc) v refl refl)
  change_sound-SoundInStep (to_device i) g v =
      let g₁ = keep audio defaults (codes "selected_audio_device") (number (defaults.of_int i)) (
        tell audio defaults (selected_audio_device_changed i)
          (record g { selected_audio_device = i })) in
      either-SoundInStep
        (not (is_index i (length g.audio_device_list)) || int_eq g.selected_audio_device i) g
        (reset_panel audio defaults g₁) v
        (kept-SoundInStep g g₁ (codes "selected_audio_device") (number (defaults.of_int i))
          (λ e. cc) v refl refl)
  change_sound-SoundInStep (sounding b) g v =
      ground (arith, find-insert (codes "enabled_sound") (boolean b) g.config)

  -- Changes of the amplitude, the frequency, the device and the switch of the sound, in any order and
  -- whether or not the devices take the format, keep the sound in step with the settings: the members
  -- of Sound are the frequency, the amplitude and the device that are chosen; where that device takes
  -- the format, the sink and the generator were made with these three; and the sound is on exactly if
  -- the file says so, where the file says anything.
  pub change_sounds-SoundInStep :
      (cs : List (SoundChange D)) (g : SoundPanel D)
      → SoundInStep g
      → SoundInStep (change_sounds cs g)
  unfolding change_sounds
  change_sounds-SoundInStep [] g v = v
  change_sounds-SoundInStep (c ∷ cs) g v =
      change_sounds-SoundInStep cs (change_sound c g) (change_sound-SoundInStep c g v)
