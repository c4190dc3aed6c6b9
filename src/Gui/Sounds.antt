-- ===== src/Gui/Sounds.antt =====
-- The sound settings of App/gui/GuiConnector.cpp, and the Sound that they are for.
-- The configuration file can be read and written; `config` is the object in it. The devices are
-- numbers; qFuzzyCompare on doubles, the default device and the constants of type double are given.
use cwkeyer.Base.{
  ℕ, Bool, true, false, not, ◌||◌, List, [], ◌∷◌, ◌++◌, Option, none, some, if◌then◌else◌, length,
  get_elem?,
}
use cwkeyer.Base.Int.{ℤ, pos, negsuc}
use cwkeyer.Base.Text.{codes}
use cwkeyer.Configuration.{JsonObject, JsonValue, number, boolean, find, insert, to_bool}
use cwkeyer.Gui.{is_index}
use cwkeyer.Usb.Device.{int_eq}
use cwkeyer.Sound.{Audio, Sound, Settings, set_enabled}
use cwkeyer.Sound.Events.{reset_sound}

pub data SoundSignal (D : Type 0) : Type 0 where
  amplitude_changed : D → SoundSignal D
  frequency_changed : D → SoundSignal D
  selected_audio_device_changed : ℤ → SoundSignal D
  sound_enabled_changed : Bool → SoundSignal D

pub record SoundPanel (D : Type 0) : Type 0 where
  pub amplitude : D
  pub frequency : D
  pub selected_audio_device : ℤ
  pub audio_device_list : List ℕ
  pub config : JsonObject D
  pub sound : Sound D
  pub signals : List (SoundSignal D)

pub record Defaults (D : Type 0) : Type 0 where
  pub device : ℕ
  pub attack : D
  pub release : D
  pub fuzzy_compare : D → D → Bool
  pub of_int : ℤ → D

-- m_audioDeviceList[index], or the default device.
unfoldable pub chosen : ℕ → List ℕ → ℤ → ℕ
chosen default devices (pos i) = elim (get_elem? devices i) [ none ↦ default | some d ↦ d ]
chosen default devices (negsuc i) = default

module _ {D : Type 0} (audio : Audio D) (defaults : Defaults D) where
  abbrev pub tell : SoundSignal D → SoundPanel D → SoundPanel D
  tell s g = record g { signals = g.signals ++ s ∷ [] }

  abbrev pub keep : List ℕ → JsonValue D → SoundPanel D → SoundPanel D
  keep key v g = record g { config = insert key v g.config }

  abbrev pub settings_of : SoundPanel D → Settings D
  settings_of g = record {
    device = chosen defaults.device g.audio_device_list g.selected_audio_device;
    frequency = g.frequency;
    sample_rate = 44100;
    amplitude = g.amplitude;
    attack_time = defaults.attack;
    release_time = defaults.release;
  }

  -- CFG_ENABLED_SOUND in the file, if it is there.
  unfoldable pub saved_enabled : JsonObject D → Option Bool
  saved_enabled o = elim (find (codes "enabled_sound") o) [
    | none ↦ none
    | some v ↦ some (to_bool (some v))
  ]

  -- resetSound; the second component is false where it throws.
  unfoldable pub try_reset : SoundPanel D → SoundPanel D × Bool
  try_reset g =
      let (s, done) = reset_sound audio (settings_of g) (saved_enabled g.config) g.sound in
      let g₁ = record g { sound = s } in
      if done then (tell (sound_enabled_changed s.enabled) g₁, true) else (g₁, false)

  -- An exception from resetSound leaves the setter, which ends with it.
  unfoldable pub reset_panel : SoundPanel D → SoundPanel D
  unfolding try_reset
  reset_panel g = (try_reset g).0

  -- setAmplitude
  unfoldable pub set_amplitude : D → SoundPanel D → SoundPanel D
  set_amplitude value g =
      let g₁ = keep (codes "amplitude") (number value) (record g { amplitude = value }) in
      if defaults.fuzzy_compare g.amplitude value
      then g
      else reset_panel (tell (amplitude_changed value) g₁)

  -- setFrequency
  unfoldable pub set_frequency : D → SoundPanel D → SoundPanel D
  set_frequency value g =
      let g₁ = tell (frequency_changed value) (record g { frequency = value }) in
      if defaults.fuzzy_compare g.frequency value
      then g
      else reset_panel (keep (codes "frequency") (number value) g₁)

  -- setSelectedAudioDevice
  unfoldable pub set_selected_audio_device : ℤ → SoundPanel D → SoundPanel D
  set_selected_audio_device index g =
      let g₁ =
        tell (selected_audio_device_changed index) (record g { selected_audio_device = index }) in
      if not (is_index index (length g.audio_device_list)) || int_eq g.selected_audio_device index
      then g
      else reset_panel (keep (codes "selected_audio_device") (number (defaults.of_int index)) g₁)

  -- setEnabledSound
  unfoldable pub set_enabled_sound : Bool → SoundPanel D → SoundPanel D
  set_enabled_sound enabled g = tell (sound_enabled_changed enabled) (
      keep (codes "enabled_sound") (boolean enabled)
        (record g { sound = set_enabled enabled g.sound }))
