-- ===== src/Gui/Restart.antt =====
-- loadConfiguration (App/gui/GuiConnector.cpp) on the file that an earlier run of the program left.
use cwkeyer.Base.{◌≡◌, refl, ap, ◌∙◌, true, List, some, arith}
use cwkeyer.Base.Int.{ℤ}
use cwkeyer.Base.Text.{codes}
use cwkeyer.Configuration.{find}
use cwkeyer.Gui.{GuiConnector}
use cwkeyer.Gui.Changes.{Change, all_valid, run}
use cwkeyer.Gui.Load.{
  get_int, load_wpm, load_farns_worth, load_mode, load_indices, load_remote_port, load_mox_delay,
  load_server_ip, load_configuration, port_step, delay_step, ip_step, Same,
}
use cwkeyer.Gui.Persist.{Stored, stored, run-Stored}

module _ {D : Type 0} (of_int : ℤ → D) (to_int : D → ℤ) where
  module _ (h : GuiConnector D) (v : Stored of_int to_int h) where
    wpm_restored :
        (f : GuiConnector D)
        → f.config ≡ h.config
        → load_wpm of_int to_int f ≡ record f { wpm = h.wpm }
    unfolding load_wpm get_int
    wpm_restored f c = rw (ap (stored of_int to_int (codes "wpm")) c ∙ v.wpm, v.wpm_positive) refl

    farns_worth_restored :
        (f : GuiConnector D)
        → f.config ≡ h.config
        → load_farns_worth of_int to_int f ≡ record f { farns_worth = h.farns_worth }
    unfolding load_farns_worth get_int
    farns_worth_restored f c =
        rw
          (ap (stored of_int to_int (codes "farnsWorth")) c ∙ v.farns_worth, v.farns_worth_positive)
          refl

    mode_restored :
        (f : GuiConnector D)
        → f.config ≡ h.config
        → load_mode of_int to_int f ≡ record f { mode = h.mode }
    unfolding load_mode get_int
    mode_restored f c = rw (ap (stored of_int to_int (codes "mode")) c ∙ v.mode, v.mode_known) refl

    load_configuration-Same :
        (f : GuiConnector D)
        → f.config ≡ h.config
        → Same of_int to_int (load_configuration of_int to_int f) h
    unfolding load_configuration load_indices load_server_ip
    load_configuration-Same f c =
        let f₁ = record f { wpm = h.wpm } in
        let f₂ = record f₁ { farns_worth = h.farns_worth } in
        let f₃ = record f₂ { mode = h.mode } in
        let f₄ = load_indices of_int to_int f₃ in
        let f₅ = load_remote_port of_int to_int f₄ in
        let f₆ = load_mox_delay of_int to_int f₅ in
        let ip = ip_step of_int to_int (find (codes "remote_ip") f₆.config) f₆ in
        rw (wpm_restored f c, farns_worth_restored f₁ c, mode_restored f₂ c)
          (ground (arith, port_step of_int to_int f₄, delay_step of_int to_int f₅, ip))

  -- If every integer is stored as a number that reads as it, and the file holds the positive speeds
  -- and the mode of a state, every sequence of changes to positive speeds and to one of the three
  -- modes, and of switching the decoder, comes to an end, and loadConfiguration, from any state with
  -- the file it leaves, sets the two speeds and the mode it came to.
  pub settings_restored :
      ((n : ℤ) → to_int (of_int n) ≡ n)
      → (cs : List Change) (g f : GuiConnector D) → all_valid of_int to_int cs ≡ true
      → Stored of_int to_int g
      → (h : GuiConnector D) × (run of_int to_int cs g ≡ some h)
        × Same of_int to_int (load_configuration of_int to_int (record f { config = h.config })) h
  settings_restored back cs g f p v =
      let (h, e, s) = run-Stored of_int to_int back cs g p v in
      (h, e, load_configuration-Same h s (record f { config = h.config }) refl)
