-- ===== src/Gui/Load/Running.antt =====
-- What loadConfiguration (App/gui/GuiConnector.cpp) leaves alone.
use cwkeyer.Base.{ℕ, ◌≡◌, List, [], ◌∷◌, Option, none, some, arith, refl, ◌∙◌}
use cwkeyer.Base.Int.{ℤ}
use cwkeyer.Base.Text.{codes}
use cwkeyer.Configuration.{JsonValue, number, boolean, text, object, find}
use cwkeyer.Gui.{GuiConnector}
use cwkeyer.Gui.Load.{
  load_wpm, load_farns_worth, load_mode, load_indices, load_remote_port, load_mox_delay, default_ip,
  ip_of, load_server_ip, load_configuration,
}

-- The decoder and the remote client.
abbrev pub running : {D : Type 0} → GuiConnector D → Option (ℤ × ℤ) × Option (List ℕ × ℤ × ℤ)
running g = (g.decoder, g.remote)

module _ {D : Type 0} (of_int : ℤ → D) (to_int : D → ℤ) where
  ip_of-running :
      (v : Option (JsonValue D)) (g : GuiConnector D)
      → running (ip_of of_int to_int v g) ≡ running g
  unfolding ip_of default_ip
  ip_of-running none g = refl
  ip_of-running (some (number x)) g = refl
  ip_of-running (some (boolean b)) g = refl
  ip_of-running (some (text [])) g = refl
  ip_of-running (some (text (c ∷ s))) g = refl
  ip_of-running (some (object o)) g = refl

  loads-running :
      (g : GuiConnector D)
      → (running (load_wpm of_int to_int g) ≡ running g)
        × (running (load_farns_worth of_int to_int g) ≡ running g)
        × (running (load_mode of_int to_int g) ≡ running g)
        × (running (load_remote_port of_int to_int g) ≡ running g)
        × (running (load_mox_delay of_int to_int g) ≡ running g)
  unfolding load_wpm load_farns_worth load_mode load_remote_port load_mox_delay
  loads-running g = ground arith

  -- Reading the file starts and stops nothing.
  pub load_configuration-running :
      (g : GuiConnector D) → running (load_configuration of_int to_int g) ≡ running g
  unfolding load_configuration load_indices load_server_ip
  load_configuration-running g =
      let g₁ = load_wpm of_int to_int g in
      let g₂ = load_farns_worth of_int to_int g₁ in
      let g₃ = load_mode of_int to_int g₂ in
      let g₄ = load_indices of_int to_int g₃ in
      let g₅ = load_remote_port of_int to_int g₄ in
      let g₆ = load_mox_delay of_int to_int g₅ in
      ip_of-running (find (codes "remote_ip") g₆.config) g₆
      ∙ (loads-running g₅).4
      ∙ (loads-running g₄).3
      ∙ (loads-running g₂).2
      ∙ (loads-running g₁).1
      ∙ (loads-running g).0
