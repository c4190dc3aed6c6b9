-- ===== src/Gui/Speeds.antt =====
-- The two speeds of GuiConnector (App/gui/GuiConnector.cpp) and the components that run at them.
use cwkeyer.Base.{
  ℕ, suc, ◌≡◌, refl, ◌⊎◌, inl, inr, true, false, Option, none, some, arith, if◌then◌else◌,
  Bool-cases,
}
use cwkeyer.Base.Int.{ℤ, ltb_ℤ, ◌≤ℤ◌, max_ℤ}
use cwkeyer.Gui.{
  GuiConnector, set_wpm, set_farns_worth, reset_keyer, reset_cw_decoder, restart, with_wpm,
  with_farns_worth,
}
use cwkeyer.Usb.Device.{int_eq}

-- std::min would be this.
unfoldable pub min_ℤ : ℤ → ℤ → ℤ
min_ℤ a b = if ltb_ℤ a b then a else b

restart_lem : (o : Option (ℤ × ℤ)) (s : ℤ × ℤ) → (restart o s ≡ none) ⊎ (restart o s ≡ some s)
unfolding restart
restart_lem none s = inl refl
restart_lem (some t) s = inr refl

module _ {D : Type 0} where
  -- The Farnsworth speed is at most the speed; the keyer and a running decoder run at both.
  pub record InStep (g : GuiConnector D) : Type 0 where
    pub ordered : g.farns_worth ≤ℤ g.wpm
    pub keyed : g.keyer ≡ (g.wpm, g.mode)
    pub decoded : (g.decoder ≡ none) ⊎ (g.decoder ≡ some (g.farns_worth, g.wpm))

  pub reset_keyer-InStep : (g : GuiConnector D) → g.farns_worth ≤ℤ g.wpm → InStep (reset_keyer g)
  unfolding reset_keyer reset_cw_decoder
  reset_keyer-InStep g h = record {
    ordered = h;
    keyed = refl;
    decoded = restart_lem g.decoder (g.farns_worth, g.wpm);
  }

  reset_cw_decoder-InStep :
      (g : GuiConnector D)
      → g.farns_worth ≤ℤ g.wpm
      → g.keyer ≡ (g.wpm, g.mode)
      → InStep (reset_cw_decoder g)
  unfolding reset_cw_decoder
  reset_cw_decoder-InStep g h k = record {
    ordered = h;
    keyed = k;
    decoded = restart_lem g.decoder (g.farns_worth, g.wpm);
  }

module _ {D : Type 0} (of_int : ℤ → D) (to_int : D → ℤ) where
  pub wpm_alone :
      (fuel : ℕ) (value : ℤ) (g : GuiConnector D)
      → int_eq g.wpm value ≡ false
      → ltb_ℤ value g.farns_worth ≡ false
      → set_wpm of_int to_int (suc fuel) value g
        ≡ some (reset_keyer (with_wpm of_int to_int value g))
  unfolding set_wpm
  wpm_alone fuel value g e h = rw (e, h) refl

  pub farns_worth_alone :
      (fuel : ℕ) (value : ℤ) (g : GuiConnector D)
      → int_eq g.farns_worth value ≡ false
      → ltb_ℤ g.wpm value ≡ false
      → set_farns_worth of_int to_int (suc fuel) value g
        ≡ some (reset_cw_decoder (with_farns_worth of_int to_int value g))
  unfolding set_farns_worth
  farns_worth_alone fuel value g e h = rw (e, h) refl

  pub lowers :
      (fuel : ℕ) (value : ℤ) (g : GuiConnector D)
      → int_eq g.wpm value ≡ false
      → ltb_ℤ value g.farns_worth ≡ true
      → set_wpm of_int to_int (suc (suc fuel)) value g
        ≡ some (
            reset_keyer (
              reset_cw_decoder
                (with_farns_worth of_int to_int value (with_wpm of_int to_int value g))))
  unfolding set_wpm with_wpm
  lowers fuel value g e h =
      rw (e, h)
        (rw
          (farns_worth_alone fuel value (with_wpm of_int to_int value g) (ground arith)
            (ground arith))
          refl)

  pub raises :
      (fuel : ℕ) (value : ℤ) (g : GuiConnector D)
      → int_eq g.farns_worth value ≡ false
      → ltb_ℤ g.wpm value ≡ true
      → set_farns_worth of_int to_int (suc (suc fuel)) value g
        ≡ some (
            reset_cw_decoder
              (reset_keyer (with_wpm of_int to_int value (with_farns_worth of_int to_int value g))))
  unfolding set_farns_worth with_farns_worth
  raises fuel value g e h =
      rw (e, h)
        (rw
          (wpm_alone fuel value (with_farns_worth of_int to_int value g) (ground arith)
            (ground arith))
          refl)

  pub wpm_same :
      (fuel : ℕ) (value : ℤ) (g : GuiConnector D)
      → int_eq g.wpm value ≡ true
      → set_wpm of_int to_int (suc fuel) value g ≡ some g
  unfolding set_wpm
  wpm_same fuel value g e = rw e refl

  pub farns_worth_same :
      (fuel : ℕ) (value : ℤ) (g : GuiConnector D)
      → int_eq g.farns_worth value ≡ true
      → set_farns_worth of_int to_int (suc fuel) value g ≡ some g
  unfolding set_farns_worth
  farns_worth_same fuel value g e = rw e refl

  -- setWpm comes to an end after at most one call of setFarnsWorth, from any state in step: the
  -- speed is the new one, the Farnsworth speed is lowered to it if it was above, and the keyer and a
  -- running decoder run at both.
  pub set_wpm_lem :
      (fuel : ℕ) (value : ℤ) (g : GuiConnector D)
      → InStep g
      → (h : GuiConnector D) × (set_wpm of_int to_int (suc (suc fuel)) value g ≡ some h)
        × (h.wpm ≡ value)
        × (h.farns_worth ≡ min_ℤ value g.farns_worth)
        × InStep h
  unfolding with_wpm with_farns_worth min_ℤ reset_keyer reset_cw_decoder
  set_wpm_lem fuel value g v =
      let low = with_farns_worth of_int to_int value (with_wpm of_int to_int value g) in
      elim (Bool-cases (int_eq g.wpm value)) [
        | inl e ↦ (g, wpm_same (suc fuel) value g e, ground arith, ground arith, v)
        | inr e ↦ elim (Bool-cases (ltb_ℤ value g.farns_worth)) [
          | inl h ↦ (
            _,
            lowers fuel value g e h,
            refl,
            ground arith,
            reset_keyer-InStep (reset_cw_decoder low) (omega arith),
          )
          | inr h ↦ (
            _,
            wpm_alone (suc fuel) value g e h,
            refl,
            ground arith,
            reset_keyer-InStep (with_wpm of_int to_int value g) (ground arith),
          )
        ]
      ]

  -- setFarnsWorth comes to an end after at most one call of setWpm, from any state in step: the
  -- Farnsworth speed is the new one, the speed is raised to it if it was below, and the keyer and a
  -- running decoder run at both.
  pub set_farns_worth_lem :
      (fuel : ℕ) (value : ℤ) (g : GuiConnector D)
      → InStep g
      → (h : GuiConnector D) × (set_farns_worth of_int to_int (suc (suc fuel)) value g ≡ some h)
        × (h.farns_worth ≡ value)
        × (h.wpm ≡ max_ℤ g.wpm value)
        × InStep h
  unfolding with_wpm with_farns_worth max_ℤ reset_keyer reset_cw_decoder
  set_farns_worth_lem fuel value g v =
      let high = with_wpm of_int to_int value (with_farns_worth of_int to_int value g) in
      let alone = with_farns_worth of_int to_int value g in
      elim (Bool-cases (int_eq g.farns_worth value)) [
        | inl e ↦ (g, farns_worth_same (suc fuel) value g e, ground arith, ground arith, v)
        | inr e ↦ elim (Bool-cases (ltb_ℤ g.wpm value)) [
          | inl h ↦ (
            _,
            raises fuel value g e h,
            refl,
            ground arith,
            reset_cw_decoder-InStep (reset_keyer high) (omega arith) refl,
          )
          | inr h ↦ (
            _,
            farns_worth_alone (suc fuel) value g e h,
            refl,
            ground arith,
            reset_cw_decoder-InStep alone (ground arith) v.keyed,
          )
        ]
      ]
