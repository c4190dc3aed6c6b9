-- ===== src/Gui/Changes.antt =====
-- Sequences of changes of the speeds, the mode and the decoder of App/gui/GuiConnector.cpp.
use cwkeyer.Base.{
  ℕ, zero, suc, Returns, arith, ◌&&◌, ◌≡◌, refl, inl, inr, Bool, true, false, List, [], ◌∷◌, Option,
  some, ◌>>=◌, Bool-cases,
}
use cwkeyer.Base.Int.{ℤ, pos, negsuc, ltb_ℤ, max_ℤ}
use cwkeyer.Timing.{calculate_duration, paris_div}
use cwkeyer.Keyer.{Keyer, Mode, init_keyer}
use cwkeyer.Decoder.{CwDecoder, start}
use cwkeyer.Gui.Load.{is_mode}
use cwkeyer.Gui.{
  GuiConnector, set_wpm, set_farns_worth, set_mode, set_enabled_cw_decoder, with_mode, reset_keyer,
  reset_cw_decoder,
}
use cwkeyer.Gui.Speeds.{min_ℤ, InStep, set_wpm_lem, set_farns_worth_lem, reset_keyer-InStep}
use cwkeyer.Usb.Device.{int_eq}

pub data Change : Type 0 where
  to_wpm : ℤ → Change
  to_farns_worth : ℤ → Change
  to_mode : ℤ → Change
  decoding : Bool → Change

-- initKeyer and the decoder's start divide by the speeds.
pub init_keyer-Returns :
    (wpm : ℤ)
    → ltb_ℤ (pos 0) wpm ≡ true
    → (mode : Mode) (k : Keyer) → Returns (init_keyer wpm mode k)
unfolding init_keyer calculate_duration paris_div
init_keyer-Returns (pos zero) h mode k = absurd (cc)
init_keyer-Returns (pos (suc n)) h mode k = (_, refl)
init_keyer-Returns (negsuc n) h mode k = (_, refl)

start-Returns :
    (farns_worth wpm : ℤ)
    → ltb_ℤ (pos 0) farns_worth ≡ true
    → ltb_ℤ (pos 0) wpm ≡ true
    → (now : ℕ) (d : CwDecoder) → Returns (start farns_worth wpm now d)
unfolding start calculate_duration paris_div
start-Returns (pos zero) wpm f h now d = absurd (cc)
start-Returns (pos (suc m)) (pos zero) f h now d = absurd (cc)
start-Returns (pos (suc m)) (pos (suc n)) f h now d = (_, refl)
start-Returns (pos (suc m)) (negsuc n) f h now d = (_, refl)
start-Returns (negsuc m) (pos zero) f h now d = absurd (cc)
start-Returns (negsuc m) (pos (suc n)) f h now d = (_, refl)
start-Returns (negsuc m) (negsuc n) f h now d = (_, refl)

-- The two speeds are above 0.
abbrev pub Positive : {D : Type 0} → GuiConnector D → Type 0
Positive g = (ltb_ℤ (pos 0) g.wpm ≡ true) × (ltb_ℤ (pos 0) g.farns_worth ≡ true)

lowered_speeds :
    {D : Type 0} (value : ℤ) (g h : GuiConnector D)
    → ltb_ℤ (pos 0) value ≡ true
    → Positive g
    → h.wpm ≡ value
    → h.farns_worth ≡ min_ℤ value g.farns_worth
    → Positive h
unfolding min_ℤ
lowered_speeds value g h p q w f = ground arith

raised_speeds :
    {D : Type 0} (value : ℤ) (g h : GuiConnector D)
    → ltb_ℤ (pos 0) value ≡ true
    → Positive g
    → h.farns_worth ≡ value
    → h.wpm ≡ max_ℤ g.wpm value
    → Positive h
unfolding max_ℤ
raised_speeds value g h p q f w = ground arith

module _ {D : Type 0} (of_int : ℤ → D) (to_int : D → ℤ) where
  -- What a change may set.
  unfoldable pub valid : Change → Bool
  valid (to_wpm value) = ltb_ℤ (pos 0) value
  valid (to_farns_worth value) = ltb_ℤ (pos 0) value
  valid (to_mode value) = is_mode of_int to_int value
  valid (decoding enabled) = true

  unfoldable pub all_valid : List Change → Bool
  all_valid [] = true
  all_valid (c ∷ cs) = valid c && all_valid cs

  unfoldable pub change : Change → GuiConnector D → Option (GuiConnector D)
  change (to_wpm value) g = set_wpm of_int to_int 2 value g
  change (to_farns_worth value) g = set_farns_worth of_int to_int 2 value g
  change (to_mode value) g = some (set_mode of_int to_int value g)
  change (decoding enabled) g = some (set_enabled_cw_decoder enabled g)

  unfoldable pub run : List Change → GuiConnector D → Option (GuiConnector D)
  run [] g = some g
  run (c ∷ cs) g = do h ← change c g; run cs h

  set_mode-InStep :
      (value : ℤ) (g : GuiConnector D) → InStep g → InStep (set_mode of_int to_int value g)
  unfolding set_mode with_mode
  set_mode-InStep value g v = elim (Bool-cases (int_eq g.mode value)) [
    | inl e ↦ rw e v
    | inr e ↦ rw e (reset_keyer-InStep (with_mode of_int to_int value g) v.ordered)
  ]

  set_mode-Positive :
      (value : ℤ) (g : GuiConnector D) → Positive g → Positive (set_mode of_int to_int value g)
  unfolding set_mode with_mode reset_keyer reset_cw_decoder
  set_mode-Positive value g q = ground arith

  change-Fit :
      (c : Change) (g : GuiConnector D)
      → valid c ≡ true
      → InStep g
      → Positive g
      → (h : GuiConnector D) × (change c g ≡ some h) × InStep h × Positive h
  unfolding change set_enabled_cw_decoder valid
  change-Fit (to_wpm value) g p v q =
      let (h, e, w, f, s) = set_wpm_lem of_int to_int 0 value g v in
      (h, e, s, lowered_speeds value g h p q w f)
  change-Fit (to_farns_worth value) g p v q =
      let (h, e, f, w, s) = set_farns_worth_lem of_int to_int 0 value g v in
      (h, e, s, raised_speeds value g h p q f w)
  change-Fit (to_mode value) g p v q =
      (set_mode of_int to_int value g, refl, set_mode-InStep value g v, set_mode-Positive value g q)
  change-Fit (decoding true) g p v q =
      (_, refl, record { ordered = v.ordered; keyed = v.keyed; decoded = inr refl }, q)
  change-Fit (decoding false) g p v q =
      (_, refl, record { ordered = v.ordered; keyed = v.keyed; decoded = inl refl }, q)

  -- Every sequence of changes to speeds above 0 and to one of the three modes, and of switching the
  -- decoder, from a state in step whose speeds are above 0, comes to an end in such a state: the
  -- Farnsworth speed is at most the speed, the keyer was last started with the speed and the mode, and
  -- a running decoder with both speeds; neither initKeyer nor the decoder's start divides by zero with
  -- them.
  pub run-InStep :
      (cs : List Change) (g : GuiConnector D)
      → all_valid cs ≡ true
      → InStep g
      → Positive g
      → (h : GuiConnector D) × (run cs g ≡ some h)
        × InStep h
        × Positive h
        × ((mode : Mode) (k : Keyer) → Returns (init_keyer h.wpm mode k))
        × ((now : ℕ) (d : CwDecoder) → Returns (start h.farns_worth h.wpm now d))
  unfolding run all_valid
  run-InStep [] g p v q =
      (g, refl, v, q, init_keyer-Returns g.wpm q.0, start-Returns g.farns_worth g.wpm q.1 q.0)
  run-InStep (c ∷ cs) g p v q =
      let (h, e, s, r) = change-Fit c g (grind arith) v q in
      let (k, e', a, b, starts, decodes) = run-InStep cs h (grind arith) s r in
      (k, rw e e', a, b, starts, decodes)
