-- ===== src/Gui/Persist.antt =====
-- The speeds and the mode of App/gui/GuiConnector.cpp in the configuration file: what a setter stores
-- is what loadConfiguration reads when the program is started again.
use cwkeyer.Base.{
  ℕ, ◌≡◌, ◌≢◌, refl, ap, ◌∙◌, sym, true, false, List, [], ◌∷◌, some, arith, Bool-cases, inl, inr,
}
use cwkeyer.Base.Int.{ℤ, pos, ltb_ℤ}
use cwkeyer.Base.Text.{codes}
use cwkeyer.Configuration.{JsonObject, JsonValue, number, find, insert, as_int}
use cwkeyer.Configuration.Laws.{find-insert, find-insert_ne}
use cwkeyer.Usb.Device.{int_eq}
use cwkeyer.Gui.{
  GuiConnector, set_wpm, set_farns_worth, set_mode, set_enabled_cw_decoder, with_wpm,
  with_farns_worth, with_mode, reset_keyer, reset_cw_decoder,
}
use cwkeyer.Gui.Load.{is_mode}
use cwkeyer.Gui.Speeds.{wpm_same, lowers, wpm_alone, raises, farns_worth_same, farns_worth_alone}
use cwkeyer.Gui.Changes.{
  Change, to_wpm, to_farns_worth, to_mode, decoding, valid, all_valid, change, run,
}

module _ {D : Type 0} (of_int : ℤ → D) (to_int : D → ℤ) where
  -- What the file says of a number.
  abbrev pub stored : List ℕ → JsonObject D → ℤ
  stored key o = as_int of_int to_int (find key o)

  -- The file holds the two speeds and the mode, the speeds are above 0 and the mode is one of the three.
  pub record Stored (g : GuiConnector D) : Type 0 where
    pub wpm : stored (codes "wpm") g.config ≡ g.wpm
    pub farns_worth : stored (codes "farnsWorth") g.config ≡ g.farns_worth
    pub mode : stored (codes "mode") g.config ≡ g.mode
    pub wpm_positive : ltb_ℤ (pos 0) g.wpm ≡ true
    pub farns_worth_positive : ltb_ℤ (pos 0) g.farns_worth ≡ true
    pub mode_known : is_mode of_int to_int g.mode ≡ true

  module _ (back : (n : ℤ) → to_int (of_int n) ≡ n) where
    stored-insert :
        (key : List ℕ) (n : ℤ) (o : JsonObject D)
        → stored key (insert key (number (of_int n)) o) ≡ n
    unfolding as_int
    stored-insert key n o =
        ap (as_int of_int to_int) (find-insert key (number (of_int n)) o) ∙ back n

    stored-other :
        (key other : List ℕ) (v : JsonValue D) (o : JsonObject D)
        → key ≢ other
        → stored other (insert key v o) ≡ stored other o
    stored-other key other v o h = ap (as_int of_int to_int) (find-insert_ne key other v o h)

    with_wpm-Stored :
        (value : ℤ) (g : GuiConnector D)
        → ltb_ℤ (pos 0) value ≡ true
        → Stored g
        → Stored (with_wpm of_int to_int value g)
    unfolding with_wpm
    with_wpm-Stored value g p v = record {
      wpm = stored-insert (codes "wpm") value g.config;
      farns_worth =
          stored-other (codes "wpm") (codes "farnsWorth") _ g.config (λ e. cc) ∙ v.farns_worth;
      mode = stored-other (codes "wpm") (codes "mode") _ g.config (λ e. cc) ∙ v.mode;
      wpm_positive = p;
      farns_worth_positive = v.farns_worth_positive;
      mode_known = v.mode_known;
    }

    with_farns_worth-Stored :
        (value : ℤ) (g : GuiConnector D)
        → ltb_ℤ (pos 0) value ≡ true
        → Stored g
        → Stored (with_farns_worth of_int to_int value g)
    unfolding with_farns_worth
    with_farns_worth-Stored value g p v = record {
      wpm = stored-other (codes "farnsWorth") (codes "wpm") _ g.config (λ e. cc) ∙ v.wpm;
      farns_worth = stored-insert (codes "farnsWorth") value g.config;
      mode = stored-other (codes "farnsWorth") (codes "mode") _ g.config (λ e. cc) ∙ v.mode;
      wpm_positive = v.wpm_positive;
      farns_worth_positive = p;
      mode_known = v.mode_known;
    }

    with_mode-Stored :
        (value : ℤ) (g : GuiConnector D)
        → is_mode of_int to_int value ≡ true
        → Stored g
        → Stored (with_mode of_int to_int value g)
    unfolding with_mode
    with_mode-Stored value g p v = record {
      wpm = stored-other (codes "mode") (codes "wpm") _ g.config (λ e. cc) ∙ v.wpm;
      farns_worth =
          stored-other (codes "mode") (codes "farnsWorth") _ g.config (λ e. cc) ∙ v.farns_worth;
      mode = stored-insert (codes "mode") value g.config;
      wpm_positive = v.wpm_positive;
      farns_worth_positive = v.farns_worth_positive;
      mode_known = p;
    }

    -- What else changes does not matter.
    stays :
        (g h : GuiConnector D)
        → h.config ≡ g.config
        → h.wpm ≡ g.wpm
        → h.farns_worth ≡ g.farns_worth
        → h.mode ≡ g.mode
        → Stored g
        → Stored h
    stays g h c w f m v = record {
      wpm = ap (stored (codes "wpm")) c ∙ v.wpm ∙ sym w;
      farns_worth = ap (stored (codes "farnsWorth")) c ∙ v.farns_worth ∙ sym f;
      mode = ap (stored (codes "mode")) c ∙ v.mode ∙ sym m;
      wpm_positive = ap (ltb_ℤ (pos 0)) w ∙ v.wpm_positive;
      farns_worth_positive = ap (ltb_ℤ (pos 0)) f ∙ v.farns_worth_positive;
      mode_known = ap (is_mode of_int to_int) m ∙ v.mode_known;
    }

    reset_keyer-Stored : (g : GuiConnector D) → Stored g → Stored (reset_keyer g)
    unfolding reset_keyer reset_cw_decoder
    reset_keyer-Stored g v = stays g _ refl refl refl refl v

    reset_cw_decoder-Stored : (g : GuiConnector D) → Stored g → Stored (reset_cw_decoder g)
    unfolding reset_cw_decoder
    reset_cw_decoder-Stored g v = stays g _ refl refl refl refl v

    set_wpm-Stored :
        (value : ℤ) (g : GuiConnector D)
        → ltb_ℤ (pos 0) value ≡ true
        → Stored g
        → (h : GuiConnector D) × (set_wpm of_int to_int 2 value g ≡ some h) × Stored h
    set_wpm-Stored value g p v = elim (Bool-cases (int_eq g.wpm value)) [
      | inl e ↦ (g, wpm_same of_int to_int 1 value g e, v)
      | inr e ↦ elim (Bool-cases (ltb_ℤ value g.farns_worth)) [
        | inl l ↦ (
          _,
          lowers of_int to_int 0 value g e l,
          reset_keyer-Stored _ (
              reset_cw_decoder-Stored _
                (with_farns_worth-Stored value _ p (with_wpm-Stored value g p v))),
        )
        | inr l ↦ (
          _,
          wpm_alone of_int to_int 1 value g e l,
          reset_keyer-Stored _ (with_wpm-Stored value g p v),
        )
      ]
    ]

    set_farns_worth-Stored :
        (value : ℤ) (g : GuiConnector D)
        → ltb_ℤ (pos 0) value ≡ true
        → Stored g
        → (h : GuiConnector D) × (set_farns_worth of_int to_int 2 value g ≡ some h) × Stored h
    set_farns_worth-Stored value g p v = elim (Bool-cases (int_eq g.farns_worth value)) [
      | inl e ↦ (g, farns_worth_same of_int to_int 1 value g e, v)
      | inr e ↦ elim (Bool-cases (ltb_ℤ g.wpm value)) [
        | inl l ↦ (
          _,
          raises of_int to_int 0 value g e l,
          reset_cw_decoder-Stored _ (
              reset_keyer-Stored _
                (with_wpm-Stored value _ p (with_farns_worth-Stored value g p v))),
        )
        | inr l ↦ (
          _,
          farns_worth_alone of_int to_int 1 value g e l,
          reset_cw_decoder-Stored _ (with_farns_worth-Stored value g p v),
        )
      ]
    ]

    set_mode-Stored :
        (value : ℤ) (g : GuiConnector D)
        → is_mode of_int to_int value ≡ true
        → Stored g
        → Stored (set_mode of_int to_int value g)
    unfolding set_mode
    set_mode-Stored value g p v = elim (Bool-cases (int_eq g.mode value)) [
      | inl e ↦ rw e v
      | inr e ↦ rw e (reset_keyer-Stored _ (with_mode-Stored value g p v))
    ]

    change-Stored :
        (c : Change) (g : GuiConnector D)
        → valid of_int to_int c ≡ true
        → Stored g
        → (h : GuiConnector D) × (change of_int to_int c g ≡ some h) × Stored h
    unfolding change set_enabled_cw_decoder valid
    change-Stored (to_wpm value) g p v = set_wpm-Stored value g p v
    change-Stored (to_farns_worth value) g p v = set_farns_worth-Stored value g p v
    change-Stored (to_mode value) g p v = (_, refl, set_mode-Stored value g p v)
    change-Stored (decoding true) g p v = (_, refl, stays g _ refl refl refl refl v)
    change-Stored (decoding false) g p v = (_, refl, stays g _ refl refl refl refl v)

    pub run-Stored :
        (cs : List Change) (g : GuiConnector D)
        → all_valid of_int to_int cs ≡ true
        → Stored g
        → (h : GuiConnector D) × (run of_int to_int cs g ≡ some h) × Stored h
    unfolding run all_valid
    run-Stored [] g p v = (g, refl, v)
    run-Stored (c ∷ cs) g p v =
        let (h, e, s) = change-Stored c g (grind arith) v in
        let (k, q, t) = run-Stored cs h (grind arith) s in (k, rw e q, t)
