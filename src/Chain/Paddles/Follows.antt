-- ===== src/Chain/Paddles/Follows.antt =====
-- What the keyer of Chain.Paddles knows of the paddles (App/usb/UsbDevice.cpp, App/keyer/Keyer.cpp).
use cwkeyer.Base.{
  ℕ, zero, suc, ◌≡◌, refl, sym, ap, ◌∙◌, inl, inr, Bool, List, [], ◌∷◌, Option, none, some, arith,
  Option-cases,
}
use cwkeyer.Paddle.{dit_after, dah_after}
use cwkeyer.Keyer.{Keyer, Playing, begin_item, end_item}
use cwkeyer.Keyer
use cwkeyer.Keyer.Threads.{System, take, finish}
use cwkeyer.Keyer.Safety.{SystemInv, Step-SystemInv, end_item_total}
use cwkeyer.Keyer.Calls.{calls, calls-pressed, calls-SystemInv}
use cwkeyer.Keyboard.Injection
use cwkeyer.Keyboard.Injection.{Keyboard}
use cwkeyer.Usb.{UsbDevice, send_dit, send_dah, send_dit_dah, cb_interrupt}
use cwkeyer.Usb.Reports.{dit_of, dah_of, on_report_lem}
use cwkeyer.Chain.Paddles.{
  Bench, Turn, reports, times_out, takes, ends, taken, ended, turn, turns, dit_named, dah_named,
}

-- The keyer is in a state that its threads can reach, and knows both paddles.
pub record InTouch (b : Bench) : Type 0 where
  pub keyer_inv : SystemInv b.keyer
  pub dit : b.keyer.keyer.dit_pressed ≡ b.device.dit
  pub dah : b.keyer.keyer.dah_pressed ≡ b.device.dah

-- The calls of one report.
send_dit_dah-calls :
    (d a : Bool) (u : UsbDevice)
    → u.calls ≡ []
    → let v = send_dit_dah d a u in
      (v.dit ≡ d) × (v.dah ≡ a) × (dit_after u.dit v.calls ≡ d) × (dah_after u.dah v.calls ≡ a)
unfolding send_dit_dah send_dit send_dah dit_after dah_after
send_dit_dah-calls d a u e = ground arith

begin_item-pressed :
    (p : Playing) (k k' : Keyer)
    → begin_item k ≡ some (p, k')
    → (k'.dit_pressed ≡ k.dit_pressed) × (k'.dah_pressed ≡ k.dah_pressed)
unfolding begin_item
begin_item-pressed p k k' e = ground arith

end_item-pressed :
    (p : Playing) (k k' : Keyer)
    → end_item p k ≡ some k'
    → (k'.dit_pressed ≡ k.dit_pressed) × (k'.dah_pressed ≡ k.dah_pressed)
unfolding end_item Keyer.after_squeeze Keyer.enqueue_field Keyer.enqueue
end_item-pressed p k k' e = ground arith

-- A turn is done, leaves the keyer in touch, and leaves the device with the paddles `d` and `a`.
abbrev pub Done : Turn → Bench → Bool → Bool → Type 0
Done t b d a =
    (c : Bench) × (turn t b ≡ some c) × InTouch c × (c.device.dit ≡ d) × (c.device.dah ≡ a)

pub reports-Done :
    (b₀ b₁ b₂ b₃ : ℕ) (rest : List ℕ) (b : Bench)
    → InTouch b
    → Done (reports b₀ b₁ b₂ b₃ rest) b (dit_of b₀ b₂ b₃) (dah_of b₀ b₂ b₃)
unfolding turn cb_interrupt
reports-Done b₀ b₁ b₂ b₃ rest b v =
    let d = dit_of b₀ b₂ b₃ in
    let a = dah_of b₀ b₂ b₃ in
    let u₀ = record b.device { calls = [] } in
    let u = send_dit_dah d a u₀ in
    let (dit, dah, dit_told, dah_told) = send_dit_dah-calls d a u₀ refl in
    let (dit_held, dah_held) = calls-pressed u.calls b.keyer.keyer in
    (
      record {
        device = u;
        keyer = record b.keyer { keyer = calls u.calls b.keyer.keyer };
        keyboard = Injection.calls u.calls b.keyboard;
      },
      rw (on_report_lem b₀ b₁ b₂ b₃ rest u₀) refl,
      record {
        keyer_inv = calls-SystemInv u.calls b.keyer v.keyer_inv;
        dit = dit_held ∙ ap (λ x. dit_after x u.calls) v.dit ∙ dit_told ∙ sym dit;
        dah = dah_held ∙ ap (λ x. dah_after x u.calls) v.dah ∙ dah_told ∙ sym dah;
      },
      dit,
      dah,
    )

-- What a thread does keeps the invariant and the paddles.
abbrev pub Kept : System → System → Type 0
Kept s t =
    SystemInv t
    × (t.keyer.dit_pressed ≡ s.keyer.dit_pressed)
    × (t.keyer.dah_pressed ≡ s.keyer.dah_pressed)

taken-Kept :
    (n : ℕ) (o : Option Playing) (s : System)
    → s.waiting ≡ n
    → s.busy ≡ o
    → SystemInv s
    → Kept s (taken n o s)
unfolding taken
taken-Kept zero o s e f v = (v, refl, refl)
taken-Kept (suc n) (some p) s e f v = (v, refl, refl)
taken-Kept (suc n) none s e f v = elim (Option-cases (begin_item s.keyer)) [
  | inl q ↦ rw (q, taken) (v, refl, refl)
  | inr ((p, k), q) ↦
      rw (q, taken)
        (
          Step-SystemInv (take n p k e f q) v,
          (begin_item-pressed p s.keyer k q).0,
          (begin_item-pressed p s.keyer k q).1,
        )
]

pub ended-Kept :
    (o : Option Playing) (s : System)
    → s.busy ≡ o
    → SystemInv s
    → (t : System) × (ended o s ≡ some t) × Kept s t
unfolding ended
ended-Kept none s f v = (s, refl, (v, refl, refl))
ended-Kept (some p) s f v =
    let (k, e) = end_item_total p s.keyer (v.busy_set p f) in
    let (dit, dah) = end_item-pressed p s.keyer k e in
    (
      record { keyer = k; waiting = suc s.waiting; busy = none },
      rw e refl,
      (Step-SystemInv (finish p k f e) v, dit, dah),
    )

with_keyer-InTouch :
    (b : Bench) (t : System) → InTouch b → Kept b.keyer t → InTouch (record b { keyer = t })
with_keyer-InTouch b t v k = record { keyer_inv = k.0; dit = k.1 ∙ v.dit; dah = k.2 ∙ v.dah }

times_out-Done : (b : Bench) → InTouch b → Done times_out b b.device.dit b.device.dah
unfolding turn
times_out-Done b v = (b, refl, v, refl, refl)

takes-Done : (b : Bench) → InTouch b → Done takes b b.device.dit b.device.dah
unfolding turn
takes-Done b v =
    let t = taken b.keyer.waiting b.keyer.busy b.keyer in
    let k = taken-Kept b.keyer.waiting b.keyer.busy b.keyer refl refl v.keyer_inv in
    (record b { keyer = t }, refl, with_keyer-InTouch b t v k, refl, refl)

ends-Done : (b : Bench) → InTouch b → Done ends b b.device.dit b.device.dah
unfolding turn
ends-Done b v =
    let (t, e, k) = ended-Kept b.keyer.busy b.keyer refl v.keyer_inv in
    (record b { keyer = t }, rw e refl, with_keyer-InTouch b t v k, refl, refl)

abbrev Followed : List Turn → Bench → Type 0
Followed ts b =
    (c : Bench) × (turns ts b ≡ some c)
    × InTouch c
    × (c.keyer.keyer.dit_pressed ≡ dit_named b.device.dit ts)
    × (c.keyer.keyer.dah_pressed ≡ dah_named b.device.dah ts)

-- A turn that names no paddle, and then others.
silent_turn :
    (t : Turn) (ts : List Turn) (b : Bench)
    → Done t b b.device.dit b.device.dah
    → ((c : Bench) → InTouch c → Followed ts c)
    → (c : Bench) × (turns (t ∷ ts) b ≡ some c)
      × InTouch c
      × (c.keyer.keyer.dit_pressed ≡ dit_named b.device.dit ts)
      × (c.keyer.keyer.dah_pressed ≡ dah_named b.device.dah ts)
unfolding turns
silent_turn t ts b (c, e, w, dit, dah) more =
    let (z, f, x, dit', dah') = more c w in
    (z, rw e f, x, dit' ∙ ap (λ d. dit_named d ts) dit, dah' ∙ ap (λ d. dah_named d ts) dah)

-- If the keyer is in a state that its threads can reach and knows the state of both paddles, then any
-- sequence of reports of at least four octets, of transfers that time out and of turns of the keyer's
-- threads comes to its end, and the keyer is in such a state again: it takes each paddle to be pressed
-- exactly if the last report says so.
pub paddles_followed :
    (ts : List Turn) (b : Bench)
    → InTouch b
    → (c : Bench) × (turns ts b ≡ some c)
      × InTouch c
      × (c.keyer.keyer.dit_pressed ≡ dit_named b.device.dit ts)
      × (c.keyer.keyer.dah_pressed ≡ dah_named b.device.dah ts)
unfolding turns dit_named dah_named
paddles_followed [] b v = (b, refl, v, v.dit, v.dah)
paddles_followed (reports b₀ b₁ b₂ b₃ rest ∷ ts) b v =
    let (c, e, w, dit, dah) = reports-Done b₀ b₁ b₂ b₃ rest b v in
    let (z, f, x, dit', dah') = paddles_followed ts c w in
    (z, rw e f, x, dit' ∙ ap (λ d. dit_named d ts) dit, dah' ∙ ap (λ d. dah_named d ts) dah)
paddles_followed (times_out ∷ ts) b v =
    silent_turn times_out ts b (times_out-Done b v) (λ c w. paddles_followed ts c w)
paddles_followed (takes ∷ ts) b v =
    silent_turn takes ts b (takes-Done b v) (λ c w. paddles_followed ts c w)
paddles_followed (ends ∷ ts) b v =
    silent_turn ends ts b (ends-Done b v) (λ c w. paddles_followed ts c w)
