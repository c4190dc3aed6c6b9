-- ===== src/Usb/Reports.antt =====
-- What sequences of reports (App/usb/UsbDevice.cpp) make of the paddles.
use cwkeyer.Base.{
  ℕ, ◌≡◌, refl, Bool, true, false, ◌&&◌, ◌||◌, not, List, [], ◌∷◌, ◌++◌, Option, some, arith, ltb,
  ◌==◌, ◌>>=◌, >>=_some,
}
use cwkeyer.Paddle.{
  Call, on_dit, on_dah, dit_after, dah_after, straight_after, Edges, Edges-append, dit_after-append,
  dah_after-append,
}
use cwkeyer.Usb.{
  UsbDevice, send_dit, send_dah, send_dit_dah, both_clicked, clicked, on_report, Status, completed,
  timed_out, other_status, Fate, submitted, cb_interrupt,
}

-- The keyer has been told each change and knows the state of the paddles.
pub record Told (u : UsbDevice) : Type 0 where
  pub edges : Edges false false false u.calls
  pub dit_known : dit_after false u.calls ≡ u.dit
  pub dah_known : dah_after false u.calls ≡ u.dah

tells :
    (u : UsbDevice) (d a : Bool) (c : Call)
    → Told u
    → Edges u.dit u.dah (straight_after false u.calls) (c ∷ [])
    → dit_after u.dit (c ∷ []) ≡ d
    → dah_after u.dah (c ∷ []) ≡ a
    → Told (record { dit = d; dah = a; calls = u.calls ++ c ∷ [] })
tells u d a c v e p q = record {
  edges = Edges-append false false false u.calls (c ∷ []) v.edges (rw (v.dit_known, v.dah_known) e);
  dit_known = ground (arith, dit_after-append false u.calls (c ∷ []), v.dit_known);
  dah_known = ground (arith, dah_after-append false u.calls (c ∷ []), v.dah_known);
}

send_dit-Told : (b : Bool) (u : UsbDevice) → Told u → Told (send_dit b u)
unfolding send_dit Edges dit_after dah_after
send_dit-Told true u v = ground (arith, tells u true u.dah (on_dit true) v)
send_dit-Told false u v = ground (arith, tells u false u.dah (on_dit false) v)

send_dah-Told : (b : Bool) (u : UsbDevice) → Told u → Told (send_dah b u)
unfolding send_dah Edges dit_after dah_after
send_dah-Told true u v = ground (arith, tells u u.dit true (on_dah true) v)
send_dah-Told false u v = ground (arith, tells u u.dit false (on_dah false) v)

pub send_dit_dah-state :
    (d a : Bool) (u : UsbDevice) → ((send_dit_dah d a u).dit ≡ d) × ((send_dit_dah d a u).dah ≡ a)
unfolding send_dit_dah send_dit send_dah
send_dit_dah-state d a u = ground arith

send_dit_dah-Told : (d a : Bool) (u : UsbDevice) → Told u → Told (send_dit_dah d a u)
unfolding send_dit_dah
send_dit_dah-Told d a u v = send_dah-Told a _ (send_dit-Told d u v)

-- The paddles that a report of at least four octets names.
unfoldable pub dit_of : ℕ → ℕ → ℕ → Bool
dit_of b₀ b₂ b₃ = b₀ == 3 || b₀ == 1 || ltb 0 b₂

unfoldable pub dah_of : ℕ → ℕ → ℕ → Bool
dah_of b₀ b₂ b₃ =
    b₀ == 3 || (ltb 0 b₂ && ltb 0 b₃) || (not (b₀ == 1) && not (ltb 0 b₂) && (b₀ == 2 || ltb 0 b₃))

pub on_report_lem :
    (b₀ b₁ b₂ b₃ : ℕ) (rest : List ℕ) (u : UsbDevice)
    → on_report (b₀ ∷ b₁ ∷ b₂ ∷ b₃ ∷ rest) u
      ≡ some (send_dit_dah (dit_of b₀ b₂ b₃) (dah_of b₀ b₂ b₃) u)
unfolding on_report both_clicked clicked dit_of dah_of
on_report_lem b₀ b₁ b₂ b₃ rest u = ground arith

-- A report of four octets or more: the first octet (1 dit, 2 dah, 3 both) and the third (dit) and
-- fourth (dah) octets being positive give the state of both paddles, whatever it was before; the
-- transfer is submitted again.
report_lem :
    (b₀ b₁ b₂ b₃ : ℕ) (rest : List ℕ) (u : UsbDevice)
    → (v : UsbDevice) × (cb_interrupt completed (b₀ ∷ b₁ ∷ b₂ ∷ b₃ ∷ rest) u ≡ some (v, submitted))
      × (v.dit ≡ dit_of b₀ b₂ b₃)
      × (v.dah ≡ dah_of b₀ b₂ b₃)
unfolding cb_interrupt
report_lem b₀ b₁ b₂ b₃ rest u =
    let v = send_dit_dah (dit_of b₀ b₂ b₃) (dah_of b₀ b₂ b₃) u in
    let s = send_dit_dah-state (dit_of b₀ b₂ b₃) (dah_of b₀ b₂ b₃) u in
    (v, rw (on_report_lem b₀ b₁ b₂ b₃ rest u) refl, s.0, s.1)

-- The callbacks of a sequence of transfers, up to one that frees the transfer.
unfoldable pub run : List (Status × List ℕ) → UsbDevice → Option UsbDevice
run [] u = some u
run ((status, buffer) ∷ more) u = do (v, fate) ← cb_interrupt status buffer u; run more v

on_report-Told : (buffer : List ℕ) (u v : UsbDevice) → Told u → on_report buffer u ≡ some v → Told v
unfolding on_report
on_report-Told buffer u v h e = ground (
  arith,
  send_dit_dah-Told true true u h,
  send_dit_dah-Told true false u h,
  send_dit_dah-Told false true u h,
  send_dit_dah-Told false false u h,
)

callback-Told :
    (status : Status) (buffer : List ℕ) (u v : UsbDevice) (fate : Fate)
    → Told u
    → cb_interrupt status buffer u ≡ some (v, fate)
    → Told v
unfolding cb_interrupt
callback-Told completed buffer u v fate h e =
    let (w, q, r) = >>=_some (on_report buffer u) (λ w. some (w, submitted)) (v, fate) e in
    ground (arith, on_report-Told buffer u w h q)
callback-Told timed_out buffer u v fate h e = ground arith
callback-Told other_status buffer u v fate h e = ground arith

-- If each call so far was a change of one paddle and the keyer's idea of both paddles is the
-- device's, then this is so after any sequence of transfers that reads no octet past its reports.
reports-Told : (rs : List (Status × List ℕ)) (u v : UsbDevice) → Told u → run rs u ≡ some v → Told v
unfolding run
reports-Told [] u v h e = ground arith
reports-Told ((status, buffer) ∷ more) u v h e =
    let ((w, fate), q, r) = >>=_some (cb_interrupt status buffer u) _ v e in
    reports-Told more w v (callback-Told status buffer u w fate h q) r
