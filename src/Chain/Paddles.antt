-- ===== src/Chain/Paddles.antt =====
-- The paddle on USB and the keyer behind it: transfers of App/usb/UsbDevice.cpp between turns of the
-- threads of App/keyer/Keyer.cpp. m_ditDahList holds the keyer and the keyboard; sendDit and sendDah
-- give each call to both.
pub mod Follows
pub mod Silence
mod Tests
use cwkeyer.Base.{
  ℕ, zero, suc, ◌≡◌, refl, sym, ap, ◌∙◌, ◌⊎◌, inl, inr, Bool, true, false, List, [], ◌∷◌, ◌++◌,
  Option, none, some, arith, ◌>>=◌, Option-cases,
}
use cwkeyer.Paddle.{dit_after, dah_after}
use cwkeyer.Keyer.{Keyer, Playing, begin_item, end_item}
use cwkeyer.Keyer
use cwkeyer.Keyer.Threads.{System, take, finish}
use cwkeyer.Keyer.Safety.{SystemInv, Step-SystemInv, end_item_total}
use cwkeyer.Keyer.Calls.{calls, calls-pressed, calls-SystemInv}
use cwkeyer.Keyboard.Injection
use cwkeyer.Keyboard.Injection.{Keyboard}
use cwkeyer.Usb.{UsbDevice, completed, send_dit, send_dah, send_dit_dah, cb_interrupt}
use cwkeyer.Usb.Reports.{dit_of, dah_of, on_report_lem}

-- `device.calls` are the calls of the last transfer.
pub record Bench : Type 0 where
  pub device : UsbDevice
  pub keyer : System
  pub keyboard : Keyboard

-- A transfer of at least four octets, one that timed out, and what a thread of the keyer does: it
-- takes the element that waits, or ends the sleep after one.
pub data Turn : Type 0 where
  reports : ℕ → ℕ → ℕ → ℕ → List ℕ → Turn
  times_out : Turn
  takes : Turn
  ends : Turn

unfoldable pub taken : ℕ → Option Playing → System → System
taken zero busy s = s
taken (suc n) (some p) s = s
taken (suc n) none s = elim (begin_item s.keyer) [
  | none ↦ s
  | some (p, k) ↦ record { keyer = k; waiting = n; busy = some p }
]

unfoldable pub ended : Option Playing → System → Option System
ended none s = some s
ended (some p) s = do
  k ← end_item p s.keyer
  some (record { keyer = k; waiting = suc s.waiting; busy = none })

-- cbInterrupt, with the calls given to both elements of m_ditDahList.
unfoldable pub reported : List ℕ → Bench → Option Bench
reported octets b = do
  (u, fate) ← cb_interrupt completed octets (record b.device { calls = [] })
  some (record {
    device = u;
    keyer = record b.keyer { keyer = calls u.calls b.keyer.keyer };
    keyboard = Injection.calls u.calls b.keyboard;
  })

unfoldable pub turn : Turn → Bench → Option Bench
unfolding taken ended reported
turn (reports b₀ b₁ b₂ b₃ rest) b = reported (b₀ ∷ b₁ ∷ b₂ ∷ b₃ ∷ rest) b
turn times_out b = some b
turn takes b = some (record b { keyer = taken b.keyer.waiting b.keyer.busy b.keyer })
turn ends b = do s ← ended b.keyer.busy b.keyer; some (record b { keyer = s })

unfoldable pub turns : List Turn → Bench → Option Bench
turns [] b = some b
turns (t ∷ ts) b = turn t b >>= turns ts

-- The paddles that the last report names, from the states before.
unfoldable pub dit_named : Bool → List Turn → Bool
dit_named d [] = d
dit_named d (reports b₀ b₁ b₂ b₃ rest ∷ ts) = dit_named (dit_of b₀ b₂ b₃) ts
dit_named d (_ ∷ ts) = dit_named d ts

unfoldable pub dah_named : Bool → List Turn → Bool
dah_named d [] = d
dah_named d (reports b₀ b₁ b₂ b₃ rest ∷ ts) = dah_named (dah_of b₀ b₂ b₃) ts
dah_named d (_ ∷ ts) = dah_named d ts
