-- ===== src/Usb.antt =====
-- App/usb/UsbDevice.cpp, UsbDevice.h: the reports of a paddle on USB, and the calls they become.
pub mod Device
pub mod Connection
pub mod Reports
pub mod Probe
pub mod Detect
pub mod Detection
mod Tests
-- A report is the list of its octets; a read past its end has no result.
use cwkeyer.Base.{
  ℕ, Bool, true, false, ◌&&◌, ◌||◌, not, List, [], ◌∷◌, ◌++◌, Option, none, some, ltb, ◌==◌,
  if◌then◌else◌, get_elem?, ◌>>=◌,
}
use cwkeyer.Paddle.{Call, on_dit, on_dah}

abbrev pub click_left : ℕ
click_left = 1

abbrev pub click_right : ℕ
click_right = 2

abbrev pub click_both : ℕ
click_both = 3

-- m_dit, m_dah, and the calls made on each element of m_ditDahList so far.
pub record UsbDevice : Type 0 where
  pub dit : Bool
  pub dah : Bool
  pub calls : List Call

-- The two halves of sendDitDah, with sendDit and sendDah.
unfoldable pub send_dit : Bool → UsbDevice → UsbDevice
send_dit pressed u =
    if pressed && not u.dit
    then record u { dit = true; calls = u.calls ++ on_dit true ∷ [] }
    else if not pressed && u.dit
    then record u { dit = false; calls = u.calls ++ on_dit false ∷ [] }
    else u

unfoldable pub send_dah : Bool → UsbDevice → UsbDevice
send_dah pressed u =
    if pressed && not u.dah
    then record u { dah = true; calls = u.calls ++ on_dah true ∷ [] }
    else if not pressed && u.dah
    then record u { dah = false; calls = u.calls ++ on_dah false ∷ [] }
    else u

unfoldable pub send_dit_dah : Bool → Bool → UsbDevice → UsbDevice
send_dit_dah dit_pressed dah_pressed u = send_dah dah_pressed (send_dit dit_pressed u)

-- The status of a transfer, and what happens to it after the callback.
pub data Status : Type 0 where
  completed : Status
  timed_out : Status
  other_status : Status

pub data Fate : Type 0 where
  submitted : Fate
  freed : Fate

-- The first guard of cbInterrupt reads buffer[2] and buffer[3] only if buffer[0] is not CLICK_BOTH,
-- and buffer[3] only if buffer[2] is positive; the later ones likewise.
unfoldable pub both_clicked : List ℕ → Option Bool
both_clicked buffer = do
  b₀ ← get_elem? buffer 0
  let third = do b₃ ← get_elem? buffer 3; some (ltb 0 b₃)
  let second = do b₂ ← get_elem? buffer 2; if ltb 0 b₂ then third else some false
  if b₀ == click_both then some true else second

unfoldable pub clicked : ℕ → ℕ → List ℕ → Option Bool
clicked click i buffer = do
  b₀ ← get_elem? buffer 0
  let other = do b ← get_elem? buffer i; some (ltb 0 b)
  if b₀ == click then some true else other

unfoldable pub on_report : List ℕ → UsbDevice → Option UsbDevice
on_report buffer u = do
  both ← both_clicked buffer
  let right = do r ← clicked click_right 3 buffer; some (send_dit_dah false r u)
  let left = do
    l ← clicked click_left 2 buffer
    if l then some (send_dit_dah true false u) else right
  if both then some (send_dit_dah true true u) else left

-- cbInterrupt
unfoldable pub cb_interrupt : Status → List ℕ → UsbDevice → Option (UsbDevice × Fate)
cb_interrupt completed buffer u = do v ← on_report buffer u; some (v, submitted)
cb_interrupt timed_out buffer u = some (u, submitted)
cb_interrupt other_status buffer u = some (u, freed)
