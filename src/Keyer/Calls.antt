-- ===== src/Keyer/Calls.antt =====
-- The calls of App/utils/IDitDah.h on a keyer: Keyer::onDit, onDah and onStraight
-- (App/keyer/Keyer.cpp).
use cwkeyer.Base.{◌≡◌, refl, List, [], ◌∷◌, arith}
use cwkeyer.Paddle.{Call, on_dit, on_dah, on_straight, dit_after, dah_after}
use cwkeyer.Keyer
use cwkeyer.Keyer.{Keyer, enqueue}
use cwkeyer.Keyer.Threads.{System, press_dit, press_dah, press_straight}
use cwkeyer.Keyer.Safety.{SystemInv, Step-SystemInv}

-- The call of IDitDah on a keyer, and a sequence of them.
unfoldable pub call : Call → Keyer → Keyer
call (on_dit pressed) k = Keyer.on_dit pressed k
call (on_dah pressed) k = Keyer.on_dah pressed k
call (on_straight pressed) k = Keyer.on_straight pressed k

unfoldable pub calls : List Call → Keyer → Keyer
calls [] k = k
calls (c ∷ cs) k = calls cs (call c k)

-- The keyer holds what the calls say of the two paddles.
pub calls-pressed :
    (cs : List Call) (k : Keyer)
    → ((calls cs k).dit_pressed ≡ dit_after k.dit_pressed cs)
      × ((calls cs k).dah_pressed ≡ dah_after k.dah_pressed cs)
unfolding calls call Keyer.on_dit Keyer.on_dah Keyer.on_straight enqueue dit_after dah_after
calls-pressed [] k = (refl, refl)
calls-pressed (on_dit b ∷ cs) k =
    let rest = calls-pressed cs (Keyer.on_dit b k) in ground (arith, rest)
calls-pressed (on_dah b ∷ cs) k =
    let rest = calls-pressed cs (Keyer.on_dah b k) in ground (arith, rest)
calls-pressed (on_straight b ∷ cs) k = calls-pressed cs (Keyer.on_straight b k)

-- The calls are steps of the threads' system.
pub calls-SystemInv :
    (cs : List Call) (s : System) → SystemInv s → SystemInv (record s { keyer = calls cs s.keyer })
unfolding calls call
calls-SystemInv [] s v = v
calls-SystemInv (on_dit b ∷ cs) s v =
    calls-SystemInv cs (record s { keyer = Keyer.on_dit b s.keyer })
      (Step-SystemInv (press_dit b) v)
calls-SystemInv (on_dah b ∷ cs) s v =
    calls-SystemInv cs (record s { keyer = Keyer.on_dah b s.keyer })
      (Step-SystemInv (press_dah b) v)
calls-SystemInv (on_straight b ∷ cs) s v =
    calls-SystemInv cs (record s { keyer = Keyer.on_straight b s.keyer })
      (Step-SystemInv (press_straight b) v)
