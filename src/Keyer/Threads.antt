-- ===== src/Keyer/Threads.antt =====
-- App/keyer/Keyer.cpp seen as threads: the paddles' handlers, initKeyer and stopKeyer on one side,
-- the threads of keyerCall on the other. A thread of keyerCall holds m_mutex through the sleep in
-- playDitDah, so at most one of them plays.
use cwkeyer.Base.{ℕ, suc, ◌≡◌, Bool, false, Option, none, some}
use cwkeyer.Base.Int.{ℤ}
use cwkeyer.Keyer.{
  Keyer, Mode, Playing, new_keyer, init_keyer, stop_keyer, on_dit, on_dah, on_straight, begin_item,
  end_item,
}

-- `waiting` threads stand in the wait of keyerCall; `busy` is what the one that plays has sampled.
pub record System : Type 0 where
  pub keyer : Keyer
  pub waiting : ℕ
  pub busy : Option Playing

unfoldable pub new_system : System
unfolding new_keyer
new_system = record { keyer = new_keyer; waiting = 0; busy = none }

-- Keyer::initKeyer starts a thread and detaches it, so that `joinable` is false and the next
-- stopKeyer joins nothing: a thread leaves only when it sees the cleared flag itself (`leave`).
pub data Step (s : System) : System → Type 0 where
  press_dit : (b : Bool) → Step s (record s { keyer = on_dit b s.keyer })
  press_dah : (b : Bool) → Step s (record s { keyer = on_dah b s.keyer })
  press_straight : (b : Bool) → Step s (record s { keyer = on_straight b s.keyer })
  init :
      (wpm : ℤ) (mode : Mode) (k : Keyer)
      → init_keyer wpm mode s.keyer ≡ some k
      → Step s (record s { keyer = k; waiting = suc s.waiting })
  stop : Step s (record s { keyer = stop_keyer s.keyer })
  take :
      (n : ℕ) (p : Playing) (k : Keyer)
      → s.waiting ≡ suc n
      → s.busy ≡ none
      → begin_item s.keyer ≡ some (p, k)
      → Step s (record { keyer = k; waiting = n; busy = some p })
  finish :
      (p : Playing) (k : Keyer)
      → s.busy ≡ some p
      → end_item p s.keyer ≡ some k
      → Step s (record { keyer = k; waiting = suc s.waiting; busy = none })
  leave : (n : ℕ) → s.waiting ≡ suc n → s.keyer.started ≡ false → Step s (record s { waiting = n })

pub data Reach (s : System) : System → Type 0 where
  here : Reach s s
  next : {t u : System} → Reach s t → Step t u → Reach s u
