-- ===== src/Serial/Windows.antt =====
-- App/serial/SerialComm_win.cpp: the serial key on Windows, where a worker thread plays the elements
-- from a queue.
use cwkeyer.Base.{
  ◌≡◌, Bool, true, false, not, List, [], ◌∷◌, ◌++◌, Option, none, some, if◌then◌else◌, arith,
}
use cwkeyer.Base.Int.{ℤ}
use cwkeyer.Timing.{KeyerItem}

-- What EscapeCommFunction sets on the lines, and the sleep between.
pub data Output : Type 0 where
  dtr : Bool → Output
  rts : Bool → Output
  sleeps : ℤ → Output

-- `handle` is m_hSerial ≠ INVALID_HANDLE_VALUE, `worker` that m_workerThread is joinable.
pub record WinSerial : Type 0 where
  pub handle : Bool
  pub running : Bool
  pub worker : Bool
  pub queue : List (KeyerItem × ℤ)
  pub outputs : List Output

abbrev pub output : Output → WinSerial → WinSerial
output o s = record s { outputs = s.outputs ++ o ∷ [] }

-- stop
unfoldable pub close_handle : WinSerial → WinSerial
close_handle s =
    if s.handle then record (output (dtr false) (output (rts false) s)) { handle = false } else s

unfoldable pub stop : WinSerial → WinSerial
unfolding close_handle
stop s = close_handle (if s.running then record s { running = false; worker = false } else s)

-- The results of CreateFileA, GetCommState and SetCommState.
pub record Opening : Type 0 where
  pub creates : Bool
  pub gets : Bool
  pub sets : Bool

-- start, with its result.
unfoldable pub open_port : Opening → WinSerial → WinSerial × Bool
open_port x s =
    if not x.creates
    then (record s { handle = false }, false)
    else if not x.gets
    then (record s { handle = false }, false)
    else if not x.sets
    then (record s { handle = false }, false)
    else (record (output (dtr false) s) { handle = true; running = true; worker = true }, true)

unfoldable pub start : Opening → WinSerial → WinSerial × Bool
unfolding open_port stop
start x s =
    if s.running then (s, false) else if s.handle then open_port x (stop s) else open_port x s

-- startRunCw, stopRunCw and runCW
unfoldable pub set_dtr : Bool → WinSerial → WinSerial
set_dtr b s = if not s.running then s else if not s.handle then s else output (dtr b) s

unfoldable pub run_cw : KeyerItem → ℤ → WinSerial → WinSerial
run_cw item duration s =
    if not s.running
    then s
    else if not s.handle
    then s
    else record s { queue = s.queue ++ (item, duration) ∷ [] }

-- A round of processQueue; `none` is the wait, or the end of the loop. It holds m_queueMutex, so a
-- call of runCW waits for its end.
unfoldable pub play_request : List (KeyerItem × ℤ) → WinSerial → Option WinSerial
play_request [] s = none
play_request ((item, duration) ∷ rest) s =
    let taken = record s { queue = rest } in
    some (
      if s.handle
      then output (dtr false) (output (sleeps duration) (output (dtr true) taken))
      else taken)

unfoldable pub process_queue : WinSerial → Option WinSerial
unfolding play_request
process_queue s = if s.running then play_request s.queue s else none

-- The elements that wait when a running port is stopped are still in the queue after the next start
-- that succeeds.
queue-start-stop :
    (x : Opening) (s : WinSerial)
    → s.running ≡ true
    → x.creates ≡ true
    → x.gets ≡ true
    → x.sets ≡ true
    → ((start x (stop s)).1 ≡ true) × ((start x (stop s)).0.queue ≡ s.queue)
unfolding start stop close_handle open_port
queue-start-stop x s on creates gets sets = ground arith
