-- ===== src/Serial.antt =====
-- App/serial/SerialComm_linux.cpp, SerialComm.h and SerialPorts_linux.cpp: the key on the DTR line of
-- a serial port. What the system answers is passed in. `opened` counts the descriptors that open has
-- returned and close has not taken back.
pub mod Proxy
pub mod Ports
pub mod Windows
pub mod Threads
pub mod Queue
pub mod WindowsProxy
pub mod WindowsPorts
mod Tests
use cwkeyer.Base.{
  ℕ, suc, ◌+◌, ◌-◌, ◌≡◌, refl, arith, Bool, true, false, ◌&&◌, ◌||◌, not, List, [], ◌∷◌, ◌++◌,
  Option, none, some, if◌then◌else◌,
}

-- A set of the modem lines: DTR and RTS.
pub record Lines : Type 0 where
  pub dtr : Bool
  pub rts : Bool

-- `serial` is m_hSerial ≥ 0.
pub record SerialComm : Type 0 where
  pub serial : Bool
  pub running : Bool
  pub rts_control : Bool
  pub dtr_control : Bool
  pub lines : Lines
  pub opened : ℕ

unfoldable pub new_serial_comm : Bool → Bool → SerialComm
new_serial_comm rts_control dtr_control = record {
  serial = false;
  running = false;
  rts_control = rts_control;
  dtr_control = dtr_control;
  lines = record { dtr = false; rts = false };
  opened = 0;
}

-- The results of open, tcgetattr and tcsetattr.
pub record Opening : Type 0 where
  pub opens : Bool
  pub gets : Bool
  pub sets : Bool

abbrev pub close_port : SerialComm → SerialComm
close_port s = record s { serial = false; opened = s.opened - 1 }

-- start, with its result.
unfoldable pub start : Opening → SerialComm → SerialComm × Bool
start x s =
    let opened : SerialComm = record s { serial = true; opened = suc s.opened } in
    if s.running
    then (s, false)
    else if not x.opens
    then (record s { serial = false }, false)
    else if not x.gets
    then (close_port opened, false)
    else if not x.sets
    then (close_port opened, false)
    else (
      record opened { running = true; lines = record { dtr = s.dtr_control; rts = s.rts_control } },
      true,
    )

-- stop
unfoldable pub stop : SerialComm → SerialComm
stop s =
    if s.serial && s.running
    then close_port (record s { running = false; lines = record { dtr = false; rts = false } })
    else s

-- The two ends of a key press: TIOCM_DTR set and cleared.
abbrev pub set_dtr : Bool → SerialComm → SerialComm
set_dtr b s = record s { lines = record s.lines { dtr = b } }

-- startRunCw and stopRunCw
unfoldable pub start_run_cw : SerialComm → SerialComm
start_run_cw s = if not s.running then s else if not s.serial then s else set_dtr true s

unfoldable pub stop_run_cw : SerialComm → SerialComm
stop_run_cw s = if not s.running then s else if not s.serial then s else set_dtr false s

-- A port runs exactly when it is open, and then it is the only descriptor.
pub record SerialInv (s : SerialComm) : Type 0 where
  pub open_iff_running : s.running ≡ s.serial
  pub one : s.opened ≡ (if s.serial then 1 else 0)

pub data Event : Type 0 where
  starts : Opening → Event
  stops : Event
  key : Bool → Event

unfoldable pub step : Event → SerialComm → SerialComm
step (starts x) s = (start x s).0
step stops s = stop s
step (key true) s = start_run_cw s
step (key false) s = stop_run_cw s

unfoldable pub run : List Event → SerialComm → SerialComm
run [] s = s
run (e ∷ es) s = run es (step e s)

step-SerialInv : (e : Event) (s : SerialComm) → SerialInv s → SerialInv (step e s)
unfolding step start stop start_run_cw stop_run_cw
step-SerialInv (starts x) s v = ground arith
step-SerialInv stops s v = ground arith
step-SerialInv (key true) s v = ground arith
step-SerialInv (key false) s v = ground arith

run-SerialInv : (es : List Event) (s : SerialComm) → SerialInv s → SerialInv (run es s)
unfolding run
run-SerialInv [] s v = v
run-SerialInv (e ∷ es) s v = run-SerialInv es (step e s) (step-SerialInv e s v)

new-SerialInv : (rts dtr : Bool) → SerialInv (new_serial_comm rts dtr)
unfolding new_serial_comm
new-SerialInv rts dtr = record { open_iff_running = refl; one = refl }

-- After any sequence of starts, stops and key changes, whatever the system answers: the port runs
-- exactly when it is open, and as many descriptors are open as it has, one or none.
run-SerialInv_new :
    (rts dtr : Bool) (es : List Event) → SerialInv (run es (new_serial_comm rts dtr))
run-SerialInv_new rts dtr es = run-SerialInv es (new_serial_comm rts dtr) (new-SerialInv rts dtr)
