-- ===== src/Serial/WindowsProxy.antt =====
-- App/serial/N1MMProxy_win.cpp: the straight key on the DSR line on Windows.
use cwkeyer.Base.{
  ◌≡◌, refl, Bool, true, false, not, List, [], ◌∷◌, ◌++◌, Option, none, some, if◌then◌else◌, arith,
}
use cwkeyer.Paddle.{Call, on_straight, straight_after, straight_after-append, Edges, Edges-append}
use cwkeyer.Serial.Windows.{WinSerial, Opening, output, dtr, start, stop, open_port, close_handle}
use cwkeyer.Serial.Proxy.{differs}

-- `stop_event`: m_stopEvent is there; `dsr_thread`: m_dsrThread is joinable.
pub record WinProxy : Type 0 where
  pub port : WinSerial
  pub stop_event : Bool
  pub dsr_thread : Bool

-- A start has its result, or assigns to a thread that is joinable (std::terminate).
pub data Started : Type 0 where
  returned : WinProxy → Bool → Started
  terminates : Started

-- N1MMProxy::start behind SerialComm::start; `creates_event` is the result of CreateEvent.
unfoldable pub monitor_port : Bool → WinSerial → WinProxy → Started
monitor_port creates_event s p =
    if not creates_event
    then returned (record p { port = stop s; stop_event = false }) false
    else if p.dsr_thread
    then terminates
    else returned
        (record { port = record s { running = true }; stop_event = true; dsr_thread = true }) true

-- N1MMProxy::start. SerialComm::start assigns the worker thread where it succeeds.
unfoldable pub start_win_proxy : Bool → Opening → WinProxy → Started
unfolding monitor_port
start_win_proxy creates_event x p =
    let (s, started) = start x p.port in
    if not started
    then returned (record p { port = s }) false
    else if p.port.worker
    then terminates
    else monitor_port creates_event s p

-- N1MMProxy::stop
unfoldable pub stop_win_proxy : WinProxy → WinProxy
stop_win_proxy p =
    if p.port.running
    then record {
      port = stop (record p.port { running = false });
      stop_event = false;
      dsr_thread = false;
    }
    else record p { port = stop p.port }

-- A round of dsrMonitorLoop: it leaves the loop, or an event came, which is one of the DSR line or not,
-- with the state of that line as it was read.
pub data Round : Type 0 where
  broken : Round
  event : Bool → Option Bool → Round

pub record WinMonitor : Type 0 where
  pub last_dsr : Bool
  pub calls : List Call

unfoldable pub told_dsr : Option Bool → WinMonitor → WinMonitor
told_dsr none m = m
told_dsr (some dsr) m =
    if differs dsr m.last_dsr
    then record { last_dsr = dsr; calls = m.calls ++ on_straight dsr ∷ [] }
    else m

-- The loop over the rounds, until one leaves it.
unfoldable pub win_monitor_loop : List Round → WinMonitor → WinMonitor
unfolding told_dsr
win_monitor_loop [] m = m
win_monitor_loop (broken ∷ rs) m = m
win_monitor_loop (event is_dsr status ∷ rs) m =
    win_monitor_loop rs (if is_dsr then told_dsr status m else m)

-- dsrMonitorLoop, from the first reading of the line.
unfoldable pub dsr_monitor_win : Option Bool → List Round → WinMonitor
dsr_monitor_win none rs = win_monitor_loop rs (record { last_dsr = false; calls = [] })
dsr_monitor_win (some b) rs = win_monitor_loop rs (record { last_dsr = b; calls = [] })

-- The keyer was told each change of the line since the state `d`, and knows the last.
pub record WinTold (d : Bool) (m : WinMonitor) : Type 0 where
  pub edges : Edges false false d m.calls
  pub known : m.last_dsr ≡ straight_after d m.calls

told_dsr-WinTold :
    (d : Bool) (o : Option Bool) (m : WinMonitor) → WinTold d m → WinTold d (told_dsr o m)
unfolding told_dsr Edges straight_after
told_dsr-WinTold d none m v = v
told_dsr-WinTold d (some b) m v = ground (
  arith,
  Edges-append false false d m.calls (on_straight b ∷ []) v.edges,
  straight_after-append d m.calls (on_straight b ∷ []),
)

win_monitor_loop-WinTold :
    (d : Bool) (rs : List Round) (m : WinMonitor) → WinTold d m → WinTold d (win_monitor_loop rs m)
unfolding win_monitor_loop
win_monitor_loop-WinTold d [] m v = v
win_monitor_loop-WinTold d (broken ∷ rs) m v = v
win_monitor_loop-WinTold d (event true status ∷ rs) m v =
    win_monitor_loop-WinTold d rs (told_dsr status m) (told_dsr-WinTold d status m v)
win_monitor_loop-WinTold d (event false status ∷ rs) m v = win_monitor_loop-WinTold d rs m v

-- A port that is open and has its worker.
abbrev opened : WinSerial → WinSerial
opened s = record (output (dtr false) s) { handle = true; running = true; worker = true }

start-opened :
    (x : Opening) (s : WinSerial)
    → s.running ≡ false
    → s.handle ≡ false
    → x.creates ≡ true
    → x.gets ≡ true
    → x.sets ≡ true
    → start x s ≡ (opened s, true)
unfolding start open_port
start-opened x s off closed creates gets sets = ground arith

-- On Windows, for a proxy with no thread: a start that succeeds, a stop, and a second start whose port
-- opens end the program, since stop clears m_running, SerialComm::stop then does not join the worker
-- thread, and the second start assigns to it.
pub second_start_terminates :
    (x : Opening) (again : Bool) (p : WinProxy)
    → p.port.running ≡ false
    → p.port.handle ≡ false
    → p.port.worker ≡ false
    → p.dsr_thread ≡ false
    → x.creates ≡ true
    → x.gets ≡ true
    → x.sets ≡ true
    → (q : WinProxy) × (start_win_proxy true x p ≡ returned q true)
      × (start_win_proxy again x (stop_win_proxy q) ≡ terminates)
unfolding start_win_proxy monitor_port stop_win_proxy stop close_handle
second_start_terminates x again p off closed free idle creates gets sets =
    let q : WinProxy = record { port = opened p.port; stop_event = true; dsr_thread = true } in
    let first = start-opened x p.port off closed creates gets sets in
    let second = start-opened x (stop_win_proxy q).port refl refl creates gets sets in
    (q, ground arith, ground arith)
