-- ===== src/Serial/Proxy.antt =====
-- App/serial/N1MMProxy_linux.cpp, N1MMProxy.h: a straight key on the DSR line of a serial port.
use cwkeyer.Base.{
  suc, ◌≡◌, Bool, true, false, not, List, [], ◌∷◌, ◌++◌, Option, none, some, if◌then◌else◌, arith,
}
use cwkeyer.Paddle.{Call, on_straight, straight_after, straight_after-append, Edges, Edges-append}
use cwkeyer.Serial.{SerialComm, Opening, start, stop}

-- `piped`: the pipe is there; `thread`: m_dsrThread runs.
pub record N1mmProxy : Type 0 where
  pub port : SerialComm
  pub piped : Bool
  pub thread : Bool

-- N1MMProxy::start; `pipes` is the result of pipe.
unfoldable pub start_proxy : Bool → Opening → N1mmProxy → N1mmProxy × Bool
start_proxy pipes x p =
    let (s, started) = start x p.port in
    if not started
    then (record p { port = s }, false)
    else if not pipes
    then (record p { port = stop s }, false)
    else (record p { port = record s { running = true }; piped = true; thread = true }, true)

-- N1MMProxy::stop, with the thread joined.
unfoldable pub stop_proxy : N1mmProxy → N1mmProxy
stop_proxy p =
    let joined : N1mmProxy = record p {
      port = record p.port { running = false };
      piped = false;
      thread = false;
    } in
    if p.port.running
    then record joined { port = stop joined.port }
    else record p { port = stop p.port }

-- The state of dsrMonitorLoop: lastDsr (none is -1) and the calls on the keyer.
pub record Monitor : Type 0 where
  pub last_dsr : Option Bool
  pub calls : List Call

abbrev pub differs : Bool → Bool → Bool
differs true b = not b
differs false b = b

-- One round that reads the lines: `read` is none if ioctl fails.
unfoldable pub dsr_round : Option Bool → Monitor → Monitor
dsr_round none m = m
dsr_round (some dsr) m = elim m.last_dsr [
  | none ↦ record m { last_dsr = some dsr }
  | some last ↦
      if differs dsr last
      then record { last_dsr = some dsr; calls = m.calls ++ on_straight dsr ∷ [] }
      else m
]

unfoldable pub dsr_monitor_loop : List (Option Bool) → Monitor → Monitor
dsr_monitor_loop [] m = m
dsr_monitor_loop (r ∷ rs) m = dsr_monitor_loop rs (dsr_round r m)

-- The last state of the line that was read, from the one before.
unfoldable pub last_reading : Bool → List (Option Bool) → Bool
last_reading d [] = d
last_reading d (none ∷ rs) = last_reading d rs
last_reading d (some b ∷ rs) = last_reading b rs

-- The keyer has been told each change since the state `d`, and knows the last one.
pub record Told (d : Bool) (m : Monitor) : Type 0 where
  pub edges : Edges false false d m.calls
  pub known : m.last_dsr ≡ some (straight_after d m.calls)

dsr_round-Told :
    (d b : Bool) (m : Monitor)
    → Told d m
    → Told d (dsr_round (some b) m) × ((dsr_round (some b) m).last_dsr ≡ some b)
unfolding dsr_round Edges straight_after
dsr_round-Told d b m v = ground (
  arith,
  Edges-append false false d m.calls (on_straight b ∷ []) v.edges,
  straight_after-append d m.calls (on_straight b ∷ []),
)

-- If the monitor has read a state of the line, each call since the state `d` was a change of the
-- straight key and the keyer knows the last state read, then this is so after any sequence of
-- readings, failed ones included: what the keyer knows of the key is the last state that was read.
pub dsr_monitor_loop-Told :
    (d last : Bool) (rs : List (Option Bool)) (m : Monitor)
    → Told d m
    → m.last_dsr ≡ some last
    → Told d (dsr_monitor_loop rs m)
      × (straight_after d (dsr_monitor_loop rs m).calls ≡ last_reading last rs)
unfolding dsr_monitor_loop last_reading dsr_round
dsr_monitor_loop-Told d last [] m v e = (v, ground (arith, v.known))
dsr_monitor_loop-Told d last (none ∷ rs) m v e = dsr_monitor_loop-Told d last rs m v e
dsr_monitor_loop-Told d last (some b ∷ rs) m v e =
    let (w, q) = dsr_round-Told d b m v in dsr_monitor_loop-Told d b rs (dsr_round (some b) m) w q

-- N1MMProxy::stop of a running proxy with an open port leaves the port open: the next start that
-- succeeds opens one descriptor more.
pub stop_leaks :
    (x : Opening) (p : N1mmProxy)
    → p.port.serial ≡ true
    → p.port.running ≡ true
    → x.opens ≡ true
    → x.gets ≡ true
    → x.sets ≡ true
    → ((stop_proxy p).port.serial ≡ true)
      × ((stop_proxy p).port.opened ≡ p.port.opened)
      × ((start_proxy true x (stop_proxy p)).0.port.opened ≡ suc p.port.opened)
unfolding stop_proxy start_proxy stop start
stop_leaks x p up on opens gets sets = ground arith
