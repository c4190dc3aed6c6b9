-- ===== src/Serial/Threads.antt =====
-- runCW of App/serial/SerialComm_linux.cpp, which starts a thread for each element.
-- A thread raises DTR, sleeps, and lowers DTR, on the descriptor that it was started with. The threads
-- run in any order; a call on a descriptor that is not open has no effect.
use cwkeyer.Base.{
  ℕ, zero, suc, ◌≡◌, refl, ◌⊎◌, inl, inr, Bool, true, false, ◌&&◌, ◌||◌, not, List, [], ◌∷◌, ◌++◌,
  Option, none, some, ◌==◌, if◌then◌else◌, arith, Option-cases,
}
use cwkeyer.Base.Int.{ℤ}
use cwkeyer.Serial.{SerialComm, Opening, start, stop, set_dtr}

-- What a thread does next: raise the line and sleep, or lower it.
pub data Task : Type 0 where
  rises : ℕ → ℤ → Task
  falls : ℕ → Task

-- `fd` is the number in m_hSerial while the port is open.
pub record Keying : Type 0 where
  pub port : SerialComm
  pub fd : ℕ
  pub tasks : List Task

-- runCW
unfoldable pub run_cw : ℤ → Keying → Keying
run_cw duration s =
    if not s.port.running
    then s
    else if not s.port.serial
    then s
    else record s { tasks = s.tasks ++ rises s.fd duration ∷ [] }

-- TIOCMGET and TIOCMSET on a descriptor.
unfoldable pub write_dtr : ℕ → Bool → Keying → Keying
write_dtr fd b s = if s.port.serial && fd == s.fd then record s { port = set_dtr b s.port } else s

-- Task number i, and the others.
unfoldable pub task_at : ℕ → List Task → Option (Task × List Task)
task_at i [] = none
task_at zero (t ∷ ts) = some (t, ts)
task_at (suc i) (t ∷ ts) = elim (task_at i ts) [
  | none ↦ none
  | some found ↦ some (found.0, t ∷ found.1)
]

unfoldable pub run_task : Task → List Task → Keying → Keying
unfolding write_dtr
run_task (rises fd duration) rest s = write_dtr fd true (record s { tasks = rest ++ falls fd ∷ [] })
run_task (falls fd) rest s = write_dtr fd false (record s { tasks = rest })

-- Thread number i goes on.
unfoldable pub advance : ℕ → Keying → Keying
unfolding task_at run_task
advance i s = elim (task_at i s.tasks) [ none ↦ s | some found ↦ run_task found.0 found.1 s ]

-- start with the number that open returns, stop, runCW, and a thread that goes on.
pub data KeyEvent : Type 0 where
  starts : Opening → ℕ → KeyEvent
  stops : KeyEvent
  plays : ℤ → KeyEvent
  goes_on : ℕ → KeyEvent

unfoldable pub key_step : KeyEvent → Keying → Keying
key_step (starts x fd) s =
    let (port, started) = start x s.port in
    if started then record s { port = port; fd = fd } else record s { port = port }
key_step stops s = record s { port = stop s.port }
key_step (plays duration) s = run_cw duration s
key_step (goes_on i) s = advance i s

unfoldable pub key_steps : List KeyEvent → Keying → Keying
key_steps [] s = s
key_steps (e ∷ es) s = key_steps es (key_step e s)

-- A thread will lower the line of the descriptor.
abbrev pub will_fall : ℕ → List Task → Bool
will_fall fd [] = false
will_fall fd (rises f d ∷ ts) = will_fall fd ts
will_fall fd (falls f ∷ ts) = f == fd || will_fall fd ts

-- Where DTR is up, the port is open and runs, and a thread will lower it.
pub record KeyInv (s : Keying) : Type 0 where
  pub uncontrolled : s.port.dtr_control ≡ false
  pub open_iff_running : s.port.running ≡ s.port.serial
  pub lowered :
      (s.port.lines.dtr ≡ false)
      ⊎ (s.port.running ≡ true) × (s.port.serial ≡ true) × (will_fall s.fd s.tasks ≡ true)

will_fall-append :
    (fd : ℕ) (ts us : List Task) → will_fall fd (ts ++ us) ≡ will_fall fd ts || will_fall fd us
will_fall-append fd [] us = refl
will_fall-append fd (rises f d ∷ ts) us = will_fall-append fd ts us
will_fall-append fd (falls f ∷ ts) us = let rest = will_fall-append fd ts us in ground arith

swap_heads :
    (fd : ℕ) (t u : Task) (ts rest : List Task) (t' : Task) (rest' : List Task)
    → will_fall fd ts ≡ will_fall fd (t' ∷ rest')
    → t ≡ t'
    → rest ≡ u ∷ rest'
    → will_fall fd (u ∷ ts) ≡ will_fall fd (t ∷ rest)
swap_heads fd (rises f d) (rises g e) ts rest t' rest' h p q = ground arith
swap_heads fd (rises f d) (falls g) ts rest t' rest' h p q = ground arith
swap_heads fd (falls f) (rises g e) ts rest t' rest' h p q = ground arith
swap_heads fd (falls f) (falls g) ts rest t' rest' h p q = ground arith

run_task-KeyInv :
    (t : Task) (rest : List Task) (s : Keying)
    → KeyInv s
    → will_fall s.fd s.tasks ≡ will_fall s.fd (t ∷ rest)
    → KeyInv (run_task t rest s)
unfolding run_task write_dtr
run_task-KeyInv (rises fd d) rest s v e = ground (arith, will_fall-append s.fd rest (falls fd ∷ []))
run_task-KeyInv (falls fd) rest s v e = ground arith

-- Taking a task out leaves the others.
will_fall-task_at :
    (fd i : ℕ) (t : Task) (ts rest : List Task)
    → task_at i ts ≡ some (t, rest)
    → will_fall fd ts ≡ will_fall fd (t ∷ rest)
unfolding task_at
will_fall-task_at fd i t [] rest e = absurd (cc)
will_fall-task_at fd zero t (u ∷ ts) rest e = ground arith
will_fall-task_at fd (suc i) t (u ∷ ts) rest e = elim (Option-cases (task_at i ts)) [
  | inl g ↦ absurd (ground arith)
  | inr (found, g) ↦
      let inner = will_fall-task_at fd i found.0 ts found.1 g in
      swap_heads fd t u ts rest found.0 found.1 inner (ground arith) (ground arith)
]

advance-KeyInv : (i : ℕ) (s : Keying) → KeyInv s → KeyInv (advance i s)
unfolding advance
advance-KeyInv i s v = elim (Option-cases (task_at i s.tasks)) [
  | inl g ↦ ground arith
  | inr (found, g) ↦ ground (
    arith,
    run_task-KeyInv found.0 found.1 s v (will_fall-task_at s.fd i found.0 s.tasks found.1 g),
  )
]

key_step-KeyInv : (e : KeyEvent) (s : Keying) → KeyInv s → KeyInv (key_step e s)
unfolding key_step start stop run_cw
key_step-KeyInv (starts x fd) s v = ground arith
key_step-KeyInv stops s v = ground arith
key_step-KeyInv (plays duration) s v =
    ground (arith, will_fall-append s.fd s.tasks (rises s.fd duration ∷ []))
key_step-KeyInv (goes_on i) s v = advance-KeyInv i s v

key_steps-KeyInv : (es : List KeyEvent) (s : Keying) → KeyInv s → KeyInv (key_steps es s)
unfolding key_steps
key_steps-KeyInv [] s v = v
key_steps-KeyInv (e ∷ es) s v = key_steps-KeyInv es (key_step e s) (key_step-KeyInv e s v)

-- From a port that runs exactly when it is open, whose DTR is down and that does not raise it when it opens: after any sequence of starts,
-- stops, elements and steps of the elements' threads, in whatever order the threads run, DTR is down
-- again once no thread is left that has still to lower it.
pub key_steps-released :
    (es : List KeyEvent) (s : Keying)
    → s.port.dtr_control ≡ false
    → s.port.running ≡ s.port.serial
    → s.port.lines.dtr ≡ false
    → will_fall (key_steps es s).fd (key_steps es s).tasks ≡ false
    → (key_steps es s).port.lines.dtr ≡ false
key_steps-released es s control same down done =
    let v =
      key_steps-KeyInv es s
        (record { uncontrolled = control; open_iff_running = same; lowered = inl down }) in
    ground (arith, v.lowered)
