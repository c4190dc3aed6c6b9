-- ===== src/Serial/Queue.antt =====
-- The queue of App/serial/SerialComm_win.cpp: callers of runCW and the worker thread, in any order.
use mathlib.Core.List.{append-nil, append_assoc}
use cwkeyer.Base.{
  ◌≡◌, refl, sym, ◌∙◌, ap, true, false, List, [], ◌∷◌, ◌++◌, Option, none, some, arith,
}
use cwkeyer.Base.Int.{ℤ}
use cwkeyer.Timing.{KeyerItem}
use cwkeyer.Serial.Windows.{WinSerial, Output, dtr, sleeps, run_cw, play_request, process_queue}

pub data QueueEvent : Type 0 where
  requests : KeyerItem → ℤ → QueueEvent
  works : QueueEvent

-- A round of the worker, which waits where it has nothing to do.
abbrev worked : WinSerial → Option WinSerial → WinSerial
worked s none = s
worked s (some s') = s'

unfoldable pub queue_step : QueueEvent → WinSerial → WinSerial
queue_step (requests item duration) s = run_cw item duration s
queue_step works s = worked s (process_queue s)

unfoldable pub queue_steps : List QueueEvent → WinSerial → WinSerial
queue_steps [] s = s
queue_steps (e ∷ es) s = queue_steps es (queue_step e s)

-- The key that the port stands for plays each element at once: up, its length, down.
abbrev pub played : List (KeyerItem × ℤ) → List Output
played [] = []
played ((item, duration) ∷ rest) = dtr true ∷ sleeps duration ∷ dtr false ∷ played rest

abbrev pub requested : List QueueEvent → List (KeyerItem × ℤ)
requested [] = []
requested (requests item duration ∷ es) = (item, duration) ∷ requested es
requested (works ∷ es) = requested es

-- What the lines will have shown once the queue is empty.
abbrev pub shown : WinSerial → List Output
shown s = s.outputs ++ played s.queue

abbrev IsOpen : WinSerial → Type 0
IsOpen s = (s.running ≡ true) × (s.handle ≡ true)

played-append : (xs ys : List (KeyerItem × ℤ)) → played (xs ++ ys) ≡ played xs ++ played ys
played-append [] ys = refl
played-append ((i, d) ∷ xs) ys =
    ap (λ os. dtr true ∷ sleeps d ∷ dtr false ∷ os) (played-append xs ys)

request-shown :
    (item : KeyerItem) (duration : ℤ) (s : WinSerial)
    → IsOpen s
    → IsOpen (run_cw item duration s)
      × (shown (run_cw item duration s) ≡ shown s ++ played ((item, duration) ∷ []))
unfolding run_cw
request-shown item duration s o = ground (
  arith,
  played-append s.queue ((item, duration) ∷ []),
  append_assoc s.outputs (played s.queue) (played ((item, duration) ∷ [])),
)

play-shown :
    (q : List (KeyerItem × ℤ)) (s : WinSerial)
    → IsOpen s
    → s.queue ≡ q
    → IsOpen (worked s (play_request q s)) × (shown (worked s (play_request q s)) ≡ shown s)
unfolding play_request
play-shown [] s o e = (o, refl)
play-shown ((item, d) ∷ rest) s o e = ground (
  arith,
  append_assoc s.outputs (dtr true ∷ []) (sleeps d ∷ []),
  append_assoc s.outputs (dtr true ∷ sleeps d ∷ []) (dtr false ∷ []),
  append_assoc s.outputs (dtr true ∷ sleeps d ∷ dtr false ∷ []) (played rest),
)

works-shown :
    (s : WinSerial)
    → IsOpen s
    → IsOpen (queue_step works s) × (shown (queue_step works s) ≡ shown s)
unfolding queue_step process_queue
works-shown s o = ground (arith, play-shown s.queue s o refl)

queue_steps-shown :
    (es : List QueueEvent) (s : WinSerial)
    → IsOpen s
    → shown (queue_steps es s) ≡ shown s ++ played (requested es)
unfolding queue_steps queue_step
queue_steps-shown [] s o = sym (append-nil (shown s))
queue_steps-shown (requests item d ∷ es) s o =
    let (still, shows) = request-shown item d s o in
    queue_steps-shown es (run_cw item d s) still
    ∙ ap (λ os. os ++ played (requested es)) shows
    ∙ append_assoc (shown s) (played ((item, d) ∷ [])) (played (requested es))
queue_steps-shown (works ∷ es) s o =
    let (still, shows) = works-shown s o in
    queue_steps-shown es (queue_step works s) still ∙ ap (λ os. os ++ played (requested es)) shows

-- A running port with its handle open does what a key does that plays each element when it is asked to:
-- after any order of requests and rounds of the worker thread that leaves the queue empty, the lines
-- have shown the elements that waited and those requested, in order, each up for its length and then
-- down, and nothing else.
pub queue_steps-played :
    (es : List QueueEvent) (s : WinSerial)
    → s.running ≡ true
    → s.handle ≡ true
    → (queue_steps es s).queue ≡ []
    → (queue_steps es s).outputs ≡ s.outputs ++ played (s.queue ++ requested es)
queue_steps-played es s on up done =
    let all = queue_steps-shown es s (on, up) in
    ground (
      arith,
      append-nil (queue_steps es s).outputs,
      played-append s.queue (requested es),
      append_assoc s.outputs (played s.queue) (played (requested es)),
    )
