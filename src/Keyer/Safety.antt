-- ===== src/Keyer/Safety.antt =====
-- What holds of the keyer in every state that its threads can reach.
use cwkeyer.Base.{
  ◌≤◌, ◌<◌, ◌≡◌, ◌≢◌, refl, Bool, true, Option, none, some, [], ◌∷◌, arith, length, length-append,
  Returns, if-Returns,
}
use cwkeyer.Base.Int.{ℤ}
use cwkeyer.Timing.{KeyerItem, dit, dah}
use cwkeyer.Keyer.{
  Keyer, Mode, Playing, init_keyer, stop_keyer, on_dit, on_dah, on_straight, begin_item, enqueue,
  enqueue_field, opposite_field, after_squeeze, end_item, ultimatic, iambic_a, iambic_b,
}
use cwkeyer.Keyer.Threads.{
  System, Step, Reach, new_system, press_dit, press_dah, press_straight, init, stop, take, finish,
  leave, here, next,
}

-- The fields without an initialiser have been written.
abbrev pub IsInitialised : Keyer → Type 0
IsInitialised k = (k.last_pressed ≢ none) × (k.last_queued ≢ none)

-- At most one element waits, and the two fields have been written before a paddle counts as
-- pressed or an element waits.
pub record KeyerInv (k : Keyer) : Type 0 where
  pub one_waits : length k.queue ≤ 1
  pub dit_set : k.dit_pressed ≡ true → IsInitialised k
  pub dah_set : k.dah_pressed ≡ true → IsInitialised k
  pub queue_set : 0 < length k.queue → IsInitialised k

on_dit-KeyerInv : (b : Bool) (k : Keyer) → KeyerInv k → KeyerInv (on_dit b k)
unfolding on_dit
on_dit-KeyerInv b k v = ground (arith, length-append k.queue (dit ∷ []))

on_dah-KeyerInv : (b : Bool) (k : Keyer) → KeyerInv k → KeyerInv (on_dah b k)
unfolding on_dah
on_dah-KeyerInv b k v = ground (arith, length-append k.queue (dah ∷ []))

on_straight-KeyerInv : (b : Bool) (k : Keyer) → KeyerInv k → KeyerInv (on_straight b k)
unfolding on_straight
on_straight-KeyerInv b k v = ground arith

init_keyer-KeyerInv :
    (wpm : ℤ) (mode : Mode) (k k' : Keyer)
    → KeyerInv k
    → init_keyer wpm mode k ≡ some k'
    → KeyerInv k'
unfolding init_keyer
init_keyer-KeyerInv wpm mode k k' v e = ground arith

stop_keyer-KeyerInv : (k : Keyer) → KeyerInv k → KeyerInv (stop_keyer k)
unfolding stop_keyer
stop_keyer-KeyerInv k v = ground arith

begin_item-KeyerInv :
    (k k' : Keyer) (p : Playing)
    → KeyerInv k
    → begin_item k ≡ some (p, k')
    → KeyerInv k' × IsInitialised k'
unfolding begin_item
begin_item-KeyerInv k k' p v e = ground arith

enqueue-KeyerInv :
    (item : KeyerItem) (k : Keyer) → KeyerInv k → IsInitialised k → KeyerInv (enqueue item k)
unfolding enqueue
enqueue-KeyerInv item k v i = ground (arith, length-append k.queue (item ∷ []))

enqueue_field-KeyerInv :
    (f : Option KeyerItem) (k k' : Keyer)
    → KeyerInv k
    → IsInitialised k
    → enqueue_field f k ≡ some k'
    → KeyerInv k'
unfolding enqueue_field
enqueue_field-KeyerInv none k k' v i e = cc
enqueue_field-KeyerInv (some item) k k' v i e = ground (arith, enqueue-KeyerInv item k v i)

after_squeeze-KeyerInv :
    (m : Mode) (k k' : Keyer)
    → KeyerInv k
    → IsInitialised k
    → after_squeeze m k ≡ some k'
    → KeyerInv k'
unfolding after_squeeze
after_squeeze-KeyerInv ultimatic k k' v i e = enqueue_field-KeyerInv k.last_pressed k k' v i e
after_squeeze-KeyerInv iambic_a k k' v i e = enqueue_field-KeyerInv _ k k' v i e
after_squeeze-KeyerInv iambic_b k k' v i e = enqueue_field-KeyerInv _ k k' v i e

end_item-KeyerInv :
    (k k' : Keyer) (p : Playing)
    → KeyerInv k
    → IsInitialised k
    → end_item p k ≡ some k'
    → KeyerInv k'
unfolding end_item
end_item-KeyerInv k k' p v i e = ground (
  arith,
  enqueue-KeyerInv dit k v i,
  enqueue-KeyerInv dah k v i,
  after_squeeze-KeyerInv k.mode k k' v i,
)

-- Nothing takes back what has been written.
on_dit-IsInitialised : (b : Bool) (k : Keyer) → IsInitialised k → IsInitialised (on_dit b k)
unfolding on_dit
on_dit-IsInitialised b k i = ground arith

on_dah-IsInitialised : (b : Bool) (k : Keyer) → IsInitialised k → IsInitialised (on_dah b k)
unfolding on_dah
on_dah-IsInitialised b k i = ground arith

init_keyer-IsInitialised :
    (wpm : ℤ) (mode : Mode) (k k' : Keyer)
    → IsInitialised k
    → init_keyer wpm mode k ≡ some k'
    → IsInitialised k'
unfolding init_keyer
init_keyer-IsInitialised wpm mode k k' i e = ground arith

stop_keyer-IsInitialised : (k : Keyer) → IsInitialised k → IsInitialised (stop_keyer k)
unfolding stop_keyer
stop_keyer-IsInitialised k i = ground arith

-- The invariant of the whole: while an element plays, both fields have been written.
pub record SystemInv (s : System) : Type 0 where
  pub keyer_inv : KeyerInv s.keyer
  pub busy_set : (p : Playing) → s.busy ≡ some p → IsInitialised s.keyer

new_system-SystemInv : SystemInv new_system
unfolding new_system
new_system-SystemInv = record { keyer_inv = ground arith; busy_set = λ p e. cc }

pub Step-SystemInv : {s t : System} → Step s t → SystemInv s → SystemInv t
Step-SystemInv {s} (press_dit b) v = record {
  keyer_inv = on_dit-KeyerInv b s.keyer v.keyer_inv;
  busy_set = λ p e. on_dit-IsInitialised b s.keyer (v.busy_set p e);
}
Step-SystemInv {s} (press_dah b) v = record {
  keyer_inv = on_dah-KeyerInv b s.keyer v.keyer_inv;
  busy_set = λ p e. on_dah-IsInitialised b s.keyer (v.busy_set p e);
}
Step-SystemInv {s} (press_straight b) v = record {
  keyer_inv = on_straight-KeyerInv b s.keyer v.keyer_inv;
  busy_set = λ p e. unfold on_straight in v.busy_set p e;
}
Step-SystemInv {s} (init wpm mode k h) v = record {
  keyer_inv = init_keyer-KeyerInv wpm mode s.keyer k v.keyer_inv h;
  busy_set = λ p e. init_keyer-IsInitialised wpm mode s.keyer k (v.busy_set p e) h;
}
Step-SystemInv {s} stop v = record {
  keyer_inv = stop_keyer-KeyerInv s.keyer v.keyer_inv;
  busy_set = λ p e. stop_keyer-IsInitialised s.keyer (v.busy_set p e);
}
Step-SystemInv {s} (take n p k w b h) v =
    let both = begin_item-KeyerInv s.keyer k p v.keyer_inv h in
    record { keyer_inv = both.0; busy_set = λ q e. both.1 }
Step-SystemInv {s} (finish p k b h) v = record {
  keyer_inv = end_item-KeyerInv s.keyer k p v.keyer_inv (v.busy_set p b) h;
  busy_set = λ q e. cc;
}
Step-SystemInv (leave n w h) v = record { keyer_inv = v.keyer_inv; busy_set = v.busy_set }

pub Reach-SystemInv : {s t : System} → SystemInv s → Reach s t → SystemInv t
Reach-SystemInv v here = v
Reach-SystemInv v (next r st) = Step-SystemInv st (Reach-SystemInv v r)

enqueue_field_total : (f : Option KeyerItem) (k : Keyer) → f ≢ none → Returns (enqueue_field f k)
unfolding enqueue_field
enqueue_field_total none k h = absurd (h refl)
enqueue_field_total (some item) k h = (enqueue item k, refl)

opposite_field-ne-none : (f : Option KeyerItem) → f ≢ none → opposite_field f ≢ none
unfolding opposite_field
opposite_field-ne-none f h = ground arith

after_squeeze_total : (m : Mode) (k : Keyer) → IsInitialised k → Returns (after_squeeze m k)
unfolding after_squeeze
after_squeeze_total ultimatic k i = enqueue_field_total _ k i.0
after_squeeze_total iambic_a k i =
    enqueue_field_total _ k (opposite_field-ne-none k.last_queued i.1)
after_squeeze_total iambic_b k i =
    enqueue_field_total _ k (opposite_field-ne-none k.last_queued i.1)

pub end_item_total : (p : Playing) (k : Keyer) → IsInitialised k → Returns (end_item p k)
unfolding end_item
end_item_total p k i = if-Returns p.squeeze _ _ (after_squeeze_total k.mode k i) (
    if-Returns k.dit_pressed _ _ (enqueue dit k, refl)
      (if-Returns k.dah_pressed _ _ (enqueue dah k, refl) (k, refl)))

-- In every state that is reached from the start, by any interleaving of the paddles, of starts and
-- stops and of the threads, at most one element waits, if each call of a paddle is one step; enqueue,
-- which tests and pushes without a mutex, could be interrupted in between.
Reach-one_waits : {t : System} → Reach new_system t → length t.keyer.queue ≤ 1
Reach-one_waits r = omega (arith, (Reach-SystemInv new_system-SystemInv r).keyer_inv.one_waits)

-- In every state that the system reaches from a new keyer, a thread that has slept through an
-- element can go on: it reads no field that was never written, and at most one element waits after, if
-- each call of a paddle is one step.
Reach-end_item :
    {t : System} (p : Playing)
    → Reach new_system t
    → t.busy ≡ some p
    → (k : Keyer) × (end_item p t.keyer ≡ some k) × (length k.queue ≤ 1)
Reach-end_item {t} p r b =
    let v = Reach-SystemInv new_system-SystemInv r in
    let (k, e) = end_item_total p t.keyer (v.busy_set p b) in
    let kept = end_item-KeyerInv t.keyer k p v.keyer_inv (v.busy_set p b) e in
    (k, e, kept.one_waits)
