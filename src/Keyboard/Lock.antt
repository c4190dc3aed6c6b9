-- ===== src/Keyboard/Lock.antt =====
-- The keys that KeyboardListener (App/keyboard/KeyboardListener.cpp) follows, and the calls it makes.
use cwkeyer.Base.{
  ℕ, ◌≡◌, ◌≢◌, refl, Bool, true, false, ◌&&◌, List, [], ◌∷◌, arith, ◌==◌, if◌then◌else◌,
}
use cwkeyer.Paddle.{
  on_dit, on_dah, dit_after, dah_after, Edges, dit_after-append, Edges-append, dah_after-append,
}
use cwkeyer.Keyboard.{
  KeyboardListener, set_dit_pressed, set_dah_pressed, Recording, hook, unhook, set_enabled,
}

-- A change of a key: which paddle, whether down, the code, and the time.
pub record KeyChange : Type 0 where
  pub is_dit : Bool
  pub pressed : Bool
  pub key : ℕ
  pub now : ℕ

unfoldable pub step : KeyChange → KeyboardListener → KeyboardListener
step e l =
    if e.is_dit
    then set_dit_pressed e.now e.pressed e.key l
    else set_dah_pressed e.now e.pressed e.key l

unfoldable pub run : List KeyChange → KeyboardListener → KeyboardListener
run [] l = l
run (e ∷ es) l = run es (step e l)

-- The keyer has been told each change and knows the state of both paddles.
pub record Told (l : KeyboardListener) : Type 0 where
  pub edges : Edges false false false l.calls
  pub dit_known : dit_after false l.calls ≡ l.dit_pressed
  pub dah_known : dah_after false l.calls ≡ l.dah_pressed

set_dit_pressed-Told :
    (now : ℕ) (b : Bool) (key : ℕ) (l : KeyboardListener)
    → Told l
    → Told (set_dit_pressed now b key l)
unfolding set_dit_pressed Edges dit_after dah_after
set_dit_pressed-Told now b key l v = ground (
  arith,
  Edges-append false false false l.calls (on_dit b ∷ []) v.edges,
  dit_after-append false l.calls (on_dit b ∷ []),
  dah_after-append false l.calls (on_dit b ∷ []),
)

set_dah_pressed-Told :
    (now : ℕ) (b : Bool) (key : ℕ) (l : KeyboardListener)
    → Told l
    → Told (set_dah_pressed now b key l)
unfolding set_dah_pressed Edges dit_after dah_after
set_dah_pressed-Told now b key l v = ground (
  arith,
  Edges-append false false false l.calls (on_dah b ∷ []) v.edges,
  dit_after-append false l.calls (on_dah b ∷ []),
  dah_after-append false l.calls (on_dah b ∷ []),
)

-- If each call so far was a change of one paddle and the keyer's idea of both paddles is the
-- listener's, then this is so after any sequence of key changes.
changes-Told : (es : List KeyChange) (l : KeyboardListener) → Told l → Told (run es l)
unfolding run step
changes-Told [] l v = v
changes-Told (e ∷ es) l v = changes-Told es (step e l) (
    ground (
      arith,
      set_dit_pressed-Told e.now e.pressed e.key l v,
      set_dah_pressed-Told e.now e.pressed e.key l v,
    ))

-- The changes of the dit paddle that come from one key, as the paddle's states.
unfoldable pub of_key : ℕ → List KeyChange → List Bool
of_key k [] = []
of_key k (e ∷ es) =
    let rest = of_key k es in if e.is_dit && (e.key == k) then e.pressed ∷ rest else rest

unfoldable pub last_state : Bool → List Bool → Bool
last_state b [] = b
last_state b (c ∷ cs) = last_state c cs

set_dit_pressed-dit_key :
    (now : ℕ) (b : Bool) (key k : ℕ) (l : KeyboardListener)
    → l.dit_key ≡ k
    → k ≢ 0
    → ((set_dit_pressed now b key l).dit_key ≡ k)
      × ((set_dit_pressed now b key l).dit_pressed ≡ (if key == k then b else l.dit_pressed))
unfolding set_dit_pressed
set_dit_pressed-dit_key now b key k l h n = ground arith

set_dah_pressed-dit_key :
    (now : ℕ) (b : Bool) (key : ℕ) (l : KeyboardListener)
    → ((set_dah_pressed now b key l).dit_key ≡ l.dit_key)
      × ((set_dah_pressed now b key l).dit_pressed ≡ l.dit_pressed)
unfolding set_dah_pressed
set_dah_pressed-dit_key now b key l = ground arith

-- Once the listener follows a key `k`, a code other than 0, for the dit paddle, it follows no
-- other: after any sequence of changes, the paddle is as the last change of `k` left it.
run-dit_key :
    (k : ℕ) (es : List KeyChange) (l : KeyboardListener)
    → l.dit_key ≡ k
    → k ≢ 0
    → ((run es l).dit_key ≡ k) × ((run es l).dit_pressed ≡ last_state l.dit_pressed (of_key k es))
unfolding run step of_key last_state
run-dit_key k [] l h n = (h, refl)
run-dit_key k (e ∷ es) l h n =
    let d = set_dit_pressed-dit_key e.now e.pressed e.key k l h n in
    let a = set_dah_pressed-dit_key e.now e.pressed e.key l in
    ground (arith, d, a, run-dit_key k es (step e l))

-- If a listener whose state the keyer knows is disabled while the dit key is down and then enabled
-- again, the keyer goes on taking the dit paddle for pressed, although the listener takes it for
-- released, and the release of the key makes no call.
pub disabled_while_pressed :
    (x y : Recording) (k now : ℕ) (l : KeyboardListener)
    → Told l
    → l.enabled ≡ true
    → l.dit_pressed ≡ true
    → l.dit_key ≡ k
    → let m = set_dit_pressed now false k (set_enabled y true (set_enabled x false l)) in
      (m.dit_pressed ≡ false) × (dit_after false m.calls ≡ true) × (m.calls ≡ l.calls)
unfolding set_enabled set_dit_pressed hook unhook
disabled_while_pressed x y k now l v on down key = ground arith
