-- ===== src/Keyer/Squeeze.antt =====
-- What the keyer sends while the paddles are held: rounds of keyerCall (App/keyer/Keyer.cpp) with no
-- paddle event between.
use mathlib.Core.List.{append-nil, append_assoc}
use cwkeyer.Base.{
  ℕ, zero, suc, ◌≡◌, ◌≢◌, ◌⊎◌, refl, sym, ◌∙◌, true, false, Option, none, some, List, [], ◌∷◌, ◌++◌,
  arith,
}
use cwkeyer.Base.Int.{ℤ, ◌+ℤ◌}
use cwkeyer.Timing.{KeyerItem, dit, dah}
use cwkeyer.Keyer.{
  Keyer, Output, run_cw, sleep_for, ultimatic, begin_item, end_item, opposite, enqueue_field,
  after_squeeze, emit, enqueue,
}

-- n rounds of the loop of keyerCall; `none` when it would wait.
unfoldable pub rounds : ℕ → Keyer → Option Keyer
rounds zero k = some k
rounds (suc n) k = elim (begin_item k) [
  | none ↦ none
  | some (p, k') ↦ elim (end_item p k') [ none ↦ none | some k'' ↦ rounds n k'' ]
]

-- The length of an element, from those of a dit and a dah.
abbrev pub time_of : ℤ → ℤ → KeyerItem → ℤ
time_of d h dah = h
time_of d h _ = d

-- What playing n elements adds to the log, of which each follows from the one before by `f`.
abbrev pub played_by : (KeyerItem → KeyerItem) → ℕ → ℤ → ℤ → ℤ → KeyerItem → List Output
played_by f zero d h s item = []
played_by f (suc n) d h s item =
    run_cw item (time_of d h item)
    ∷ sleep_for (time_of d h item +ℤ s)
    ∷ played_by f n d h s (f item)

-- The element of the other paddle.
abbrev pub swapped : KeyerItem → KeyerItem
swapped dit = dah
swapped dah = dit
swapped item = item

abbrev pub iterate {ℓ} : {A : Type ℓ} → (A → A) → ℕ → A → A
iterate f zero a = a
iterate f (suc n) a = iterate f n (f a)

-- The state after a round that plays `item` and queues `following`.
abbrev pub after_round : Keyer → KeyerItem → KeyerItem → Keyer
after_round k item following =
    let time = time_of k.dit_time k.dah_time item in
    record (emit (sleep_for (time +ℤ k.space_time)) (emit (run_cw item time) k)) {
      last_queued = some following;
      queue = following ∷ [];
    }

rounds-suc : (n : ℕ) (k k' : Keyer) → rounds 1 k ≡ some k' → rounds (suc n) k ≡ rounds n k'
unfolding rounds
rounds-suc n k k' e = ground arith

-- A condition under which a round plays the waiting element, queues its follower, and holds again.
abbrev Keeps : (KeyerItem → KeyerItem) → (Keyer → KeyerItem → Type 0) → Type 0
Keeps f P =
    (k : Keyer) (item : KeyerItem)
    → P k item
    → (rounds 1 k ≡ some (after_round k item (f item))) × P (after_round k item (f item)) (f item)

-- All n rounds happen, the log grows by n elements, and the condition holds at the end.
abbrev pub Sends :
    (KeyerItem → KeyerItem) → (Keyer → KeyerItem → Type 0) → ℕ → Keyer → KeyerItem → Type 0
Sends f P n k item =
    (k' : Keyer) × (rounds n k ≡ some k')
    × (k'.log ≡ k.log ++ played_by f n k.dit_time k.dah_time k.space_time item)
    × P k' (iterate f n item)

Sends-of_keeps :
    (f : KeyerItem → KeyerItem) (P : Keyer → KeyerItem → Type 0)
    → Keeps f P
    → (n : ℕ) (k : Keyer) (item : KeyerItem) → P k item
    → Sends f P n k item
unfolding rounds
Sends-of_keeps f P keep zero k item h = (k, refl, sym (append-nil k.log), h)
Sends-of_keeps f P keep (suc n) k item h =
    let (e, held) = keep k item h in
    let (k', es, l, last) = Sends-of_keeps f P keep n (after_round k item (f item)) (f item) held in
    (k', rounds-suc n k (after_round k item (f item)) e ∙ es, l ∙ simp append_assoc, last)

-- A running keyer with both paddles held, whose waiting element was the last to be queued.
pub record IsSqueezed (k : Keyer) (item : KeyerItem) : Type 0 where
  pub running : k.started ≡ true
  pub iambic : k.mode ≢ ultimatic
  pub dit_held : k.dit_pressed ≡ true
  pub dah_held : k.dah_pressed ≡ true
  pub waits : k.queue ≡ item ∷ []
  pub queued : k.last_queued ≡ some item
  pub element : (item ≡ dit) ⊎ (item ≡ dah)

-- The same in the Ultimatic mode; `recent` is the paddle that was pressed last.
pub record IsUltimatic (recent : KeyerItem) (k : Keyer) (item : KeyerItem) : Type 0 where
  pub running : k.started ≡ true
  pub in_ultimatic : k.mode ≡ ultimatic
  pub dit_held : k.dit_pressed ≡ true
  pub dah_held : k.dah_pressed ≡ true
  pub waits : k.queue ≡ item ∷ []
  pub pressed : k.last_pressed ≡ some recent
  pub element : (item ≡ dit) ⊎ (item ≡ dah)

-- One paddle alone is held.
pub record IsSingle (k : Keyer) (item : KeyerItem) : Type 0 where
  pub running : k.started ≡ true
  pub waits : k.queue ≡ item ∷ []
  pub element :
      ((item ≡ dit) × (k.dit_pressed ≡ true) × (k.dah_pressed ≡ false))
      ⊎ ((item ≡ dah) × (k.dit_pressed ≡ false) × (k.dah_pressed ≡ true))

IsSqueezed-keeps : Keeps swapped IsSqueezed
unfolding rounds begin_item end_item after_squeeze enqueue enqueue_field opposite
IsSqueezed-keeps k dit s = (ground arith, ground arith)
IsSqueezed-keeps k dah s = (ground arith, ground arith)
IsSqueezed-keeps k _ s = (ground arith, ground arith)

IsUltimatic-keeps :
    (recent : KeyerItem)
    → (recent ≡ dit) ⊎ (recent ≡ dah)
    → Keeps (λ _. recent) (IsUltimatic recent)
unfolding rounds begin_item end_item after_squeeze enqueue enqueue_field
IsUltimatic-keeps recent r k dit s = (ground arith, ground arith)
IsUltimatic-keeps recent r k dah s = (ground arith, ground arith)
IsUltimatic-keeps recent r k _ s = (ground arith, ground arith)

IsSingle-keeps : Keeps (λ item. item) IsSingle
unfolding rounds begin_item end_item enqueue
IsSingle-keeps k dit s = (ground arith, ground arith)
IsSingle-keeps k dah s = (ground arith, ground arith)
IsSingle-keeps k _ s = (ground arith, ground arith)

-- In both iambic modes, while both paddles of a running keyer are held and the element that was
-- queued last waits, the keyer sends dits and dahs in turn, each for its length and followed by the
-- space, for any number n of elements; it never waits, and it is as squeezed at the end as at the
-- start.
pub squeeze_alternates :
    (n : ℕ) (k : Keyer) (item : KeyerItem) → IsSqueezed k item → Sends swapped IsSqueezed n k item
squeeze_alternates = Sends-of_keeps swapped IsSqueezed IsSqueezed-keeps

-- In the Ultimatic mode, while both paddles are held, the keyer sends the waiting element and then
-- the element of the paddle pressed last, again and again.
IsUltimatic-repeats :
    (recent : KeyerItem) (n : ℕ) (k : Keyer) (item : KeyerItem)
    → (recent ≡ dit) ⊎ (recent ≡ dah)
    → IsUltimatic recent k item
    → Sends (λ _. recent) (IsUltimatic recent) n k item
IsUltimatic-repeats recent n k item r =
    Sends-of_keeps (λ _. recent) (IsUltimatic recent) (IsUltimatic-keeps recent r) n k item

-- While one paddle alone of a running keyer is held and its element waits, the keyer repeats this
-- element, in every mode.
IsSingle-repeats :
    (n : ℕ) (k : Keyer) (item : KeyerItem) → IsSingle k item → Sends (λ i. i) IsSingle n k item
IsSingle-repeats = Sends-of_keeps (λ i. i) IsSingle IsSingle-keeps
