-- ===== src/Chain/OnAir.antt =====
-- A keyer and the remote client that gets its elements (App/keyer/Keyer.cpp,
-- App/remote/RemoteClient.cpp). The clock counts milliseconds.
use cwkeyer.Base.{
  ℕ, zero, suc, ◌+◌, ◌^◌, ◌≤◌, ◌<◌, ◌≡◌, refl, sym, ◌∙◌, ap, inl, inr, Bool, true, false, some,
  List, [], ◌∷◌, ◌++◌, arith, length,
}
use cwkeyer.Base.Int.{pos, pos_part}
use cwkeyer.Timing.{KeyerItem, dit, dah}
use cwkeyer.Keyer.{Keyer, Output, run_cw, sleep_for}
use cwkeyer.Keyer.Squeeze.{time_of, played_by, swapped, rounds, IsSqueezed, squeeze_alternates}
use cwkeyer.Remote.{Network, RemoteClient, Command, trx, keyer_timed}
use cwkeyer.Remote.Session.{Timer}
use cwkeyer.Chain.Decoding.{add_pos}
use cwkeyer.Chain.Mox.{Play, Live, Before, InTime, timed, turn_all, play_all, mox_held, item_of}

-- What the client makes of the keyer's outputs, from the time `now` and the sleep number n on. A sleep
-- may be late; during it the client's timer thread has its turns.
unfoldable pub on_air :
    Network
    → (ℕ → ℕ)
    → (ℕ → List ℕ)
    → ℕ
    → ℕ
    → List Output
    → Timer × RemoteClient
    → Timer × RemoteClient
on_air net late turns n now [] s = s
on_air net late turns n now (run_cw item duration ∷ os) (timer, r) =
    on_air net late turns n now os (timer, cwkeyer.Remote.run_cw net item duration now r)
on_air net late turns n now (sleep_for duration ∷ os) s =
    on_air net late turns (suc n) (now + pos_part duration + late n) os (turn_all net (turns n) s)
on_air net late turns n now (_ ∷ os) s = on_air net late turns n now os s

-- The commands for the outputs.
abbrev pub commands_of : List Output → List Command
commands_of [] = []
commands_of (run_cw item duration ∷ os) = keyer_timed duration ∷ commands_of os
commands_of (_ ∷ os) = commands_of os

abbrev is_dah_item : KeyerItem → Bool
is_dah_item dah = true
is_dah_item _ = false

-- The length of an element, less a millisecond.
abbrev pub shorter_of : ℕ → ℕ → KeyerItem → ℕ
shorter_of d h dah = h
shorter_of d h _ = d

abbrev plays_by : (ℕ → ℕ) → (ℕ → List ℕ) → ℕ → ℕ → ℕ → ℕ → ℕ → ℕ → KeyerItem → List Play
plays_by late turns zero d h s m now item = []
plays_by late turns (suc n) d h s m now item =
    record { is_dah = is_dah_item item; shorter = shorter_of d h item; now = now; turns = turns m }
    ∷ plays_by late turns n d h s (suc m) (now + (suc (shorter_of d h item) + s) + late m)
        (swapped item)

-- The turns come by the end of their sleep.
abbrev pub By : ℕ → List ℕ → Type 0
By end [] = Unit {0}
By end (t ∷ ts) = (t ≤ end) × By end ts

-- The turns of each sleep come within it, and the clock stays in range, with q + 1 ms to spare.
abbrev pub InOrder : (ℕ → ℕ) → (ℕ → List ℕ) → ℕ → ℕ → ℕ → ℕ → ℕ → ℕ → ℕ → KeyerItem → Type 0
InOrder late turns zero q d h s m now item = Unit {0}
InOrder late turns (suc n) q d h s m now item =
    By (now + (suc (shorter_of d h item) + s) + late m) (turns m)
    × (now + (q + 1 + (shorter_of d h item + 1)) < 2 ^ 64)
    × InOrder late turns n q d h s (suc m) (now + (suc (shorter_of d h item) + s) + late m)
        (swapped item)

By-Before : (end deadline : ℕ) (ts : List ℕ) → By end ts → end < deadline → Before deadline ts
By-Before end deadline [] b h = tt
By-Before end deadline (t ∷ ts) b h = (omega arith, By-Before end deadline ts b.1 h)

module _ (late : ℕ → ℕ) (turns : ℕ → List ℕ) (q d h s : ℕ) (soon : (j : ℕ) → s + late j ≤ q) where
  plays_by-InTime :
      (n m now : ℕ) (item : KeyerItem)
      → InOrder late turns n q d h s m now item
      → InTime q (plays_by late turns n d h s m now item)
  plays_by-InTime zero m now item o = tt
  plays_by-InTime (suc n) m now item o =
      let l = shorter_of d h item in
      let tight = soon m in
      (
        o.1,
        By-Before (now + (suc l + s) + late m) (now + (q + 1 + (l + 1))) (turns m) o.0
            (omega arith),
        plays_by-InTime n (suc m) (now + (suc l + s) + late m) (swapped item) o.2,
      )

-- A dit or a dah.
abbrev IsElement : KeyerItem → Type 0
IsElement dit = Unit {0}
IsElement dah = Unit {0}
IsElement _ = ⊥

swapped-IsElement : (item : KeyerItem) → IsElement item → IsElement (swapped item)
swapped-IsElement dit e = tt
swapped-IsElement dah e = tt
swapped-IsElement KeyerItem.inter_element_space e = absurd e
swapped-IsElement KeyerItem.letter_space e = absurd e
swapped-IsElement KeyerItem.word_space e = absurd e

item_of-is_dah : (item : KeyerItem) → IsElement item → item_of (is_dah_item item) ≡ item
item_of-is_dah dit e = refl
item_of-is_dah dah e = refl
item_of-is_dah KeyerItem.inter_element_space e = absurd e
item_of-is_dah KeyerItem.letter_space e = absurd e
item_of-is_dah KeyerItem.word_space e = absurd e

time-shorter :
    (d h : ℕ) (item : KeyerItem)
    → time_of (pos (suc d)) (pos (suc h)) item ≡ pos (suc (shorter_of d h item))
time-shorter d h dit = refl
time-shorter d h dah = refl
time-shorter d h KeyerItem.inter_element_space = refl
time-shorter d h KeyerItem.letter_space = refl
time-shorter d h KeyerItem.word_space = refl

module _ (net : Network) (late : ℕ → ℕ) (turns : ℕ → List ℕ) (d h s : ℕ) where
  on_air-plays :
      (n m now : ℕ) (item : KeyerItem) (timer : Timer) (r : RemoteClient)
      → IsElement item
      → on_air net late turns m now
          (played_by swapped n (pos (suc d)) (pos (suc h)) (pos s) item)
          (timer, r)
        ≡ play_all net (plays_by late turns n d h s m now item) (timer, r)
  unfolding on_air play_all
  on_air-plays zero m now item timer r e = refl
  on_air-plays (suc n) m now item timer r e =
      let l = shorter_of d h item in
      let r₁ = cwkeyer.Remote.run_cw net item (pos (suc l)) now r in
      let s₁ = turn_all net (turns m) (timer, r₁) in
      let rest =
        on_air-plays n (suc m) (now + (suc l + s) + late m) (swapped item) s₁.0 s₁.1
          (swapped-IsElement item e) in
      let same =
        ap
          (λ i.
            play_all net
              (plays_by late turns n d h s (suc m) (now + (suc l + s) + late m) (swapped item))
              (turn_all net (turns m) (timer, cwkeyer.Remote.run_cw net i (pos (suc l)) now r)))
          (sym (item_of-is_dah item e)) in
      rw (time-shorter d h item, add_pos (suc l) s) (rest ∙ same)

  timed-plays :
      (n m now : ℕ) (item : KeyerItem)
      → timed (plays_by late turns n d h s m now item)
        ≡ commands_of (played_by swapped n (pos (suc d)) (pos (suc h)) (pos s) item)
  timed-plays zero m now item = refl
  timed-plays (suc n) m now item = rw (time-shorter d h item) (
      ap (λ cs. keyer_timed (pos (suc (shorter_of d h item))) ∷ cs)
        (timed-plays n (suc m) (now + (suc (shorter_of d h item) + s) + late m) (swapped item)))

  length-plays :
      (n m now : ℕ) (item : KeyerItem) → length (plays_by late turns n d h s m now item) ≡ n
  length-plays zero m now item = refl
  length-plays (suc n) m now item =
      ap suc
        (length-plays n (suc m) (now + (suc (shorter_of d h item) + s) + late m) (swapped item))

squeezed-IsElement : (k : Keyer) (item : KeyerItem) → IsSqueezed k item → IsElement item
squeezed-IsElement k item sq = elim sq.element [ inl e ↦ rw e tt | inr e ↦ rw e tt ]

-- The paddles of a running keyer in an iambic mode are squeezed, with dits of d + 1 ms, dahs of h + 1 ms
-- and spaces of s ms, and its outputs go to a connected client with the MOX off, a release delay of
-- q + 1 ms and tokens that do not wrap around, on a network that takes every frame. If no space with
-- the lateness of its sleep is longer than q ms, the timer thread has its turns within the sleeps and
-- the clock stays in range, then n + 1 rounds of the keyer put `trx true` and exactly their elements,
-- with their lengths and in order, on the wire, and the MOX is on at the end: it is never released
-- between the elements.
pub squeeze_on_air :
    (net : Network) (late : ℕ → ℕ) (turns : ℕ → List ℕ) (n q d h s m now : ℕ) (item : KeyerItem)
    (k : Keyer) (timer : Timer) (r : RemoteClient)
    → ((j : ℕ) (bytes : List ℕ) → net.accepts j bytes ≡ true)
    → IsSqueezed k item
    → k.dit_time ≡ pos (suc d)
    → k.dah_time ≡ pos (suc h)
    → k.space_time ≡ pos s
    → ((j : ℕ) → s + late j ≤ q)
    → InOrder late turns (suc n) q d h s m now item
    → Live false q (suc n) timer r
    → (k' : Keyer) × (played : List Output) × (rounds (suc n) k ≡ some k')
      × (k'.log ≡ k.log ++ played)
      × ((on_air net late turns m now played (timer, r)).1.wire
          ≡ r.wire ++ trx true ∷ commands_of played)
      × ((on_air net late turns m now played (timer, r)).1.mox_active ≡ true)
squeeze_on_air net late turns n q d h s m now item k timer r takes sq kd kh ks soon o v =
    let (k', e, logged, held) = squeeze_alternates (suc n) k item sq in
    let element = squeezed-IsElement k item sq in
    let later = now + (suc (shorter_of d h item) + s) + late m in
    let p : Play = record {
      is_dah = is_dah_item item;
      shorter = shorter_of d h item;
      now = now;
      turns = turns m;
    } in
    let ps = plays_by late turns n d h s (suc m) later (swapped item) in
    let counted = length-plays net late turns d h s n (suc m) later (swapped item) in
    let (on, wire) =
      mox_held net takes q p ps timer r (rw counted v)
        (plays_by-InTime late turns q d h s soon (suc n) m now item o) in
    let air = on_air-plays net late turns d h s (suc n) m now item timer r element in
    let same = timed-plays net late turns d h s (suc n) m now item in
    (
      k',
      played_by swapped (suc n) (pos (suc d)) (pos (suc h)) (pos s) item,
      e,
      rw (kd, kh, ks) at logged,
      ap (λ x. x.1.wire) air ∙ wire ∙ ap (λ cs. r.wire ++ trx true ∷ cs) same,
      ap (λ x. x.1.mox_active) air ∙ on,
    )
