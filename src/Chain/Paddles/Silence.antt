-- ===== src/Chain/Paddles/Silence.antt =====
-- The keyer after a report that both paddles are up.
use cwkeyer.Base.{
  ℕ, zero, suc, ◌≤◌, ◌<◌, ◌≡◌, refl, ◌∙◌, true, false, List, [], ◌∷◌, Option, none, some, arith,
  length, >>=_some,
}
use cwkeyer.Timing.{KeyerItem}
use cwkeyer.Keyer.{
  Keyer, Playing, begin_item, end_item, after_squeeze, enqueue_field, enqueue, take_item,
  play_dit_dah,
}
use cwkeyer.Keyer.Threads.{System}
use cwkeyer.Chain.Paddles.{Bench, takes, ends, taken, ended, turn, turns}
use cwkeyer.Chain.Paddles.Follows.{InTouch, ended-Kept}

play_dit_dah-same :
    (item : KeyerItem) (k : Keyer)
    → let l = play_dit_dah item k in
      (l.queue ≡ k.queue) × (l.dit_pressed ≡ k.dit_pressed) × (l.dah_pressed ≡ k.dah_pressed)
unfolding play_dit_dah
play_dit_dah-same item k = ground arith

-- A thread that takes what waits while both paddles are up, and ends: nothing waits then.
last_round :
    (n : ℕ) (q : List KeyerItem) (s : System)
    → s.keyer.queue ≡ q
    → length q ≤ 1
    → s.waiting ≡ suc n
    → s.busy ≡ none
    → s.keyer.started ≡ true
    → s.keyer.dit_pressed ≡ false
    → s.keyer.dah_pressed ≡ false
    → let t = taken s.waiting s.busy s in
      (u : System) × (ended t.busy t ≡ some u) × (u.keyer.queue ≡ []) × (u.busy ≡ none)
unfolding taken ended begin_item take_item end_item
last_round n [] s e one w b on up up' = (s, ground arith, e, b)
last_round n (item ∷ []) s e one w b on up up' =
    let k = play_dit_dah item (record s.keyer { queue = [] }) in
    let same = play_dit_dah-same item (record s.keyer { queue = [] }) in
    (record { keyer = k; waiting = suc n; busy = none }, ground (arith, same), same.0, refl)
last_round n (item ∷ item' ∷ q) s e one w b on up up' = absurd (omega arith)

-- The end of an element changes nothing but the queue.
end_item-started : (p : Playing) (k k' : Keyer) → end_item p k ≡ some k' → k'.started ≡ k.started
unfolding end_item after_squeeze enqueue_field enqueue
end_item-started p k k' e = ground arith

ended-started :
    (o : Option Playing) (s t : System)
    → s.busy ≡ o
    → (o ≡ none → 0 < s.waiting)
    → ended o s ≡ some t
    → (t.keyer.started ≡ s.keyer.started) × (t.busy ≡ none) × (0 < t.waiting)
unfolding ended
ended-started none s t b h e = ground arith
ended-started (some p) s t b h e =
    let (k, q, r) =
      >>=_some (end_item p s.keyer)
        (λ k. some (record { keyer = k; waiting = suc s.waiting; busy = none })) t e in
    ground (arith, end_item-started p s.keyer k q)

-- If the keyer is in a state that its threads can reach and knows that both paddles are up, and one of
-- its threads runs, then once that thread has ended the element that plays, if one does, and has taken
-- and ended one more, if one waits, nothing plays and nothing waits: the keyer is silent until a paddle
-- is pressed.
pub keyer_falls_silent :
    (b : Bench)
    → InTouch b
    → b.device.dit ≡ false
    → b.device.dah ≡ false
    → b.keyer.keyer.started ≡ true
    → (b.keyer.busy ≡ none → 0 < b.keyer.waiting)
    → (c : Bench) × (turns (ends ∷ takes ∷ ends ∷ []) b ≡ some c)
      × (c.keyer.keyer.queue ≡ [])
      × (c.keyer.busy ≡ none)
unfolding turns turn
keyer_falls_silent b v dit dah on runs =
    let (t, e, (inv, dit', dah')) = ended-Kept b.keyer.busy b.keyer refl v.keyer_inv in
    let (on', free, waits) = ended-started b.keyer.busy b.keyer t refl runs e in
    let (n, w) = positive t.waiting waits in
    let (u, f, empty, still) =
      last_round n t.keyer.queue t refl inv.keyer_inv.one_waits w free (on' ∙ on)
        (dit' ∙ v.dit ∙ dit) (dah' ∙ v.dah ∙ dah) in
    (record b { keyer = u }, rw (e, f) refl, empty, still)
  where
    positive : (m : ℕ) → 0 < m → (n : ℕ) × (m ≡ suc n)
    positive zero h = absurd (omega arith)
    positive (suc n) h = (n, refl)
