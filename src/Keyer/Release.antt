-- ===== src/Keyer/Release.antt =====
-- Paddle events during the sleep of playDitDah (App/keyer/Keyer.cpp).
use cwkeyer.Base.{◌≡◌, true, false, some, [], ◌∷◌, arith}
use cwkeyer.Timing.{KeyerItem, dit, dah}
use cwkeyer.Keyer.{
  Keyer, Playing, begin_item, end_item, opposite, play_dit_dah, enqueue_field, after_squeeze,
  enqueue, on_dit, on_dah,
}
use cwkeyer.Keyer.Squeeze.{IsSqueezed, swapped}

-- In both iambic modes, A included: if the paddles are squeezed when an element begins, and both are
-- released while it sounds, the other element is queued all the same, with no paddle held.
pub release_adds_one :
    (k : Keyer) (item : KeyerItem)
    → IsSqueezed k item
    → (p : Playing) × (k₁ : Keyer) × (k₂ : Keyer) × (begin_item k ≡ some (p, k₁))
      × (end_item p (on_dah false (on_dit false k₁)) ≡ some k₂)
      × (k₂.dit_pressed ≡ false)
      × (k₂.dah_pressed ≡ false)
      × (k₂.queue ≡ swapped item ∷ [])
unfolding begin_item end_item after_squeeze enqueue enqueue_field opposite on_dit on_dah
release_adds_one k item s =
    let p : Playing = record { item = item; squeeze = true } in
    let k₁ = play_dit_dah item (record k { queue = [] }) in
    let k₂ = enqueue (opposite item) (on_dah false (on_dit false k₁)) in
    (p, k₁, k₂, ground arith, ground arith, ground arith, ground arith, ground arith)

-- If an element began with no squeeze and nothing waits, a paddle that is pressed and released while
-- it sounds is remembered: the paddle's element comes next, whichever paddles are held then.
tap_remembered :
    (p : Playing) (k : Keyer)
    → p.squeeze ≡ false
    → k.queue ≡ []
    → (k₁ : Keyer) × (k₂ : Keyer) × (end_item p (on_dit false (on_dit true k)) ≡ some k₁)
      × (end_item p (on_dah false (on_dah true k)) ≡ some k₂)
      × (k₁.queue ≡ dit ∷ [])
      × (k₂.queue ≡ dah ∷ [])
unfolding end_item enqueue on_dit on_dah
tap_remembered p k s q = (
  on_dit false (on_dit true k),
  on_dah false (on_dah true k),
  ground arith,
  ground arith,
  ground arith,
  ground arith,
)
