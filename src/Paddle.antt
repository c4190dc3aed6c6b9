-- ===== src/Paddle.antt =====
-- App/utils/IDitDah.h: the calls that a source of paddle or key states makes on a keyer.
use cwkeyer.Base.{◌≡◌, refl, Bool, not, List, [], ◌∷◌, ◌++◌}

pub data Call : Type 0 where
  on_dit : Bool → Call
  on_dah : Bool → Call
  on_straight : Bool → Call

-- What a keyer knows of the dit paddle, of the dah paddle, and of the straight key after some
-- calls, from what it knew before.
unfoldable pub dit_after : Bool → List Call → Bool
dit_after d [] = d
dit_after d (on_dit b ∷ cs) = dit_after b cs
dit_after d (_ ∷ cs) = dit_after d cs

unfoldable pub dah_after : Bool → List Call → Bool
dah_after d [] = d
dah_after d (on_dah b ∷ cs) = dah_after b cs
dah_after d (_ ∷ cs) = dah_after d cs

unfoldable pub straight_after : Bool → List Call → Bool
straight_after d [] = d
straight_after d (on_straight b ∷ cs) = straight_after b cs
straight_after d (_ ∷ cs) = straight_after d cs

-- Each call changes what the keyer knows, from the three states given.
unfoldable pub Edges : Bool → Bool → Bool → List Call → Type 0
Edges d a s [] = Unit {0}
Edges d a s (on_dit b ∷ cs) = (b ≡ not d) × Edges b a s cs
Edges d a s (on_dah b ∷ cs) = (b ≡ not a) × Edges d b s cs
Edges d a s (on_straight b ∷ cs) = (b ≡ not s) × Edges d a b cs

pub dit_after-append :
    (d : Bool) (cs ds : List Call) → dit_after d (cs ++ ds) ≡ dit_after (dit_after d cs) ds
unfolding dit_after
dit_after-append d [] ds = refl
dit_after-append d (on_dit b ∷ cs) ds = dit_after-append b cs ds
dit_after-append d (on_dah b ∷ cs) ds = dit_after-append d cs ds
dit_after-append d (on_straight b ∷ cs) ds = dit_after-append d cs ds

pub dah_after-append :
    (d : Bool) (cs ds : List Call) → dah_after d (cs ++ ds) ≡ dah_after (dah_after d cs) ds
unfolding dah_after
dah_after-append d [] ds = refl
dah_after-append d (on_dit b ∷ cs) ds = dah_after-append d cs ds
dah_after-append d (on_dah b ∷ cs) ds = dah_after-append b cs ds
dah_after-append d (on_straight b ∷ cs) ds = dah_after-append d cs ds

pub Edges-append :
    (d a s : Bool) (cs ds : List Call)
    → Edges d a s cs
    → Edges (dit_after d cs) (dah_after a cs) (straight_after s cs) ds
    → Edges d a s (cs ++ ds)
unfolding Edges dit_after dah_after straight_after
Edges-append d a s [] ds h k = k
Edges-append d a s (on_dit b ∷ cs) ds h k = (h.0, Edges-append b a s cs ds h.1 k)
Edges-append d a s (on_dah b ∷ cs) ds h k = (h.0, Edges-append d b s cs ds h.1 k)
Edges-append d a s (on_straight b ∷ cs) ds h k = (h.0, Edges-append d a b cs ds h.1 k)

pub straight_after-append :
    (d : Bool) (cs ds : List Call)
    → straight_after d (cs ++ ds) ≡ straight_after (straight_after d cs) ds
unfolding straight_after
straight_after-append d [] ds = refl
straight_after-append d (on_dit b ∷ cs) ds = straight_after-append d cs ds
straight_after-append d (on_dah b ∷ cs) ds = straight_after-append d cs ds
straight_after-append d (on_straight b ∷ cs) ds = straight_after-append b cs ds
