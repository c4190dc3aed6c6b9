-- ===== src/Remote/Stages.antt =====
-- RemoteClient (App/remote/RemoteClient.cpp) while stop is at work: its parts take m_moxMutex one after
-- the other, and calls of the keyer may come between them.
use cwkeyer.Base.{ℕ, ◌≡◌, refl, Bool, true, false, ◌||◌, not, ◌∷◌, [], arith, inl, inr, Bool-cases}
use cwkeyer.Base.Int.{ℤ, pos}
use cwkeyer.Timing.{KeyerItem, dit, dah}
use cwkeyer.Remote.{
  Command, trx, keyer, keyer_timed, Network, RemoteClient, is_open, send_line, activate_mox,
  ensure_mox, deactivate_mox, release_after, send_command_line, send_keyer_command, send_duration,
  run_cw, send_command, schedule_mox_release,
}
use cwkeyer.Remote.Session.{
  Timer, idle, armed, ended, halting, fire, timer_step, releasing, clearing, ending,
}
use cwkeyer.Remote.Wire.{trx_after, keys_on, trx_after-append, keys_on-append, cancelled, MoxInv}

-- While the client runs, its socket is open, and the server's transmitter is on if the client takes the
-- MOX to be active; each keying command found the transmitter on.
pub record LiveInv (r : RemoteClient) : Type 0 where
  pub opened : r.running ≡ true → is_open r.socket_fd ≡ true
  pub live : r.running ≡ true → r.mox_active ≡ true → trx_after false r.wire ≡ true
  pub proper : keys_on false r.wire ≡ true

cancelled-LiveInv : (r : RemoteClient) → LiveInv r → LiveInv (cancelled r)
cancelled-LiveInv r v = record { opened = v.opened; live = v.live; proper = v.proper }

module _ (net : Network) where
  activate_mox-LiveInv :
      (r : RemoteClient)
      → LiveInv r
      → LiveInv (activate_mox net r).0
        × ((activate_mox net r).1 ≡ true → (activate_mox net r).0.mox_active ≡ true)
  unfolding activate_mox send_line
  activate_mox-LiveInv r v =
      ground
        (arith, trx_after-append false r.wire (trx true), keys_on-append false r.wire (trx true))

  deactivate_mox-LiveInv : (r : RemoteClient) → LiveInv r → LiveInv (deactivate_mox net r)
  unfolding deactivate_mox send_line
  deactivate_mox-LiveInv r v =
      ground
        (arith, trx_after-append false r.wire (trx false), keys_on-append false r.wire (trx false))

  send_line-LiveInv :
      (c : Command) (r : RemoteClient)
      → (keys_on true (c ∷ []) ≡ true) × (trx_after true (c ∷ []) ≡ true)
      → r.mox_active ≡ true
      → LiveInv r
      → LiveInv (send_line net c r).0
  unfolding send_line
  send_line-LiveInv c r k on v =
      ground (arith, trx_after-append false r.wire c, keys_on-append false r.wire c)

  release_after-LiveInv :
      (d : ℤ) (now : ℕ) (r : RemoteClient) → LiveInv r → LiveInv (release_after net d now r).0
  unfolding release_after schedule_mox_release
  release_after-LiveInv d now r v = ground (arith, deactivate_mox-LiveInv r v)

  send_command_line-LiveInv :
      (c : Command) (d : ℤ) (now : ℕ) (r : RemoteClient)
      → (keys_on true (c ∷ []) ≡ true) × (trx_after true (c ∷ []) ≡ true)
      → r.mox_active ≡ true
      → LiveInv r
      → LiveInv (send_command_line net c d now r).0
  unfolding send_command_line
  send_command_line-LiveInv c d now r k on v =
      let v₁ = send_line-LiveInv c r k on v in
      let r₁ = (send_line net c r).0 in
      elim (Bool-cases (send_line net c r).1) [
        | inl e ↦ rw e (release_after-LiveInv d now r₁ v₁)
        | inr e ↦ rw e v₁
      ]

  ensure_mox-LiveInv :
      (r : RemoteClient)
      → LiveInv r
      → LiveInv (ensure_mox net r).0
        × ((ensure_mox net r).1 ≡ true → (ensure_mox net r).0.mox_active ≡ true)
  unfolding ensure_mox
  ensure_mox-LiveInv r v = elim (Bool-cases r.mox_active) [
    | inl e ↦ ground arith
    | inr e ↦ simp e (activate_mox-LiveInv r v)
  ]

  send_keyer_command-LiveInv :
      (c : Command) (d : ℤ) (now : ℕ) (r : RemoteClient)
      → (keys_on true (c ∷ []) ≡ true) × (trx_after true (c ∷ []) ≡ true)
      → LiveInv r
      → LiveInv (send_keyer_command net c d now r).0
  unfolding send_keyer_command
  send_keyer_command-LiveInv c d now r k v =
      let (kept, keyed) = ensure_mox-LiveInv (cancelled r) (cancelled-LiveInv r v) in
      elim (Bool-cases (not r.running || not (is_open r.socket_fd))) [
        | inl off ↦ rw off v
        | inr on ↦ rw on (elim (Bool-cases (ensure_mox net (cancelled r)).1) [
          | inl e ↦ rw e (send_command_line-LiveInv c d now _ k (keyed e) kept)
          | inr e ↦ rw e kept
        ])
      ]

  pub run_cw-LiveInv :
      (item : KeyerItem) (d : ℤ) (now : ℕ) (r : RemoteClient)
      → LiveInv r
      → LiveInv (run_cw net item d now r)
  unfolding run_cw send_duration
  run_cw-LiveInv dit d now r v =
      ground (arith, send_keyer_command-LiveInv (keyer_timed d) d now r (refl, refl) v)
  run_cw-LiveInv dah d now r v =
      ground (arith, send_keyer_command-LiveInv (keyer_timed d) d now r (refl, refl) v)
  run_cw-LiveInv _ d now r v = v

  pub send_command-LiveInv :
      (b : Bool) (now : ℕ) (r : RemoteClient) → LiveInv r → LiveInv (send_command net b now r).0
  unfolding send_command
  send_command-LiveInv b now r v = send_keyer_command-LiveInv (keyer b) (pos 0) now r (refl, refl) v

  fire-LiveInv : (r : RemoteClient) → LiveInv r → LiveInv (fire net r)
  unfolding fire
  fire-LiveInv r v = ground (arith, deactivate_mox-LiveInv (record r { scheduled = false }))

  pub timer_step-LiveInv :
      (now : ℕ) (t : Timer) (r : RemoteClient) → LiveInv r → LiveInv (timer_step net now t r).1
  unfolding timer_step
  timer_step-LiveInv now idle r v = ground (arith, fire-LiveInv r v)
  timer_step-LiveInv now (armed token deadline) r v = ground (arith, fire-LiveInv r v)
  timer_step-LiveInv now ended r v = v

  pub halting-LiveInv : (r : RemoteClient) → MoxInv r → LiveInv (halting r)
  halting-LiveInv r v = ground arith

  pub releasing-LiveInv : (b : Bool) (r : RemoteClient) → LiveInv r → LiveInv (releasing net b r)
  unfolding releasing
  releasing-LiveInv b r v = ground (arith, deactivate_mox-LiveInv r v)

  pub clearing-LiveInv : (r : RemoteClient) → LiveInv r → LiveInv (clearing net r)
  unfolding clearing
  clearing-LiveInv r v = ground arith

  pub ending-MoxInv : (r : RemoteClient) → LiveInv r → MoxInv (ending net r)
  unfolding ending
  ending-MoxInv r v = ground arith
