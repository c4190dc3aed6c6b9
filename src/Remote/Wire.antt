-- ===== src/Remote/Wire.antt =====
-- What the server sees of RemoteClient (App/remote/RemoteClient.cpp), against the state of the MOX.
use cwkeyer.Base.{
  ℕ, ◌≡◌, refl, Bool, true, false, ◌&&◌, ◌||◌, not, ◌+◌, List, [], ◌∷◌, ◌++◌, arith, Option, some,
  none, inl, inr, Bool-cases,
}
use cwkeyer.Base.Int.{ℤ, pos}
use cwkeyer.Timing.{KeyerItem, dit, dah}
use cwkeyer.Remote.{
  Command, trx, keyer, keyer_timed, Network, RemoteClient, is_open, u64, send_line, activate_mox,
  ensure_mox, deactivate_mox, release_after, send_command_line, send_keyer_command, send_duration,
  run_cw, send_command, reset_mox_state, schedule_mox_release,
}
use cwkeyer.Remote.Session.{
  Timer, idle, armed, ended, Connecting, halting, fire, timer_step, stop, start, connected,
  open_and_connect, start_stopped, releasing, clearing, ending,
}

-- The server's transmitter after some commands, from the state `t`.
abbrev pub trx_after : Bool → List Command → Bool
trx_after t [] = t
trx_after t (trx b ∷ cs) = trx_after b cs
trx_after t (_ ∷ cs) = trx_after t cs

-- Every keying command finds the transmitter on.
abbrev pub keys_on : Bool → List Command → Bool
keys_on t [] = true
keys_on t (trx b ∷ cs) = keys_on b cs
keys_on t (_ ∷ cs) = t && keys_on t cs

pub trx_after-append :
    (t : Bool) (cs : List Command) (c : Command)
    → trx_after t (cs ++ c ∷ []) ≡ trx_after (trx_after t cs) (c ∷ [])
trx_after-append t [] c = refl
trx_after-append t (trx b ∷ cs) c = trx_after-append b cs c
trx_after-append t (keyer b ∷ cs) c = trx_after-append t cs c
trx_after-append t (keyer_timed d ∷ cs) c = trx_after-append t cs c

pub keys_on-append :
    (t : Bool) (cs : List Command) (c : Command)
    → keys_on t (cs ++ c ∷ []) ≡ keys_on t cs && keys_on (trx_after t cs) (c ∷ [])
keys_on-append t [] c = ground arith
keys_on-append t (trx b ∷ cs) c = keys_on-append b cs c
keys_on-append t (keyer b ∷ cs) c = ground (arith, keys_on-append t cs c)
keys_on-append t (keyer_timed d ∷ cs) c = ground (arith, keys_on-append t cs c)

-- While the client runs, its socket is open and the server's transmitter is as the client takes it to be; on every
-- connection, up to its end, each keying command found the transmitter on.
pub record WireInv (r : RemoteClient) : Type 0 where
  pub opened : r.running ≡ true → is_open r.socket_fd ≡ true
  pub follows : r.running ≡ true → trx_after false r.wire ≡ r.mox_active
  pub proper : keys_on false r.wire ≡ true

-- An active MOX waits for its release.
pub record MoxInv (r : RemoteClient) : Type 0 where
  pub wire_inv : WireInv r
  pub pending : r.running ≡ true → r.mox_active ≡ true → r.scheduled ≡ true

abbrev pub cancelled : RemoteClient → RemoteClient
cancelled r = record r { scheduled = false; token = u64 (r.token + 1) }

cancelled-WireInv : (r : RemoteClient) → WireInv r → WireInv (cancelled r)
cancelled-WireInv r v = record { opened = v.opened; follows = v.follows; proper = v.proper }

module _ (net : Network) where
  activate_mox-WireInv :
      (r : RemoteClient)
      → WireInv r
      → WireInv (activate_mox net r).0
        × ((activate_mox net r).1 ≡ true → (activate_mox net r).0.mox_active ≡ true)
  unfolding activate_mox send_line
  activate_mox-WireInv r v =
      ground
        (arith, trx_after-append false r.wire (trx true), keys_on-append false r.wire (trx true))

  deactivate_mox-WireInv : (r : RemoteClient) → WireInv r → WireInv (deactivate_mox net r)
  unfolding deactivate_mox send_line
  deactivate_mox-WireInv r v =
      ground
        (arith, trx_after-append false r.wire (trx false), keys_on-append false r.wire (trx false))

  deactivate_mox-inactive : (r : RemoteClient) → (deactivate_mox net r).mox_active ≡ false
  unfolding deactivate_mox
  deactivate_mox-inactive r = refl

  -- A keying command that goes out while the MOX is active.
  send_line-WireInv :
      (c : Command) (r : RemoteClient)
      → (keys_on true (c ∷ []) ≡ true) × (trx_after true (c ∷ []) ≡ true)
      → r.mox_active ≡ true
      → WireInv r
      → WireInv (send_line net c r).0 × ((send_line net c r).0.mox_active ≡ true)
  unfolding send_line
  send_line-WireInv c r k on v =
      ground (arith, trx_after-append false r.wire c, keys_on-append false r.wire c)

  release_after-MoxInv :
      (d : ℤ) (now : ℕ) (r : RemoteClient) → WireInv r → MoxInv (release_after net d now r).0
  unfolding release_after schedule_mox_release
  release_after-MoxInv d now r v =
      ground (arith, deactivate_mox-WireInv r v, deactivate_mox-inactive r)

  pub stopped-MoxInv : (r : RemoteClient) → WireInv r → r.running ≡ false → MoxInv r
  stopped-MoxInv r v e = record { wire_inv = v; pending = λ h _. cc }

  send_line_failed :
      (c : Command) (r : RemoteClient)
      → WireInv r
      → (send_line net c r).1 ≡ false
      → (send_line net c r).0.running ≡ false
  unfolding send_line
  send_line_failed c r v h = ground arith

  activate_mox_failed :
      (r : RemoteClient)
      → WireInv r
      → (activate_mox net r).1 ≡ false
      → (activate_mox net r).0.running ≡ false
  unfolding activate_mox send_line
  activate_mox_failed r v h = ground arith

  send_command_line-MoxInv :
      (c : Command) (d : ℤ) (now : ℕ) (r : RemoteClient)
      → (keys_on true (c ∷ []) ≡ true) × (trx_after true (c ∷ []) ≡ true)
      → r.mox_active ≡ true
      → WireInv r
      → MoxInv (send_command_line net c d now r).0
  unfolding send_command_line
  send_command_line-MoxInv c d now r k on v =
      let v₁ = (send_line-WireInv c r k on v).0 in
      let r₁ = (send_line net c r).0 in
      elim (Bool-cases (send_line net c r).1) [
        | inl e ↦ rw e (release_after-MoxInv d now r₁ v₁)
        | inr e ↦ rw e (stopped-MoxInv r₁ v₁ (send_line_failed c r v e))
      ]

  ensure_mox-WireInv :
      (r : RemoteClient)
      → WireInv r
      → WireInv (ensure_mox net r).0
        × ((ensure_mox net r).1 ≡ true → (ensure_mox net r).0.mox_active ≡ true)
  unfolding ensure_mox
  ensure_mox-WireInv r v = elim (Bool-cases r.mox_active) [
    | inl e ↦ ground arith
    | inr e ↦ simp e (activate_mox-WireInv r v)
  ]

  ensure_mox_failed :
      (r : RemoteClient)
      → WireInv r
      → (ensure_mox net r).1 ≡ false
      → (ensure_mox net r).0.running ≡ false
  unfolding ensure_mox
  ensure_mox_failed r v h = ground (arith, activate_mox_failed r v)

  send_keyer_command-MoxInv :
      (c : Command) (d : ℤ) (now : ℕ) (r : RemoteClient)
      → (keys_on true (c ∷ []) ≡ true) × (trx_after true (c ∷ []) ≡ true)
      → MoxInv r
      → MoxInv (send_keyer_command net c d now r).0
  unfolding send_keyer_command
  send_keyer_command-MoxInv c d now r k v =
      elim (Bool-cases (not r.running || not (is_open r.socket_fd))) [
        | inl off ↦ rw off v
        | inr live ↦ rw live (elim (Bool-cases (ensure_mox net (cancelled r)).1) [
          | inl e ↦ rw e (send_command_line-MoxInv c d now _ k (both.1 e) both.0)
          | inr e ↦ rw e (
              stopped-MoxInv _ both.0
                (ensure_mox_failed (cancelled r) (cancelled-WireInv r v.wire_inv) e))
        ])
      ]
    where
      both :
          WireInv (ensure_mox net (cancelled r)).0
          × ((ensure_mox net (cancelled r)).1 ≡ true
              → (ensure_mox net (cancelled r)).0.mox_active ≡ true)
      both = ensure_mox-WireInv (cancelled r) (cancelled-WireInv r v.wire_inv)

  pub run_cw-MoxInv :
      (item : KeyerItem) (d : ℤ) (now : ℕ) (r : RemoteClient)
      → MoxInv r
      → MoxInv (run_cw net item d now r)
  unfolding run_cw send_duration
  run_cw-MoxInv dit d now r v =
      ground (arith, send_keyer_command-MoxInv (keyer_timed d) d now r (refl, refl) v)
  run_cw-MoxInv dah d now r v =
      ground (arith, send_keyer_command-MoxInv (keyer_timed d) d now r (refl, refl) v)
  run_cw-MoxInv _ d now r v = v

  pub send_command-MoxInv :
      (b : Bool) (now : ℕ) (r : RemoteClient) → MoxInv r → MoxInv (send_command net b now r).0
  unfolding send_command
  send_command-MoxInv b now r v = send_keyer_command-MoxInv (keyer b) (pos 0) now r (refl, refl) v

  fire-MoxInv : (r : RemoteClient) → MoxInv r → MoxInv (fire net r)
  unfolding fire
  fire-MoxInv r v = ground (
    arith,
    deactivate_mox-WireInv (record r { scheduled = false }),
    deactivate_mox-inactive (record r { scheduled = false }),
  )

  pub timer_step-MoxInv :
      (now : ℕ) (t : Timer) (r : RemoteClient) → MoxInv r → MoxInv (timer_step net now t r).1
  unfolding timer_step
  timer_step-MoxInv now idle r v = ground (arith, fire-MoxInv r v)
  timer_step-MoxInv now (armed token deadline) r v = ground (arith, fire-MoxInv r v)
  timer_step-MoxInv now ended r v = v

  pub stop-MoxInv : (r : RemoteClient) → MoxInv r → MoxInv (stop net r)
  unfolding stop releasing clearing ending
  stop-MoxInv r v = ground (arith, deactivate_mox-WireInv (halting r))

  connected-MoxInv :
      (delay : ℤ) (env : Connecting) (fd : ℕ) (r : RemoteClient)
      → r.running ≡ false
      → MoxInv (connected net delay env fd r).0
  unfolding connected reset_mox_state
  connected-MoxInv delay env fd r v = ground arith

  open_and_connect-MoxInv :
      (delay : ℤ) (env : Connecting) (c : Option ℕ) (r : RemoteClient)
      → r.running ≡ false
      → MoxInv r
      → MoxInv (open_and_connect net delay env c r).0
  unfolding open_and_connect
  open_and_connect-MoxInv delay env none r e v = v
  open_and_connect-MoxInv delay env (some fd) r e v = connected-MoxInv delay env fd r e

  stop-not_running : (r : RemoteClient) → (stop net r).running ≡ false
  unfolding stop ending
  stop-not_running r = refl

  pub start_stopped-MoxInv :
      (delay : ℤ) (env : Connecting) (r : RemoteClient)
      → r.running ≡ false
      → MoxInv r
      → MoxInv (start_stopped net delay env r).0
  unfolding start_stopped
  start_stopped-MoxInv delay env r e v =
      ground (arith, open_and_connect-MoxInv delay env env.connection r e v)

  pub start-MoxInv :
      (ip : List ℕ) (port delay : ℤ) (env : Connecting) (r : RemoteClient)
      → MoxInv r
      → MoxInv (start net ip port delay env r).0
  unfolding start
  start-MoxInv ip port delay env r v = ground (
    arith,
    stop-MoxInv r v,
    start_stopped-MoxInv delay env (stop net r) (stop-not_running r) (stop-MoxInv r v),
  )
