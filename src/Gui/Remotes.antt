-- ===== src/Gui/Remotes.antt =====
-- The remote settings of App/gui/GuiConnector.cpp and the remote client they reach.
use cwkeyer.Base.{
  ℕ, ◌≡◌, refl, ap, ◌∙◌, ◌⊎◌, Bool, true, false, ◌&&◌, ◌||◌, not, List, [], ◌∷◌, none, some, arith,
  if◌then◌else◌,
}
use cwkeyer.Base.Int.{ℤ, pos, ltb_ℤ}
use cwkeyer.Base.Text.{codes, text_eq}
use cwkeyer.Configuration.{JsonObject, number, boolean, text, find, insert, to_bool, c_str}
use cwkeyer.Configuration.Laws.{find-insert, find-insert_ne}
use cwkeyer.Gui.{
  GuiConnector, remote_port_changed, server_ip_changed, remote_mox_delay_ms_changed,
  remote_connected_changed, signal, store, store_int,
}
use cwkeyer.Usb.Device.{int_eq}

abbrev pub is_empty : List ℕ → Bool
is_empty [] = true
is_empty (c ∷ s) = false

-- getValueBool(CFG_REMOTE_CONNECTED)
unfoldable pub stored_connected : {D : Type 0} → GuiConnector D → Bool
stored_connected g = to_bool (find (codes "remote_connected") g.config)

-- `starts` is the result of RemoteClient::start for an address, a port and a delay.
module _ {D : Type 0} (starts : List ℕ → ℤ → ℤ → Bool) where
  -- setRemoteConnected; a start stops the client first, so a failed one leaves it stopped. The
  -- guards of RemoteClient::start before that hold for settings in range.
  unfoldable pub set_remote_connected : Bool → GuiConnector D → GuiConnector D
  set_remote_connected connected g =
      let started = connected && starts g.server_ip g.remote_port g.remote_mox_delay_ms in
      let settings : List ℕ × ℤ × ℤ = (g.server_ip, g.remote_port, g.remote_mox_delay_ms) in
      signal (remote_connected_changed started) (
        store (codes "remote_connected") (boolean started)
          (record g { remote = if started then some settings else none }))

  -- resetRemotes
  unfoldable pub reset_remotes : GuiConnector D → GuiConnector D
  reset_remotes g =
      let off = set_remote_connected false g in
      if stored_connected g then set_remote_connected true off else off

  unfoldable pub with_ip : List ℕ → GuiConnector D → GuiConnector D
  with_ip ip g =
      signal (server_ip_changed ip)
        (store (codes "remote_ip") (text (c_str ip)) (record g { server_ip = ip }))

  -- QString::trimmed is `trimmed`.
  unfoldable pub set_server_ip : (List ℕ → List ℕ) → List ℕ → GuiConnector D → GuiConnector D
  set_server_ip trimmed ip g =
      let normalized = trimmed ip in
      if is_empty normalized
      then g
      else if text_eq g.server_ip normalized
      then g
      else reset_remotes (with_ip normalized g)

module _ {D : Type 0} (of_int : ℤ → D) (to_int : D → ℤ) (starts : List ℕ → ℤ → ℤ → Bool) where
  unfoldable pub with_port : ℤ → GuiConnector D → GuiConnector D
  with_port port g =
      signal (remote_port_changed port)
        (store_int of_int to_int (codes "remote_port") port (record g { remote_port = port }))

  unfoldable pub with_delay : ℤ → GuiConnector D → GuiConnector D
  with_delay delay g = signal (remote_mox_delay_ms_changed delay) (
      store_int of_int to_int (codes "remote_mox_delay_ms") delay
        (record g { remote_mox_delay_ms = delay }))

  unfoldable pub set_remote_port : ℤ → GuiConnector D → GuiConnector D
  set_remote_port port g =
      if not (ltb_ℤ (pos 0) port) || ltb_ℤ (pos 65535) port
      then g
      else if int_eq g.remote_port port
      then g
      else reset_remotes starts (with_port port g)

  unfoldable pub set_remote_mox_delay_ms : ℤ → GuiConnector D → GuiConnector D
  set_remote_mox_delay_ms delay g =
      if ltb_ℤ delay (pos 0)
      then g
      else if int_eq g.remote_mox_delay_ms delay
      then g
      else reset_remotes starts (with_delay delay g)

-- A running client was started with the settings, and the file says whether it runs.
pub record RemoteInv {D : Type 0} (starts : List ℕ → ℤ → ℤ → Bool) (g : GuiConnector D)
    : Type 0 where
  pub settings :
      (g.remote ≡ none) ⊎ (g.remote ≡ some (g.server_ip, g.remote_port, g.remote_mox_delay_ms))
  pub recorded : stored_connected g ≡ false → g.remote ≡ none

module _ {D : Type 0} (starts : List ℕ → ℤ → ℤ → Bool) where
  find-insert_bool :
      (key : List ℕ) (b : Bool) (o : JsonObject D)
      → to_bool (find key (insert key (boolean b) o)) ≡ b
  unfolding to_bool
  find-insert_bool key b o = ap to_bool (find-insert key (boolean b) o)

  set_remote_connected-RemoteInv :
      (b : Bool) (g : GuiConnector D) → RemoteInv starts (set_remote_connected starts b g)
  unfolding set_remote_connected stored_connected
  set_remote_connected-RemoteInv b g = ground (
    arith,
    find-insert_bool (codes "remote_connected")
        (b && starts g.server_ip g.remote_port g.remote_mox_delay_ms) g.config,
  )

  pub reset_remotes-RemoteInv : (g : GuiConnector D) → RemoteInv starts (reset_remotes starts g)
  unfolding reset_remotes
  reset_remotes-RemoteInv g = ground (
    arith,
    set_remote_connected-RemoteInv false g,
    set_remote_connected-RemoteInv true (set_remote_connected starts false g),
  )

  reset_remotes_on :
      (g : GuiConnector D)
      → stored_connected g ≡ true
      → let h = reset_remotes starts g in
        (h.remote_port ≡ g.remote_port)
        × (stored_connected h ≡ starts g.server_ip g.remote_port g.remote_mox_delay_ms)
        × (h.remote ≡ (
            if starts g.server_ip g.remote_port g.remote_mox_delay_ms
            then some (g.server_ip, g.remote_port, g.remote_mox_delay_ms)
            else none))
  unfolding reset_remotes set_remote_connected stored_connected
  reset_remotes_on g on = rw on (refl, find-insert_bool (codes "remote_connected") _ _, refl)

pub data Change : Type 0 where
  to_connected : Bool → Change
  to_port : ℤ → Change
  to_ip : List ℕ → Change
  to_delay : ℤ → Change

module _ {D : Type 0} (of_int : ℤ → D) (to_int : D → ℤ) (starts : List ℕ → ℤ → ℤ → Bool)
    (trimmed : List ℕ → List ℕ) where
  unfoldable pub change : Change → GuiConnector D → GuiConnector D
  change (to_connected b) g = set_remote_connected starts b g
  change (to_port port) g = set_remote_port of_int to_int starts port g
  change (to_ip ip) g = set_server_ip starts trimmed ip g
  change (to_delay delay) g = set_remote_mox_delay_ms of_int to_int starts delay g

  unfoldable pub run : List Change → GuiConnector D → GuiConnector D
  run [] g = g
  run (c ∷ cs) g = run cs (change c g)

  change-RemoteInv :
      (c : Change) (g : GuiConnector D) → RemoteInv starts g → RemoteInv starts (change c g)
  unfolding change set_remote_port set_server_ip set_remote_mox_delay_ms
  change-RemoteInv (to_connected b) g v = set_remote_connected-RemoteInv starts b g
  change-RemoteInv (to_port port) g v =
      ground (arith, reset_remotes-RemoteInv starts (with_port of_int to_int starts port g))
  change-RemoteInv (to_ip ip) g v =
      ground (arith, reset_remotes-RemoteInv starts (with_ip starts (trimmed ip) g))
  change-RemoteInv (to_delay delay) g v =
      ground (arith, reset_remotes-RemoteInv starts (with_delay of_int to_int starts delay g))

  -- If a running client was started with the settings as they are, and none runs if the file says
  -- so, then this is so after any sequence of changes of the port, the address, the delay and the
  -- connection.
  pub run-RemoteInv :
      (cs : List Change) (g : GuiConnector D) → RemoteInv starts g → RemoteInv starts (run cs g)
  unfolding run
  run-RemoteInv [] g v = v
  run-RemoteInv (c ∷ cs) g v = run-RemoteInv cs (change c g) (change-RemoteInv c g v)

  with_port-stored_connected :
      (port : ℤ) (g : GuiConnector D)
      → stored_connected (with_port of_int to_int starts port g) ≡ stored_connected g
  unfolding with_port stored_connected
  with_port-stored_connected port g = ap to_bool (
      find-insert_ne (codes "remote_port") (codes "remote_connected") (number (of_int port))
        g.config (λ e. ground arith))

  -- A change to another valid port, while the file says that the client runs, starts the client
  -- anew with that port; if the start fails, no client runs and the file says so.
  set_remote_port_lem :
      (port : ℤ) (g : GuiConnector D)
      → ltb_ℤ (pos 0) port && not (ltb_ℤ (pos 65535) port) ≡ true
      → int_eq g.remote_port port ≡ false
      → stored_connected g ≡ true
      → let h = set_remote_port of_int to_int starts port g in
        (h.remote_port ≡ port)
        × (stored_connected h ≡ starts g.server_ip port g.remote_mox_delay_ms)
        × (h.remote ≡ (
            if starts g.server_ip port g.remote_mox_delay_ms
            then some (g.server_ip, port, g.remote_mox_delay_ms)
            else none))
  unfolding set_remote_port with_port
  set_remote_port_lem port g valid new on =
      let g₁ = with_port of_int to_int starts port g in
      rw (changes) (reset_remotes_on starts g₁ (with_port-stored_connected port g ∙ on))
    where
      changes :
          set_remote_port of_int to_int starts port g
          ≡ reset_remotes starts (with_port of_int to_int starts port g)
      changes = ground arith
