-- ===== src/Gui/Switches.antt =====
-- The switches of the window (App/gui/GuiConnector.cpp): the slots that start and stop the two serial
-- ports, with the ports that they reach, and the functions that the window reads the switches by.
use cwkeyer.Base.{
  ◌≡◌, refl, Bool, true, false, ◌&&◌, ◌||◌, List, [], ◌∷◌, ◌++◌, Option, some, arith, if◌then◌else◌,
  ◌>>=◌, ℕ,
}
use cwkeyer.Gui.{
  GuiConnector, Signal, signal, enabled_comm_out_changed, enabled_comm_in_changed, port_at,
  set_enabled_comm_out, set_enabled_comm_in,
}
use cwkeyer.Gui.Quit.{Parts}
use cwkeyer.Serial.{SerialComm, SerialInv, Opening}
use cwkeyer.Serial
use cwkeyer.Serial.Proxy.{N1mmProxy, start_proxy, stop_proxy}

-- The window: its settings and its objects.
pub record Panel (D : Type 0) : Type 0 where
  pub settings : GuiConnector D
  pub parts : Parts D

start_or_stop :
    (x : Opening) (b : Bool) (s : SerialComm)
    → SerialInv s
    → (if b then (Serial.start x s).0 else Serial.stop s).running
      ≡ b && (s.running || (x.opens && x.gets && x.sets))
unfolding Serial.start Serial.stop
start_or_stop x b s v = ground arith

start_or_stop_proxy :
    (pipes : Bool) (x : Opening) (b : Bool) (p : N1mmProxy)
    → SerialInv p.port
    → (if b then (start_proxy pipes x p).0 else stop_proxy p).port.running
      ≡ b && (p.port.running || (x.opens && x.gets && x.sets && pipes))
unfolding Serial.start Serial.stop start_proxy stop_proxy
start_or_stop_proxy pipes x b p v = ground arith

module _ {D : Type 0} where
  -- The functions that only read a part: enabledSound, enabledCommOut, enabledCommIn,
  -- enabledKeyboard, enabledZadig, remoteConnected and enabledCwDecoder, with the `started` and
  -- `enabled` that they call.
  unfoldable pub enabled_sound : Panel D → Bool
  enabled_sound w = w.parts.sound.enabled

  unfoldable pub enabled_comm_out : Panel D → Bool
  enabled_comm_out w = w.parts.serial_comm.running

  unfoldable pub enabled_comm_in : Panel D → Bool
  enabled_comm_in w = w.parts.serial_comm_in.port.running

  unfoldable pub enabled_keyboard : Panel D → Bool
  enabled_keyboard w = w.parts.keyboard.enabled

  unfoldable pub enabled_zadig : Panel D → Bool
  enabled_zadig w = w.parts.device.connected

  unfoldable pub remote_connected : Panel D → Bool
  remote_connected w = w.parts.remote.running

  unfoldable pub enabled_cw_decoder : Panel D → Bool
  enabled_cw_decoder w = w.parts.cw_decoder.started

  -- setEnabledCommOut; `x` is what the system answers to a start.
  unfoldable pub switch_comm_out : Opening → Bool → Panel D → Option (Panel D)
  switch_comm_out x enabled w = do
    g ← set_enabled_comm_out enabled w.settings
    let port =
        if enabled then (Serial.start x w.parts.serial_comm).0 else Serial.stop w.parts.serial_comm
    some (record { settings = g; parts = record w.parts { serial_comm = port } })

  -- setEnabledCommIn; `pipes` is the result of pipe.
  unfoldable pub switch_comm_in : Bool → Opening → Bool → Panel D → Option (Panel D)
  switch_comm_in pipes x enabled w = do
    g ← set_enabled_comm_in enabled w.settings
    let proxy =
        if enabled
        then (start_proxy pipes x w.parts.serial_comm_in).0
        else stop_proxy w.parts.serial_comm_in
    some (record { settings = g; parts = record w.parts { serial_comm_in = proxy } })

  -- What each switch says last.
  abbrev Says : Signal → Panel D → Panel D → Type 0
  Says s w v = v.settings.signals ≡ w.settings.signals ++ s ∷ []

  comm_out_told :
      (b : Bool) (port : List ℕ) (g : GuiConnector D)
      → port_at g.comm_ports g.selected_comm_port ≡ some port
      → (h : GuiConnector D) × (set_enabled_comm_out b g ≡ some h)
        × (h.signals ≡ g.signals ++ enabled_comm_out_changed b ∷ [])
  unfolding set_enabled_comm_out
  comm_out_told true port g e =
      (signal (enabled_comm_out_changed true) (record g { comm_out = some port }), rw e refl, refl)
  comm_out_told false port g e = (_, refl, refl)

  comm_in_told :
      (b : Bool) (port : List ℕ) (g : GuiConnector D)
      → port_at g.comm_ports g.selected_comm_port_in ≡ some port
      → (h : GuiConnector D) × (set_enabled_comm_in b g ≡ some h)
        × (h.signals ≡ g.signals ++ enabled_comm_in_changed b ∷ [])
  unfolding set_enabled_comm_in
  comm_in_told true port g e =
      (signal (enabled_comm_in_changed true) (record g { comm_in = some port }), rw e refl, refl)
  comm_in_told false port g e = (_, refl, refl)

  -- With a port selected, and serial ports that run exactly while they are open, both switches come to
  -- their end and tell the window what it asked for. The ports do as asked when they are switched off;
  -- when they are switched on, they run if they did before, or if the system opens and sets up the port
  -- and, for the N1MM proxy, makes the pipe: where it does not, the window is told that the port is on,
  -- and the port is off.
  pub switches_lem :
      (x : Opening) (pipes b : Bool) (out inn : List ℕ) (w : Panel D)
      → port_at w.settings.comm_ports w.settings.selected_comm_port ≡ some out
      → port_at w.settings.comm_ports w.settings.selected_comm_port_in ≡ some inn
      → SerialInv w.parts.serial_comm
      → SerialInv w.parts.serial_comm_in.port
      → (v : Panel D) × (u : Panel D) × (switch_comm_out x b w ≡ some v)
        × (switch_comm_in pipes x b w ≡ some u)
        × Says (enabled_comm_out_changed b) w v
        × Says (enabled_comm_in_changed b) w u
        × (enabled_comm_out v ≡ b && (enabled_comm_out w || (x.opens && x.gets && x.sets)))
        × (enabled_comm_in u ≡ b && (enabled_comm_in w || (x.opens && x.gets && x.sets && pipes)))
  unfolding switch_comm_out switch_comm_in enabled_comm_out enabled_comm_in
  switches_lem x pipes b out inn w e f v u =
      let (g, told, says) = comm_out_told b out w.settings e in
      let (h, told', says') = comm_in_told b inn w.settings f in
      let port =
        if b then (Serial.start x w.parts.serial_comm).0 else Serial.stop w.parts.serial_comm in
      let proxy =
        if b
        then (start_proxy pipes x w.parts.serial_comm_in).0
        else stop_proxy w.parts.serial_comm_in in
      (
        record { settings = g; parts = record w.parts { serial_comm = port } },
        record { settings = h; parts = record w.parts { serial_comm_in = proxy } },
        rw told refl,
        rw told' refl,
        says,
        says',
        start_or_stop x b w.parts.serial_comm v,
        start_or_stop_proxy pipes x b w.parts.serial_comm_in u,
      )
