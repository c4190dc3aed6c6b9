-- ===== src/Gui/Quit.antt =====
-- GuiConnector::quit (App/gui/GuiConnector.cpp) on Linux, with the destructors that it runs.
-- Of a deleted object the model keeps the last state: what it leaves behind. The thread object of
-- UsbDevice is a member, whose destructor ends the program while it is joinable; the keyer's thread
-- is detached and is not waited for. quit runs here with no call of another thread in between. The
-- threads of the listener and of single serial elements, which are detached too, are left out; so is
-- the end of a connected device's taskRunnable, whose assertion Usb/Probe has.
mod Tests
use cwkeyer.Base.{
  ◌≡◌, refl, sym, ap, ◌∙◌, Bool, true, false, ◌&&◌, not, Option, none, some, if◌then◌else◌, arith,
}
use cwkeyer.Base.Int.{ℤ}
use cwkeyer.Keyer.{stop_keyer}
use cwkeyer.Keyer.Threads.{System}
use cwkeyer.Decoder.{CwDecoder}
use cwkeyer.Decoder
use cwkeyer.Sound.{Sound}
use cwkeyer.Sound
use cwkeyer.Usb.Connection.{Connection, disconnect_device}
use cwkeyer.Serial.{SerialComm, SerialInv}
use cwkeyer.Serial
use cwkeyer.Serial.Proxy.{N1mmProxy, stop_proxy}
use cwkeyer.Remote.{Network, RemoteClient, trx, line_of, deactivate_mox, send_line}
use cwkeyer.Remote.Frame.{frame}
use cwkeyer.Remote.Session
use cwkeyer.Remote.Session.{close_connection}
use cwkeyer.Remote.Wire.{MoxInv, trx_after}
use cwkeyer.Remote.Events.{stop_lem}
use cwkeyer.Keyboard.{KeyboardListener, unhook}
use cwkeyer.Keyboard.Injection.{Keyboard, delete_keyboard}

-- The objects of the window.
pub record Parts (D : Type 0) : Type 0 where
  pub sound : Sound D
  pub device : Connection D
  pub keyer : System
  pub serial_comm : SerialComm
  pub serial_comm_in : N1mmProxy
  pub remote : RemoteClient
  pub keyboard : Keyboard
  pub keyboard_listener : KeyboardListener
  pub cw_decoder : CwDecoder

-- N1MMProxy::~N1MMProxy and then SerialComm::~SerialComm
unfoldable pub delete_proxy : N1mmProxy → N1mmProxy
delete_proxy p = let q = stop_proxy p in record q { port = Serial.stop q.port }

module _ {D : Type 0} (of_int : ℤ → D) (to_int : D → ℤ) (net : Network) where
  -- Sound::~Sound
  unfoldable pub delete_sound : Sound D → Sound D
  delete_sound s = record (Sound.stop s) { sink = none }

  -- UsbDevice::~UsbDevice; no result where its thread is joinable.
  unfoldable pub delete_device : Connection D → Option (Connection D)
  delete_device u = if u.joinable then none else some (record u { detected = none })

  -- The first half of quit: what it stops.
  unfoldable pub stop_parts : Parts D → Parts D
  stop_parts p = record p {
    sound = Sound.stop p.sound;
    device = disconnect_device of_int to_int p.device;
    serial_comm = Serial.stop p.serial_comm;
    serial_comm_in = stop_proxy p.serial_comm_in;
    remote = Session.stop net p.remote;
  }

  -- The second half, from the deletion of m_keyer on, with the device `u` deleted.
  unfoldable pub delete_others : Connection D → Parts D → Parts D
  unfolding delete_sound
  delete_others u p = record {
    keyer = record p.keyer { keyer = stop_keyer p.keyer.keyer };
    device = u;
    sound = delete_sound p.sound;
    serial_comm = Serial.stop p.serial_comm;
    serial_comm_in = delete_proxy p.serial_comm_in;
    remote = Session.stop net p.remote;
    keyboard = delete_keyboard p.keyboard;
    keyboard_listener = unhook p.keyboard_listener;
    cw_decoder = Decoder.stop p.cw_decoder;
  }

  unfoldable pub delete_parts : Parts D → Option (Parts D)
  unfolding delete_others
  delete_parts p = elim (delete_device p.device) [ none ↦ none | some u ↦ some (delete_others u p) ]

  -- GuiConnector::quit
  unfoldable pub quit : Parts D → Option (Parts D)
  unfolding stop_parts delete_parts
  quit p = delete_parts (stop_parts p)

  -- What quit leaves of the parts `p`: nothing runs but the keyer's thread, which has only been told to
  -- end; the key is up and its port closed, and the transmitter off; the port of the N1MM proxy is
  -- still open.
  pub record Ended (p q : Parts D) : Type 0 where
    pub keyer_told : q.keyer.keyer.started ≡ false
    pub keyer_threads : (q.keyer.waiting ≡ p.keyer.waiting) × (q.keyer.busy ≡ p.keyer.busy)
    pub silent : (q.sound.push_timer ≡ none) × (q.sound.sink ≡ none)
    pub unplugged : (q.device.connected ≡ false) × (q.device.detected ≡ none)
    pub key_up : q.serial_comm.lines.dtr ≡ false
    pub port_closed : (q.serial_comm.running ≡ false) × (q.serial_comm.opened ≡ 0)
    pub proxy_leaks :
        (q.serial_comm_in.thread ≡ false)
        × (q.serial_comm_in.port.opened ≡ p.serial_comm_in.port.opened)
    pub disconnected : (q.remote.running ≡ false) × (q.remote.socket_fd ≡ none)
    pub off_air : trx_after false q.remote.wire ≡ false
    pub unhooked : q.keyboard_listener.running ≡ false
    pub keyboard_closed : q.keyboard.opened ≡ false
    pub undecoding : q.cw_decoder.started ≡ false

  stop_again :
      (r : RemoteClient)
      → r.running ≡ false
      → ((Session.stop net r).running ≡ false)
        × ((Session.stop net r).socket_fd ≡ none)
        × ((Session.stop net r).wire ≡ r.wire)
  unfolding Session.stop close_connection
  stop_again r off = ground arith

  delete_proxy-leaks :
      (p : N1mmProxy)
      → p.port.running ≡ true
      → ((delete_proxy (stop_proxy p)).thread ≡ false)
        × ((delete_proxy (stop_proxy p)).port.opened ≡ p.port.opened)
  unfolding delete_proxy stop_proxy Serial.stop
  delete_proxy-leaks p on = ground arith

  serial_stop_lem :
      (s : SerialComm)
      → SerialInv s
      → s.running ≡ true
      → let t = Serial.stop (Serial.stop s) in
        (t.lines.dtr ≡ false) × (t.running ≡ false) × (t.opened ≡ 0)
  unfolding Serial.stop
  serial_stop_lem s v on = ground arith

  delete_device_lem :
      (u : Connection D)
      → u.connected ≡ u.joinable
      → let v = disconnect_device of_int to_int u in
        (delete_device v ≡ some (record v { detected = none })) × (v.connected ≡ false)
  unfolding delete_device disconnect_device
  delete_device_lem u h = ground arith

  delete_parts-some :
      (p : Parts D) (u : Connection D)
      → delete_device p.device ≡ some u
      → delete_parts p ≡ some (delete_others u p)
  unfolding delete_parts
  delete_parts-some p u e = rw (e, delete_parts) refl

  -- If no USB device is connected and its thread has been joined, the serial key and the N1MM proxy run,
  -- and the remote client runs in a state that its invariant allows over a network that takes one more
  -- frame, quit comes to its end when no other thread makes a call meanwhile. The sound and the decoder
  -- are then stopped, the listener is unhooked, and the keyer has been told to end, while its threads
  -- stand where they stood; the key is up with its port closed, the last thing that the server knows is
  -- that the transmitter is off, and the port of the N1MM proxy is still open.
  pub quit_lem :
      (p : Parts D)
      → p.device.connected ≡ false
      → p.device.joinable ≡ false
      → SerialInv p.serial_comm
      → p.serial_comm.running ≡ true
      → p.serial_comm_in.port.running ≡ true
      → MoxInv p.remote
      → p.remote.running ≡ true
      → net.accepts p.remote.sends (frame (net.mask p.remote.sends) (line_of (trx false))) ≡ true
      → (q : Parts D) × (quit p ≡ some q) × Ended p q
  unfolding quit delete_sound Sound.stop Decoder.stop unhook delete_keyboard stop_keyer
  quit_lem p unplugged joined serial on proxy mox up takes =
      let (deleted, gone) = delete_device_lem p.device (unplugged ∙ sym joined) in
      let (dtr, halted, closed) = serial_stop_lem p.serial_comm serial on in
      let (off, shut, idle, unscheduled, quiet) = stop_lem net p.remote mox up takes in
      let (again, still, wire) = stop_again (Session.stop net p.remote) off in
      let v = disconnect_device of_int to_int p.device in
      (
        delete_others (record v { detected = none }) (stop_parts p),
        delete_parts-some (stop_parts p) (record v { detected = none }) deleted,
        record {
          keyer_told = ground arith;
          keyer_threads = (refl, refl);
          silent = (refl, refl);
          unplugged = (gone, refl);
          key_up = dtr;
          port_closed = (halted, closed);
          proxy_leaks = delete_proxy-leaks p.serial_comm_in proxy;
          disconnected = (again, still);
          off_air = ap (trx_after false) wire ∙ quiet;
          unhooked = refl;
          keyboard_closed = ground arith;
          undecoding = refl;
        },
      )

  -- If the USB device is not connected but its thread is still joinable, as connectDevice leaves it where
  -- the interface cannot be claimed, quit ends the program before its end.
  quit_terminates :
      (p : Parts D) → p.device.connected ≡ false → p.device.joinable ≡ true → quit p ≡ none
  unfolding quit delete_device disconnect_device
  quit_terminates p off stray = ground arith
