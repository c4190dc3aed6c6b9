-- ===== src/Usb/Connection.antt =====
-- initDevice, connectDevice and disconnectDevice of App/usb/UsbDevice.cpp.
use cwkeyer.Base.{
  ℕ, ◌≡◌, refl, Bool, true, false, ◌&&◌, not, List, Option, none, some, if◌then◌else◌, arith, ◌||◌,
}
use cwkeyer.Base.Int.{ℤ}
use cwkeyer.Base.Text.{codes}
use cwkeyer.Configuration.{
  JsonObject, Result, returns, throws, undefined, Disk, get_value, remove_value, remove,
  write_full_json, read_full_json,
}
use cwkeyer.Usb.Device.{Device, from_json}

-- m_detectedDevice, m_connected, and whether m_threadTask is joinable, with the configuration file.
pub record Connection (D : Type 0) : Type 0 where
  pub detected : Option Device
  pub connected : Bool
  pub joinable : Bool
  pub disk : Disk D

-- A call is done, throws, assigns to a joinable thread (std::terminate), or reads the interface of
-- a device that has none.
pub data Outcome (D : Type 0) : Type 0 where
  done : Connection D → Outcome D
  fails : Outcome D
  terminates : Outcome D
  crashes : Outcome D

abbrev pub has : {A : Type 0} → Option A → Bool
has none = false
has (some a) = true

abbrev pub config_name : List ℕ
config_name = codes "device-usb"

abbrev pub has_interface : Option Device → Bool
has_interface none = true
has_interface (some d) = has d.interface

module _ {D : Type 0} (of_int : ℤ → D) (to_int : D → ℤ) where
  -- The device to start with: the one that is known, or else the one in the file.
  detected_by : Option (JsonObject D) → Option Device
  detected_by none = none
  detected_by (some o) = some (from_json of_int to_int o)

  load_with : Result (Option (JsonObject D)) → Connection D → Outcome D
  unfolding detected_by
  load_with (returns o) u = done (record u { detected = detected_by o })
  load_with throws u = fails
  load_with undefined u = fails

  load_device : Connection D → Outcome D
  unfolding load_with
  load_device u = if has u.detected then done u else load_with (get_value config_name u.disk) u

  -- The new thread: taskRunnable sets m_connected if it claims the interface (`claimed`) within the
  -- half second that connectDevice waits.
  start_thread : Bool → Connection D → Outcome D
  start_thread claimed u =
      if has u.detected && not u.connected
      then (if u.joinable
          then terminates
          else if not (has_interface u.detected)
          then crashes
          else done (record u { joinable = true; connected = claimed }))
      else done u

  removed : Result (Disk D) → Connection D → Outcome D
  removed (returns d) u = done (record u { disk = d })
  removed throws u = fails
  removed undefined u = fails

  forget : Connection D → Outcome D
  unfolding removed
  forget u =
      if not (has u.detected) || not u.connected
      then removed (remove_value config_name u.disk) u
      else done u

  next : Outcome D → (Connection D → Outcome D) → Outcome D
  next (done u) f = f u
  next fails f = fails
  next terminates f = terminates
  next crashes f = crashes

  -- connectDevice; it returns `detected`. initDevice is the same call.
  unfoldable pub connect_device : Bool → Connection D → Outcome D
  unfolding load_device start_thread forget next
  connect_device claimed u = next (next (load_device u) (start_thread claimed)) forget

  -- disconnectDevice; it returns `detected`.
  unfoldable pub disconnect_device : Connection D → Connection D
  disconnect_device u = if u.connected then record u { connected = false; joinable = false } else u

  -- A known device, with an interface and no thread.
  pub record Ready (u : Connection D) : Type 0 where
    pub known : has u.detected ≡ true
    pub usable : has_interface u.detected ≡ true
    pub free : u.joinable ≡ false
    pub off : u.connected ≡ false

  -- A device that is ready and whose interface can be claimed is connected by connectDevice, which
  -- keeps it in the file; disconnectDevice makes it ready again.
  pub connect-disconnect :
      (u : Connection D)
      → Ready u
      → (v : Connection D) × (connect_device true u ≡ done v)
        × (v.connected ≡ true)
        × (v.detected ≡ u.detected)
        × (v.disk ≡ u.disk)
        × Ready (disconnect_device v)
  unfolding connect_device disconnect_device load_device start_thread forget next
  connect-disconnect u h = (
    record u { joinable = true; connected = true },
    ground (arith, h.known, h.usable, h.free, h.off),
    refl,
    refl,
    refl,
    record { known = h.known; usable = h.usable; free = refl; off = refl },
  )

  -- For a known device with an interface and no thread, whose configuration file can be written: if
  -- its interface cannot be claimed, connectDevice returns with the device not connected, and the
  -- next call of connectDevice ends the program.
  pub second_connect_terminates :
      (u : Connection D) (claimed : Bool)
      → Ready u
      → u.disk.writable ≡ true
      → (v : Connection D) × (connect_device false u ≡ done v)
        × (v.connected ≡ false)
        × (connect_device claimed v ≡ terminates)
  unfolding connect_device load_device start_thread forget next removed remove_value write_full_json
  second_connect_terminates u claimed h w = (
    record u {
      joinable = true;
      connected = false;
      disk = record u.disk {
        present = true;
        root = some (remove config_name (read_full_json u.disk));
      };
    },
    ground (arith, h.known, h.usable, h.free, h.off),
    refl,
    ground (arith, h.known, h.usable, h.free, h.off),
  )
