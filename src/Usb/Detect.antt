-- ===== src/Usb/Detect.antt =====
-- manageDevices, searchDeviceInterfaceAvailable and detectDevice of App/usb/UsbDevice.cpp.
-- libusb and the waits between the rounds are parameters: what each call of manageDevices lists, and
-- what libusb answers in each call of tryToRead. So is insert of std::set<Device>, since operator< is
-- no order. searchDeviceInterfaceAvailable returns a pointer to a local variable; `read_back` is what
-- setInterface reads there once the variable is gone. Where an assertion fails, or tryToRead ends the
-- program, there is no result (`none`); an empty list stands for a count that is not above 0.
use cwkeyer.Base.{
  ℕ, zero, suc, Bool, true, false, List, [], ◌∷◌, Option, none, some, if◌then◌else◌, not, ◌>>=◌,
}
use cwkeyer.Base.Int.{ℤ}
use cwkeyer.Configuration.{returns, throws, undefined, put_object}
use cwkeyer.Usb.Device.{Device, DeviceInterface, device_eq, to_json}
use cwkeyer.Usb.Connection.{Connection, Outcome, done, fails, crashes, config_name}
use cwkeyer.Usb.Probe.{Libusb, try_to_read}

pub record Endpoint : Type 0 where
  pub address : ℤ
  pub max_packet_size : ℤ

pub record AltSetting : Type 0 where
  pub interface_number : ℤ
  pub endpoints : List Endpoint

-- A device on the bus, with the settings of each interface of its active configuration, and whether its
-- descriptor and its configuration can be read.
pub record Descriptor : Type 0 where
  pub descriptor_read : Bool
  pub config_read : Bool
  pub id_vendor : ℤ
  pub id_product : ℤ
  pub interfaces : List (List AltSetting)

abbrev pub device_of : Descriptor → Device
device_of x = record {
  vendor_id = x.id_vendor;
  product_id = x.id_product;
  path = none;
  interface = none;
}

-- What surrounds a detection.
pub record Bus : Type 0 where
  pub listed : ℕ → List Descriptor
  pub probe : ℕ → Libusb
  pub read_back : DeviceInterface → DeviceInterface
  pub into_set : Device → List Device → List Device

-- The first device of the second list that is not in the first.
unfoldable pub contains_device : List Device → Device → Bool
contains_device [] dn = false
contains_device (d ∷ ds) dn =
    let more = contains_device ds dn in if device_eq d dn then true else more

unfoldable pub find_new : List Device → List Device → Option Device
find_new devices [] = none
find_new devices (dn ∷ dns) =
    let more = find_new devices dns in if contains_device devices dn then more else some dn

-- The loop over finalDevice keeps the last.
unfoldable pub last_device : List Device → Option Device
last_device [] = none
last_device (d ∷ []) = some d
last_device (d ∷ e ∷ ds) = last_device (e ∷ ds)

module _ (bus : Bus) where
  -- The loops of searchDeviceInterfaceAvailable, from call number n of tryToRead on.
  unfoldable pub search_endpoints : ℤ → List Endpoint → ℕ → Option (Option DeviceInterface × ℕ)
  search_endpoints num [] n = some (none, n)
  search_endpoints num (e ∷ es) n =
      let more = search_endpoints num es (suc n) in
      let found : DeviceInterface = record {
        interface_num = num;
        endpoint = e.address;
        packet_size = e.max_packet_size;
      } in
      do read ← (try_to_read (bus.probe n)).1; if read then some (some found, suc n) else more

  abbrev pub or_search :
      (ℕ → Option (Option DeviceInterface × ℕ))
      → Option DeviceInterface × ℕ
      → Option (Option DeviceInterface × ℕ)
  or_search rest (none, m) = rest m
  or_search rest (some i, m) = some (some i, m)

  unfoldable pub search_settings : List AltSetting → ℕ → Option (Option DeviceInterface × ℕ)
  search_settings [] n = some (none, n)
  search_settings (a ∷ rest) n = do
    r ← search_endpoints a.interface_number a.endpoints n
    or_search (λ m. search_settings rest m) r

  unfoldable pub search_interfaces :
      List (List AltSetting) → ℕ → Option (Option DeviceInterface × ℕ)
  search_interfaces [] n = some (none, n)
  search_interfaces (i ∷ rest) n = do
    r ← search_settings i n
    or_search (λ m. search_interfaces rest m) r

  -- searchDeviceInterfaceAvailable
  unfoldable pub search_device : Descriptor → ℕ → Option (Option DeviceInterface × ℕ)
  search_device x n = if x.config_read then search_interfaces x.interfaces n else none

  -- `vp` with its interface, if there is one, put into devicesLocal.
  unfoldable pub with_found : Descriptor → Option DeviceInterface → List Device → List Device
  with_found x none local = local
  with_found x (some i) local =
      bus.into_set (record (device_of x) { interface = some (bus.read_back i) }) local

  -- manageDevices over the rest of the list, with devicesLocal so far.
  unfoldable pub manage_rest :
      Option Device → List Descriptor → ℕ → List Device → Option (List Device × ℕ)
  unfolding with_found search_device
  manage_rest to_try [] n local = some (local, n)
  manage_rest none (x ∷ xs) n local =
      let rest = manage_rest none xs n (bus.into_set (device_of x) local) in
      if x.descriptor_read then rest else none
  manage_rest (some d) (x ∷ xs) n local =
      let skip = manage_rest (some d) xs n local in
      let take =
        search_device x n >>= (λ r. manage_rest (some d) xs r.1 (with_found x r.0 local)) in
      if not x.descriptor_read then none else if device_eq (device_of x) d then take else skip

  unfoldable pub manage_devices : Option Device → ℕ → ℕ → Option (List Device × ℕ)
  unfolding manage_rest
  manage_devices to_try m n = elim (bus.listed m) [
    | [] ↦ none
    | x ∷ xs ↦ manage_rest to_try (x ∷ xs) n []
  ]

  -- The rounds of detectDevice that are left; m counts the calls of manageDevices.
  unfoldable pub detect_rounds : ℕ → List Device → ℕ → ℕ → Option (Option Device)
  detect_rounds zero devices m n = some none
  detect_rounds (suc left) devices m n = do
    now ← manage_devices none m n
    elim (find_new devices now.0) [
      | none ↦ detect_rounds left devices (suc m) n
      | some dn ↦ do
        final ← manage_devices (some dn) (suc m) n
        elim (last_device final.0) [
          | none ↦ detect_rounds left devices (suc (suc m)) final.1
          | some d ↦ some (some d)
        ]
    ]

  -- The devices that are there at the start, and the device that the rounds find.
  unfoldable pub detected_device : Option (List Device × Option Device)
  unfolding manage_devices detect_rounds
  detected_device = do
    present ← manage_devices none 0 0
    found ← detect_rounds 10 present.0 1 0
    some (present.0, found)

  module _ {D : Type 0} (of_int : ℤ → D) (to_int : D → ℤ) where
    unfoldable pub saved : Option Device → Connection D → Outcome D
    saved none u = done u
    saved (some d) u = elim (put_object config_name (to_json of_int to_int d) u.disk) [
      | returns disk ↦ done (record u { disk = disk })
      | throws ↦ fails
      | undefined ↦ fails
    ]

    -- detectDevice; it returns `detected`.
    unfoldable pub detect_device : Connection D → Outcome D
    unfolding detected_device saved
    detect_device u = elim detected_device [
      | none ↦ crashes
      | some (present, found) ↦ saved found (record u { detected = found })
    ]
