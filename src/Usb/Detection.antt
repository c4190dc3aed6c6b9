-- ===== src/Usb/Detection.antt =====
-- What detectDevice of App/usb/UsbDevice.cpp finds.
use cwkeyer.Base.{
  Returns, if-Returns, ◌>>=◌, ℕ, zero, suc, ◌≡◌, refl, ◌∙◌, ◌⊎◌, inl, inr, true, false, List, [],
  ◌∷◌, Option, none, some, arith, Bool-cases, Option-cases,
}
use cwkeyer.Base.Int.{ℤ}
use cwkeyer.Configuration.{put_object, put, write_full_json, insert, object, read_full_json}
use cwkeyer.Usb.Device.{Device, DeviceInterface, device_eq, to_json}
use cwkeyer.Usb.Connection.{Connection, done, config_name, has}
use cwkeyer.Usb.Probe.{try_to_read}
use cwkeyer.Usb.Detect.{
  Bus, Descriptor, AltSetting, Endpoint, device_of, contains_device, find_new, last_device,
  search_endpoints, search_settings, or_search, search_device, search_interfaces, with_found,
  manage_rest, manage_devices, detect_rounds, detected_device, saved, detect_device,
}

abbrev pub AllOf : (Device → Type 0) → List Device → Type 0
AllOf P [] = Unit {0}
AllOf P (d ∷ ds) = P d × AllOf P ds

-- The device that is looked for, with an interface.
abbrev IsFound : Device → Device → Type 0
IsFound dn d = (device_eq d dn ≡ true) × (has d.interface ≡ true)

last-AllOf :
    (P : Device → Type 0) (ds : List Device) (d : Device)
    → AllOf P ds
    → last_device ds ≡ some d
    → P d
unfolding last_device
last-AllOf P [] d a e = absurd (cc)
last-AllOf P (x ∷ []) d a e = ground arith
last-AllOf P (x ∷ y ∷ ds) d a e = last-AllOf P (y ∷ ds) d a.1 e

find_new-is_new :
    (devices dns : List Device) (dn : Device)
    → find_new devices dns ≡ some dn
    → contains_device devices dn ≡ false
unfolding find_new
find_new-is_new devices [] dn e = absurd (cc)
find_new-is_new devices (x ∷ dns) dn e = elim (Bool-cases (contains_device devices x)) [
  | inl h ↦ find_new-is_new devices dns dn (ground arith)
  | inr h ↦ ground arith
]

device_eq-replace : (d d' dn : Device) → device_eq d' dn ≡ true → device_eq d d' ≡ device_eq d dn
unfolding device_eq
device_eq-replace d d' dn h = ground arith

contains_device-replace :
    (devices : List Device) (d dn : Device)
    → device_eq d dn ≡ true
    → contains_device devices d ≡ contains_device devices dn
unfolding contains_device
contains_device-replace [] d dn h = refl
contains_device-replace (x ∷ xs) d dn h =
    ground (arith, device_eq-replace x d dn h, contains_device-replace xs d dn h)

-- A device that was not there before, with an interface.
abbrev IsNew : List Device → Option Device → Type 0
IsNew devices none = Unit {0}
IsNew devices (some d) = (contains_device devices d ≡ false) × (has d.interface ≡ true)

abbrev pub AllRead : List Descriptor → Type 0
AllRead [] = Unit {0}
AllRead (x ∷ xs) = (x.descriptor_read ≡ true) × (x.config_read ≡ true) × AllRead xs

-- Each list has a device, all descriptors can be read, and tryToRead returns.
pub record Healthy (bus : Bus) : Type 0 where
  pub probes : (n : ℕ) → Returns (try_to_read (bus.probe n)).1
  pub lists :
      (m : ℕ)
      → (x : Descriptor) × (xs : List Descriptor) × (bus.listed m ≡ x ∷ xs) × AllRead (x ∷ xs)

module _ (bus : Bus)
    (keeps : (P : Device → Type 0) (d : Device) (s : List Device)
      → P d
      → AllOf P s
      → AllOf P (bus.into_set d s)) where
  with_found-AllOf :
      (x : Descriptor) (dn : Device) (found : Option DeviceInterface) (local : List Device)
      → device_eq (device_of x) dn ≡ true
      → AllOf (IsFound dn) local
      → AllOf (IsFound dn) (with_found bus x found local)
  unfolding with_found device_eq
  with_found-AllOf x dn none local e a = a
  with_found-AllOf x dn (some i) local e a =
      keeps (IsFound dn) (record (device_of x) { interface = some (bus.read_back i) }) local
        (e, refl) a

  module _ (healthy : Healthy bus) where
    or_search-Returns :
        (rest : ℕ → Option (Option DeviceInterface × ℕ)) (r : Option DeviceInterface × ℕ)
        → ((m : ℕ) → Returns (rest m))
        → Returns (or_search bus rest r)
    or_search-Returns rest (none, m) h = h m
    or_search-Returns rest (some i, m) h = (_, refl)

    search_endpoints-Returns :
        (num : ℤ) (es : List Endpoint) (n : ℕ) → Returns (search_endpoints bus num es n)
    unfolding search_endpoints
    search_endpoints-Returns num [] n = (_, refl)
    search_endpoints-Returns num (e ∷ es) n =
        let (b, q) = healthy.probes n in
        rw q (if-Returns b _ _ (_, refl) (search_endpoints-Returns num es (suc n)))

    search_settings-Returns : (ss : List AltSetting) (n : ℕ) → Returns (search_settings bus ss n)
    unfolding search_settings
    search_settings-Returns [] n = (_, refl)
    search_settings-Returns (a ∷ ss) n =
        let (r, q) = search_endpoints-Returns a.interface_number a.endpoints n in
        rw q (or_search-Returns _ r (λ m. search_settings-Returns ss m))

    search_interfaces-Returns :
        (is : List (List AltSetting)) (n : ℕ) → Returns (search_interfaces bus is n)
    unfolding search_interfaces
    search_interfaces-Returns [] n = (_, refl)
    search_interfaces-Returns (i ∷ is) n =
        let (r, q) = search_settings-Returns i n in
        rw q (or_search-Returns _ r (λ m. search_interfaces-Returns is m))

    search_device-Returns :
        (x : Descriptor) (n : ℕ) → x.config_read ≡ true → Returns (search_device bus x n)
    unfolding search_device
    search_device-Returns x n c = rw c (search_interfaces-Returns x.interfaces n)

    manage_all-Returns :
        (xs : List Descriptor) (n : ℕ) (local : List Device)
        → AllRead xs
        → Returns (manage_rest bus none xs n local)
    unfolding manage_rest
    manage_all-Returns [] n local a = (_, refl)
    manage_all-Returns (x ∷ xs) n local (d, c, a) = rw d (manage_all-Returns xs n _ a)

    -- The devices with an interface that is to be tried.
    manage_rest-AllOf :
        (dn : Device) (xs : List Descriptor) (n : ℕ) (local : List Device)
        → AllRead xs
        → AllOf (IsFound dn) local
        → (r : List Device × ℕ) × (manage_rest bus (some dn) xs n local ≡ some r)
          × AllOf (IsFound dn) r.0
    unfolding manage_rest
    manage_rest-AllOf dn [] n local h a = ((local, n), refl, a)
    manage_rest-AllOf dn (x ∷ xs) n local (d, c, h) a =
        elim (Bool-cases (device_eq (device_of x) dn)) [
          | inr e ↦ rw (d, e) (manage_rest-AllOf dn xs n local h a)
          | inl e ↦
              let ((found, m), q) = search_device-Returns x n c in
              let b = with_found-AllOf x dn found local e a in
              rw (d, e, q) (manage_rest-AllOf dn xs m (with_found bus x found local) h b)
        ]

    manage_devices-Returns : (m n : ℕ) → Returns (manage_devices bus none m n)
    unfolding manage_devices
    manage_devices-Returns m n =
        let (x, xs, e, a) = healthy.lists m in
        rw (e, manage_devices) (manage_all-Returns (x ∷ xs) n [] a)

    manage_devices-AllOf :
        (dn : Device) (m n : ℕ)
        → (r : List Device × ℕ) × (manage_devices bus (some dn) m n ≡ some r)
          × AllOf (IsFound dn) r.0
    unfolding manage_devices
    manage_devices-AllOf dn m n =
        let (x, xs, e, a) = healthy.lists m in
        rw (e, manage_devices) (manage_rest-AllOf dn (x ∷ xs) n [] a tt)

    -- The rounds come to an end, and a device that they find is new and has an interface.
    detect_rounds-IsNew :
        (left : ℕ) (devices : List Device) (m n : ℕ)
        → (o : Option Device) × (detect_rounds bus left devices m n ≡ some o) × IsNew devices o
    unfolding detect_rounds
    detect_rounds-IsNew zero devices m n = (none, refl, tt)
    detect_rounds-IsNew (suc left) devices m n =
        let (now, q) = manage_devices-Returns m n in
        rw q (
          find_in (find_new devices now.0) now.0 refl
            (λ m' n'. detect_rounds-IsNew left devices m' n'))
      where
        find_in :
            (o : Option Device) (now : List Device)
            → find_new devices now ≡ o
            → ((m' n' : ℕ)
                → (p : Option Device) × (detect_rounds bus left devices m' n' ≡ some p)
                  × IsNew devices p)
            → (p : Option Device) × ((elim o [
              | none ↦ detect_rounds bus left devices (suc m) n
              | some dn ↦ do
                final ← manage_devices bus (some dn) (suc m) n
                elim (last_device final.0) [
                  | none ↦ detect_rounds bus left devices (suc (suc m)) final.1
                  | some d ↦ some (some d)
                ]
            ])
                ≡ some p)
              × IsNew devices p
        find_in none now h rest = rest (suc m) n
        find_in (some dn) now h rest =
            let (final, q, all) = manage_devices-AllOf dn (suc m) n in
            elim (Option-cases (last_device final.0)) [
              | inl g ↦ rw (q, g, ◌>>=◌) (rest (suc (suc m)) final.1)
              | inr (d, g) ↦
                  let found = last-AllOf (IsFound dn) final.0 d all g in
                  (
                    some d,
                    rw (q, g, ◌>>=◌) refl,
                    (
                      contains_device-replace devices d dn found.0
                          ∙ find_new-is_new devices now dn h,
                      found.1,
                    ),
                  )
            ]

module _ {D : Type 0} (of_int : ℤ → D) (to_int : D → ℤ) (bus : Bus) (u : Connection D)
    (w : u.disk.writable ≡ true) where
  stored :
      (found : Option Device) (present : List Device × ℕ)
      → manage_devices bus none 0 0 ≡ some present
      → detect_rounds bus 10 present.0 1 0 ≡ some found
      → IsNew present.0 found
      → (present : List Device × ℕ) × (v : Connection D) × (manage_devices bus none 0 0
          ≡ some present)
        × (detect_device bus of_int to_int u ≡ done v)
        × (((v.detected ≡ none) × (v.disk ≡ u.disk))
            ⊎ ((d : Device) × (v.detected ≡ some d)
                × (contains_device present.0 d ≡ false)
                × (has d.interface ≡ true)
                × (v.disk.root
                    ≡ some (
                        insert config_name
                          (object (to_json of_int to_int d))
                          (read_full_json u.disk)))))
  unfolding detect_device detected_device saved put_object put write_full_json
  stored none present p e is_new = (
    present,
    record u { detected = none },
    p,
    rw (p, e, detect_device, detected_device) refl,
    inl (refl, refl),
  )
  stored (some d) present p e (is_new, usable) = (
    present,
    record u {
      detected = some d;
      disk = record u.disk {
        present = true;
        root = some (insert config_name (object (to_json of_int to_int d)) (read_full_json u.disk));
      };
    },
    p,
    rw (p, e, detect_device, detected_device) (rw w refl),
    inr (d, refl, is_new, usable, refl),
  )

-- Where the insert of std::set leaves nothing but what was there and what is inserted, the
-- configuration file can be written, each list that libusb gives has a device, the descriptors can be
-- read, and each tryToRead returns, detectDevice returns, whatever is plugged in. If it finds a device,
-- then that was not there at the start, it has an interface, and it is what the file now holds;
-- otherwise no device is known any more, and the file is as before.
pub detect_device_lem :
    {D : Type 0} (of_int : ℤ → D) (to_int : D → ℤ) (bus : Bus) (u : Connection D)
    → ((P : Device → Type 0) (d : Device) (s : List Device)
        → P d
        → AllOf P s
        → AllOf P (bus.into_set d s))
    → Healthy bus
    → u.disk.writable ≡ true
    → (present : List Device × ℕ) × (v : Connection D) × (manage_devices bus none 0 0
        ≡ some present)
      × (detect_device bus of_int to_int u ≡ done v)
      × (((v.detected ≡ none) × (v.disk ≡ u.disk))
          ⊎ ((d : Device) × (v.detected ≡ some d)
              × (contains_device present.0 d ≡ false)
              × (has d.interface ≡ true)
              × (v.disk.root
                  ≡ some (
                      insert config_name
                        (object (to_json of_int to_int d))
                        (read_full_json u.disk)))))
detect_device_lem of_int to_int bus u keeps healthy w =
    let (present, p) = manage_devices-Returns bus keeps healthy 0 0 in
    let (found, e, is_new) = detect_rounds-IsNew bus keeps healthy 10 present.0 1 0 in
    stored of_int to_int bus u w found present p e is_new
