-- ===== src/Usb/Tests.antt =====
-- Reports of a paddle on USB at concrete inputs.
use cwkeyer.Base.{
  ℕ, ◌≡◌, refl, Bool, true, false, List, [], ◌∷◌, some, none, ◌⊎◌, leb, ◌==◌, if◌then◌else◌,
}
use cwkeyer.Paddle.{on_dit, on_dah, dit_after, dah_after, Edges}
use cwkeyer.Usb.{
  UsbDevice, Status, completed, timed_out, cb_interrupt, on_report, both_clicked, clicked,
  send_dit_dah, send_dit, send_dah,
}
use cwkeyer.Base.Int.{ℤ, pos}
use cwkeyer.Usb.Device.{Device, to_json}
use cwkeyer.Usb.Connection.{
  Connection, done, terminates, Ready, connect_device, second_connect_terminates,
}
use cwkeyer.Configuration.{insert, object, read_full_json}
use cwkeyer.Usb.Connection.{config_name, has}
use cwkeyer.Usb.Probe.{
  Libusb, hand_back, try_to_read, attach_device, read_loop, after_calls, untouched, ReadsAt,
  try_to_read_lem,
}
use cwkeyer.Usb.Detect.{Bus, Descriptor, contains_device, manage_devices, detect_device}
use cwkeyer.Usb.Detection.{Healthy, AllRead, detect_device_lem}
use cwkeyer.Usb.Reports.{Told, run}

abbrev at_rest : UsbDevice
at_rest = record { dit = false; dah = false; calls = [] }

at_rest-Told : Told at_rest
unfolding Edges dit_after dah_after
at_rest-Told = record { edges = tt; dit_known = refl; dah_known = refl }

abbrev reports : List (Status × List ℕ)
reports = (completed, 3 ∷ []) ∷ (timed_out, []) ∷ (completed, 0 ∷ 0 ∷ 0 ∷ 7 ∷ []) ∷ []

abbrev after : UsbDevice
after = record { dit = false; dah = true; calls = on_dit true ∷ on_dah true ∷ on_dit false ∷ [] }

runs_reports : run reports at_rest ≡ some after
unfolding run cb_interrupt on_report both_clicked clicked send_dit_dah send_dit send_dah
runs_reports = refl

abbrev whole : ℤ → ℤ
whole n = n

abbrev paddle : Device
paddle = record {
  vendor_id = pos 0x413d;
  product_id = pos 0x2107;
  path = none;
  interface = some (record { interface_num = pos 0; endpoint = pos 0x81; packet_size = pos 8 });
}

abbrev other : Device
other = record paddle { product_id = pos 7 }

abbrev ready : Connection ℤ
ready = record {
  detected = some paddle;
  connected = false;
  joinable = false;
  disk = record { present = true; readable = true; writable = true; root = none };
}

ready-Ready : Ready whole whole ready
ready-Ready = record { known = refl; usable = refl; free = refl; off = refl }

second_connect_terminates_example :
    (v : Connection ℤ) × (connect_device whole whole false ready ≡ done v)
    × (v.connected ≡ false)
    × (connect_device whole whole true v ≡ terminates)
second_connect_terminates_example =
    second_connect_terminates whole whole ready true ready-Ready refl

-- Libusb where the second transfer reads eight octets.
abbrev answering : Libusb
answering = record {
  opens_handle = true;
  can_detach = true;
  driver_active = true;
  detach_succeeds = true;
  claim_succeeds = true;
  attach_succeeds = true;
  transfer = λ k. if k == 0 then some 0 else some 8;
}

try_to_read_lem_example :
    (after_calls answering (try_to_read answering).0 untouched ≡ some untouched)
    × (((try_to_read answering).1 ≡ some false)
        ⊎ (((try_to_read answering).1 ≡ some true)
            × (true ≡ true)
            × ((j : ℕ) × ReadsAt answering.transfer 5 0 j)))
try_to_read_lem_example = try_to_read_lem answering refl refl

detects : (try_to_read answering).1 ≡ some true
unfolding try_to_read attach_device read_loop hand_back
detects = refl

-- A bus on which the paddle appears with the third list.
abbrev hub : Descriptor
hub = record {
  descriptor_read = true;
  config_read = true;
  id_vendor = pos 1;
  id_product = pos 2;
  interfaces = [];
}

abbrev plugged : Descriptor
plugged = record {
  descriptor_read = true;
  config_read = true;
  id_vendor = pos 0x413d;
  id_product = pos 0x2107;
  interfaces =
      (record {
        interface_number = pos 0;
        endpoints = record { address = pos 0x81; max_packet_size = pos 8 } ∷ [];
      }
        ∷ [])
      ∷ [];
}

abbrev bus : Bus
bus = record {
  listed = λ m. if leb 2 m then hub ∷ plugged ∷ [] else hub ∷ [];
  probe = λ n. answering;
  read_back = λ i. i;
  into_set = λ d s. d ∷ s;
}

bus-Healthy : Healthy bus
unfolding try_to_read attach_device read_loop hand_back
bus-Healthy = record {
  probes = λ n. (true, refl);
  lists = λ m. (hub, (if leb 2 m then plugged ∷ [] else []), in_list (leb 2 m), read (leb 2 m));
}
  where
    in_list :
        (b : Bool)
        → (if b then hub ∷ plugged ∷ [] else hub ∷ []) ≡ hub ∷ (if b then plugged ∷ [] else [])
    in_list true = refl
    in_list false = refl

    read : (b : Bool) → AllRead (hub ∷ (if b then plugged ∷ [] else []))
    read true = (refl, refl, (refl, refl, tt))
    read false = (refl, refl, tt)

detect_device_lem_example :
    (present : List Device × ℕ) × (v : Connection ℤ) × (manage_devices bus none 0 0 ≡ some present)
    × (detect_device bus whole whole ready ≡ done v)
    × (((v.detected ≡ none) × (v.disk ≡ ready.disk))
        ⊎ ((d : Device) × (v.detected ≡ some d)
            × (contains_device present.0 d ≡ false)
            × (has d.interface ≡ true)
            × (v.disk.root
                ≡ some (
                    insert config_name
                      (object (to_json whole whole d))
                      (read_full_json ready.disk)))))
detect_device_lem_example =
    detect_device_lem whole whole bus ready (λ P d s p all. (p, all)) bus-Healthy refl
