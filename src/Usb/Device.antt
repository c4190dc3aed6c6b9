-- ===== src/Usb/Device.antt =====
-- App/usb/Device.cpp, Device.h, DeviceInterface.h: the identity of a device and its JSON form.
use cwkeyer.Base.{
  ℕ, Bool, true, false, ◌&&◌, not, List, [], Option, none, some, ◌==◌, ◌≡◌, refl, arith,
}
use cwkeyer.Base.Int.{ℤ, pos, neg_part, pos_part}
use cwkeyer.Base.Text.{codes}
use cwkeyer.Configuration.{JsonValue, number, text, object, JsonObject, end, find, insert}

pub record DeviceInterface : Type 0 where
  pub interface_num : ℤ
  pub endpoint : ℤ
  pub packet_size : ℤ

pub record Device : Type 0 where
  pub vendor_id : ℤ
  pub product_id : ℤ
  pub path : Option (List ℕ)
  pub interface : Option DeviceInterface

-- DeviceInterface(int, int, int), and the copy that DeviceInterface(DeviceInterface *) makes.
unfoldable pub new_interface : ℤ → ℤ → ℤ → DeviceInterface
new_interface num endpoint packet_size = record {
  interface_num = num;
  endpoint = endpoint;
  packet_size = packet_size;
}

unfoldable pub copy_interface : DeviceInterface → DeviceInterface
unfolding new_interface
copy_interface i = new_interface i.interface_num i.endpoint i.packet_size

-- Device(int, int)
unfoldable pub new_device : ℤ → ℤ → Device
new_device vendor_id product_id = record {
  vendor_id = vendor_id;
  product_id = product_id;
  path = none;
  interface = none;
}

-- setPath and setInterface, which the other constructors do as well.
unfoldable pub set_path : Option (List ℕ) → Device → Device
set_path path d = record d { path = path }

unfoldable pub set_interface : Option DeviceInterface → Device → Device
unfolding copy_interface
set_interface none d = d
set_interface (some i) d = record d { interface = some (copy_interface i) }

abbrev pub int_eq : ℤ → ℤ → Bool
int_eq a b = pos_part a == pos_part b && (neg_part a == neg_part b)

-- operator== and operator<
unfoldable pub device_eq : Device → Device → Bool
device_eq l r = int_eq l.vendor_id r.vendor_id && int_eq l.product_id r.product_id

unfoldable pub device_lt : Device → Device → Bool
device_lt l r = not (int_eq l.vendor_id r.vendor_id && int_eq l.product_id r.product_id)

-- Any two devices that differ are each less than the other, so operator< is no strict order.
device_lt_both :
    (l r : Device) → device_eq l r ≡ false → (device_lt l r ≡ true) × (device_lt r l ≡ true)
unfolding device_eq device_lt
device_lt_both l r h = ground arith

module _ {D : Type 0} (of_int : ℤ → D) (to_int : D → ℤ) where
  unfoldable pub interface_to_json : DeviceInterface → JsonObject D
  interface_to_json i = insert (codes "packetSize") (number (of_int i.packet_size)) (
      insert (codes "endpoint") (number (of_int i.endpoint))
        (insert (codes "interface") (number (of_int i.interface_num)) end))

  -- o[key].toInt(), of a missing key 0.
  int_value : Option (JsonValue D) → ℤ
  int_value (some (number x)) = to_int x
  int_value _ = pos 0

  unfoldable pub interface_from_json : JsonObject D → DeviceInterface
  unfolding int_value new_interface
  interface_from_json o =
      new_interface (int_value (find (codes "interface") o)) (int_value (find (codes "endpoint") o))
        (int_value (find (codes "packetSize") o))

  put_path : Option (List ℕ) → JsonObject D → JsonObject D
  put_path none o = o
  put_path (some p) o = insert (codes "path") (text p) o

  put_interface : Option DeviceInterface → JsonObject D → JsonObject D
  put_interface none o = o
  put_interface (some i) o = insert (codes "interface") (object (interface_to_json i)) o

  -- Device::toJson
  unfoldable pub to_json : Device → JsonObject D
  unfolding put_path put_interface
  to_json d =
      let ids =
        insert (codes "product_id") (number (of_int d.product_id))
          (insert (codes "vendor_id") (number (of_int d.vendor_id)) end) in
      put_interface d.interface (put_path d.path ids)

  text_value : JsonValue D → List ℕ
  text_value (text s) = s
  text_value _ = []

  object_value : JsonValue D → JsonObject D
  object_value (object o) = o
  object_value _ = end

  with_interface : Device → Option (JsonValue D) → Device
  unfolding object_value set_interface
  with_interface d none = d
  with_interface d (some v) = set_interface (some (interface_from_json (object_value v))) d

  with_path : Device → Option (JsonValue D) → Option (JsonValue D) → Device
  unfolding text_value with_interface set_path
  with_path d (some v) i = set_path (some (text_value v)) d
  with_path d none i = with_interface d i

  -- Device::fromJson: a path comes first, and then no interface is read.
  unfoldable pub from_json : JsonObject D → Device
  unfolding int_value with_path new_device
  from_json o =
      let d =
        new_device (int_value (find (codes "vendor_id") o))
          (int_value (find (codes "product_id") o)) in
      with_path d (find (codes "path") o) (find (codes "interface") o)

  -- What the JSON form keeps of a device.
  unfoldable pub kept : Device → Device
  kept d = record d { interface = elim d.path [ none ↦ d.interface | some p ↦ none ] }

  from_json-fields :
      ((n : ℤ) → to_int (of_int n) ≡ n)
      → (v p : ℤ) (path : Option (List ℕ)) (i : Option DeviceInterface)
      → let d : Device = record { vendor_id = v; product_id = p; path = path; interface = i } in
        from_json (to_json d) ≡ kept d
  unfolding from_json to_json kept int_value with_path with_interface text_value object_value
      put_path put_interface interface_to_json interface_from_json find insert
  from_json-fields back v p none none = simp back refl
  from_json-fields back v p none (some i) = simp back refl
  from_json-fields back v p (some path) none = simp back refl
  from_json-fields back v p (some path) (some i) = simp back refl

  -- If the conversion of an int to a double can be undone, fromJson reads back what toJson has
  -- written: the whole device if it has no path, and all but its interface if it has one.
  from_json-to_json :
      (d : Device) → ((n : ℤ) → to_int (of_int n) ≡ n) → from_json (to_json d) ≡ kept d
  from_json-to_json d back = from_json-fields back d.vendor_id d.product_id d.path d.interface
