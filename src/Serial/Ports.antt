-- ===== src/Serial/Ports.antt =====
-- App/serial/SerialPorts_linux.cpp: which entries of /dev are serial ports.
use cwkeyer.Base.{ℕ, Bool, ◌&&◌, ◌||◌, List, [], ◌∷◌, ◌++◌, if◌then◌else◌}
use cwkeyer.Base.Text.{codes}
use cwkeyer.Remote.Handshake.{starts_with}

-- isSerialDevice
unfoldable pub is_serial_device : List ℕ → Bool
is_serial_device name =
    starts_with (codes "ttyS") name
    || starts_with (codes "ttyUSB") name
    || starts_with (codes "ttyACM") name
    || starts_with (codes "ttyAMA") name

-- listPorts, from the entries of /dev; `is_device` is stat with S_ISCHR, `sort` is std::sort.
unfoldable pub full_paths : (List ℕ → Bool) → List (List ℕ) → List (List ℕ)
full_paths is_device [] = []
full_paths is_device (name ∷ names) =
    let rest = full_paths is_device names in
    let full_path = codes "/dev/" ++ name in
    if is_serial_device name && is_device full_path then full_path ∷ rest else rest

unfoldable pub list_ports :
    (List (List ℕ) → List (List ℕ)) → (List ℕ → Bool) → List (List ℕ) → List (List ℕ)
list_ports sort is_device names = sort (full_paths is_device names)
