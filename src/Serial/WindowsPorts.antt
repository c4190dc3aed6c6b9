-- ===== src/Serial/WindowsPorts.antt =====
-- App/serial/SerialPorts_win.cpp: the serial ports that the registry names.
use cwkeyer.Base.{ℕ, Bool, List, [], ◌∷◌, Option, none, some, if◌then◌else◌}

-- The loop of listPorts: the answers of RegEnumValueW in order, up to the first that fails, each as the
-- octets that WideCharToMultiByte makes of the name.
unfoldable pub enumerate_ports : List (Option (List ℕ)) → List (List ℕ)
enumerate_ports [] = []
enumerate_ports (none ∷ answers) = []
enumerate_ports (some port ∷ answers) = port ∷ enumerate_ports answers

-- listPorts; `opens` is the result of RegOpenKeyExW.
unfoldable pub list_ports_win : Bool → List (Option (List ℕ)) → List (List ℕ)
list_ports_win opens answers = let ports = enumerate_ports answers in if opens then ports else []
