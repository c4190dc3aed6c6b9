-- ===== src/Gui.antt =====
-- App/gui/GuiConnector.cpp, GuiConnector.h: the settings, and how a change of one reaches the
-- keyer, the decoder, the serial ports and the remote client.
-- Of each component the state holds what it was last started with. The configuration file can be
-- read and written here (Configuration has the other cases); `config` is the object in it. `D` is
-- the type of doubles, with its conversions to and from an int.
pub mod Load
pub mod Speeds
pub mod Changes
pub mod Remotes
pub mod Devices
pub mod Sounds
pub mod SoundSteps
pub mod Window
pub mod Startup
pub mod Quit
pub mod Switches
pub mod Persist
pub mod Restart
mod Tests
use cwkeyer.Base.{
  ℕ, zero, suc, Bool, true, false, ◌&&◌, ◌||◌, not, List, [], ◌∷◌, ◌++◌, Option, none, some,
  if◌then◌else◌, ◌>>=◌, length, get_elem?,
}
use cwkeyer.Base.Int.{ℤ, pos, negsuc, ltb_ℤ}
use cwkeyer.Base.Text.{codes, text_eq}
use cwkeyer.Configuration.{
  JsonValue, JsonObject, number, boolean, text, find, insert, as_int, to_bool, c_str,
}
use cwkeyer.Usb.Device.{int_eq}

pub data Signal : Type 0 where
  wpm_changed : ℤ → Signal
  farns_worth_changed : ℤ → Signal
  mode_changed : ℤ → Signal
  selected_comm_port_changed : ℤ → Signal
  selected_comm_port_in_changed : ℤ → Signal
  enabled_comm_out_changed : Bool → Signal
  enabled_comm_in_changed : Bool → Signal
  remote_port_changed : ℤ → Signal
  server_ip_changed : List ℕ → Signal
  remote_mox_delay_ms_changed : ℤ → Signal
  remote_connected_changed : Bool → Signal
  text_cw_decoder_updated : List ℕ → Signal
  audio_devices_changed : List (List ℕ) → Signal
  comm_ports_changed : List (List ℕ) → Signal

-- `keyer` holds the arguments of the last initKeyer, `decoder` those of the running decoder's start
-- (Farnsworth speed, then speed), `remote` those of the running client's start; `comm_out` and
-- `comm_in` the last port that a start was called with.
pub record GuiConnector (D : Type 0) : Type 0 where
  pub wpm : ℤ
  pub farns_worth : ℤ
  pub mode : ℤ
  pub audio_devices : ℕ
  pub selected_audio_device : ℤ
  pub comm_ports : List (List ℕ)
  pub selected_comm_port : ℤ
  pub selected_comm_port_in : ℤ
  pub remote_port : ℤ
  pub remote_mox_delay_ms : ℤ
  pub server_ip : List ℕ
  pub config : JsonObject D
  pub keyer : ℤ × ℤ
  pub decoder : Option (ℤ × ℤ)
  pub comm_out : Option (List ℕ)
  pub comm_in : Option (List ℕ)
  pub remote : Option (List ℕ × ℤ × ℤ)
  pub signals : List Signal

-- index >= 0 && index < list.size()
unfoldable pub is_index : ℤ → ℕ → Bool
is_index i n = not (ltb_ℤ i (pos 0)) && ltb_ℤ i (pos n)

-- m_commPorts[index]; out of range there is no result.
unfoldable pub port_at : List (List ℕ) → ℤ → Option (List ℕ)
port_at ports (pos i) = get_elem? ports i
port_at ports (negsuc i) = none

-- Stop and start of a decoder that runs.
restart : Option (ℤ × ℤ) → ℤ × ℤ → Option (ℤ × ℤ)
restart none speeds = none
restart (some old) speeds = some speeds

module _ {D : Type 0} where
  abbrev pub signal : Signal → GuiConnector D → GuiConnector D
  signal s g = record g { signals = g.signals ++ s ∷ [] }

  abbrev pub store : List ℕ → JsonValue D → GuiConnector D → GuiConnector D
  store key v g = record g { config = insert key v g.config }

  -- onDecodeTextCw
  unfoldable pub on_decode_text_cw : List ℕ → GuiConnector D → GuiConnector D
  on_decode_text_cw t g =
      if text_eq t (codes "=") || text_eq t (codes "<SK>") || text_eq t (codes "<BK>")
      then signal (text_cw_decoder_updated (t ++ b'\n' ∷ [])) g
      else signal (text_cw_decoder_updated t) g

  -- resetCwDecoder and resetKeyer: the arguments of the decoder's start and of initKeyer, which fault
  -- at a speed of 0 (Keyer.init_keyer, Decoder.start)
  unfoldable pub reset_cw_decoder : GuiConnector D → GuiConnector D
  unfolding restart
  reset_cw_decoder g = record g { decoder = restart g.decoder (g.farns_worth, g.wpm) }

  unfoldable pub reset_keyer : GuiConnector D → GuiConnector D
  reset_keyer g = reset_cw_decoder (record g { keyer = (g.wpm, g.mode) })

  -- setEnabledCwDecoder
  unfoldable pub set_enabled_cw_decoder : Bool → GuiConnector D → GuiConnector D
  set_enabled_cw_decoder enabled g = record g {
    decoder = if enabled then some (g.farns_worth, g.wpm) else none;
  }

  -- setEnabledCommOut and setEnabledCommIn
  unfoldable pub set_enabled_comm_out : Bool → GuiConnector D → Option (GuiConnector D)
  set_enabled_comm_out false g = some (signal (enabled_comm_out_changed false) g)
  set_enabled_comm_out true g = do
    port ← port_at g.comm_ports g.selected_comm_port
    some (signal (enabled_comm_out_changed true) (record g { comm_out = some port }))

  unfoldable pub set_enabled_comm_in : Bool → GuiConnector D → Option (GuiConnector D)
  set_enabled_comm_in false g = some (signal (enabled_comm_in_changed false) g)
  set_enabled_comm_in true g = do
    port ← port_at g.comm_ports g.selected_comm_port_in
    some (signal (enabled_comm_in_changed true) (record g { comm_in = some port }))

module _ {D : Type 0} (of_int : ℤ → D) (to_int : D → ℤ) where
  abbrev pub store_int : List ℕ → ℤ → GuiConnector D → GuiConnector D
  store_int key n g = store key (number (of_int n)) g

  -- What both set, tell and store first.
  unfoldable pub with_wpm : ℤ → GuiConnector D → GuiConnector D
  with_wpm value g =
      store_int (codes "wpm") value (signal (wpm_changed value) (record g { wpm = value }))

  unfoldable pub with_farns_worth : ℤ → GuiConnector D → GuiConnector D
  with_farns_worth value g =
      store_int (codes "farnsWorth") value
        (signal (farns_worth_changed value) (record g { farns_worth = value }))

  -- setWpm and setFarnsWorth, which call each other, on fuel.
  unfoldable mutual
    pub set_wpm : ℕ → ℤ → GuiConnector D → Option (GuiConnector D)
    set_wpm zero value g = none
    set_wpm (suc fuel) value g =
        let g₁ = with_wpm value g in
        let lowered = set_farns_worth fuel value g₁ in
        if int_eq g.wpm value
        then some g
        else do g₂ ← (if ltb_ℤ value g.farns_worth then lowered else some g₁); some (reset_keyer g₂)

    pub set_farns_worth : ℕ → ℤ → GuiConnector D → Option (GuiConnector D)
    set_farns_worth zero value g = none
    set_farns_worth (suc fuel) value g =
        let g₁ = with_farns_worth value g in
        let raised = set_wpm fuel value g₁ in
        if int_eq g.farns_worth value
        then some g
        else do g₂ ← (if ltb_ℤ g.wpm value then raised else some g₁); some (reset_cw_decoder g₂)

  -- setMode
  unfoldable pub with_mode : ℤ → GuiConnector D → GuiConnector D
  with_mode value g =
      store_int (codes "mode") value (signal (mode_changed value) (record g { mode = value }))

  unfoldable pub set_mode : ℤ → GuiConnector D → GuiConnector D
  set_mode value g = if int_eq g.mode value then g else reset_keyer (with_mode value g)

  -- setSelectedCommPort and setSelectedCommPortIn
  unfoldable pub set_selected_comm_port : ℤ → GuiConnector D → GuiConnector D
  set_selected_comm_port index g =
      if not (is_index index (length g.comm_ports))
      then g
      else if int_eq g.selected_comm_port index
      then g
      else signal (selected_comm_port_changed index)
          (store_int (codes "commout") index (record g { selected_comm_port = index }))

  unfoldable pub set_selected_comm_port_in : ℤ → GuiConnector D → GuiConnector D
  set_selected_comm_port_in index g =
      if not (is_index index (length g.comm_ports))
      then g
      else if int_eq g.selected_comm_port_in index
      then g
      else signal (selected_comm_port_in_changed index)
          (store_int (codes "commin") index (record g { selected_comm_port_in = index }))
