-- ===== src/Firmware/Tsl2591/Registers.antt =====
-- The registers of the light sensor and the commands of its driver, pmindp-esp32-thread/src/sensor/tsl2591.rs.
use plant_minder.Base.{ℕ, List, [], ◌∷◌, bit_or}

pub data RegisterMap : Type 0 where
  enable control : RegisterMap
  threshold_ailtl threshold_ailth threshold_aihtl threshold_aihth : RegisterMap
  threshold_npailtl threshold_npailth threshold_npaihtl threshold_npaihth : RegisterMap
  persist_filter package_pid device_id device_status : RegisterMap
  chan0_low chan0_high chan1_low chan1_high : RegisterMap

abbrev pub register_bits : RegisterMap → ℕ
register_bits enable = 0x00
register_bits control = 0x01
register_bits threshold_ailtl = 0x04
register_bits threshold_ailth = 0x05
register_bits threshold_aihtl = 0x06
register_bits threshold_aihth = 0x07
register_bits threshold_npailtl = 0x08
register_bits threshold_npailth = 0x09
register_bits threshold_npaihtl = 0x0a
register_bits threshold_npaihth = 0x0b
register_bits persist_filter = 0x0c
register_bits package_pid = 0x11
register_bits device_id = 0x12
register_bits device_status = 0x13
register_bits chan0_low = 0x14
register_bits chan0_high = 0x15
register_bits chan1_low = 0x16
register_bits chan1_high = 0x17

abbrev pub command_bit : ℕ
command_bit = 0xa0

abbrev pub enable_poweroff : ℕ
enable_poweroff = 0x00

abbrev pub enable_poweron : ℕ
enable_poweron = 0x01

abbrev pub enable_aen : ℕ
enable_aen = 0x02

abbrev pub enable_aien : ℕ
enable_aien = 0x10

abbrev pub enable_npien : ℕ
enable_npien = 0x80

abbrev pub cmd_chan0_low_data : ℕ
cmd_chan0_low_data = bit_or command_bit (register_bits chan0_low)

abbrev pub cmd_ctrl_set : ℕ
cmd_ctrl_set = bit_or command_bit (register_bits control)

abbrev pub cmd_enable_set : ℕ
cmd_enable_set = bit_or command_bit (register_bits enable)

abbrev pub enable_flags : ℕ
enable_flags = bit_or (bit_or (bit_or enable_poweron enable_aen) enable_aien) enable_npien

abbrev pub cmd_disable : List ℕ
cmd_disable = cmd_enable_set ∷ enable_poweroff ∷ []

abbrev pub cmd_enable : List ℕ
cmd_enable = cmd_enable_set ∷ enable_flags ∷ []
