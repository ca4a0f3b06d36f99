-- ===== src/Firmware/Board/Layout.antt =====
-- Where `main` of pmindp-esp32-thread/src/bin/main.rs puts the sensors.
use plant_minder.Base.{
  ℕ, ◌+◌, ◌≡◌, ◌∷◌, Bool, true, false, ◌&&◌, ◌||◌, Option, none, some, returns, panics, arith,
  if◌then◌else◌,
}
use plant_minder.Firmware.Board.{Features, Parts, nones, sensors}

abbrev pub gas_asked : Features → Bool
gas_asked b = b.bme680 || b.sht40

-- The places behind the three that are used.
abbrev pub unused : Features → ℕ
unused b = 3 + (if b.tsl2591 then 1 else 0) + (if gas_asked b then 1 else 0)

module _ {S : Type 0} where
  -- A part that is asked for.
  abbrev pub if_asked : Bool → Option S → Option S
  if_asked asked part = if asked then part else none

  abbrev pub came_up : Bool → Option S → Bool
  came_up false part = true
  came_up true none = false
  came_up true (some s) = true

  abbrev pub soil_slot : Features → Parts S → Option S
  soil_slot b parts =
      if b.atsamd10
      then some parts.atsamd10
      else if_asked b.probe_circuit (some parts.probe_circuit)

  abbrev pub gas_part : Features → Parts S → Option S
  gas_part b parts = if b.bme680 then parts.bme680 else parts.sht40

  -- A node has its sensors in the slots of the soil, the light and the gas, and none elsewhere, unless
  -- it panics: without a soil sensor, or with a light or gas sensor that does not come up.
  pub sensors_lem :
      (b : Features) (parts : Parts S)
      → sensors b parts ≡ (
          if (b.atsamd10 || b.probe_circuit)
            && (came_up b.tsl2591 parts.tsl2591 && came_up (gas_asked b) (gas_part b parts))
          then returns (
              soil_slot b parts
              ∷ if_asked b.tsl2591 parts.tsl2591
              ∷ if_asked (gas_asked b) (gas_part b parts)
              ∷ nones (unused b))
          else panics)
  unfolding sensors
  sensors_lem b parts = ground arith
