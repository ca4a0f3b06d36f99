-- ===== src/Firmware/Gases.antt =====
-- The drivers of the sensors of gas and humidity, pmindp-esp32-thread/src/sensor/{bme680,sht40}.rs.
-- The crates bme680 and sht4x are parameters.
pub mod Sht40
pub mod Bme680
use plant_minder.Base.{
  ℕ, ◌+◌, ◌*◌, List, [], ◌∷◌, Bool, true, false, Option, none, some, Result, ok, err,
}
use plant_minder.Sensor.{F32, Gas, PlatformSensorError, sensor_setup, other}
use plant_minder.Firmware.{F32Ops, copy_to, then_step, Reading, reads, put_bytes}

-- `celsius * 1.8 + 32.0`, with the bits of the `f32` 1.8.
unfoldable pub to_fahrenheit : F32Ops → F32 → F32
to_fahrenheit f celsius = f.add (f.mul celsius 0x3fe66666) (f.from_nat 32)

-- A call of a driver that only succeeds or fails, and what its failure becomes.
abbrev pub called {ℓ} :
    {S : Type ℓ} → PlatformSensorError → Bool × S → Result (Unit {0}) PlatformSensorError × S
called e (true, s) = (ok tt, s)
called e (false, s) = (err e, s)

-- `serde_json::to_vec` fails or its bytes are copied to the buffer.
abbrev pub write_json :
    {S : Type 0} → List ℕ → ℕ → Option (List ℕ) → S → Reading S PlatformSensorError
write_json buffer start none s = reads (err other) buffer s
write_json buffer start (some bytes) s = put_bytes bytes s (copy_to buffer start bytes)

abbrev pub write_gas :
    {S : Type 0}
    → (Gas → Option (List ℕ))
    → List ℕ
    → ℕ
    → Result Gas PlatformSensorError × S
    → Reading S PlatformSensorError
write_gas to_vec buffer start (err e, s) = reads (err e) buffer s
write_gas to_vec buffer start (ok reading, s) = write_json buffer start (to_vec reading) s
