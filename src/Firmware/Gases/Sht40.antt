-- ===== src/Firmware/Gases/Sht40.antt =====
-- pmindp-esp32-thread/src/sensor/sht40.rs.
use plant_minder.Base.{ℕ, List, Option, none, some, Result, ok, err}
use plant_minder.Sensor.{F32, Gas, PlatformSensorError, other}
use plant_minder.Firmware.{F32Ops, Reading}
use plant_minder.Firmware.Gases.{to_fahrenheit, write_gas}

-- `sht4x::Sht4x`: `measure` gives the temperature in degrees Celsius and the relative humidity in
-- percent, each converted to `f32`, or fails.
pub record Sht4x : Type 1 where
  pub Sensor : Type 0
  pub Bus : Type 0
  pub new : Bus → Sensor
  pub measure : Sensor → Option (F32 × F32) × Sensor

module _ (X : Sht4x) (f : F32Ops) where
  -- The state of `SHT40` is its `sensor`; the delay has none and the precision is always medium.
  unfoldable pub new : X.Bus → Result X.Sensor PlatformSensorError
  new i2c = ok (X.new i2c)

  -- The sensor has no gas resistance and no pressure.
  abbrev pub converted : Option (F32 × F32) × X.Sensor → Result Gas PlatformSensorError × X.Sensor
  converted (none, s) = (err other, s)
  converted (some (celsius, percent), s) =
      (ok (record { temp = to_fahrenheit f celsius; p = f.from_nat 0; h = percent; gas = 0 }), s)

  unfoldable pub read_sensor : X.Sensor → Result Gas PlatformSensorError × X.Sensor
  unfolding to_fahrenheit
  read_sensor s = converted (X.measure s)

  -- `Sensor::read`
  unfoldable pub read :
      (Gas → Option (List ℕ)) → List ℕ → ℕ → X.Sensor → Reading X.Sensor PlatformSensorError
  unfolding read_sensor
  read to_vec buffer start s = write_gas to_vec buffer start (read_sensor s)
