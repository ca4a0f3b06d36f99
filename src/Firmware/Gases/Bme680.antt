-- ===== src/Firmware/Gases/Bme680.antt =====
-- pmindp-esp32-thread/src/sensor/bme680.rs.
use plant_minder.Base.{ℕ, List, Bool, true, Option, none, some, Result, ok, err}
use plant_minder.Sensor.{F32, Gas, PlatformSensorError, sensor_setup, other}
use plant_minder.Firmware.{F32Ops, Reading, then_step}
use plant_minder.Firmware.Gases.{to_fahrenheit, called, write_gas}

-- What the driver asks for: oversampling by a factor, a gas measurement by its duration in
-- milliseconds, heater temperature and ambient temperature, an offset and whether gas is measured.
pub record Settings : Type 0 where
  pub humidity_oversampling : ℕ
  pub pressure_oversampling : ℕ
  pub gas_measurement : ℕ × ℕ × ℕ
  pub temperature_offset : F32
  pub run_gas : Bool

-- `FieldData` by its accessors.
pub record FieldData : Type 0 where
  pub temperature_celsius : F32
  pub pressure_hpa : F32
  pub humidity_percent : F32
  pub gas_resistance_ohm : ℕ

-- `bme680::Bme680`; the power mode that is set is always the forced one.
pub record Driver : Type 1 where
  pub Bus : Type 0
  pub Sensor : Type 0
  pub init : Bus → Option Sensor
  pub set_sensor_settings : Settings → Sensor → Bool × Sensor
  pub set_forced_mode : Sensor → Bool × Sensor
  pub get_sensor_data : Sensor → Option FieldData × Sensor

-- The offset is the `f32` -2.2.
unfoldable pub settings : Settings
settings = record {
  humidity_oversampling = 2;
  pressure_oversampling = 4;
  gas_measurement = (1500, 320, 25);
  temperature_offset = 0xc00ccccd;
  run_gas = true;
}

module _ (X : Driver) (f : F32Ops) where
  abbrev pub set_up : Option X.Sensor → Result X.Sensor PlatformSensorError
  set_up none = err sensor_setup
  set_up (some s) =
      (then_step (called sensor_setup (X.set_sensor_settings settings s))
        (λ _ s1. then_step (called sensor_setup (X.set_forced_mode s1)) (λ _ s2. (ok s2, s2)))).0

  -- The state of `BME680` is its `sensor`; the delay has none.
  unfoldable pub new : X.Bus → Result X.Sensor PlatformSensorError
  unfolding settings
  new i2c = set_up (X.init i2c)

  unfoldable pub gas_of : FieldData → Gas
  unfolding to_fahrenheit
  gas_of field = record {
    temp = to_fahrenheit f field.temperature_celsius;
    p = field.pressure_hpa;
    h = field.humidity_percent;
    gas = field.gas_resistance_ohm;
  }

  -- The sensor is set to measure again before the values are handed over.
  abbrev pub converted : Option FieldData × X.Sensor → Result Gas PlatformSensorError × X.Sensor
  converted (none, s) = (err other, s)
  converted (some field, s) =
      then_step (called other (X.set_forced_mode s)) (λ _ s1. (ok (gas_of field), s1))

  unfoldable pub read_sensor : X.Sensor → Result Gas PlatformSensorError × X.Sensor
  unfolding gas_of
  read_sensor s = converted (X.get_sensor_data s)

  -- `Sensor::read`
  unfoldable pub read :
      (Gas → Option (List ℕ)) → List ℕ → ℕ → X.Sensor → Reading X.Sensor PlatformSensorError
  unfolding read_sensor
  read to_vec buffer start s = write_gas to_vec buffer start (read_sensor s)
