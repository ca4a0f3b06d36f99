-- ===== src/Firmware/ProbeCircuit.antt =====
-- The driver of the probe circuit, pmindp-esp32-thread/src/sensor/probe_circuit.rs.
use plant_minder.Base.{
  ℕ, ◌/◌, ◌%◌, ◌^◌, List, [], ◌∷◌, Bool, true, false, Option, none, some, ok, err, Outcome, returns,
  panics,
}
use plant_minder.Sensor.{SoilSensorError, PlatformSensorError, soil_sensor_error}
use plant_minder.Firmware.{copy_to, Reading, reads, read_panics, put_bytes}

-- The converter behind the sensor's pin: `nb::block!` of `read_oneshot`, which gives a value of
-- sixteen bits or an error.
pub record Converter : Type 1 where
  pub Adc : Type 0
  pub read_oneshot : Adc → Option ℕ × Adc

-- `pwr_pin` is the level of the pin that powers the probe; the delay has no state.
pub record ProbeCircuit (Adc : Type 0) : Type 0 where
  pub pwr_pin : Bool
  pub adc1 : Adc

module _ (C : Converter) where
  -- The power pin comes with the level low; the pin of the sensor and the calibration are set up.
  unfoldable pub new : C.Adc → ProbeCircuit C.Adc
  new adc = record { pwr_pin = false; adc1 = adc }

  -- `unwrap` of the conversion, and the pin is set low again.
  abbrev pub after_oneshot : Option ℕ × C.Adc → Outcome (ℕ × ProbeCircuit C.Adc)
  after_oneshot (none, adc) = panics
  after_oneshot (some val, adc) = returns (val, record { pwr_pin = false; adc1 = adc })

  unfoldable pub set_high : ProbeCircuit C.Adc → ProbeCircuit C.Adc
  set_high s = record s { pwr_pin = true }

  unfoldable pub moisture : ProbeCircuit C.Adc → Outcome (ℕ × ProbeCircuit C.Adc)
  unfolding set_high
  moisture s = after_oneshot (C.read_oneshot (set_high s).adc1)

  -- `to_le_bytes` of the sixteen bits.
  abbrev pub written :
      List ℕ → ℕ → Outcome (ℕ × ProbeCircuit C.Adc) → Reading (ProbeCircuit C.Adc) SoilSensorError
  written buffer start panics = read_panics
  written buffer start (returns (val, s)) =
      let bytes = (val % 2 ^ 8) ∷ (val / 2 ^ 8 % 2 ^ 8) ∷ [] in
      put_bytes bytes s (copy_to buffer start bytes)

  -- `MoistureSensor::moisture`
  unfoldable pub write_moisture :
      List ℕ → ℕ → ProbeCircuit C.Adc → Reading (ProbeCircuit C.Adc) SoilSensorError
  unfolding moisture copy_to
  write_moisture buffer start s = written buffer start (moisture s)

  abbrev pub from_soil :
      Reading (ProbeCircuit C.Adc) SoilSensorError
      → Reading (ProbeCircuit C.Adc) PlatformSensorError
  from_soil read_panics = read_panics
  from_soil (reads (ok size) buffer s) = reads (ok size) buffer s
  from_soil (reads (err e) buffer s) = reads (err (soil_sensor_error e)) buffer s

  -- `Sensor::read`
  unfoldable pub read :
      List ℕ → ℕ → ProbeCircuit C.Adc → Reading (ProbeCircuit C.Adc) PlatformSensorError
  unfolding write_moisture
  read buffer start s = from_soil (write_moisture buffer start s)
