-- ===== src/Firmware/Atsamd10.antt =====
-- The driver of the soil sensor, pmindp-esp32-thread/src/sensor/atsamd10.rs.
pub mod Report
use plant_minder.Base.{
  ℕ, ◌+◌, ◌*◌, ◌/◌, ◌%◌, ◌^◌, ◌-◌, List, [], ◌∷◌, Bool, true, false, Option, none, some,
  if◌then◌else◌, ltb, Result, ok, err,
}
use plant_minder.Sensor.{
  F32, Soil, SoilSensorError, i2c_read_error, i2c_write_error, PlatformSensorError,
  soil_sensor_error, other,
}
use plant_minder.Firmware.{F32Ops, copy_to, then_step, lift_err, Reading, reads, put_bytes}

-- `embedded_hal::i2c::I2c` as this driver uses it: a write of some bytes to an address, and reads
-- that fill a buffer of two or of four bytes.
pub record SoilI2c : Type 1 where
  pub Bus : Type 0
  pub write : ℕ → List ℕ → Bus → Bool × Bus
  pub read_two : ℕ → Bus → Option (ℕ × ℕ) × Bus
  pub read_four : ℕ → Bus → Option (ℕ × ℕ × ℕ × ℕ) × Bus

abbrev pub atsamd10_read_moisture : List ℕ
atsamd10_read_moisture = 0x0f ∷ 0x10 ∷ []

abbrev pub atsamd10_read_temp : List ℕ
atsamd10_read_temp = 0x00 ∷ 0x04 ∷ []

-- The delay has no state.
pub record Atsamd10 (Bus : Type 0) : Type 0 where
  pub temp_delay : ℕ
  pub moisture_delay : ℕ
  pub address : ℕ
  pub i2c : Bus

-- `n as f32` of an `i32` given by its 32 bits.
abbrev pub from_i32 : F32Ops → ℕ → F32
from_i32 f n =
    if ltb n (2 ^ 31) then f.from_nat n else f.sub (f.from_nat 0) (f.from_nat (2 ^ 32 - n))

-- The bits of the `f32` 1.8.
abbrev pub one_point_eight : F32
one_point_eight = 0x3fe66666

-- `to_be_bytes` and `from_be_bytes` count the first byte highest.
abbrev pub be_bytes_2 : ℕ × ℕ → ℕ
be_bytes_2 (b0, b1) = b0 * 2 ^ 8 + b1

abbrev pub be_bytes_4 : ℕ × ℕ × ℕ × ℕ → ℕ
be_bytes_4 (b0, b1, b2, b3) = b0 * 2 ^ 24 + b1 * 2 ^ 16 + b2 * 2 ^ 8 + b3

-- A 65536th of a degree Celsius, in degrees Fahrenheit.
abbrev pub fahrenheit : F32Ops → ℕ → F32
fahrenheit f n =
    let raw = f.mul (f.div (f.from_nat 1) (f.from_nat (2 ^ 16))) (from_i32 f n) in
    f.add (f.mul raw one_point_eight) (f.from_nat 32)

module _ (I : SoilI2c) where
  unfoldable pub new : I.Bus → ℕ → ℕ → ℕ → Atsamd10 I.Bus
  new bus address temp_delay moisture_delay = record {
    temp_delay = temp_delay;
    moisture_delay = moisture_delay;
    address = address;
    i2c = bus;
  }

  abbrev pub after_read :
      {A : Type 0} → Atsamd10 I.Bus → Option A × I.Bus → Result A SoilSensorError × Atsamd10 I.Bus
  after_read s (none, bus) = (err i2c_read_error, record s { i2c = bus })
  after_read s (some a, bus) = (ok a, record s { i2c = bus })

  abbrev pub after_write :
      {A : Type 0}
      → (ℕ → I.Bus → Option A × I.Bus)
      → Atsamd10 I.Bus
      → Bool × I.Bus
      → Result A SoilSensorError × Atsamd10 I.Bus
  after_write receive s (false, bus) = (err i2c_write_error, record s { i2c = bus })
  after_write receive s (true, bus) = after_read s (receive s.address bus)

  -- `receive` is the bus's read for a buffer of the caller's size; the result is what it fills in.
  unfoldable pub read_sensor :
      {A : Type 0}
      → (ℕ → I.Bus → Option A × I.Bus)
      → List ℕ
      → Atsamd10 I.Bus
      → Result A SoilSensorError × Atsamd10 I.Bus
  read_sensor receive w_buffer s = after_write receive s (I.write s.address w_buffer s.i2c)

  unfoldable pub moisture : Atsamd10 I.Bus → Result ℕ SoilSensorError × Atsamd10 I.Bus
  unfolding read_sensor
  moisture s =
      then_step (read_sensor I.read_two atsamd10_read_moisture s)
        (λ buffer s1. (ok (be_bytes_2 buffer), s1))

  unfoldable pub temperature : F32Ops → Atsamd10 I.Bus → Result F32 SoilSensorError × Atsamd10 I.Bus
  unfolding read_sensor
  temperature f s =
      then_step (read_sensor I.read_four atsamd10_read_temp s)
        (λ buffer s1. (ok (fahrenheit f (be_bytes_4 buffer)), s1))

  abbrev pub written :
      List ℕ
      → ℕ
      → Result (List ℕ) SoilSensorError × Atsamd10 I.Bus
      → Reading (Atsamd10 I.Bus) SoilSensorError
  written buffer start (err e, s) = reads (err e) buffer s
  written buffer start (ok bytes, s) = put_bytes bytes s (copy_to buffer start bytes)

  -- `MoistureSensor::moisture`, with `to_le_bytes` of the 16 bits.
  unfoldable pub write_moisture :
      List ℕ → ℕ → Atsamd10 I.Bus → Reading (Atsamd10 I.Bus) SoilSensorError
  unfolding moisture copy_to
  write_moisture buffer start s =
      written buffer start
        (then_step (moisture s) (λ m s1. (ok ((m % 2 ^ 8) ∷ (m / 2 ^ 8 % 2 ^ 8) ∷ []), s1)))

  -- `TempSensor::temp`, with `to_le_bytes` of the 32 bits.
  unfoldable pub write_temp :
      F32Ops → List ℕ → ℕ → Atsamd10 I.Bus → Reading (Atsamd10 I.Bus) SoilSensorError
  unfolding temperature copy_to
  write_temp f buffer start s = written buffer start (
      then_step (temperature f s) (λ x s1. (
        ok ((x % 2 ^ 8) ∷ (x / 2 ^ 8 % 2 ^ 8) ∷ (x / 2 ^ 16 % 2 ^ 8) ∷ (x / 2 ^ 24 % 2 ^ 8) ∷ []),
        s1,
      )))

  -- `serde_json::to_vec` fails or its bytes are copied to the buffer.
  abbrev pub write_json :
      List ℕ → ℕ → Option (List ℕ) → Atsamd10 I.Bus → Reading (Atsamd10 I.Bus) PlatformSensorError
  write_json buffer start none s = reads (err other) buffer s
  write_json buffer start (some bytes) s = put_bytes bytes s (copy_to buffer start bytes)

  abbrev pub write_soil :
      (Soil → Option (List ℕ))
      → List ℕ
      → ℕ
      → Result Soil SoilSensorError × Atsamd10 I.Bus
      → Reading (Atsamd10 I.Bus) PlatformSensorError
  write_soil to_vec buffer start (err e, s) = reads (err (soil_sensor_error e)) buffer s
  write_soil to_vec buffer start (ok reading, s) = write_json buffer start (to_vec reading) s

  -- What is measured: the temperature, then the moisture.
  unfoldable pub measure : F32Ops → Atsamd10 I.Bus → Result Soil SoilSensorError × Atsamd10 I.Bus
  unfolding temperature moisture
  measure f s =
      then_step (temperature f s) (λ temp s1.
        then_step (moisture s1) (λ m s2. (ok (record { moisture = m; temp = temp }), s2)))

  -- `Sensor::read`; `to_vec` is `serde_json::to_vec`.
  unfoldable pub read :
      F32Ops
      → (Soil → Option (List ℕ))
      → List ℕ
      → ℕ
      → Atsamd10 I.Bus
      → Reading (Atsamd10 I.Bus) PlatformSensorError
  unfolding measure copy_to
  read f to_vec buffer start s = write_soil to_vec buffer start (measure f s)
