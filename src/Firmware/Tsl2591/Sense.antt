-- ===== src/Firmware/Tsl2591/Sense.antt =====
-- What the driver of pmindp-esp32-thread/src/sensor/tsl2591.rs measures, and its reads.
pub mod Channels
pub mod Faults
use plant_minder.Base.{
  ℕ, ◌+◌, ◌*◌, ◌/◌, ◌%◌, ◌^◌, ◌-◌, List, [], ◌∷◌, Bool, true, false, ◌||◌, Option, none, some,
  if◌then◌else◌, leb, ltb, ◌==◌, nat_eq, Result, ok, err,
}
use plant_minder.Sensor.{
  F32, Light, I2cError, i2c_write_read_error, LightSensorError, PlatformSensorError,
  light_sensor_error, other,
}
use plant_minder.Firmware.{I2c, F32Ops, copy_to, then_step, lift_err, Reading, reads, put_bytes}
use plant_minder.Firmware.Tsl2591.{
  Tsl2591Error, i2c_error, signal_overflow, light_error, Gain, low, medium, high, max, Mode,
  full_spectrum, infrared, visible, IntegrationTime, int_time_100, int_time_200, int_time_300,
  int_time_400, int_time_500, int_time_600, Tsl2591, cmd_chan0_low_data, fault_threshold,
  adjust_for_current_light,
}

module _ (I : I2c) where
  -- The four bytes shifted to their places have no bit in common, so that `|` adds them.
  abbrev pub channels :
      Tsl2591 I.Bus → Option (ℕ × ℕ × ℕ × ℕ) × I.Bus → Result ℕ I2cError × Tsl2591 I.Bus
  channels s (none, bus) = (err i2c_write_read_error, record s { i2c = bus })
  channels s (some (b0, b1, b2, b3), bus) =
      (ok (b0 + b1 * 2 ^ 8 + b2 * 2 ^ 16 + b3 * 2 ^ 24), record s { i2c = bus })

  unfoldable pub get_channel_data : Tsl2591 I.Bus → Result ℕ I2cError × Tsl2591 I.Bus
  get_channel_data s = channels s (I.write_read s.address (cmd_chan0_low_data ∷ []) s.i2c)

  unfoldable pub get_full_luminosity : Tsl2591 I.Bus → Result ℕ Tsl2591Error × Tsl2591 I.Bus
  unfolding get_channel_data
  get_full_luminosity s = lift_err i2c_error (get_channel_data s)

  -- `fault_count += 1` on a `u32`.
  abbrev pub fault : {A : Type 0} → Tsl2591 I.Bus → Result A Tsl2591Error × Tsl2591 I.Bus
  fault s = (err signal_overflow, record s { fault_count = (s.fault_count + 1) % 2 ^ 32 })

  unfoldable pub pick_channel : Mode → ℕ → ℕ → Tsl2591 I.Bus → Result ℕ Tsl2591Error × Tsl2591 I.Bus
  pick_channel visible full infra s = if ltb full infra then fault s else (ok (full - infra), s)
  pick_channel infrared full infra s = (ok infra, s)
  pick_channel full_spectrum full infra s = (ok full, s)

  unfoldable pub get_luminosity : Mode → Tsl2591 I.Bus → Result ℕ Tsl2591Error × Tsl2591 I.Bus
  unfolding get_full_luminosity pick_channel
  get_luminosity channel s =
      then_step (get_full_luminosity s)
        (λ counts s1. pick_channel channel (counts % 2 ^ 16) (counts / 2 ^ 16 % 2 ^ 16) s1)

  unfoldable pub get_int_time_float : F32Ops → IntegrationTime → F32
  get_int_time_float f int_time_100 = f.from_nat 100
  get_int_time_float f int_time_200 = f.from_nat 200
  get_int_time_float f int_time_300 = f.from_nat 300
  get_int_time_float f int_time_400 = f.from_nat 400
  get_int_time_float f int_time_500 = f.from_nat 500
  get_int_time_float f int_time_600 = f.from_nat 600

  unfoldable pub get_gain_float : F32Ops → Gain → F32
  get_gain_float f low = f.from_nat 1
  get_gain_float f medium = f.from_nat 25
  get_gain_float f high = f.from_nat 428
  get_gain_float f max = f.from_nat 9876

  unfoldable pub lux_from :
      F32Ops → F32 → F32 → Tsl2591 I.Bus → Result F32 Tsl2591Error × Tsl2591 I.Bus
  unfolding get_int_time_float get_gain_float
  lux_from f full infra s =
      if f.to_u16 full == 0xffff || f.to_u16 infra == 0xffff
      then fault s
      else if f.lt full infra || f.eq full (f.from_nat 0)
      then fault s
      else (
        ok (
            f.div (f.mul (f.sub full infra) (f.sub (f.from_nat 1) (f.div infra full))) (
              f.div (f.mul (get_int_time_float f s.int_time) (get_gain_float f s.gain))
                (f.from_nat 408))),
        s,
      )

  unfoldable pub get_lux : F32Ops → Tsl2591 I.Bus → Result F32 Tsl2591Error × Tsl2591 I.Bus
  unfolding get_channel_data lux_from
  get_lux f s = then_step (lift_err i2c_error (get_channel_data s)) (λ counts s1.
      lux_from f (f.from_nat (counts % 2 ^ 16)) (f.from_nat (counts / 2 ^ 16 % 2 ^ 16)) s1)

  unfoldable pub fault_count_threshold : Tsl2591 I.Bus → Bool
  fault_count_threshold s = leb fault_threshold s.fault_count

  -- The raw counts and the raw float, in little endian, as `LightLumenSensor` and `LightLuxSensor`
  -- write them.
  abbrev pub written_luminosity :
      List ℕ → ℕ → Result ℕ Tsl2591Error × Tsl2591 I.Bus → Reading (Tsl2591 I.Bus) LightSensorError
  written_luminosity buffer start (err e, s) = reads (err (light_error e)) buffer s
  written_luminosity buffer start (ok n, s) =
      let bytes = (n % 2 ^ 8) ∷ (n / 2 ^ 8 % 2 ^ 8) ∷ [] in
      put_bytes bytes s (copy_to buffer start bytes)

  unfoldable pub luminosity : List ℕ → ℕ → Tsl2591 I.Bus → Reading (Tsl2591 I.Bus) LightSensorError
  unfolding get_luminosity
  luminosity buffer start s = written_luminosity buffer start (get_luminosity full_spectrum s)

  abbrev pub written_lux :
      List ℕ
      → ℕ
      → Result F32 Tsl2591Error × Tsl2591 I.Bus
      → Reading (Tsl2591 I.Bus) LightSensorError
  written_lux buffer start (err e, s) = reads (err (light_error e)) buffer s
  written_lux buffer start (ok x, s) =
      let bytes =
        (x % 2 ^ 8) ∷ (x / 2 ^ 8 % 2 ^ 8) ∷ (x / 2 ^ 16 % 2 ^ 8) ∷ (x / 2 ^ 24 % 2 ^ 8) ∷ [] in
      put_bytes bytes s (copy_to buffer start bytes)

  unfoldable pub lux :
      F32Ops → List ℕ → ℕ → Tsl2591 I.Bus → Reading (Tsl2591 I.Bus) LightSensorError
  unfolding get_lux
  lux f buffer start s = written_lux buffer start (get_lux f s)

  -- What is measured: the counts of the full spectrum, then the lux.
  unfoldable pub measure : F32Ops → Tsl2591 I.Bus → Result Light Tsl2591Error × Tsl2591 I.Bus
  unfolding get_luminosity get_lux
  measure f s =
      then_step (get_luminosity full_spectrum s)
        (λ fs s1. then_step (get_lux f s1) (λ x s2. (ok (record { fs = fs; lux = x }), s2)))

  -- After too many faults the gain is changed first.
  unfoldable pub adjust_if_faulty : Tsl2591 I.Bus → Result (Unit {0}) Tsl2591Error × Tsl2591 I.Bus
  unfolding fault_count_threshold adjust_for_current_light
  adjust_if_faulty s = if fault_count_threshold s then adjust_for_current_light I s else (ok tt, s)

  abbrev pub write_json :
      List ℕ → ℕ → Option (List ℕ) → Tsl2591 I.Bus → Reading (Tsl2591 I.Bus) PlatformSensorError
  write_json buffer start none s = reads (err other) buffer s
  write_json buffer start (some bytes) s = put_bytes bytes s (copy_to buffer start bytes)

  -- `to_vec` is `serde_json::to_vec`.
  abbrev pub write_light :
      (Light → Option (List ℕ))
      → List ℕ
      → ℕ
      → Result Light Tsl2591Error × Tsl2591 I.Bus
      → Reading (Tsl2591 I.Bus) PlatformSensorError
  write_light to_vec buffer start (err e, s) =
      reads (err (light_sensor_error (light_error e))) buffer s
  write_light to_vec buffer start (ok reading, s) = write_json buffer start (to_vec reading) s

  unfoldable pub read :
      F32Ops
      → (Light → Option (List ℕ))
      → List ℕ
      → ℕ
      → Tsl2591 I.Bus
      → Reading (Tsl2591 I.Bus) PlatformSensorError
  unfolding adjust_if_faulty measure
  read f to_vec buffer start s =
      write_light to_vec buffer start (then_step (adjust_if_faulty s) (λ _ s1. measure f s1))
