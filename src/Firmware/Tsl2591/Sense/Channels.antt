-- ===== src/Firmware/Tsl2591/Sense/Channels.antt =====
-- What the driver makes of the four bytes that the sensor answers.
use plant_minder.Base.{
  ℕ, ◌+◌, ◌*◌, ◌-◌, ◌%◌, ◌/◌, ◌^◌, ◌≡◌, ◌<◌, refl, true, some, ok, err, arith, [], ◌∷◌,
  if◌then◌else◌, ltb, nat_eq,
}
use plant_minder.Sensor.{F32}
use plant_minder.Firmware.{I2c, F32Ops}
use plant_minder.Firmware.Tsl2591.{
  signal_overflow, full_spectrum, infrared, visible, Tsl2591, cmd_chan0_low_data,
}
use plant_minder.Firmware.Tsl2591.Sense.{
  get_channel_data, get_full_luminosity, pick_channel, get_luminosity, lux_from, get_lux,
}

-- The low and the high half of the count.
low_half :
    (b0 b1 b2 b3 : ℕ)
    → b0 < 256
    → b1 < 256
    → (b0 + b1 * 2 ^ 8 + b2 * 2 ^ 16 + b3 * 2 ^ 24) % 2 ^ 16 ≡ b0 + 256 * b1
low_half b0 b1 b2 b3 h0 h1 = omega arith

low_zero :
    (b0 b1 b2 b3 : ℕ) → b0 + b1 ≡ 0 → (b0 + b1 * 2 ^ 8 + b2 * 2 ^ 16 + b3 * 2 ^ 24) % 2 ^ 16 ≡ 0
low_zero b0 b1 b2 b3 h = omega arith

high_half :
    (b0 b1 b2 b3 : ℕ)
    → b0 < 256
    → b1 < 256
    → b2 < 256
    → b3 < 256
    → (b0 + b1 * 2 ^ 8 + b2 * 2 ^ 16 + b3 * 2 ^ 24) / 2 ^ 16 % 2 ^ 16 ≡ b2 + 256 * b3
high_half b0 b1 b2 b3 h0 h1 h2 h3 = omega arith

module _ (I : I2c) (s : Tsl2591 I.Bus) (bus : I.Bus) (b0 b1 b2 b3 : ℕ) where
  -- The sensor answers with four bytes: the full spectrum is the first two of them in little endian
  -- order and the infrared the last two, and the visible light is the difference, or a fault that is
  -- counted if the infrared is the larger.
  pub get_luminosity_lem :
      I.write_read s.address (cmd_chan0_low_data ∷ []) s.i2c ≡ (some (b0, b1, b2, b3), bus)
      → b0 < 256
      → b1 < 256
      → b2 < 256
      → b3 < 256
      → let after = record s { i2c = bus } in
        (get_luminosity I full_spectrum s ≡ (ok (b0 + 256 * b1), after))
        × (get_luminosity I infrared s ≡ (ok (b2 + 256 * b3), after))
        × (get_luminosity I visible s ≡ (
            if ltb (b0 + 256 * b1) (b2 + 256 * b3)
            then (err signal_overflow, record after { fault_count = (s.fault_count + 1) % 2 ^ 32 })
            else (ok (b0 + 256 * b1 - (b2 + 256 * b3)), after)))
  unfolding get_luminosity get_full_luminosity get_channel_data pick_channel
  get_luminosity_lem answer h0 h1 h2 h3 =
      rw (answer, low_half b0 b1 b2 b3 h0 h1, high_half b0 b1 b2 b3 h0 h1 h2 h3) (refl, refl, refl)

  lux_from_zero :
      (f : F32Ops) (infra : F32) (s1 : Tsl2591 I.Bus)
      → f.eq (f.from_nat 0) (f.from_nat 0) ≡ true
      → lux_from I f (f.from_nat 0) infra s1
        ≡ (err signal_overflow, record s1 { fault_count = (s1.fault_count + 1) % 2 ^ 32 })
  unfolding lux_from
  lux_from_zero f infra s1 same = ground (arith, same)

  -- In the dark the sensor counts nothing in the full spectrum: the lux cannot be computed, and that
  -- is an error that counts as a fault, whatever the infrared and the settings are.
  pub get_lux-dark :
      (f : F32Ops)
      → f.eq (f.from_nat 0) (f.from_nat 0) ≡ true
      → b0 + b1 ≡ 0
      → I.write_read s.address (cmd_chan0_low_data ∷ []) s.i2c ≡ (some (b0, b1, b2, b3), bus)
      → get_lux I f s
        ≡ (err signal_overflow, record s { i2c = bus; fault_count = (s.fault_count + 1) % 2 ^ 32 })
  unfolding get_lux get_channel_data
  get_lux-dark f same dark answer =
      rw (answer, low_zero b0 b1 b2 b3 dark) (lux_from_zero f _ (record s { i2c = bus }) same)
