-- ===== src/Firmware/Tsl2591/Sense/Faults.antt =====
-- The count of faults of the light sensor's driver, and what the sensor's answers make of it.
use plant_minder.Base.{
  ℕ, ◌+◌, ◌≤◌, ◌<◌, ◌≡◌, ◌⊎◌, inl, inr, Option, none, some, Result, ok, err, arith, List, leb,
  nat_eq, Outcome, returns, panics, Bool-cases,
}
use plant_minder.Sensor.{Light, PlatformSensorError}
use plant_minder.Firmware.{I2c, F32Ops, then_step, Reading, reads, read_panics, put_bytes, copy_to}
use plant_minder.Firmware.Tsl2591.{
  Tsl2591Error, full_spectrum, Tsl2591, fault_threshold, adjust_for_current_light, Gain,
  IntegrationTime, configure, configure_gain, configure_time, set_gain, set_timing, adjusted,
}
use plant_minder.Firmware.Tsl2591.Sense.{
  get_channel_data, get_full_luminosity, pick_channel, get_luminosity, lux_from, get_lux,
  fault_count_threshold, measure, adjust_if_faulty, write_json, write_light, read,
}

-- The state after a read, if it does not panic.
abbrev pub After : {S E : Type 0} → (S → Type 0) → Reading S E → Type 0
After P (reads r buffer s) = P s
After P read_panics = Unit

module _ (I : I2c) where
  get_luminosity-faults :
      (s : Tsl2591 I.Bus) → (get_luminosity I full_spectrum s).1.fault_count ≡ s.fault_count
  unfolding get_luminosity get_full_luminosity get_channel_data pick_channel
  get_luminosity-faults s = ground arith

  configure-faults :
      (g : Gain) (t : IntegrationTime) (s : Tsl2591 I.Bus)
      → (configure I (some g) (some t) s).1.fault_count ≡ s.fault_count
  unfolding configure configure_gain configure_time set_gain set_timing
  configure-faults g t s = ground arith

  get_lux-faults :
      (f : F32Ops) (s : Tsl2591 I.Bus)
      → s.fault_count < fault_threshold
      → (get_lux I f s).1.fault_count ≤ s.fault_count + 1
  unfolding get_lux get_channel_data lux_from
  get_lux-faults f s few = ground arith

  measure-faults :
      (f : F32Ops) (s : Tsl2591 I.Bus)
      → s.fault_count < fault_threshold
      → (measure I f s).1.fault_count ≤ fault_threshold
  unfolding measure
  measure-faults f s few =
      ground (arith, get_luminosity-faults s, get_lux-faults f (get_luminosity I full_spectrum s).1)

  adjust-faults :
      (s : Tsl2591 I.Bus)
      → ((adjust_for_current_light I s).0 ≡ ok tt)
          × ((adjust_for_current_light I s).1.fault_count ≡ 0)
        ⊎ ((e : Tsl2591Error) × ((adjust_for_current_light I s).0 ≡ err e)
            × ((adjust_for_current_light I s).1.fault_count ≡ s.fault_count))
  unfolding adjust_for_current_light
  adjust-faults s = ground (arith, configure-faults (adjusted s.gain).0 (adjusted s.gain).1 s)

  adjusted-measure :
      (f : F32Ops) (s : Tsl2591 I.Bus)
      → s.fault_count ≤ fault_threshold
      → (then_step (adjust_if_faulty I s) (λ _ s1. measure I f s1)).1.fault_count ≤ fault_threshold
  unfolding adjust_if_faulty fault_count_threshold
  adjusted-measure f s few = elim (Bool-cases (leb fault_threshold s.fault_count)) [
    | inl faulty ↦
        rw faulty
          (ground (arith, adjust-faults s, measure-faults f (adjust_for_current_light I s).1))
    | inr fine ↦ rw fine (measure-faults f s (ground (arith, fine)))
  ]

  write_light-state :
      (P : Tsl2591 I.Bus → Type 0) (to_vec : Light → Option (List ℕ)) (buffer : List ℕ) (start : ℕ)
      (p : Result Light Tsl2591Error × Tsl2591 I.Bus)
      → P p.1
      → After P (write_light I to_vec buffer start p)
  write_light-state P to_vec buffer start (err e, s) h = h
  write_light-state P to_vec buffer start (ok x, s) h = written-state (to_vec x)
    where
      put-state :
          (bytes : List ℕ) (o : Outcome (List ℕ))
          → After {E = PlatformSensorError} P (put_bytes bytes s o)
      put-state bytes (returns b) = h
      put-state bytes panics = tt

      written-state : (o : Option (List ℕ)) → After P (write_json I buffer start o s)
      written-state none = h
      written-state (some bytes) = put-state bytes (copy_to buffer start bytes)

  -- No read takes the count of faults beyond the threshold, if it is not beyond it before.
  pub read-faults :
      (f : F32Ops) (to_vec : Light → Option (List ℕ)) (buffer : List ℕ) (start : ℕ)
      (s : Tsl2591 I.Bus)
      → s.fault_count ≤ fault_threshold
      → After
          (λ (s' : Tsl2591 I.Bus). s'.fault_count ≤ fault_threshold)
          (read I f to_vec buffer start s)
  unfolding read
  read-faults f to_vec buffer start s few =
      write_light-state (λ (s' : Tsl2591 I.Bus). s'.fault_count ≤ fault_threshold) to_vec buffer
        start _ (adjusted-measure f s few)
