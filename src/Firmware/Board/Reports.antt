-- ===== src/Firmware/Board/Reports.antt =====
-- What the probe circuit and the gas sensor of a node leave in its report.
use plant_minder.Base.{
  ℕ, ◌+◌, ◌%◌, ◌/◌, ◌^◌, ◌≤◌, ◌≡◌, refl, ◌∙◌, List, [], ◌∷◌, Bool, true, false, Option, none, some,
  Outcome, returns, panics, if◌then◌else◌, length, arith,
}
use plant_minder.Sensor.{other}
use plant_minder.Firmware.{copy_to, put_bytes}
use plant_minder.Firmware.ProbeCircuit.{ProbeCircuit, from_soil}
use plant_minder.Firmware.Gases.Bme680.{FieldData, gas_of}
use plant_minder.Firmware.Board.Drivers.{
  Hardware, AnySensor, read_any, probe_circuit, bme680, boxed,
}
use plant_minder.Firmware.Platform.{Json, sensor_read}
use plant_minder.Firmware.Platform.Slots.{Writes, Fails}
use plant_minder.Firmware.Platform.Reference.{
  Slot, bytes_in, head, tail, light_at, gas_at, soil_at, Perform, Perform-append, no_more, fails,
  writes, sensor_read-reference,
}

module _ (H : Hardware) (json : Json) where
  -- The two bytes, least first.
  abbrev pub low_high : ℕ → List ℕ
  low_high val = (val % 2 ^ 8) ∷ (val / 2 ^ 8 % 2 ^ 8) ∷ []

  boxed_put :
      {S : Type 0} (f : S → AnySensor H) (s : S) (bytes : List ℕ) (o : Outcome (List ℕ))
      → boxed H f (put_bytes bytes s o) ≡ put_bytes bytes (f s) o
  boxed_put f s bytes (returns buffer) = refl
  boxed_put f s bytes panics = refl

  boxed_put-probe :
      (s : ProbeCircuit H.converter.Adc) (bytes : List ℕ) (o : Outcome (List ℕ))
      → boxed H probe_circuit (from_soil H.converter (put_bytes bytes s o))
        ≡ put_bytes bytes (probe_circuit s) o
  boxed_put-probe s bytes (returns buffer) = refl
  boxed_put-probe s bytes panics = refl

  probe-Writes :
      (s : ProbeCircuit H.converter.Adc) (val : ℕ) (adc : H.converter.Adc)
      → H.converter.read_oneshot s.adc1 ≡ (some val, adc)
      → Writes
          (read_any H)
          json
          (probe_circuit s)
          (low_high val)
          (probe_circuit (record { pwr_pin = false; adc1 = adc }))
  unfolding read_any
  probe-Writes s val adc oneshot buffer start = rw oneshot (
      boxed_put-probe (record { pwr_pin = false; adc1 = adc }) (low_high val)
        (copy_to buffer start (low_high val)))

  -- The moisture that a probe circuit measures is not in the node's report, whatever it is: the report
  -- holds zeros for the soil, since the two bytes are not the JSON of a reading of the soil. The
  -- other sensors are reported as they are, and the probe is without power again.
  pub probe_not_reported :
      (buffer : List ℕ) (s : ProbeCircuit H.converter.Adc) (val : ℕ) (adc : H.converter.Adc)
      (others others' : List (Option (AnySensor H))) (slots : List Slot)
      → ((x y : ℕ) → json.soil (x ∷ y ∷ []) ≡ none)
      → H.converter.read_oneshot s.adc1 ≡ (some val, adc)
      → Perform (read_any H) json others slots others'
      → 2 + bytes_in slots ≤ length buffer
      → sensor_read (read_any H) json buffer (some (probe_circuit s) ∷ others)
        ≡ returns (
          record {
            soil = record { moisture = 0; temp = 0 };
            light = light_at json (head slots);
            gas = gas_at json (head (tail slots));
            ts = 0;
          },
          some (probe_circuit (record { pwr_pin = false; adc1 = adc })) ∷ others',
        )
  probe_not_reported buffer s val adc others others' slots two oneshot p fits =
      sensor_read-reference (read_any H) json buffer _ _ _
        (writes (probe_circuit s) _ (low_high val) (probe-Writes s val adc oneshot) p)
      ∙ ground (arith, two (val % 2 ^ 8) (val / 2 ^ 8 % 2 ^ 8))

  bme680-Writes :
      (s s1 s2 : H.bme680_driver.Sensor) (field : FieldData) (bytes : List ℕ)
      → H.bme680_driver.get_sensor_data s ≡ (some field, s1)
      → H.bme680_driver.set_forced_mode s1 ≡ (true, s2)
      → H.gas_json (gas_of H.bme680_driver H.floats field) ≡ some bytes
      → Writes (read_any H) json (bme680 s) bytes (bme680 s2)
  unfolding read_any
  bme680-Writes s s1 s2 field bytes data_ready mode_set printed buffer start =
      rw (data_ready, mode_set, printed) (boxed_put bme680 s2 bytes (copy_to buffer start bytes))

  bme680-Fails :
      (s s1 s2 : H.bme680_driver.Sensor) (field : FieldData)
      → H.bme680_driver.get_sensor_data s ≡ (some field, s1)
      → H.bme680_driver.set_forced_mode s1 ≡ (false, s2)
      → Fails (read_any H) json (bme680 s) (bme680 s2)
  unfolding read_any
  bme680-Fails s s1 s2 field data_ready mode_set buffer start =
      (other, rw (data_ready, mode_set) refl)

  -- A report holds what the BME680 measured, in Fahrenheit, only if the sensor can be set to measure
  -- again; if that fails, the measurement is dropped with it. What the slots of the soil and the
  -- light hold is reported in either case, if the bytes of all fit in the buffer.
  pub bme680_report :
      (buffer : List ℕ) (s s1 s2 : H.bme680_driver.Sensor) (field : FieldData) (mode : Bool)
      (soil light soil' light' : Option (AnySensor H)) (a c : Slot) (bytes : List ℕ)
      → Perform (read_any H) json (soil ∷ light ∷ []) (a ∷ c ∷ []) (soil' ∷ light' ∷ [])
      → H.bme680_driver.get_sensor_data s ≡ (some field, s1)
      → H.bme680_driver.set_forced_mode s1 ≡ (mode, s2)
      → H.gas_json (gas_of H.bme680_driver H.floats field) ≡ some bytes
      → json.gas bytes ≡ some (gas_of H.bme680_driver H.floats field)
      → bytes_in (a ∷ c ∷ []) + length bytes ≤ length buffer
      → sensor_read (read_any H) json buffer (soil ∷ light ∷ some (bme680 s) ∷ [])
        ≡ returns (
          record {
            soil = soil_at json a;
            light = light_at json c;
            gas = if mode then some (gas_of H.bme680_driver H.floats field) else none;
            ts = 0;
          },
          soil' ∷ light' ∷ some (bme680 s2) ∷ [],
        )
  bme680_report buffer s s1 s2 field true soil light soil' light' a c bytes p d m j back fits =
      sensor_read-reference (read_any H) json buffer _ _ _ (
        Perform-append (read_any H) json p
          (writes (bme680 s) (bme680 s2) bytes (bme680-Writes s s1 s2 field bytes d m j) no_more))
      ∙ ground (arith, back)
  bme680_report buffer s s1 s2 field false soil light soil' light' a c bytes p d m j back fits =
      sensor_read-reference (read_any H) json buffer _ _ _ (
        Perform-append (read_any H) json p
          (fails (bme680 s) (bme680 s2) (bme680-Fails s s1 s2 field d m) no_more))
      ∙ ground arith
