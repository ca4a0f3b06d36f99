-- ===== src/Firmware/Atsamd10/Report.antt =====
-- The soil sensor of atsamd10.rs in the report that platform.rs makes.
use plant_minder.Base.{
  ◌≡◌, refl, ap, ◌∙◌, ℕ, ◌≤◌, List, [], ◌∷◌, Option, none, some, Result, ok, err, returns, length,
  arith, true,
}
use plant_minder.Net.{Ipv6Addr}
use plant_minder.Sensor.{SensorReading, Soil, SoilSensorError, soil_sensor_error}
use plant_minder.Firmware.{F32Ops}
use plant_minder.Firmware.Atsamd10.{SoilI2c, Atsamd10, measure, read, write_soil, write_json}
use plant_minder.Firmware.Platform.{Json, no_reading, place, sensor_loop, stamp_zero, sensor_read}
use plant_minder.Firmware.Node.{Codec, Node, goes_on, report_sent, turn, unfire}
use plant_minder.Firmware.Node.Progress.{quiet, turn-sensed}
use plant_minder.Firmware.Platform.Slots.{Writes, Fails, step_written, step_failed}

-- The soil in the report: what was measured, or zeros.
abbrev pub reported : Result Soil SoilSensorError → Soil
reported (ok x) = x
reported (err e) = record { moisture = 0; temp = 0 }

module _ (I : SoilI2c) (f : F32Ops) (to_vec : Soil → Option (List ℕ)) (json : Json) where
  -- The measurement is printed to bytes that are read back and fit in the buffer.
  abbrev pub IsPrinted : List ℕ → Soil → Type 0
  IsPrinted buffer x =
      (bytes : List ℕ) × (to_vec x ≡ some bytes)
      × (json.soil bytes ≡ some x)
      × (length bytes ≤ length buffer)

  measured-Writes :
      (s s' : Atsamd10 I.Bus) (x : Soil) (bytes : List ℕ)
      → measure I f s ≡ (ok x, s')
      → to_vec x ≡ some bytes
      → Writes (read I f to_vec) json s bytes s'
  unfolding read
  measured-Writes s s' x bytes measured printed buffer start =
      ap (write_soil I to_vec buffer start) measured
      ∙ ap (λ b. write_json I buffer start b s') printed

  failed-Fails :
      (s s' : Atsamd10 I.Bus) (e : SoilSensorError)
      → measure I f s ≡ (err e, s')
      → Fails (read I f to_vec) json s s'
  unfolding read
  failed-Fails s s' e failed buffer start =
      (soil_sensor_error e, ap (write_soil I to_vec buffer start) failed)

  -- The report of a node with this sensor alone holds the moisture and the temperature that the
  -- sensor measured, if they are printed to bytes that can be read back and fit in the buffer, and
  -- zeros if a transfer on the bus failed.
  pub soil_report :
      (buffer : List ℕ) (s s' : Atsamd10 I.Bus) (r : Result Soil SoilSensorError)
      → measure I f s ≡ (r, s')
      → ((x : Soil) → r ≡ ok x → IsPrinted buffer x)
      → sensor_read (read I f to_vec) json buffer (some s ∷ [])
        ≡ returns (record { soil = reported r; light = none; gas = none; ts = 0 }, some s' ∷ [])
  unfolding sensor_read sensor_loop place no_reading
  soil_report buffer s s' (ok x) measured printable =
      let (bytes, printed, back, fits) = printable x refl in
      ap stamp_zero (
        step_written (read I f to_vec) json 0 0 no_reading buffer s s' bytes []
          (measured-Writes s s' x bytes measured printed) (omega arith))
      ∙ rw back refl
  soil_report buffer s s' (err e) failed printable = ap stamp_zero (
      step_failed (read I f to_vec) json 0 0 no_reading buffer s s' [] (failed-Fails s s' e failed))

  abbrev pub soil_only : Result Soil SoilSensorError → SensorReading
  soil_only r = record { soil = reported r; light = none; gas = none; ts = 0 }

  -- An error of this sensor neither ends the loop nor keeps the node from sending. A node with this sensor
  -- alone that has been asked for its readings and whose timer has fired sends one report to the one
  -- who asked, and goes on to the next turn with the flag cleared: the report holds what was measured,
  -- if it is printed to bytes that can be read back and fit in the buffer, and zeros if a transfer on
  -- the bus failed. The report can be printed and sent, and nothing comes in.
  pub soil_sent :
      (c : Codec) (n : Node (Atsamd10 I.Bus)) (a : Ipv6Addr) (p : ℕ) (buffer bytes : List ℕ)
      (s s' : Atsamd10 I.Bus) (r : Result Soil SoilSensorError)
      → n.observer_addr ≡ some (a, p)
      → n.statics.sensor_timer_fired ≡ true
      → n.sensors ≡ some s ∷ []
      → measure I f s ≡ (r, s')
      → ((x : Soil) → r ≡ ok x → IsPrinted buffer x)
      → c.report_json (soil_only r) ≡ some bytes
      → turn (read I f to_vec) json c (quiet (read I f to_vec) json c buffer) n
        ≡ goes_on (record (unfire n) { sensors = some s' ∷ [] }) (report_sent bytes a p ∷ [])
  soil_sent c n a p buffer bytes s s' r known fired alone measured printable printed =
      turn-sensed (read I f to_vec) json c n a p buffer (soil_only r) (some s' ∷ []) bytes known
        fired
        (ap (sensor_read (read I f to_vec) json buffer) alone
          ∙ soil_report buffer s s' r measured printable)
        printed
