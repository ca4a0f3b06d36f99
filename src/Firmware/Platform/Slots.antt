-- ===== src/Firmware/Platform/Slots.antt =====
-- The readings of several sensors in one buffer, and the slot of each.
use mathlib.Core.List.{append_assoc}
use plant_minder.Base.{
  length-take-eq, ℕ, zero, suc, ◌+◌, ◌≤◌, ◌≡◌, refl, List, [], ◌∷◌, ◌++◌, true, Option, none, some,
  leb, nat_eq, err, returns, take, drop, length, arith, length-append, length-drop,
  take-length-append, ap, ◌∙◌,
}
use plant_minder.Sensor.{Soil, Light, SensorReading, PlatformSensorError}
use plant_minder.Firmware.{Reading, reads, copy_to, put_bytes}
use plant_minder.Firmware.Platform.{
  Json, no_reading, place, beside, sensor_loop, stamp_zero, sensor_read,
}

-- The buffer with some bytes copied over a part of it.
abbrev pub overwritten : List ℕ → ℕ → List ℕ → List ℕ
overwritten buffer start bytes = take start buffer ++ bytes ++ drop (start + length bytes) buffer

drop-take : (n : ℕ) (xs ys : List ℕ) → n ≤ length xs → drop n (take n xs ++ ys) ≡ ys
drop-take zero xs ys h = refl
drop-take (suc n) [] ys h = absurd (omega arith)
drop-take (suc n) (x ∷ xs) ys h = drop-take n xs ys (omega arith)

pub length-overwritten :
    (buffer : List ℕ) (start : ℕ) (bytes : List ℕ)
    → start + length bytes ≤ length buffer
    → length (overwritten buffer start bytes) ≡ length buffer
length-overwritten buffer start bytes h = omega (
  arith,
  length-append (take start buffer ++ bytes) (drop (start + length bytes) buffer),
  length-append (take start buffer) bytes,
  length-take-eq start buffer,
  length-drop (start + length bytes) buffer,
)

slice-overwritten :
    (buffer : List ℕ) (start : ℕ) (bytes : List ℕ)
    → start + length bytes ≤ length buffer
    → take (length bytes) (drop start (overwritten buffer start bytes)) ≡ bytes
slice-overwritten buffer start bytes h =
    rw
      (
        append_assoc (take start buffer) bytes (drop (start + length bytes) buffer),
        drop-take start buffer (bytes ++ drop (start + length bytes) buffer) (omega arith),
      )
      (take-length-append bytes (drop (start + length bytes) buffer))

module _ {S : Type 0} (read : List ℕ → ℕ → S → Reading S PlatformSensorError) (json : Json) where
  -- The sensor writes these bytes wherever it is told to.
  abbrev pub Writes : S → List ℕ → S → Type 0
  Writes s bytes s' =
      (buffer : List ℕ) (start : ℕ)
      → read buffer start s ≡ put_bytes bytes s' (copy_to buffer start bytes)

  -- The sensor fails.
  abbrev pub Fails : S → S → Type 0
  Fails s s' =
      (buffer : List ℕ) (start : ℕ)
      → (e : PlatformSensorError) × (read buffer start s ≡ reads (err e) buffer s')

  pub step_written :
      (idx start : ℕ) (d : SensorReading) (buffer : List ℕ) (s s' : S) (bytes : List ℕ)
      (rest : List (Option S))
      → Writes s bytes s'
      → start + length bytes ≤ length buffer
      → sensor_loop read json idx start d buffer (some s ∷ rest)
        ≡ beside (some s') (
            sensor_loop read json
              (idx + 1)
              (start + length bytes)
              (place json idx bytes d)
              (overwritten buffer start bytes)
              rest)
  unfolding sensor_loop copy_to
  step_written idx start d buffer s s' bytes rest w fits =
      rw (w buffer start, copied, kept, slice-overwritten buffer start bytes fits) refl
    where
      copied : leb (start + length bytes) (length buffer) ≡ true
      copied = ground (arith, fits)

      kept : leb (start + length bytes) (length (overwritten buffer start bytes)) ≡ true
      kept = ground (arith, fits, length-overwritten buffer start bytes)

  pub step_failed :
      (idx start : ℕ) (d : SensorReading) (buffer : List ℕ) (s s' : S) (rest : List (Option S))
      → Fails s s'
      → sensor_loop read json idx start d buffer (some s ∷ rest)
        ≡ beside (some s') (sensor_loop read json (idx + 1) start d buffer rest)
  unfolding sensor_loop
  step_failed idx start d buffer s s' rest f = rw (f buffer start).1 refl

  -- With a soil sensor and a light sensor that write what can be read back, and a buffer that is large
  -- enough for both, the report holds the readings of both.
  pub sensor_read_lem :
      (buffer : List ℕ) (soil soil' light light' : S) (soil_bytes light_bytes : List ℕ) (x : Soil)
      (y : Light)
      → Writes soil soil_bytes soil'
      → Writes light light_bytes light'
      → length soil_bytes + length light_bytes ≤ length buffer
      → json.soil soil_bytes ≡ some x
      → json.light light_bytes ≡ some y
      → sensor_read read json buffer (some soil ∷ some light ∷ [])
        ≡ returns
            (record { soil = x; light = some y; gas = none; ts = 0 }, some soil' ∷ some light' ∷ [])
  unfolding sensor_read sensor_loop place no_reading
  sensor_read_lem buffer soil soil' light light' soil_bytes light_bytes x y ws wl fits js jl =
      ap stamp_zero (
        step_written 0 0 no_reading buffer soil soil' soil_bytes (some light ∷ []) ws (omega arith)
        ∙ ap (beside (some soil')) (
            step_written (0 + 1) (0 + length soil_bytes) (place json 0 soil_bytes no_reading)
              (overwritten buffer 0 soil_bytes) light light' light_bytes [] wl
              (omega (arith, length-overwritten buffer 0 soil_bytes))))
      ∙ rw (js, jl) refl

  -- With a soil sensor that writes what can be read back, a light sensor that fails and a buffer that
  -- is large enough, the report holds the reading of the soil and none of the light.
  pub sensor_read-no_light :
      (buffer : List ℕ) (soil soil' light light' : S) (soil_bytes : List ℕ) (x : Soil)
      → Writes soil soil_bytes soil'
      → Fails light light'
      → length soil_bytes ≤ length buffer
      → json.soil soil_bytes ≡ some x
      → sensor_read read json buffer (some soil ∷ some light ∷ [])
        ≡ returns
            (record { soil = x; light = none; gas = none; ts = 0 }, some soil' ∷ some light' ∷ [])
  unfolding sensor_read sensor_loop place no_reading
  sensor_read-no_light buffer soil soil' light light' soil_bytes x ws fl fits js =
      ap stamp_zero (
        step_written 0 0 no_reading buffer soil soil' soil_bytes (some light ∷ []) ws (omega arith)
        ∙ ap (beside (some soil')) (
            step_failed (0 + 1) (0 + length soil_bytes) (place json 0 soil_bytes no_reading)
              (overwritten buffer 0 soil_bytes) light light' [] fl))
      ∙ rw js refl
