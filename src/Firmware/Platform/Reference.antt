-- ===== src/Firmware/Platform/Reference.antt =====
-- `sensor_read` of platform.rs against a reference: what each slot's sensor does, without a buffer.
use plant_minder.Base.{
  ℕ, ◌+◌, ◌≤◌, ◌≡◌, inl, inr, refl, ap, ◌∙◌, List, [], ◌∷◌, ◌++◌, false, Option, none, some,
  if◌then◌else◌, leb, nat_eq, returns, panics, length, arith, Bool-cases,
}
use plant_minder.Sensor.{Soil, Light, Gas, SensorReading, PlatformSensorError}
use plant_minder.Firmware.{Reading, copy_to}
use plant_minder.Firmware.Platform.{
  Json, no_reading, place, Sensed, beside, sensor_loop, stamp_zero, sensor_read,
}
use plant_minder.Firmware.Platform.Slots.{
  Writes, Fails, overwritten, length-overwritten, step_written, step_failed,
}

-- What a slot's sensor does when it is read.
pub data Slot : Type 0 where
  absent failed : Slot
  wrote : List ℕ → Slot

abbrev pub size : Slot → ℕ
size absent = 0
size failed = 0
size (wrote bytes) = length bytes

abbrev pub bytes_in : List Slot → ℕ
bytes_in [] = 0
bytes_in (slot ∷ slots) = size slot + bytes_in slots

-- Each slot's reading in its place, from the slot of a number on.
abbrev pub placed : Json → ℕ → SensorReading → List Slot → SensorReading
placed json idx d [] = d
placed json idx d (wrote bytes ∷ slots) = placed json (idx + 1) (place json idx bytes d) slots
placed json idx d (absent ∷ slots) = placed json (idx + 1) d slots
placed json idx d (failed ∷ slots) = placed json (idx + 1) d slots

abbrev pub tail : List Slot → List Slot
tail [] = []
tail (s ∷ slots) = slots

-- What a slot gives, read back as the reading of a kind of sensor.
abbrev pub soil_at : Json → Slot → Soil
soil_at json absent = record { moisture = 0; temp = 0 }
soil_at json failed = record { moisture = 0; temp = 0 }
soil_at json (wrote bytes) = elim (json.soil bytes) [
  | some x ↦ x
  | none ↦ record { moisture = 0; temp = 0 }
]

abbrev pub light_at : Json → Slot → Option Light
light_at json absent = none
light_at json failed = none
light_at json (wrote bytes) = json.light bytes

abbrev pub gas_at : Json → Slot → Option Gas
gas_at json absent = none
gas_at json failed = none
gas_at json (wrote bytes) = json.gas bytes

-- The first slot, if there is one.
abbrev pub head : List Slot → Slot
head [] = absent
head (slot ∷ slots) = slot

-- The readings of the three kinds of sensors in the first three slots.
abbrev pub report : Json → List Slot → SensorReading
report json slots = record {
  soil = soil_at json (head slots);
  light = light_at json (head (tail slots));
  gas = gas_at json (head (tail (tail slots)));
  ts = 0;
}

placed-beyond :
    (json : Json) (idx : ℕ) (d : SensorReading) (slots : List Slot)
    → 3 ≤ idx
    → placed json idx d slots ≡ d
unfolding place
placed-beyond json idx d [] h = refl
placed-beyond json idx d (wrote bytes ∷ slots) h =
    ground (arith, placed-beyond json (idx + 1) d slots (omega arith))
placed-beyond json idx d (absent ∷ slots) h = placed-beyond json (idx + 1) d slots (omega arith)
placed-beyond json idx d (failed ∷ slots) h = placed-beyond json (idx + 1) d slots (omega arith)

placed-gas :
    (json : Json) (d : SensorReading) (slots : List Slot)
    → d.gas ≡ none
    → placed json 2 d slots ≡ record d { gas = gas_at json (head slots) }
unfolding place
placed-gas json d [] h = ground arith
placed-gas json d (absent ∷ slots) h = ground (arith, placed-beyond json 3 d slots)
placed-gas json d (failed ∷ slots) h = ground (arith, placed-beyond json 3 d slots)
placed-gas json d (wrote bytes ∷ slots) h =
    placed-beyond json 3 _ slots (omega arith) ∙ ground arith

placed-light :
    (json : Json) (d : SensorReading) (slots : List Slot)
    → d.light ≡ none
    → d.gas ≡ none
    → placed json 1 d slots
      ≡ record d { light = light_at json (head slots); gas = gas_at json (head (tail slots)) }
unfolding place
placed-light json d [] l g = ground arith
placed-light json d (absent ∷ slots) l g = placed-gas json d slots g ∙ ground arith
placed-light json d (failed ∷ slots) l g = placed-gas json d slots g ∙ ground arith
placed-light json d (wrote bytes ∷ slots) l g =
    placed-gas json _ slots (ground arith) ∙ ground arith

placed-report :
    (json : Json) (slots : List Slot) → placed json 0 no_reading slots ≡ report json slots
unfolding place no_reading
placed-report json [] = refl
placed-report json (absent ∷ slots) = placed-light json _ slots refl refl
placed-report json (failed ∷ slots) = placed-light json _ slots refl refl
placed-report json (wrote bytes ∷ slots) =
    placed-light json _ slots (ground arith) (ground arith) ∙ ground arith

module _ {S : Type 0} (read : List ℕ → ℕ → S → Reading S PlatformSensorError) (json : Json) where
  -- The sensors do what the slots say, and are then as in the second list.
  pub data Perform : List (Option S) → List Slot → List (Option S) → Type 0 where
    no_more : Perform [] [] []
    is_absent :
        {ss ss' : List (Option S)} {slots : List Slot}
        → Perform ss slots ss'
        → Perform (none ∷ ss) (absent ∷ slots) (none ∷ ss')
    fails :
        {ss ss' : List (Option S)} {slots : List Slot} (s s' : S)
        → Fails read json s s'
        → Perform ss slots ss'
        → Perform (some s ∷ ss) (failed ∷ slots) (some s' ∷ ss')
    writes :
        {ss ss' : List (Option S)} {slots : List Slot} (s s' : S) (bytes : List ℕ)
        → Writes read json s bytes s'
        → Perform ss slots ss'
        → Perform (some s ∷ ss) (wrote bytes ∷ slots) (some s' ∷ ss')

  pub Perform-append :
      {ss ss' : List (Option S)} {slots : List Slot} {ts : List (Option S)} {more : List Slot}
      {ts' : List (Option S)}
      → Perform ss slots ss'
      → Perform ts more ts'
      → Perform (ss ++ ts) (slots ++ more) (ss' ++ ts')
  Perform-append no_more q = q
  Perform-append (is_absent p) q = is_absent (Perform-append p q)
  Perform-append (fails s s' f p) q = fails s s' f (Perform-append p q)
  Perform-append (writes s s' bytes w p) q = writes s s' bytes w (Perform-append p q)

  -- The result of the loop: the reference, unless the bytes do not fit behind `start`.
  abbrev pub reference : ℕ → ℕ → SensorReading → ℕ → List Slot → List (Option S) → Sensed S
  reference idx start d size slots ss' =
      if leb (start + bytes_in slots) size then returns (placed json idx d slots, ss') else panics

  step_too_long :
      (idx start : ℕ) (d : SensorReading) (buffer : List ℕ) (s s' : S) (bytes : List ℕ)
      (rest : List (Option S))
      → Writes read json s bytes s'
      → leb (start + length bytes) (length buffer) ≡ false
      → sensor_loop read json idx start d buffer (some s ∷ rest) ≡ panics
  unfolding sensor_loop copy_to
  step_too_long idx start d buffer s s' bytes rest w long = rw (w buffer start, long) refl

  loop-reference :
      (idx start : ℕ) (d : SensorReading) (buffer : List ℕ) {ss : List (Option S)}
      {slots : List Slot} {ss' : List (Option S)}
      → start ≤ length buffer
      → Perform ss slots ss'
      → sensor_loop read json idx start d buffer ss
        ≡ reference idx start d (length buffer) slots ss'
  unfolding sensor_loop
  loop-reference idx start d buffer h no_more = ground arith
  loop-reference idx start d buffer h (is_absent p) =
      ground (arith, loop-reference (idx + 1) start d buffer h p)
  loop-reference idx start d buffer h (fails {ss} s s' f p) = ground (
    arith,
    step_failed read json idx start d buffer s s' ss f,
    loop-reference (idx + 1) start d buffer h p,
  )
  loop-reference idx start d buffer h (writes {ss} {ss'} {slots} s s' bytes w p) =
      elim (Bool-cases (leb (start + length bytes) (length buffer))) [
        | inl fits ↦
            let copied = overwritten buffer start bytes in
            step_written read json idx start d buffer s s' bytes ss w (ground arith)
            ∙ ap (beside (some s')) (
                loop-reference (idx + 1) (start + length bytes) (place json idx bytes d) copied
                  (ground (arith, length-overwritten buffer start bytes)) p)
            ∙ ground (arith, length-overwritten buffer start bytes)
        | inr long ↦ step_too_long idx start d buffer s s' bytes ss w long ∙ ground arith
      ]

  -- The report of a node's sensors is, slot by slot, what the sensor of the slot wrote as its
  -- reading, read back; a slot that is empty, that failed or that is not supported leaves no trace.
  -- It is made exactly if the bytes of all sensors together fit in the buffer, else the node panics.
  pub sensor_read-reference :
      (buffer : List ℕ) (ss : List (Option S)) (slots : List Slot) (ss' : List (Option S))
      → Perform ss slots ss'
      → sensor_read read json buffer ss ≡ (
          if leb (bytes_in slots) (length buffer) then returns (report json slots, ss') else panics)
  unfolding sensor_read
  sensor_read-reference buffer ss slots ss' p =
      ap stamp_zero (loop-reference 0 0 no_reading buffer (omega arith) p)
      ∙ ground (arith, placed-report json slots)
